-- ===== src/Redis/Frame/Apart.antt =====
-- The keys of different objects, and of the index, in src/redis_cache.c are apart.
use bacnet_event_server.Base.{
  ℕ, zero, suc, ◌+◌, ◌^◌, ◌<◌, ◌≤◌, ◌≡◌, ◌≢◌, false, ◌&&◌, [], ◌∷◌, ◌++◌, Bytes, codes, str_eq,
  str_eq_sound, arith, length, take, Bool-cases, inl, inr, ◌==◌,
}
use bacnet_event_server.Redis.Keys.{
  make_key, make_object_key, make_object_key-injective, IsWhole, member_text,
}

-- A 32-bit type and instance whose key is not cut.
pub record IsKey (prefix : Bytes) (t i : ℕ) : Type 0 where
  pub type_bounded : t < 2 ^ 32
  pub instance_bounded : i < 2 ^ 32
  pub whole : IsWhole prefix t i

pub keys_differ :
    (prefix : Bytes) (t i t' i' : ℕ)
    → IsKey prefix t i
    → IsKey prefix t' i'
    → (t == t' && i == i') ≡ false
    → str_eq (make_object_key prefix t i) (make_object_key prefix t' i') ≡ false
keys_differ prefix t i t' i' k k' d =
    elim (Bool-cases (str_eq (make_object_key prefix t i) (make_object_key prefix t' i'))) [
      | inl same ↦ absurd (
          ground (
            arith,
            make_object_key-injective prefix t i t' i' k.type_bounded k.instance_bounded
                k'.type_bounded k'.instance_bounded k.whole k'.whole (str_eq_sound _ _ same),
            d,
          ))
      | inr differ ↦ differ
    ]

-- The index is no key of an object: they differ in the first character after "object".
pub index_differs :
    (prefix : Bytes) (t i : ℕ)
    → IsKey prefix t i
    → str_eq (make_key prefix (codes "objects:index")) (make_object_key prefix t i) ≡ false
index_differs prefix t i k =
    elim (Bool-cases
      (str_eq (make_key prefix (codes "objects:index")) (make_object_key prefix t i))) [
        | inl same ↦ absurd (
            cut_differ 511 prefix (member_text t i) k.whole
              (unfold make_key make_object_key in str_eq_sound _ _ same))
        | inr differ ↦ differ
      ]
  where
    seventh :
        (n : ℕ) (text : Bytes)
        → 6 + length text ≤ n
        → take (suc n) (codes "objects:index") ≢ take (suc n) (codes "object:" ++ text)
    seventh (suc (suc (suc (suc (suc (suc n)))))) text h e = ground (arith, e)
    seventh zero text h e = absurd (omega (arith, h))
    seventh (suc zero) text h e = absurd (omega (arith, h))
    seventh (suc (suc zero)) text h e = absurd (omega (arith, h))
    seventh (suc (suc (suc zero))) text h e = absurd (omega (arith, h))
    seventh (suc (suc (suc (suc zero)))) text h e = absurd (omega (arith, h))
    seventh (suc (suc (suc (suc (suc zero))))) text h e = absurd (omega (arith, h))

    cut_differ :
        (n : ℕ) (prefix text : Bytes)
        → length (prefix ++ (codes "object:" ++ text)) ≤ n
        → take n (prefix ++ codes "objects:index") ≢ take n (prefix ++ (codes "object:" ++ text))
    cut_differ zero [] text h e = absurd (omega (arith, h))
    cut_differ zero (c ∷ prefix) text h e = absurd (omega (arith, h))
    cut_differ (suc n) (c ∷ prefix) text h e =
        cut_differ n prefix text (omega (arith, h)) (ground (arith, e))
    cut_differ (suc n) [] text h e = seventh n text (omega (arith, h)) e
