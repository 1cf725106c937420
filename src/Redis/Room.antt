-- ===== src/Redis/Room.antt =====
-- The keys of src/redis_cache.c under a prefix that leaves room for all of them.
use bacnet_event_server.Base.{
  ℕ, zero, suc, ◌-◌, ◌^◌, ◌≤◌, ◌<◌, ◌≡◌, ◌≢◌, false, [], ◌∷◌, ◌++◌, Bytes, codes, str_eq,
  str_eq_apart, str_eq_refl, arith, length, length-append, take, leb, Bool-cases, inl, inr,
}
use bacnet_event_server.Base.Decimal.{print_nat, print_signed, length-print_nat}
use bacnet_event_server.Redis.Keys.{make_key, make_object_key, member_text}
use bacnet_event_server.Redis.Frame.{IsKey, index_differs}

-- A prefix that leaves room for every key.
abbrev pub IsShort : Bytes → Type 0
IsShort prefix = length prefix ≤ 480

length-member_text : (t i : ℕ) → t < 2 ^ 32 → i < 2 ^ 32 → length (member_text t i) ≤ 22
unfolding member_text print_signed
length-member_text t i h k = elim (Bool-cases (leb (2 ^ 31) t)) [
  | inl negative ↦ rw negative (
      omega (
        arith,
        length-append (print_nat (2 ^ 32 - t)) (b':' ∷ print_nat i),
        length-print_nat 9 (2 ^ 32 - t) (omega arith),
        length-print_nat 9 i (omega arith),
      ))
  | inr positive ↦ rw positive (
      omega (
        arith,
        length-append (print_nat t) (b':' ∷ print_nat i),
        length-print_nat 9 t (omega arith),
        length-print_nat 9 i (omega arith),
      ))
]

-- Every 32-bit type and instance has a key that is not cut.
pub short-IsKey :
    (prefix : Bytes) (t i : ℕ) → IsShort prefix → t < 2 ^ 32 → i < 2 ^ 32 → IsKey prefix t i
short-IsKey prefix t i short h k = record {
  type_bounded = h;
  instance_bounded = k;
  whole = omega (
    arith,
    length-append prefix (codes "object:" ++ member_text t i),
    length-member_text t i h k,
  );
}

-- Texts that differ right after the prefix.
heads_differ :
    (n : ℕ) (prefix : Bytes) (c d : ℕ) (s t : Bytes)
    → length prefix < n
    → c ≢ d
    → take n (prefix ++ c ∷ s) ≢ take n (prefix ++ d ∷ t)
heads_differ zero prefix c d s t h differ e = absurd (omega (arith, h))
heads_differ (suc n) [] c d s t h differ e = absurd (differ (ground (arith, e)))
heads_differ (suc n) (p ∷ prefix) c d s t h differ e =
    heads_differ n prefix c d s t (omega (arith, h)) differ (ground (arith, e))

module _ (prefix : Bytes) (short : IsShort prefix) where
  pub object-ne-positions :
      (t i : ℕ)
      → str_eq (make_object_key prefix t i) (make_key prefix (codes "stream:positions")) ≡ false
  unfolding make_key make_object_key
  object-ne-positions t i =
      str_eq_apart _ _ (heads_differ 511 prefix b'o' b's' _ _ (omega arith) (omega arith))

  pub positions-ne-object :
      (t i : ℕ)
      → str_eq (make_key prefix (codes "stream:positions")) (make_object_key prefix t i) ≡ false
  unfolding make_key make_object_key
  positions-ne-object t i =
      str_eq_apart _ _ (heads_differ 511 prefix b's' b'o' _ _ (omega arith) (omega arith))

  pub index-ne-positions :
      str_eq (make_key prefix (codes "objects:index")) (make_key prefix (codes "stream:positions"))
      ≡ false
  unfolding make_key
  index-ne-positions =
      str_eq_apart _ _ (heads_differ 511 prefix b'o' b's' _ _ (omega arith) (omega arith))

-- Nor are the positions the index.
pub positions-ne-index :
    (prefix : Bytes)
    → IsShort prefix
    → str_eq (make_key prefix (codes "stream:positions")) (make_key prefix (codes "objects:index"))
      ≡ false
unfolding make_key
positions-ne-index prefix short =
    str_eq_apart _ _ (heads_differ 511 prefix b's' b'o' _ _ (omega arith) (omega arith))

-- The index is no key of an object, either way around.
pub object-ne-index :
    (prefix : Bytes) (t i : ℕ)
    → IsShort prefix
    → t < 2 ^ 32
    → i < 2 ^ 32
    → str_eq (make_object_key prefix t i) (make_key prefix (codes "objects:index")) ≡ false
object-ne-index prefix t i short h k = str_eq_apart _ _ λ e.
    let apart = index_differs prefix t i (short-IsKey prefix t i short h k) in
    let same = str_eq_refl (make_key prefix (codes "objects:index")) in
    ground (arith, e, apart, same)
