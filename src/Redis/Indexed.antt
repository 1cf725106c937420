-- ===== src/Redis/Indexed.antt =====
-- The set "objects:index" of src/redis_cache.c against the objects that are stored.
use bacnet_event_server.Base.{
  ℕ, ◌^◌, ◌<◌, ◌≡◌, sym, Bool, true, false, ◌&&◌, ◌||◌, List, [], ◌∷◌, Bytes, codes, str_eq,
  str_eq_sound, str_eq_refl, if◌then◌else◌, ◌==◌, arith, Bool-cases, inl, inr,
}
use bacnet_event_server.Redis.Client.{
  Command, get, smembers, sadd, srem, Reply, string, array, is_failure, Hiredis,
}
use bacnet_event_server.Redis.Keys.{make_key, make_object_key, member_text, member_text-injective}
use bacnet_event_server.Redis.Laws.{writes}

-- Whether an array of replies holds a text.
unfoldable pub contains : List Bytes → Bytes → Bool
contains [] m = false
contains (x ∷ xs) m = str_eq x m || contains xs m

abbrev pub reply_contains : Reply → Bytes → Bool
reply_contains (array ms) m = contains ms m
reply_contains _ m = false

abbrev pub is_string : Reply → Bool
is_string (string text) = true
is_string _ = false

-- What Redis documents of SADD, SREM and SMEMBERS.
pub record SetLaws {C : Type 0} (api : Hiredis C) : Type 0 where
  pub smembers_sadd :
      (c : C) (key m m' : Bytes)
      → is_failure (api.command c (sadd key m)).1 ≡ false
      → reply_contains (api.command (api.command c (sadd key m)).0 (smembers key)).1 m'
        ≡ (if str_eq m m' then true else reply_contains (api.command c (smembers key)).1 m')
  pub smembers_srem :
      (c : C) (key m m' : Bytes)
      → is_failure (api.command c (srem key m)).1 ≡ false
      → reply_contains (api.command (api.command c (srem key m)).0 (smembers key)).1 m'
        ≡ (if str_eq m m' then false else reply_contains (api.command c (smembers key)).1 m')
  pub smembers_frame :
      (c : C) (command : Command) (key : Bytes)
      → writes command key ≡ false
      → (api.command (api.command c command).0 (smembers key)).1 ≡ (api.command c (smembers key)).1

module _ {C : Type 0} (api : Hiredis C) (prefix : Bytes) where
  -- Whether an object's text is stored, and whether a text is in the index.
  abbrev pub is_present : C → ℕ → ℕ → Bool
  is_present c t i = is_string (api.command c (get (make_object_key prefix t i))).1

  abbrev pub is_member : C → Bytes → Bool
  is_member c m =
      reply_contains (api.command c (smembers (make_key prefix (codes "objects:index")))).1 m

-- A text of the index names a 32-bit type and instance that is present.
pub record Names (present : ℕ → ℕ → Bool) (m : Bytes) : Type 0 where
  pub object_type : ℕ
  pub object_instance : ℕ
  pub type_bounded : object_type < 2 ^ 32
  pub instance_bounded : object_instance < 2 ^ 32
  pub named : m ≡ member_text object_type object_instance
  pub there : present object_type object_instance ≡ true

-- The index has the names of the objects that are present, and no other text.
pub record IsIndexed (present : ℕ → ℕ → Bool) (member : Bytes → Bool) : Type 0 where
  pub sound : (m : Bytes) → member m ≡ true → Names present m
  pub complete :
      (t i : ℕ) → t < 2 ^ 32 → i < 2 ^ 32 → present t i ≡ true → member (member_text t i) ≡ true

-- One object is put or taken out, and its name with it.
module _ (present present' : ℕ → ℕ → Bool) (member member' : Bytes → Bool) (b : Bool) (t i : ℕ)
    (h : t < 2 ^ 32) (k : i < 2 ^ 32)
    (presence : (t' i' : ℕ)
      → t' < 2 ^ 32
      → i' < 2 ^ 32
      → present' t' i' ≡ (if t == t' && i == i' then b else present t' i'))
    (membership : (m : Bytes)
      → member' m ≡ (if str_eq (member_text t i) m then b else member m)) where
  put_sound : IsIndexed present member → (m : Bytes) → member' m ≡ true → Names present' m
  put_sound v m e = elim (Bool-cases (str_eq (member_text t i) m)) [
    | inl same ↦
        let here = presence t i h k in
        let put = membership m in
        record {
          object_type = t;
          object_instance = i;
          type_bounded = h;
          instance_bounded = k;
          named = sym (str_eq_sound _ _ same);
          there = ground (arith, here, put, same, e);
        }
    | inr apart ↦
        let put = membership m in
        let old = v.sound m (ground (arith, put, apart, e)) in
        let other =
          presence old.object_type old.object_instance old.type_bounded old.instance_bounded in
        let differ : (t == old.object_type && i == old.object_instance) ≡ false =
          elim (Bool-cases (t == old.object_type && i == old.object_instance)) [
            | inl equal ↦
                let same_text : member_text t i ≡ member_text old.object_type old.object_instance =
                  ground (arith, equal) in
                let twice = str_eq_refl (member_text t i) in
                absurd (ground (arith, apart, old.named, same_text, twice))
            | inr distinct ↦ distinct
          ] in
        record {
          object_type = old.object_type;
          object_instance = old.object_instance;
          type_bounded = old.type_bounded;
          instance_bounded = old.instance_bounded;
          named = old.named;
          there = ground (arith, other, differ, old.there);
        }
  ]

  put_complete :
      IsIndexed present member
      → (t' i' : ℕ) → t' < 2 ^ 32
      → i' < 2 ^ 32
      → present' t' i' ≡ true
      → member' (member_text t' i') ≡ true
  put_complete v t' i' h' k' e = elim (Bool-cases (t == t' && i == i')) [
    | inl equal ↦
        let same_text : member_text t i ≡ member_text t' i' = ground (arith, equal) in
        let twice = str_eq_refl (member_text t i) in
        let put = membership (member_text t' i') in
        let here = presence t' i' h' k' in ground (arith, put, here, equal, same_text, twice, e)
    | inr distinct ↦
        let here = presence t' i' h' k' in
        let old = v.complete t' i' h' k' (ground (arith, here, distinct, e)) in
        let put = membership (member_text t' i') in
        let apart : str_eq (member_text t i) (member_text t' i') ≡ false =
          elim (Bool-cases (str_eq (member_text t i) (member_text t' i'))) [
            | inl same ↦
                let equal = member_text-injective t i t' i' h k h' k' (str_eq_sound _ _ same) in
                absurd (ground (arith, equal, distinct))
            | inr differ ↦ differ
          ] in
        ground (arith, put, apart, old)
  ]

  pub put-IsIndexed : IsIndexed present member → IsIndexed present' member'
  put-IsIndexed v = record { sound = put_sound v; complete = put_complete v }
