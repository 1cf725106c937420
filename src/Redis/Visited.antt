-- ===== src/Redis/Visited.antt =====
-- redis_cache_iterate_objects of src/redis_cache.c over an index that is kept.
use bacnet_event_server.Base.{
  ℕ, zero, suc, ◌^◌, ◌<◌, ◌≡◌, ◌↔◌, ◌⊎◌, refl, sym, ap, ◌∙◌, Bool, true, List, [], ◌∷◌, Option,
  none, some, Bytes, codes, str_eq, str_eq_sound, str_eq_refl, arith, Bool-cases, inl, inr,
  get_elem?,
}
use mathlib.Core.Option.{none-ne-some}
use bacnet_event_server.Base.Json.{CJson}
use bacnet_event_server.Base.Words.{Fpu}
use bacnet_event_server.Message.Model.{CachedObject}
use bacnet_event_server.Redis.Client.{
  get, smembers, Reply, missing, absent, error, status, string, integer, array, Hiredis,
}
use bacnet_event_server.Redis.Keys.{
  make_key, make_object_key, member_text, parse_member, parse-member_text,
}
use bacnet_event_server.Redis.Objects.{load_in, read_reply}
use bacnet_event_server.Redis.Index.{
  object_type_max, visit_object, add_visited, visit_loop, visit_members, iterate_in,
}
use bacnet_event_server.Redis.Laws.{RedisLaws, writes}
use bacnet_event_server.Redis.Indexed.{
  contains, reply_contains, is_string, is_present, is_member, Names, IsIndexed,
}

-- A list holds an element.
abbrev pub IsIn : {A : Type 0} → List A → A → Type 0
IsIn {A} xs x = (n : ℕ) × (get_elem? xs n ≡ some x)

module _ {J C : Type 0} (cj : CJson J) (fpu : Fpu) (api : Hiredis C) (laws : RedisLaws api)
    (prefix : Bytes) where
  -- The two connections answer every GET alike.
  GetsAlike : C → C → Type 0
  GetsAlike c c' = (key : Bytes) → (api.command c' (get key)).1 ≡ (api.command c (get key)).1

  add_loaded : Option CachedObject → List CachedObject → List CachedObject
  add_loaded none os = os
  add_loaded (some o) os = o ∷ os

  load_named : C → Option (ℕ × ℕ) → Option CachedObject
  load_named c none = none
  load_named c (some (t, i)) = (load_in cj fpu api prefix t i c).1

  loads : C → List Bytes → List CachedObject
  loads c [] = []
  loads c (m ∷ ms) = add_loaded (load_named c (parse_member m)) (loads c ms)

  visit_object-load :
      (c c' : C) (name : Option (ℕ × ℕ))
      → GetsAlike c c'
      → ((visit_object cj fpu api prefix object_type_max c' name).1 ≡ load_named c name)
        × GetsAlike c (visit_object cj fpu api prefix object_type_max c' name).0
  unfolding GetsAlike load_named load_in writes
  visit_object-load c c' none alike = (refl, alike)
  visit_object-load c c' (some (t, i)) alike = (
    ap (read_reply cj fpu t i) (alike (make_object_key prefix t i)),
    λ key. laws.get_frame c' (get (make_object_key prefix t i)) key refl ∙ alike key,
  )

  add-visited :
      (o : Option CachedObject) (w : C × List CachedObject)
      → (add_visited cj fpu api o w).1 ≡ add_loaded o w.1
  unfolding add_loaded
  add-visited none w = refl
  add-visited (some o) w = refl

  visit_loop-loads :
      (ms : List Bytes) (c c' : C)
      → GetsAlike c c'
      → (visit_loop cj fpu api prefix object_type_max ms c').1 ≡ loads c ms
  unfolding visit_loop loads
  visit_loop-loads [] c c' alike = refl
  visit_loop-loads (m ∷ ms) c c' alike =
      let (same, still) = visit_object-load c c' (parse_member m) alike in
      add-visited _ (
        visit_loop cj fpu api prefix object_type_max ms
          (visit_object cj fpu api prefix object_type_max c' (parse_member m)).0)
      ∙ ap
          (λ o.
            add_loaded o
              (visit_loop cj fpu api prefix object_type_max ms
                (visit_object cj fpu api prefix object_type_max c' (parse_member m)).0).1)
          same
      ∙ ap (add_loaded (load_named c (parse_member m))) (visit_loop-loads ms c _ still)

  -- Only a text that is stored loads as an object.
  load-is_present :
      (c : C) (t i : ℕ) (o : CachedObject)
      → (load_in cj fpu api prefix t i c).1 ≡ some o
      → is_present api prefix c t i ≡ true
  unfolding load_in
  load-is_present c t i o e = read (api.command c (get (make_object_key prefix t i))).1 e
    where
      read : (r : Reply) → read_reply cj fpu t i r ≡ some o → is_string r ≡ true
      read missing f = absurd (none-ne-some o f)
      read absent f = absurd (none-ne-some o f)
      read error f = absurd (none-ne-some o f)
      read status f = absurd (none-ne-some o f)
      read (string text) f = refl
      read (integer n) f = absurd (none-ne-some o f)
      read (array ms) f = absurd (none-ne-some o f)

  IsIn-add_loaded :
      (loaded : Option CachedObject) (os : List CachedObject) (o : CachedObject)
      → (loaded ≡ some o) ⊎ IsIn os o
      → IsIn (add_loaded loaded os) o
  unfolding add_loaded
  IsIn-add_loaded none os o (inl e) = absurd (none-ne-some o e)
  IsIn-add_loaded none os o (inr later) = later
  IsIn-add_loaded (some x) os o (inl e) = (0, e)
  IsIn-add_loaded (some x) os o (inr (n, e)) = (suc n, e)

  -- What a member names is visited.
  member-IsIn :
      (c : C) (ms : List Bytes) (t i : ℕ) (o : CachedObject)
      → t < 2 ^ 32
      → i < 2 ^ 32
      → contains ms (member_text t i) ≡ true
      → (load_in cj fpu api prefix t i c).1 ≡ some o
      → IsIn (loads c ms) o
  unfolding loads contains load_named
  member-IsIn c [] t i o h k e loaded = absurd (ground (arith, e))
  member-IsIn c (m ∷ ms) t i o h k e loaded = elim (Bool-cases (str_eq m (member_text t i))) [
    | inl same ↦
        let name : parse_member m ≡ some (t, i) =
          ap parse_member (str_eq_sound _ _ same) ∙ parse-member_text t i h k in
        IsIn-add_loaded (load_named c (parse_member m)) (loads c ms) o
          (inl (ap (load_named c) name ∙ loaded))
    | inr apart ↦
        IsIn-add_loaded (load_named c (parse_member m)) (loads c ms) o
          (inr (member-IsIn c ms t i o h k (ground (arith, e, apart)) loaded))
  ]

  -- An object that loads under a 32-bit type and instance.
  unfoldable pub IsLoaded : C → CachedObject → Type 0
  IsLoaded c o =
      (t i : ℕ) × (t < 2 ^ 32) × (i < 2 ^ 32) × ((load_in cj fpu api prefix t i c).1 ≡ some o)

  add_loaded-IsIn :
      (loaded : Option CachedObject) (os : List CachedObject) (o : CachedObject)
      → IsIn (add_loaded loaded os) o
      → (loaded ≡ some o) ⊎ IsIn os o
  unfolding add_loaded
  add_loaded-IsIn none os o later = inr later
  add_loaded-IsIn (some x) os o (zero, e) = inl e
  add_loaded-IsIn (some x) os o (suc n, e) = inr (n, e)

  -- What is visited loads, if each member names a 32-bit type and instance.
  visited-IsLoaded :
      (c : C) (present : ℕ → ℕ → Bool) (ms : List Bytes) (o : CachedObject)
      → ((m : Bytes) → contains ms m ≡ true → Names present m)
      → IsIn (loads c ms) o
      → IsLoaded c o
  unfolding loads contains load_named IsLoaded
  visited-IsLoaded c present [] o names (n, e) = absurd (none-ne-some o e)
  visited-IsLoaded c present (m ∷ ms) o names visited =
      elim (add_loaded-IsIn (load_named c (parse_member m)) (loads c ms) o visited) [
        | inl loaded ↦
            let twice = str_eq_refl m in
            let name = names m (ground (arith, twice)) in
            let parsed : parse_member m ≡ some (name.object_type, name.object_instance) =
              ap parse_member name.named
              ∙ parse-member_text name.object_type name.object_instance name.type_bounded
                  name.instance_bounded in
            (
              name.object_type,
              name.object_instance,
              name.type_bounded,
              name.instance_bounded,
              sym (ap (load_named c) parsed) ∙ loaded,
            )
        | inr later ↦ visited-IsLoaded c present ms o (λ m' e. names m' (ground (arith, e))) later
      ]

  -- Over an index that is kept, the iteration over all types visits exactly the objects that load.
  pub iterate-IsLoaded :
      (c : C) (ms : List Bytes) (o : CachedObject)
      → IsIndexed (is_present api prefix c) (is_member api prefix c)
      → (api.command c (smembers (make_key prefix (codes "objects:index")))).1 ≡ array ms
      → (visited : List CachedObject) × ((iterate_in cj fpu api prefix object_type_max c).1
          ≡ some visited)
        × (IsIn visited o ↔ IsLoaded c o)
  unfolding iterate_in IsLoaded writes GetsAlike
  iterate-IsLoaded c ms o indexed answered =
      let index = make_key prefix (codes "objects:index") in
      let c' = (api.command c (smembers index)).0 in
      let members : (m : Bytes) → contains ms m ≡ true → Names (is_present api prefix c) m =
        λ m e. indexed.sound m (ap (λ r. reply_contains r m) answered ∙ e) in
      (
        loads c ms,
        ap (λ r. (visit_members cj fpu api prefix object_type_max (c', r)).1) answered
            ∙ ap some (visit_loop-loads ms c c' λ key. laws.get_frame c (smembers index) key refl),
        (
          visited-IsLoaded c (is_present api prefix c) ms o members,
          λ found.
              member-IsIn c ms found.0 found.1 o found.2 found.3
                (sym (ap (λ r. reply_contains r (member_text found.0 found.1)) answered)
                  ∙ indexed.complete found.0 found.1 found.2 found.3
                      (load-is_present c found.0 found.1 o found.4))
                found.4,
        ),
      )
