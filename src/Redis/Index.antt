-- ===== src/Redis/Index.antt =====
-- The index of objects of src/redis_cache.c: iteration and counting.
use bacnet_event_server.Base.{
  ℕ, suc, ◌%◌, ◌^◌, Bool, false, ◌||◌, List, [], ◌∷◌, Option, none, some, Bytes, codes,
  if◌then◌else◌, ◌==◌,
}
use bacnet_event_server.Base.Json.{CJson}
use bacnet_event_server.Base.Words.{Fpu}
use bacnet_event_server.Message.Model.{CachedObject}
use bacnet_event_server.Redis.Client.{smembers, scard, Reply, integer, array, Hiredis, Cache}
use bacnet_event_server.Redis.Keys.{parse_member, make_key}
use bacnet_event_server.Redis.Objects.{prefix_of, load_in, when_connected, with_reply}

-- OBJECT_TYPE_MAX, which stands for all types.
abbrev pub object_type_max : ℕ
object_type_max = 20

abbrev pub is_wanted : ℕ → ℕ → Bool
is_wanted wanted t = wanted == object_type_max || wanted == t

module _ {J C : Type 0} (cj : CJson J) (fpu : Fpu) (api : Hiredis C) where
  -- One member of the index: the object that it names, if it is wanted and loads.
  abbrev pub visit_object : Bytes → ℕ → C → Option (ℕ × ℕ) → C × Option CachedObject
  visit_object prefix wanted c none = (c, none)
  visit_object prefix wanted c (some (t, i)) =
      let loaded = load_in cj fpu api prefix t i c in
      if is_wanted wanted t then loaded else (c, none)

  abbrev pub add_visited : Option CachedObject → C × List CachedObject → C × List CachedObject
  add_visited none w = w
  add_visited (some o) (c, os) = (c, o ∷ os)

  -- The loop over the members: the objects that the callback gets, in order.
  unfoldable pub visit_loop : Bytes → ℕ → List Bytes → C → C × List CachedObject
  visit_loop prefix wanted [] c = (c, [])
  visit_loop prefix wanted (m ∷ ms) c =
      let (c', visited) = visit_object prefix wanted c (parse_member m) in
      add_visited visited (visit_loop prefix wanted ms c')

  abbrev pub as_some : {A B : Type 0} → A × B → A × Option B
  as_some (a, b) = (a, some b)

  abbrev pub visit_members : Bytes → ℕ → C × Reply → C × Option (List CachedObject)
  visit_members prefix wanted (c, array ms) = as_some (visit_loop prefix wanted ms c)
  visit_members prefix wanted (c, _) = (c, none)

  -- redis_cache_iterate_objects: `none` for -1, else the objects visited, whose number it returns.
  unfoldable pub iterate_in : Bytes → ℕ → C → C × Option (List CachedObject)
  unfolding visit_loop
  iterate_in prefix wanted c =
      visit_members prefix wanted
        (api.command c (smembers (make_key prefix (codes "objects:index"))))

  unfoldable pub redis_cache_iterate_objects : Cache C → ℕ → Cache C × Option (List CachedObject)
  unfolding iterate_in
  redis_cache_iterate_objects cache wanted =
      when_connected api cache none (iterate_in (prefix_of cache.config) wanted)

-- How many members have a type.
abbrev pub has_type : ℕ → Option (ℕ × ℕ) → Bool
has_type wanted none = false
has_type wanted (some (t, i)) = t == wanted

unfoldable pub count_members : ℕ → List Bytes → ℕ
count_members wanted [] = 0
count_members wanted (m ∷ ms) =
    let rest = count_members wanted ms in
    if has_type wanted (parse_member m) then suc rest else rest

abbrev pub count_of : Reply → ℕ
count_of (integer n) = n % 2 ^ 32
count_of _ = 0

abbrev pub count_typed : ℕ → Reply → ℕ
count_typed wanted (array ms) = count_members wanted ms
count_typed wanted _ = 0

module _ {C : Type 0} (api : Hiredis C) where
  -- redis_cache_object_count; `none` for -1.
  unfoldable pub count_in : Bytes → ℕ → C → C × Option ℕ
  unfolding count_members
  count_in prefix wanted c =
      let index = make_key prefix (codes "objects:index") in
      let all = with_reply (λ r. some (count_of r)) (api.command c (scard index)) in
      let typed = with_reply (λ r. some (count_typed wanted r)) (api.command c (smembers index)) in
      if wanted == object_type_max then all else typed

  unfoldable pub redis_cache_object_count : Cache C → ℕ → Cache C × Option ℕ
  unfolding count_in
  redis_cache_object_count cache wanted =
      when_connected api cache none (count_in (prefix_of cache.config) wanted)
