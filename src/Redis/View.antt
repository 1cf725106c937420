-- ===== src/Redis/View.antt =====
-- The cache of src/redis_cache.c seen as a map of objects and a map of stream positions.
use bacnet_event_server.Base.{
  ℕ, ◌^◌, ◌<◌, ◌≡◌, refl, ◌∙◌, true, false, ◌&&◌, Option, none, some, Bytes, codes, str_eq,
  if◌then◌else◌, ◌==◌, arith,
}
use mathlib.Core.Option
use bacnet_event_server.Base.Decimal.{print_nat}
use bacnet_event_server.Base.Json.{CJson}
use bacnet_event_server.Base.Words.{Fpu}
use bacnet_event_server.Message.Model.{CachedObject}
use bacnet_event_server.Redis.Client.{Command, get, set, del, sadd, srem, hset, is_failure, Hiredis}
use bacnet_event_server.Redis.Keys.{make_key, make_object_key, member_text}
use bacnet_event_server.Redis.Objects.{object_text, store_in, delete_in, load_in, read_object}
use bacnet_event_server.Redis.Positions.{store_position_in, load_position_in}
use bacnet_event_server.Redis.Frame.{load-store_in, load-delete_in, store_in-up, delete_in-up}
use bacnet_event_server.Redis.Roundtrip.{load-store_position_in}
use bacnet_event_server.Redis.Laws.{RedisLaws, writes, StringLaws-of, HashLaws-of}
use bacnet_event_server.Redis.Room.{
  IsShort, short-IsKey, object-ne-positions, positions-ne-object, index-ne-positions,
  positions-ne-index,
}
use bacnet_event_server.Redis.Steady.{
  SetRules, IsKept, store_in-IsKept, delete_in-IsKept, unwritten-IsKept,
}

-- What a client can load.
pub record CacheView : Type 0 where
  pub objects : ℕ → ℕ → Option CachedObject
  pub positions : Bytes → Option ℕ

unfoldable pub put_object : ℕ → ℕ → Option CachedObject → CacheView → CacheView
put_object t i value v = record v {
  objects = λ t' i'. if t == t' && i == i' then value else v.objects t' i';
}

unfoldable pub put_position : Bytes → ℕ → CacheView → CacheView
put_position id p v = record v {
  positions = λ id'. if str_eq id id' then some p else v.positions id';
}

-- What loading an object of this type and instance gives after `o` is stored.
unfoldable pub reread : {J : Type 0} → CJson J → Fpu → CachedObject → ℕ → ℕ → Option CachedObject
reread cj fpu o t i = Option.map (read_object cj fpu t i) (cj.parse (object_text fpu o))

module _ {J C : Type 0} (cj : CJson J) (fpu : Fpu) (api : Hiredis C) (Start : Type 0)
    (prefix : Bytes) where
  -- The connection `c` is up, loading from it gives what the view says, for 32-bit types and instances, and if
  -- `Start` holds its index is kept.
  pub record Shows (c : C) (v : CacheView) : Type 0 where
    pub up : api.err c ≡ false
    pub objects :
        (t i : ℕ) → t < 2 ^ 32 → i < 2 ^ 32 → (load_in cj fpu api prefix t i c).1 ≡ v.objects t i
    pub kept : Start → IsKept api prefix c
    pub positions : (id : Bytes) → (load_position_in api prefix id c).1 ≡ v.positions id

module _ {J C : Type 0} (cj : CJson J) (fpu : Fpu) (api : Hiredis C) (laws : RedisLaws api)
    (Start : Type 0) (rules : Start → SetRules api) (prefix : Bytes) (short : IsShort prefix) where
  load_position-frame :
      (c : C) (command : Command) (id : Bytes)
      → writes command (make_key prefix (codes "stream:positions")) ≡ false
      → (load_position_in api prefix id (api.command c command).0).1
        ≡ (load_position_in api prefix id c).1
  unfolding load_position_in
  load_position-frame c command id h =
      rw (laws.hget_frame c command (make_key prefix (codes "stream:positions")) id h) refl

  positions_of_store_in :
      (c : C) (o : CachedObject) (id : Bytes)
      → (store_in api fpu prefix o c).1 ≡ true
      → (load_position_in api prefix id (store_in api fpu prefix o c).0).1
        ≡ (load_position_in api prefix id c).1
  unfolding store_in writes
  positions_of_store_in c o id stored =
      let key = make_object_key prefix o.object_type o.object_instance in
      let first = set key (object_text fpu o) in
      let second =
        sadd (make_key prefix (codes "objects:index"))
          (member_text o.object_type o.object_instance) in
      let c1 = (api.command c first).0 in
      let done : is_failure (api.command c first).1 ≡ false = ground (arith, stored) in
      ground (
        arith,
        done,
        load_position-frame c1 second id (index-ne-positions prefix short),
        load_position-frame c first id
            (object-ne-positions prefix short o.object_type o.object_instance),
      )

  positions_of_delete_in :
      (c : C) (t i : ℕ) (id : Bytes)
      → (load_position_in api prefix id (delete_in api prefix t i c).0).1
        ≡ (load_position_in api prefix id c).1
  unfolding delete_in writes
  positions_of_delete_in c t i id =
      let first = del (make_object_key prefix t i) in
      load_position-frame (api.command c first).0
        (srem (make_key prefix (codes "objects:index")) (member_text t i)) id
        (index-ne-positions prefix short)
      ∙ load_position-frame c first id (object-ne-positions prefix short t i)

  pub store_in-Shows :
      (c : C) (v : CacheView) (o : CachedObject)
      → Shows cj fpu api Start prefix c v
      → o.object_type < 2 ^ 32
      → o.object_instance < 2 ^ 32
      → (store_in api fpu prefix o c).1 ≡ true
      → Shows cj fpu api Start prefix (store_in api fpu prefix o c).0 (
          put_object o.object_type o.object_instance
            (reread cj fpu o o.object_type o.object_instance)
            v)
  unfolding put_object reread
  store_in-Shows c v o shows h k stored = record {
    up = store_in-up cj fpu api (StringLaws-of api laws) prefix o c shows.up;
    objects = λ t i t_word i_word.
        let loaded =
          load-store_in cj fpu api (StringLaws-of api laws) prefix o t i c
            (short-IsKey prefix o.object_type o.object_instance short h k)
            (short-IsKey prefix t i short t_word i_word) stored in
        let before = shows.objects t i t_word i_word in ground (arith, loaded, before);
    kept = λ start.
        store_in-IsKept api laws (rules start) prefix short fpu o c shows.up h k stored
          (shows.kept start);
    positions = λ id. positions_of_store_in c o id stored ∙ shows.positions id;
  }

  pub delete_in-Shows :
      (c : C) (v : CacheView) (t i : ℕ)
      → Shows cj fpu api Start prefix c v
      → t < 2 ^ 32
      → i < 2 ^ 32
      → is_failure (api.command c (del (make_object_key prefix t i))).1 ≡ false
      → Shows cj fpu api Start prefix (delete_in api prefix t i c).0 (put_object t i none v)
  unfolding put_object
  delete_in-Shows c v t i shows h k good = record {
    up = delete_in-up cj fpu api (StringLaws-of api laws) prefix t i c shows.up;
    objects = λ t' i' t_word i_word.
        let loaded =
          load-delete_in cj fpu api (StringLaws-of api laws) prefix t i t' i' c
            (short-IsKey prefix t i short h k) (short-IsKey prefix t' i' short t_word i_word)
            good in
        let before = shows.objects t' i' t_word i_word in ground (arith, loaded, before);
    kept = λ start.
        delete_in-IsKept api laws (rules start) prefix short fpu t i c shows.up h k good
          (shows.kept start);
    positions = λ id. positions_of_delete_in c t i id ∙ shows.positions id;
  }

  pub load_in-Shows :
      (c : C) (v : CacheView) (t i : ℕ)
      → Shows cj fpu api Start prefix c v
      → Shows cj fpu api Start prefix (load_in cj fpu api prefix t i c).0 v
  unfolding load_in writes
  load_in-Shows c v t i shows =
      let read = get (make_object_key prefix t i) in
      record {
        up = laws.stays_up c read shows.up;
        objects = λ t' i' t_word i_word.
            rw (laws.get_frame c read (make_object_key prefix t' i') refl)
              (shows.objects t' i' t_word i_word);
        kept = λ start.
            unwritten-IsKept api laws (rules start) prefix short read c (λ t' i'. refl) refl
              (shows.kept start);
        positions = λ id. load_position-frame c read id refl ∙ shows.positions id;
      }

  pub store_position_in-Shows :
      (c : C) (v : CacheView) (id : Bytes) (p : ℕ)
      → Shows cj fpu api Start prefix c v
      → p < 2 ^ 64
      → (store_position_in api prefix id p c).1 ≡ true
      → Shows cj fpu api Start prefix (store_position_in api prefix id p c).0 (put_position id p v)
  unfolding put_position store_position_in load_in writes
  store_position_in-Shows c v id p shows h stored =
      let written = hset (make_key prefix (codes "stream:positions")) id (print_nat p) in
      record {
        up = laws.stays_up c written shows.up;
        objects = λ t i t_word i_word.
            rw
              (laws.get_frame c written (make_object_key prefix t i)
                (positions-ne-object prefix short t i))
              (shows.objects t i t_word i_word);
        kept = λ start.
            unwritten-IsKept api laws (rules start) prefix short written c
              (λ t i. positions-ne-object prefix short t i) (positions-ne-index prefix short)
              (shows.kept start);
        positions = λ id'.
            let loaded =
              load-store_position_in api (HashLaws-of api laws) prefix id id' p c h stored in
            let before = shows.positions id' in ground (arith, loaded, before);
      }
