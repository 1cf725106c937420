-- ===== src/Redis/Client.antt =====
-- The connection of src/redis_cache.c. The hiredis library is a parameter: a context, behind which the
-- database stands, and its commands.
use bacnet_event_server.Base.{
  ℕ, Bool, true, false, not, ◌&&◌, List, [], ◌∷◌, Option, none, some, Bytes, codes, if◌then◌else◌,
  ltb, ◌≡◌, refl, arith,
}

-- The commands that the program sends.
pub data Command : Type 0 where
  auth : Bytes → Command
  select : ℕ → Command
  set : Bytes → Bytes → Command
  get del smembers scard : Bytes → Command
  sadd srem hget publish : Bytes → Bytes → Command
  hset : Bytes → Bytes → Bytes → Command
  hmset : Bytes → List (Bytes × Bytes) → Command

-- `missing` is the NULL pointer, `absent` the nil reply.
pub data Reply : Type 0 where
  missing absent error status : Reply
  string : Bytes → Reply
  integer : ℕ → Reply
  array : List Bytes → Reply

-- `connect` answers `none` for a NULL context.
pub record Hiredis (C : Type 0) : Type 0 where
  pub connect : Bytes → ℕ → Option C
  pub err : C → Bool
  pub command : C → Command → C × Reply

-- The test `!reply || reply->type == REDIS_REPLY_ERROR`.
abbrev pub is_failure : Reply → Bool
is_failure missing = true
is_failure error = true
is_failure _ = false

pub record RedisConfig : Type 0 where
  pub host : Option Bytes
  pub port : ℕ
  pub password : Option Bytes
  pub database : ℕ
  pub key_prefix : Option Bytes

pub record Cache (C : Type 0) : Type 0 where
  pub context : Option C
  pub config : RedisConfig
  pub connected : Bool

module _ {C : Type 0} (api : Hiredis C) where
  abbrev pub is_sound : Option C → Bool
  is_sound none = false
  is_sound (some c) = not (api.err c)

  -- redis_cache_is_connected.
  unfoldable pub is_connected : Cache C → Bool
  is_connected cache = cache.connected && is_sound cache.context

  -- The default of the key prefix.
  abbrev pub with_prefix : RedisConfig → RedisConfig
  with_prefix config = record config {
    key_prefix = elim config.key_prefix [ none ↦ some (codes "bacnet:") | some p ↦ some p ];
  }

  -- A command of the start, if it is wanted: `none` when it fails.
  abbrev pub succeeded : C × Reply → Option C
  succeeded (c, r) = if is_failure r then none else some c

  abbrev pub authenticate : C → Option Bytes → Option C
  authenticate c none = some c
  authenticate c (some []) = some c
  authenticate c (some (b ∷ s)) = succeeded (api.command c (auth (b ∷ s)))

  abbrev pub select_database : ℕ → Option C → Option C
  select_database n none = none
  select_database n (some c) =
      let selected = succeeded (api.command c (select n)) in if ltb 0 n then selected else some c

  abbrev pub open_context : RedisConfig → Option C → Option C
  open_context config none = none
  open_context config (some c) =
      let opened = select_database config.database (authenticate c config.password) in
      if api.err c then none else opened

  abbrev pub finish_init : Cache C → RedisConfig → Option C → Cache C × Bool
  finish_init cache config none =
      (record cache { context = none; config = with_prefix config }, false)
  finish_init cache config (some c) =
      (record { context = some c; config = with_prefix config; connected = true }, true)

  -- redis_cache_init with a configuration; `connected` is left as it is on failure.
  unfoldable pub init_host : Cache C → RedisConfig → Option Bytes → Cache C × Bool
  init_host cache config none = (cache, false)
  init_host cache config (some host) =
      finish_init cache config (open_context config (api.connect host config.port))

  unfoldable pub redis_cache_init : Cache C → RedisConfig → Cache C × Bool
  unfolding init_host
  redis_cache_init cache config = init_host cache config config.host

  -- redis_cache_shutdown.
  unfoldable pub redis_cache_shutdown : Cache C → Cache C
  redis_cache_shutdown cache = record cache { context = none; connected = false }

  -- redis_cache_reconnect, with the configuration that is kept.
  unfoldable pub redis_cache_reconnect : Cache C → Cache C × Bool
  unfolding redis_cache_init redis_cache_shutdown
  redis_cache_reconnect cache = redis_cache_init (redis_cache_shutdown cache) cache.config

  -- A connected cache has a context without an error.
  pub is_connected-context :
      (cache : Cache C)
      → is_connected cache ≡ true
      → (c : C) × ((cache.context ≡ some c) × (api.err c ≡ false))
  unfolding is_connected
  is_connected-context cache h = sound cache.context (ground arith)
    where
      sound : (o : Option C) → is_sound o ≡ true → (c : C) × ((o ≡ some c) × (api.err c ≡ false))
      sound none e = absurd (ground arith)
      sound (some c) e = (c, (refl, ground arith))
