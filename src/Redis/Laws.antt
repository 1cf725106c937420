-- ===== src/Redis/Laws.antt =====
-- What Redis documents of the commands that src/redis_cache.c sends, as laws of the hiredis parameter.
use bacnet_event_server.Base.{◌≡◌, Bool, true, false, Bytes, str_eq}
use bacnet_event_server.Redis.Client.{
  Command, auth, select, set, get, del, smembers, scard, sadd, srem, hget, publish, hset, hmset,
  string, absent, is_failure, Hiredis,
}
use bacnet_event_server.Redis.Frame.{StringLaws}
use bacnet_event_server.Redis.Roundtrip.{HashLaws}

-- Whether a command may change what is kept under a key. AUTH and SELECT change what the connection sees.
unfoldable pub writes : Command → Bytes → Bool
writes (auth password) other = true
writes (select number) other = true
writes (set key value) other = str_eq key other
writes (del key) other = str_eq key other
writes (sadd key member) other = str_eq key other
writes (srem key member) other = str_eq key other
writes (hset key field value) other = str_eq key other
writes (hmset key fields) other = str_eq key other
writes (get key) other = false
writes (smembers key) other = false
writes (scard key) other = false
writes (hget key field) other = false
writes (publish channel message) other = false

-- On a connection that stays up SET, DEL and HSET do what they are documented to do, and no command changes
-- what GET and HGET answer for a key that it does not write.
pub record RedisLaws {C : Type 0} (api : Hiredis C) : Type 0 where
  pub stays_up :
      (c : C) (command : Command) → api.err c ≡ false → api.err (api.command c command).0 ≡ false
  pub get_set :
      (c : C) (key value : Bytes)
      → is_failure (api.command c (set key value)).1 ≡ false
      → (api.command (api.command c (set key value)).0 (get key)).1 ≡ string value
  pub get_del :
      (c : C) (key : Bytes)
      → is_failure (api.command c (del key)).1 ≡ false
      → (api.command (api.command c (del key)).0 (get key)).1 ≡ absent
  pub hget_hset :
      (c : C) (key field value : Bytes)
      → is_failure (api.command c (hset key field value)).1 ≡ false
      → (api.command (api.command c (hset key field value)).0 (hget key field)).1 ≡ string value
  pub hget_hset_other :
      (c : C) (key field value other : Bytes)
      → str_eq field other ≡ false
      → (api.command (api.command c (hset key field value)).0 (hget key other)).1
        ≡ (api.command c (hget key other)).1
  pub get_frame :
      (c : C) (command : Command) (key : Bytes)
      → writes command key ≡ false
      → (api.command (api.command c command).0 (get key)).1 ≡ (api.command c (get key)).1
  pub hget_frame :
      (c : C) (command : Command) (key field : Bytes)
      → writes command key ≡ false
      → (api.command (api.command c command).0 (hget key field)).1
        ≡ (api.command c (hget key field)).1

module _ {C : Type 0} (api : Hiredis C) (laws : RedisLaws api) where
  pub StringLaws-of : StringLaws api
  unfolding writes
  StringLaws-of = record {
    stays_up = laws.stays_up;
    get_set = laws.get_set;
    get_del = laws.get_del;
    get_set_other = λ c key value other h. laws.get_frame c (set key value) other h;
    get_del_other = λ c key other h. laws.get_frame c (del key) other h;
    get_sadd_other = λ c key member other h. laws.get_frame c (sadd key member) other h;
    get_srem_other = λ c key member other h. laws.get_frame c (srem key member) other h;
  }

  pub HashLaws-of : HashLaws api
  HashLaws-of = record {
    stays_up = laws.stays_up;
    hget_hset = laws.hget_hset;
    hget_hset_other = laws.hget_hset_other;
  }
