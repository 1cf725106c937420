-- ===== src/Gateway/Config.antt =====
-- load_config of src/main.c, over the text of the file.
use bacnet_event_server.Base.{ℕ, ◌%◌, ◌^◌, Bool, true, false, Option, none, some, Bytes, codes}
use bacnet_event_server.Base.Json.{CJson}
use bacnet_event_server.Base.Words.{Fpu}
use bacnet_event_server.Base.Scan.{◌>>=◌}

-- A text is NULL until it is set; a number is the word of its type.
pub record BacnetConfig : Type 0 where
  pub device_instance : ℕ
  pub device_name : Option Bytes
  pub device_description : Option Bytes
  pub vendor_id : ℕ
  pub vendor_name : Option Bytes
  pub model_name : Option Bytes
  pub port : ℕ
  pub interface : Option Bytes
  pub cov_lifetime : ℕ
  pub max_cov_subscriptions : ℕ

pub record RedisSettings : Type 0 where
  pub host : Option Bytes
  pub port : ℕ
  pub password : Option Bytes
  pub database : ℕ
  pub key_prefix : Option Bytes
  pub connection_timeout_ms : ℕ
  pub command_timeout_ms : ℕ

pub record KurrentConfig : Type 0 where
  pub connection_string : Option Bytes
  pub tls_enabled : Bool
  pub tls_verify_cert : Bool
  pub reconnect_delay_ms : ℕ
  pub max_reconnect_attempts : ℕ

-- g_config.
pub record GlobalConfig : Type 0 where
  pub bacnet : BacnetConfig
  pub redis : RedisSettings
  pub kurrentdb : KurrentConfig

module _ {J : Type 0} (cj : CJson J) (fpu : Fpu) where
  -- `strdup(sub_item->valuestring)`; `none` where that reads NULL.
  abbrev pub read_text : Option Bytes → Option J → Option (Option Bytes)
  read_text otherwise none = some otherwise
  read_text otherwise (some sub_item) = do value ← cj.string_value sub_item; some (some value)

  abbrev pub read_int : ℕ → Option J → ℕ
  read_int otherwise none = otherwise
  read_int otherwise (some sub_item) = fpu.i32_of_double (cj.number sub_item)

  abbrev pub read_unsigned : ℕ → Option J → ℕ
  read_unsigned otherwise none = otherwise
  read_unsigned otherwise (some sub_item) = fpu.u32_of_double (cj.number sub_item)

  abbrev pub read_flag : Option J → Bool
  read_flag none = true
  read_flag (some sub_item) = cj.is_true sub_item

  -- The part "server". A member that is missing leaves what was there, or sets the default.
  unfoldable pub load_server : J → BacnetConfig → Option BacnetConfig
  load_server item old = do
    instance_item ← cj.get_item item (codes "deviceInstance")
    name ← read_text old.device_name (cj.get_item item (codes "deviceName"))
    about ← read_text old.device_description (cj.get_item item (codes "deviceDescription"))
    vendor ← read_text old.vendor_name (cj.get_item item (codes "vendorName"))
    model ← read_text old.model_name (cj.get_item item (codes "modelName"))
    device ← read_text old.interface (cj.get_item item (codes "interface"))
    some (record {
      device_instance = fpu.u32_of_double (cj.number instance_item);
      device_name = name;
      device_description = about;
      vendor_id = read_unsigned old.vendor_id (cj.get_item item (codes "vendorId")) % 2 ^ 16;
      vendor_name = vendor;
      model_name = model;
      port = read_int 47808 (cj.get_item item (codes "port"));
      interface = device;
      cov_lifetime = read_unsigned 300 (cj.get_item item (codes "covLifetime"));
      max_cov_subscriptions = read_int 100 (cj.get_item item (codes "maxCovSubscriptions"));
    })

  -- The part "redis".
  unfoldable pub load_redis : J → Option RedisSettings
  load_redis item = do
    host ← read_text (some (codes "localhost")) (cj.get_item item (codes "host"))
    password ← read_text none (cj.get_item item (codes "password"))
    prefix ← read_text (some (codes "bacnet:")) (cj.get_item item (codes "keyPrefix"))
    some (record {
      host = host;
      port = read_int 6379 (cj.get_item item (codes "port"));
      password = password;
      database = read_int 0 (cj.get_item item (codes "database"));
      key_prefix = prefix;
      connection_timeout_ms = read_int 5000 (cj.get_item item (codes "connectionTimeout"));
      command_timeout_ms = read_int 1000 (cj.get_item item (codes "commandTimeout"));
    })

  -- The part "kurrentdb"; the word of -1 stands for no limit of attempts.
  unfoldable pub load_kurrentdb : J → KurrentConfig → Option KurrentConfig
  load_kurrentdb item old = do
    text ← read_text old.connection_string (cj.get_item item (codes "connectionString"))
    some (record {
      connection_string = text;
      tls_enabled = read_flag (cj.get_item item (codes "tlsEnabled"));
      tls_verify_cert = read_flag (cj.get_item item (codes "tlsVerifyCert"));
      reconnect_delay_ms = read_int 5000 (cj.get_item item (codes "reconnectDelayMs"));
      max_reconnect_attempts =
          read_int 4294967295 (cj.get_item item (codes "maxReconnectAttempts"));
    })

  abbrev pub load_part : {C : Type 0} → (J → C → Option C) → Option J → C → Option C
  load_part load none old = some old
  load_part load (some item) old = load item old

  -- The part after the text is parsed.
  unfoldable pub load_root : J → GlobalConfig → Option GlobalConfig
  unfolding load_server load_redis load_kurrentdb
  load_root root old = do
    bacnet ← load_part load_server (cj.get_item root (codes "server")) old.bacnet
    redis ←
        load_part (λ item settings. load_redis item) (cj.get_item root (codes "redis")) old.redis
    kurrentdb ← load_part load_kurrentdb (cj.get_item root (codes "kurrentdb")) old.kurrentdb
    some (record { bacnet = bacnet; redis = redis; kurrentdb = kurrentdb })

  abbrev pub loaded : Option GlobalConfig → Option (Bool × GlobalConfig)
  loaded none = none
  loaded (some config) = some (true, config)

  abbrev pub load_text : Option J → GlobalConfig → Option (Bool × GlobalConfig)
  load_text none old = some (false, old)
  load_text (some root) old = loaded (load_root root old)

  -- load_config; no text if the file cannot be opened or malloc fails. The status is `true` for 0 and `false` for -1, and `none` stands for the read of a NULL pointer.
  unfoldable pub load_config : Option Bytes → GlobalConfig → Option (Bool × GlobalConfig)
  unfolding load_root
  load_config none old = some (false, old)
  load_config (some content) old = load_text (cj.parse content) old
