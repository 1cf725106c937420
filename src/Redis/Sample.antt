-- ===== src/Redis/Sample.antt =====
-- A Redis kept in functions, which does what Redis documents of its commands.
use bacnet_event_server.Base.{
  ◌≡◌, refl, false, Option, none, some, Bytes, str_eq, str_eq_refl, str_eq_sound, arith, true,
  subst, List, [], ◌∷◌, Bool-cases, inl, inr, if◌then◌else◌,
}
use bacnet_event_server.Redis.Client.{
  Command, auth, select, set, get, del, smembers, scard, sadd, srem, hget, publish, hset, hmset,
  Reply, absent, status, string, integer, array, Hiredis,
}
use bacnet_event_server.Redis.Laws.{RedisLaws, writes}
use bacnet_event_server.Redis.Indexed.{contains, SetLaws}

-- The strings by key, the hashes by key and field, and the sets by key.
pub record Database : Type 0 where
  pub strings : Bytes → Option Bytes
  pub hashes : Bytes → Bytes → Option Bytes
  pub sets : Bytes → List Bytes

abbrev pub reply_of : Option Bytes → Reply
reply_of none = absent
reply_of (some s) = string s

abbrev pub put : Bytes → Option Bytes → (Bytes → Option Bytes) → Bytes → Option Bytes
put key value f other = if str_eq key other then value else f other

unfoldable pub remove_member : Bytes → List Bytes → List Bytes
remove_member m [] = []
remove_member m (x ∷ xs) = let rest = remove_member m xs in if str_eq m x then rest else x ∷ rest

abbrev pub insert_member : Bytes → List Bytes → List Bytes
insert_member m xs = m ∷ remove_member m xs

abbrev pub keep : Bytes → List Bytes → (Bytes → List Bytes) → Bytes → List Bytes
keep key ms f other = if str_eq key other then ms else f other

abbrev pub run : Database → Command → Database × Reply
run db (set key value) = (record db { strings = put key (some value) db.strings }, status)
run db (get key) = (db, reply_of (db.strings key))
run db (del key) = (record db { strings = put key none db.strings }, integer 1)
run db (hset key name value) = (
  record db {
    hashes = λ other.
        if str_eq key other then put name (some value) (db.hashes other) else db.hashes other;
  },
  integer 1,
)
run db (hget key name) = (db, reply_of (db.hashes key name))
run db (sadd key member) =
    (record db { sets = keep key (insert_member member (db.sets key)) db.sets }, integer 1)
run db (srem key member) =
    (record db { sets = keep key (remove_member member (db.sets key)) db.sets }, integer 1)
run db (smembers key) = (db, array (db.sets key))
run db _ = (db, status)

abbrev pub redis : Hiredis Database
redis = record {
  connect = λ host port.
      some (record { strings = λ key. none; hashes = λ key name. none; sets = λ key. [] });
  err = λ db. false;
  command = run;
}

unwritten_get :
    (db : Database) (command : Command) (key : Bytes)
    → writes command key ≡ false
    → (run (run db command).0 (get key)).1 ≡ (run db (get key)).1
unfolding writes
unwritten_get db (auth password) key h = refl
unwritten_get db (select number) key h = refl
unwritten_get db (set other value) key h = rw h refl
unwritten_get db (get other) key h = refl
unwritten_get db (del other) key h = rw h refl
unwritten_get db (smembers other) key h = refl
unwritten_get db (scard other) key h = refl
unwritten_get db (sadd other member) key h = refl
unwritten_get db (srem other member) key h = refl
unwritten_get db (hget other name) key h = refl
unwritten_get db (publish channel message) key h = refl
unwritten_get db (hset other name value) key h = refl
unwritten_get db (hmset other fields) key h = refl

unwritten_hget :
    (db : Database) (command : Command) (key name : Bytes)
    → writes command key ≡ false
    → (run (run db command).0 (hget key name)).1 ≡ (run db (hget key name)).1
unfolding writes
unwritten_hget db (auth password) key name h = refl
unwritten_hget db (select number) key name h = refl
unwritten_hget db (set other value) key name h = refl
unwritten_hget db (get other) key name h = refl
unwritten_hget db (del other) key name h = refl
unwritten_hget db (smembers other) key name h = refl
unwritten_hget db (scard other) key name h = refl
unwritten_hget db (sadd other member) key name h = refl
unwritten_hget db (srem other member) key name h = refl
unwritten_hget db (hget other field) key name h = refl
unwritten_hget db (publish channel message) key name h = refl
unwritten_hget db (hset other field value) key name h = rw h refl
unwritten_hget db (hmset other fields) key name h = refl

pub redis_laws : RedisLaws redis
redis_laws = record {
  stays_up = λ c command h. refl;
  get_set = λ c key value h. rw (str_eq_refl key) refl;
  get_del = λ c key h. rw (str_eq_refl key) refl;
  hget_hset = λ c key name value h. rw (str_eq_refl key, str_eq_refl name) refl;
  hget_hset_other = λ c key name value other h. rw (str_eq_refl key, h) refl;
  get_frame = unwritten_get;
  hget_frame = unwritten_hget;
}

contains-remove_member :
    (m m' : Bytes) (xs : List Bytes)
    → contains (remove_member m xs) m' ≡ (if str_eq m m' then false else contains xs m')
unfolding contains remove_member
contains-remove_member m m' [] = ground arith
contains-remove_member m m' (x ∷ xs) =
    let ih = contains-remove_member m m' xs in
    elim (Bool-cases (str_eq m x)) [
      | inl same ↦ let equal = str_eq_sound m x same in ground (arith, ih, same, equal)
      | inr apart ↦ elim (Bool-cases (str_eq x m')) [
        | inl found ↦
            let equal = str_eq_sound x m' found in
            let differ : str_eq m m' ≡ false = subst (λ y. str_eq m y ≡ false) equal apart in
            ground (arith, ih, apart, found, differ)
        | inr other ↦ ground (arith, ih, apart, other)
      ]
    ]

unwritten_smembers :
    (db : Database) (command : Command) (key : Bytes)
    → writes command key ≡ false
    → (run (run db command).0 (smembers key)).1 ≡ (run db (smembers key)).1
unfolding writes
unwritten_smembers db (auth password) key h = refl
unwritten_smembers db (select number) key h = refl
unwritten_smembers db (set other value) key h = refl
unwritten_smembers db (get other) key h = refl
unwritten_smembers db (del other) key h = refl
unwritten_smembers db (smembers other) key h = refl
unwritten_smembers db (scard other) key h = refl
unwritten_smembers db (sadd other member) key h = rw h refl
unwritten_smembers db (srem other member) key h = rw h refl
unwritten_smembers db (hget other name) key h = refl
unwritten_smembers db (publish channel message) key h = refl
unwritten_smembers db (hset other name value) key h = refl
unwritten_smembers db (hmset other fields) key h = refl

added_member :
    (m m' : Bytes) (xs : List Bytes)
    → contains (insert_member m xs) m' ≡ (if str_eq m m' then true else contains xs m')
unfolding contains
added_member m m' xs = ground (arith, contains-remove_member m m' xs)

pub set_laws : SetLaws redis
set_laws = record {
  smembers_sadd = λ c key m m' h. rw (str_eq_refl key) (added_member m m' (c.sets key));
  smembers_srem = λ c key m m' h. rw (str_eq_refl key) (contains-remove_member m m' (c.sets key));
  smembers_frame = unwritten_smembers;
}
