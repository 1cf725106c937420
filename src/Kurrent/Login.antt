-- ===== src/Kurrent/Login.antt =====
-- Connection strings that are put together from a login, a host and the TLS option, as
-- src/kurrentdb_client.c takes them apart.
use bacnet_event_server.Base.{
  ℕ, ◌≤◌, ◌≡◌, ◌≢◌, refl, Bool, true, false, [], ◌∷◌, ◌++◌, Option, none, some, Bytes, codes,
  copy_string, arith, length, All, if◌then◌else◌, append_assoc, append-nil, length-append,
  take_enough,
}
use bacnet_event_server.Kurrent.Address.{
  Address, parsed, strip_front, split_at, parse_credentials, parse_host, contains, url_of,
  parse_connection_string, from_at,
}

abbrev pub HasNo : ℕ → Bytes → Type 0
HasNo c s = All (λ d. d ≢ c) s

-- The parts of the text.
abbrev pub login_text : Option (Bytes × Bytes) → Bytes
login_text none = []
login_text (some (user, pass)) = (user ++ b':' ∷ pass) ++ b'@' ∷ []

abbrev pub query_text : Bool → Bytes
query_text secure = if secure then codes "?tls=true" else []

abbrev pub address_text : Option (Bytes × Bytes) → Bytes → Bool → Bytes
address_text login host secure =
    codes "esdb://" ++ (login_text login ++ (host ++ query_text secure))

-- The separators stand in no part, and the parts fit their buffers.
abbrev pub LoginIsPlain : Option (Bytes × Bytes) → Type 0
LoginIsPlain none = Unit {0}
LoginIsPlain (some (user, pass)) =
    HasNo b':' user × HasNo b'@' user × HasNo b'@' pass × (length user ≤ 63) × (length pass ≤ 63)

pub record IsPlain (login : Option (Bytes × Bytes)) (host : Bytes) : Type 0 where
  pub login_plain : LoginIsPlain login
  pub host_at : HasNo b'@' host
  pub host_query : HasNo b'?' host
  pub host_fits : length host ≤ 126

split_at-append : (c : ℕ) (s t : Bytes) → HasNo c s → split_at c (s ++ c ∷ t) ≡ some (s, t)
unfolding split_at
split_at-append c [] t h = ground arith
split_at-append c (d ∷ s) t (x, h) = ground (arith, split_at-append c s t h)

split_at-none : (c : ℕ) (s : Bytes) → HasNo c s → split_at c s ≡ none
unfolding split_at
split_at-none c [] h = refl
split_at-none c (d ∷ s) (x, h) = ground (arith, split_at-none c s h)

append-HasNo : (c : ℕ) (s t : Bytes) → HasNo c s → HasNo c t → HasNo c (s ++ t)
append-HasNo c [] t h k = k
append-HasNo c (d ∷ s) t (x, h) k = (x, append-HasNo c s t h k)

query-HasNo : (secure : Bool) → HasNo b'@' (query_text secure)
query-HasNo true = ground arith
query-HasNo false = tt

credentials_lem :
    (user pass : Bytes)
    → HasNo b':' user
    → length user ≤ 63
    → length pass ≤ 63
    → parse_credentials (user ++ b':' ∷ pass) ≡ (user, pass)
unfolding parse_credentials
credentials_lem user pass h k l =
    let whole =
      take_enough 127 (user ++ b':' ∷ pass) (omega (arith, length-append user (b':' ∷ pass))) in
    let split = split_at-append b':' user pass h in
    let user_whole = take_enough 63 user k in
    let pass_whole = take_enough 63 pass l in rw (whole, split, user_whole, pass_whole) refl

abbrev login_pair : Option (Bytes × Bytes) → Bytes × Bytes
login_pair none = ([], [])
login_pair (some p) = p

at_lem :
    (login : Option (Bytes × Bytes)) (rest : Bytes)
    → LoginIsPlain login
    → HasNo b'@' rest
    → from_at (login_text login ++ rest) (split_at b'@' (login_text login ++ rest))
      ≡ (login_pair login, rest)
at_lem none rest h k = rw (split_at-none b'@' rest k) refl
at_lem (some (user, pass)) rest (h0, h1, h2, h3, h4) k =
    let front : HasNo b'@' (user ++ b':' ∷ pass) =
      append-HasNo b'@' user (b':' ∷ pass) h1 (ground arith, h2) in
    rw
      (
        append_assoc (user ++ b':' ∷ pass) (b'@' ∷ []) rest,
        split_at-append b'@' (user ++ b':' ∷ pass) rest front,
        credentials_lem user pass h0 h3 h4,
      )
      refl

-- What is stored for the parts.
abbrev pub stored : Option (Bytes × Bytes) → Bytes → Bool → Address
stored login host secure = record {
  connection_string = copy_string 512 (address_text login host secure);
  base_url = url_of secure host;
  use_tls = secure;
  username = (login_pair login).0;
  password = (login_pair login).1;
}

host_lem :
    (text : Bytes) (login : Bytes × Bytes) (host : Bytes) (secure : Bool)
    → HasNo b'?' host
    → length host ≤ 126
    → parse_host text login (host ++ query_text secure) (split_at b'?' (host ++ query_text secure))
      ≡ parsed (record {
        connection_string = copy_string 512 text;
        base_url = url_of secure host;
        use_tls = secure;
        username = login.0;
        password = login.1;
      })
unfolding parse_host contains strip_front
host_lem text login host true h k =
    rw (split_at-append b'?' host (codes "tls=true") h, take_enough 127 host (omega arith)) refl
host_lem text login host false h k = rw (append-nil host, split_at-none b'?' host h) (ground arith)

-- A connection string put together from a login (or none), a host and the TLS option is taken apart into
-- the same parts: user, password, and a base URL of the scheme and the host. The separators stand in
-- no part, and the parts fit their buffers.
pub parse-address_text :
    (login : Option (Bytes × Bytes)) (host : Bytes) (secure : Bool)
    → IsPlain login host
    → parse_connection_string (some (address_text login host secure))
      ≡ parsed (stored login host secure)
unfolding parse_connection_string strip_front
parse-address_text login host secure p =
    let rest = host ++ query_text secure in
    let clear = append-HasNo b'@' host (query_text secure) p.host_at (query-HasNo secure) in
    rw (at_lem login rest p.login_plain clear) (
      host_lem (address_text login host secure) (login_pair login) host secure p.host_query
        p.host_fits)
