-- ===== src/Kurrent/Address.antt =====
-- parse_connection_string of src/kurrentdb_client.c:
-- esdb://[user:pass@]host:port[?tls=true|false].
use bacnet_event_server.Base.{
  ℕ, Bool, true, false, ◌||◌, [], ◌∷◌, ◌++◌, Option, none, some, Bytes, codes, copy_string,
  if◌then◌else◌, ◌==◌, leb, length, ◌≡◌, refl,
}

-- What the function stores in the client.
pub record Address : Type 0 where
  pub connection_string : Bytes
  pub base_url : Bytes
  pub use_tls : Bool
  pub username : Bytes
  pub password : Bytes

-- `unterminated`: a host of 127 bytes or more without a query fills its buffer up, and is read past the
-- end.
pub data Parsed : Type 0 where
  rejected unterminated : Parsed
  parsed : Address → Parsed

-- The text behind a front part, if it starts with it (strncmp).
unfoldable pub strip_front : Bytes → Bytes → Option Bytes
strip_front [] s = some s
strip_front (c ∷ front) [] = none
strip_front (c ∷ front) (d ∷ s) = if c == d then strip_front front s else none

-- strchr, with what stands before and behind the character.
abbrev pub add_before : ℕ → Option (Bytes × Bytes) → Option (Bytes × Bytes)
add_before c none = none
add_before c (some (before, behind)) = some (c ∷ before, behind)

unfoldable pub split_at : ℕ → Bytes → Option (Bytes × Bytes)
split_at c [] = none
split_at c (d ∷ s) = if d == c then some ([], s) else add_before d (split_at c s)

abbrev pub is_front : Option Bytes → Bool
is_front none = false
is_front (some s) = true

-- strstr.
unfoldable pub contains : Bytes → Bytes → Bool
unfolding strip_front
contains word [] = is_front (strip_front word [])
contains word (c ∷ s) = is_front (strip_front word (c ∷ s)) || contains word s

-- User and password from the credentials, which are cut to 127 bytes.
abbrev pub from_colon : Option (Bytes × Bytes) → Bytes × Bytes
from_colon none = ([], [])
from_colon (some (user, pass)) = (copy_string 64 user, copy_string 64 pass)

unfoldable pub parse_credentials : Bytes → Bytes × Bytes
unfolding split_at
parse_credentials credentials = from_colon (split_at b':' (copy_string 128 credentials))

-- The credentials, and what is left for the host.
abbrev pub from_at : Bytes → Option (Bytes × Bytes) → (Bytes × Bytes) × Bytes
from_at ptr none = (([], []), ptr)
from_at ptr (some (credentials, rest)) = (parse_credentials credentials, rest)

abbrev pub url_of : Bool → Bytes → Bytes
url_of tls host =
    copy_string 256 ((if tls then codes "https" else codes "http") ++ (codes "://" ++ host))

abbrev pub address_of : Bytes → Bytes × Bytes → Bytes → Bool → Parsed
address_of text (user, pass) host tls = parsed (record {
  connection_string = copy_string 512 text;
  base_url = url_of tls host;
  use_tls = tls;
  username = user;
  password = pass;
})

-- The host and the query behind it.
unfoldable pub parse_host : Bytes → Bytes × Bytes → Bytes → Option (Bytes × Bytes) → Parsed
unfolding contains
parse_host text login ptr none =
    if leb 127 (length ptr) then unterminated else address_of text login ptr false
parse_host text login ptr (some (host, query)) =
    address_of text login (copy_string 128 host)
      (contains (codes "tls=true") (b'?' ∷ query) || contains (codes "Tls=true") (b'?' ∷ query))

abbrev pub parse_after : Bytes → (Bytes × Bytes) × Bytes → Parsed
parse_after text (login, ptr) = parse_host text login ptr (split_at b'?' ptr)

abbrev pub parse_rest : Bytes → Option Bytes → Parsed
parse_rest text none = rejected
parse_rest text (some ptr) = parse_after text (from_at ptr (split_at b'@' ptr))

-- parse_connection_string; NULL is `none`.
unfoldable pub parse_connection_string : Option Bytes → Parsed
unfolding strip_front split_at parse_credentials parse_host
parse_connection_string none = rejected
parse_connection_string (some text) = parse_rest text (strip_front (codes "esdb://") text)

local :
    parse_connection_string (some (codes "esdb://admin:pw@db:2113?tls=true"))
    ≡ parsed (record {
      connection_string = codes "esdb://admin:pw@db:2113?tls=true";
      base_url = codes "https://db:2113";
      use_tls = true;
      username = codes "admin";
      password = codes "pw";
    })
unfolding parse_connection_string
local = refl
