-- ===== src/Health/Http/Parsing.antt =====
-- The request line and the routes of src/health_api.c.
use bacnet_event_server.Base.{
  ℕ, zero, suc, ◌||◌, [], ◌∷◌, Option, none, some, Bytes, codes, str_eq, if◌then◌else◌, ◌==◌,
}
use bacnet_event_server.Base.Scan.{◌>>=◌, is_space, skip_spaces}

-- The text that recv has stored, up to a NUL.
unfoldable pub until_nul : Bytes → Bytes
until_nul [] = []
until_nul (c ∷ s) = let rest = until_nul s in if c == 0 then [] else c ∷ rest

-- What `%Ns` takes after the white space, and the rest.
unfoldable pub take_word : ℕ → Bytes → Bytes × Bytes
take_word zero s = ([], s)
take_word (suc n) [] = ([], [])
take_word (suc n) (c ∷ s) =
    let (word, rest) = take_word n s in if is_space c then ([], c ∷ s) else (c ∷ word, rest)

abbrev pub non_empty : Bytes × Bytes → Option (Bytes × Bytes)
non_empty ([], rest) = none
non_empty (c ∷ word, rest) = some (c ∷ word, rest)

unfoldable pub scan_word : ℕ → Bytes → Option (Bytes × Bytes)
unfolding take_word
scan_word n s = non_empty (take_word n (skip_spaces s))

-- `sscanf(buffer, "%15s %255s", method, path) == 2`.
unfoldable pub request_line : Bytes → Option (Bytes × Bytes)
unfolding scan_word until_nul
request_line received = do
  (method, rest) ← scan_word 15 (until_nul received)
  (path, after) ← scan_word 255 rest
  some (method, path)

pub data Route : Type 0 where
  bad_request not_allowed health live ready metrics status not_found : Route

unfoldable pub route_of : Bytes → Route
route_of path =
    if str_eq path (codes "/health")
    then health
    else if str_eq path (codes "/health/live") || str_eq path (codes "/healthz")
    then live
    else if str_eq path (codes "/health/ready") || str_eq path (codes "/readyz")
    then ready
    else if str_eq path (codes "/metrics")
    then metrics
    else if str_eq path (codes "/status")
    then status
    else not_found

abbrev pub route_words : Option (Bytes × Bytes) → Route
route_words none = bad_request
route_words (some (method, path)) =
    if str_eq method (codes "GET") then route_of path else not_allowed

unfoldable pub route_request : Bytes → Route
unfolding request_line
route_request received = route_words (request_line received)
