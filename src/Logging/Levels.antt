-- ===== src/Logging/Levels.antt =====
-- The log levels of include/logging.h and their names in src/logging.c.
use bacnet_event_server.Base.{
  ℕ, ◌+◌, ◌≡◌, refl, Bool, ◌&&◌, ◌||◌, [], ◌∷◌, Option, none, some, Bytes, codes, str_eq,
  if◌then◌else◌, leb, map, arith,
}

pub data Level : Type 0 where
  trace debug info warn error fatal off : Level

-- The order of the levels.
abbrev pub level_code : Level → ℕ
level_code trace = 0
level_code debug = 1
level_code info = 2
level_code warn = 3
level_code error = 4
level_code fatal = 5
level_code off = 6

-- level_names, which log_level_to_string reads.
abbrev pub level_name : Level → Bytes
level_name trace = codes "TRACE"
level_name debug = codes "DEBUG"
level_name info = codes "INFO"
level_name warn = codes "WARN"
level_name error = codes "ERROR"
level_name fatal = codes "FATAL"
level_name off = codes "OFF"

unfoldable pub log_level_to_string : Level → Bytes
log_level_to_string l = level_name l

-- strcasecmp compares the lower-case letters.
abbrev pub to_lower : ℕ → ℕ
to_lower c = if leb b'A' c && leb c b'Z' then c + 32 else c

abbrev pub same_word : Bytes → Bytes → Bool
same_word a b = str_eq (map to_lower a) (map to_lower b)

unfoldable pub level_of_word : Bytes → Level
level_of_word s =
    if same_word s (codes "trace")
    then trace
    else if same_word s (codes "debug")
    then debug
    else if same_word s (codes "info")
    then info
    else if same_word s (codes "warn") || same_word s (codes "warning")
    then warn
    else if same_word s (codes "error")
    then error
    else if same_word s (codes "fatal")
    then fatal
    else if same_word s (codes "off")
    then off
    else info

-- log_level_from_string; NULL is `none`.
unfoldable pub log_level_from_string : Option Bytes → Level
log_level_from_string none = info
log_level_from_string (some s) = level_of_word s

to_lower_idem : (c : ℕ) → to_lower (to_lower c) ≡ to_lower c
to_lower_idem c = ground arith

map-to_lower_idem : (s : Bytes) → map to_lower (map to_lower s) ≡ map to_lower s
map-to_lower_idem [] = refl
map-to_lower_idem (c ∷ s) = cc (to_lower_idem c, map-to_lower_idem s)

-- The name of a level is read back as the level, and the letter case of a word does not matter.
from-to_string :
    (l : Level) (s : Bytes)
    → (log_level_from_string (some (log_level_to_string l)) ≡ l)
      × (log_level_from_string (some (map to_lower s)) ≡ log_level_from_string (some s))
unfolding log_level_from_string log_level_to_string level_of_word str_eq
from-to_string trace s = (refl, rw (map-to_lower_idem s) refl)
from-to_string debug s = (refl, rw (map-to_lower_idem s) refl)
from-to_string info s = (refl, rw (map-to_lower_idem s) refl)
from-to_string warn s = (refl, rw (map-to_lower_idem s) refl)
from-to_string error s = (refl, rw (map-to_lower_idem s) refl)
from-to_string fatal s = (refl, rw (map-to_lower_idem s) refl)
from-to_string off s = (refl, rw (map-to_lower_idem s) refl)
