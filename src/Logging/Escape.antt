-- ===== src/Logging/Escape.antt =====
-- escape_json_string of src/logging.c, the stripping of ANSI codes in log_writev, and get_filename.
use bacnet_event_server.Base.{
  ℕ, ◌+◌, ◌-◌, Bool, true, false, [], ◌∷◌, ◌++◌, Bytes, length, if◌then◌else◌, ◌==◌, ltb,
}

-- What one character becomes.
unfoldable pub escape_char : ℕ → Bytes
escape_char c =
    if c == 34
    then 92 ∷ 34 ∷ []
    else if c == 92
    then 92 ∷ 92 ∷ []
    else if c == 10
    then 92 ∷ b'n' ∷ []
    else if c == 13
    then 92 ∷ b'r' ∷ []
    else if c == 9
    then 92 ∷ b't' ∷ []
    else c ∷ []

-- The loop, with `j` bytes written and the bound `output_size - 2`.
unfoldable pub escape_loop : ℕ → ℕ → Bytes → Bytes
unfolding escape_char
escape_loop limit j [] = []
escape_loop limit j (c ∷ s) =
    let rest = escape_loop limit (j + length (escape_char c)) s in
    if ltb j limit then escape_char c ++ rest else []

-- escape_json_string into a buffer of `size` bytes, which is at least 2.
unfoldable pub escape_json_string : Bytes → ℕ → Bytes
unfolding escape_loop
escape_json_string input size = escape_loop (size - 2) 0 input

-- The loop that strips ANSI codes: `inside` a code, up to its m; `room` bytes are left.
unfoldable pub strip_loop : Bool → ℕ → Bytes → Bytes
strip_loop inside room [] = []
strip_loop true room (c ∷ s) = strip_loop (if c == b'm' then false else true) room s
strip_loop false room (c ∷ s) =
    let code = strip_loop true room s in
    let copied = c ∷ strip_loop false (room - 1) s in
    if room == 0 then [] else if c == 27 then code else copied

-- Into a buffer of 4096 bytes.
unfoldable pub strip_ansi : Bytes → Bytes
unfolding strip_loop
strip_ansi s = strip_loop false 4095 s

-- get_filename: what follows the last slash.
unfoldable pub filename_from : Bytes → Bytes → Bytes
filename_from best [] = best
filename_from best (c ∷ s) = filename_from (if c == b'/' then s else best) s

unfoldable pub get_filename : Bytes → Bytes
unfolding filename_from
get_filename path = filename_from path path
