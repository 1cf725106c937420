-- ===== src/Logging/Escaping.antt =====
-- What escape_json_string and the stripping of colours in src/logging.c guarantee.
use bacnet_event_server.Base.{
  ℕ, suc, ◌+◌, ◌-◌, ◌*◌, ◌<◌, ◌≤◌, ◌≡◌, ◌≢◌, ◌⊎◌, ◌||◌, refl, ap, ◌∙◌, Bool, true, false, [], ◌∷◌,
  ◌++◌, Option, none, some, Bytes, arith, length, take, All, if◌then◌else◌, ◌==◌, ltb, Bool-cases,
  inl, inr, length-append, append_assoc,
}
use bacnet_event_server.Logging.Escape.{
  escape_char, escape_loop, escape_json_string, strip_loop, strip_ansi,
}

-- How many characters of the input the loop takes.
abbrev pub taken : ℕ → ℕ → Bytes → ℕ
taken limit j [] = 0
taken limit j (c ∷ s) =
    let rest = taken limit (j + length (escape_char c)) s in if ltb j limit then suc rest else 0

-- What stands behind the backslash of an escape of JSON; `\u` with its four digits is not read.
abbrev pub decode : ℕ → Option ℕ
decode c =
    if c == 34 || c == 92 || c == b'/'
    then some c
    else if c == b'n'
    then some 10
    else if c == b'r'
    then some 13
    else if c == b't'
    then some 9
    else if c == b'b'
    then some 8
    else if c == b'f'
    then some 12
    else none

abbrev pub add_char : ℕ → Option (Bytes × Bytes) → Option (Bytes × Bytes)
add_char c none = none
add_char c (some (s, rest)) = some (c ∷ s, rest)

abbrev pub add_escaped : Option ℕ → Option (Bytes × Bytes) → Option (Bytes × Bytes)
add_escaped none rest = none
add_escaped (some c) rest = add_char c rest

-- A JSON string is read up to its closing quote: the value, and what follows the quote. A raw control
-- character and an unknown escape are refused.
unfoldable pub read_string : Bytes → Option (Bytes × Bytes)
read_string [] = none
read_string (c ∷ []) = if c == 34 then some ([], []) else none
read_string (c ∷ d ∷ s) =
    let closed : Option (Bytes × Bytes) = some ([], d ∷ s) in
    let escaped = add_escaped (decode d) (read_string s) in
    let plain = add_char c (read_string (d ∷ s)) in
    if c == 34 then closed else if c == 92 then escaped else if ltb c 32 then none else plain

-- A character that JSON can hold as it is, or that escape_json_string escapes.
abbrev pub IsEscapable : ℕ → Type 0
IsEscapable c = (32 ≤ c) ⊎ ((c ≡ 9) ⊎ ((c ≡ 10) ⊎ (c ≡ 13)))

read-escape_char :
    (c : ℕ) (d : ℕ) (s : Bytes)
    → IsEscapable c
    → read_string (escape_char c ++ d ∷ s) ≡ add_char c (read_string (d ∷ s))
unfolding escape_char read_string
read-escape_char c d s h = ground arith

-- A text is never empty once the closing quote is appended.
abbrev pub closing : Bytes → Bytes
closing rest = 34 ∷ rest

read-escape_text :
    (c : ℕ) (text rest : Bytes)
    → IsEscapable c
    → read_string (escape_char c ++ (text ++ closing rest))
      ≡ add_char c (read_string (text ++ closing rest))
read-escape_text c [] rest h = read-escape_char c 34 rest h
read-escape_text c (d ∷ text) rest h = read-escape_char c d (text ++ closing rest) h

read-closing : (rest : Bytes) → read_string (closing rest) ≡ some ([], rest)
unfolding read_string
read-closing [] = refl
read-closing (c ∷ rest) = refl

read-escape_loop :
    (limit j : ℕ) (s rest : Bytes)
    → All IsEscapable s
    → read_string (escape_loop limit j s ++ closing rest) ≡ some (take (taken limit j s) s, rest)
unfolding escape_loop
read-escape_loop limit j [] rest h = read-closing rest
read-escape_loop limit j (c ∷ s) rest h = elim (Bool-cases (ltb j limit)) [
  | inl fits ↦
      let j' = j + length (escape_char c) in
      rw (fits, append_assoc)
        (read-escape_text c (escape_loop limit j' s) rest h.0
          ∙ ap (add_char c) (read-escape_loop limit j' s rest h.1))
  | inr full ↦ rw full (read-closing rest)
]

length-escape_char : (c : ℕ) → length (escape_char c) ≤ 2
unfolding escape_char
length-escape_char c = ground arith

length-escape_loop :
    (limit j : ℕ) (s : Bytes) → j ≤ suc limit → j + length (escape_loop limit j s) ≤ suc limit
unfolding escape_loop
length-escape_loop limit j [] h = omega arith
length-escape_loop limit j (c ∷ s) h = elim (Bool-cases (ltb j limit)) [
  | inl fits ↦
      let j' = j + length (escape_char c) in
      rw fits (
        grind (
          arith,
          length-append (escape_char c) (escape_loop limit j' s),
          length-escape_char c,
          length-escape_loop limit j' s,
        ))
  | inr full ↦ rw full (omega arith)
]

-- If the bound leaves two bytes for each character, all of them are taken.
taken_all : (limit j : ℕ) (s : Bytes) → j + 2 * length s ≤ limit → taken limit j s ≡ length s
taken_all limit j [] h = refl
taken_all limit j (c ∷ s) h =
    grind (arith, length-escape_char c, taken_all limit (j + length (escape_char c)) s)

take-length : (s : Bytes) → take (length s) s ≡ s
take-length [] = refl
take-length (c ∷ s) = ap (λ r. c ∷ r) (take-length s)

-- The escaped text with its terminator fits the buffer. If the input has no control characters but tab, line
-- feed and carriage return, it is read back as a JSON string when it is set in quotes, up to exactly its own
-- closing quote, and gives the characters that were taken: a front part of the input, without half an escape at
-- the cut.
pub escape-read :
    (input rest : Bytes) (size : ℕ)
    → 2 ≤ size
    → All IsEscapable input
    → (length (escape_json_string input size) < size)
      × (read_string (escape_json_string input size ++ closing rest)
          ≡ some (take (taken (size - 2) 0 input) input, rest))
unfolding escape_json_string
escape-read input rest size h plain = (
  omega (arith, length-escape_loop (size - 2) 0 input),
  read-escape_loop (size - 2) 0 input rest plain,
)

-- A buffer with two bytes for each character and two more holds the whole input.
escape-read_whole :
    (input rest : Bytes) (size : ℕ)
    → 2 * length input + 2 ≤ size
    → All IsEscapable input
    → read_string (escape_json_string input size ++ closing rest) ≡ some (input, rest)
escape-read_whole input rest size h plain =
    let (bound, read) = escape-read input rest size (omega arith) plain in
    read
    ∙ ap (λ n. some (take n input, rest)) (taken_all (size - 2) 0 input (omega arith))
    ∙ ap (λ s. some (s, rest)) (take-length input)

strip_loop_clean :
    (inside : Bool) (room : ℕ) (s : Bytes)
    → All (λ c. c ≢ 27) (strip_loop inside room s) × (length (strip_loop inside room s) ≤ room)
unfolding strip_loop
strip_loop_clean inside room [] = (tt, omega arith)
strip_loop_clean true room (c ∷ s) = strip_loop_clean (if c == b'm' then false else true) room s
strip_loop_clean false room (c ∷ s) =
    ground (arith, strip_loop_clean true room s, strip_loop_clean false (room - 1) s)

-- What strip_ansi leaves holds no escape character, and fits its buffer of 4096 bytes with the terminator.
pub strip_ansi_clean :
    (s : Bytes) → All (λ c. c ≢ 27) (strip_ansi s) × (length (strip_ansi s) < 4096)
unfolding strip_ansi
strip_ansi_clean s = let (clean, bound) = strip_loop_clean false 4095 s in (clean, omega arith)

-- Text without codes passes unchanged.
strip_plain : (s : Bytes) → All (λ c. c ≢ 27) s → length s ≤ 4095 → strip_ansi s ≡ s
unfolding strip_ansi
strip_plain s h k = go 4095 s h k
  where
    go :
        (room : ℕ) (s : Bytes) → All (λ c. c ≢ 27) s → length s ≤ room → strip_loop false room s ≡ s
    go room [] h k = refl
    go room (c ∷ s) (x, h) k = ground (arith, go (room - 1) s h)
