-- ===== src/Redis/Keys.antt =====
-- The keys of src/redis_cache.c, and the members of its index of objects.
use bacnet_event_server.Base.{
  take_enough, append-injective, ℕ, ◌-◌, ◌%◌, ◌^◌, ◌<◌, ◌≤◌, ◌≡◌, refl, sym, ap, ◌∙◌, true, [], ◌∷◌,
  ◌++◌, Option, some, Bytes, codes, append_assoc, leb, arith, length, take, All, append-nil,
  Bool-cases, inl, inr, subst,
}
use bacnet_event_server.Base.Decimal.{
  print_signed, print_nat, scan-print, print_nat-AreDigits, length-print_pos, Ends,
}
use bacnet_event_server.Base.Int.{ℤ, pos, negsuc}
use bacnet_event_server.Base.Scan.{
  ◌>>=◌, scan_int, scan_char, skip_spaces, scan_signed, is_digit, scan_nat,
}

-- The word that `%d` and `%u` store.
unfoldable pub word_of : ℤ → ℕ
word_of (pos n) = n % 2 ^ 32
word_of (negsuc n) = 2 ^ 32 - 1 - n % 2 ^ 32

-- `"%d:%u"` of a type and an instance.
unfoldable pub member_text : ℕ → ℕ → Bytes
unfolding print_signed
member_text t i = print_signed 32 t ++ b':' ∷ print_nat i

-- `sscanf(s, "%d:%u", …) == 2`.
unfoldable pub parse_member : Bytes → Option (ℕ × ℕ)
parse_member s = do
  (t, s1) ← scan_int s
  s2 ← scan_char b':' s1
  (i, s3) ← scan_int s2
  some (word_of t, word_of i)

-- make_key and make_object_key, into a buffer of 512 bytes.
unfoldable pub make_key : Bytes → Bytes → Bytes
make_key prefix suffix = take 511 (prefix ++ suffix)

unfoldable pub make_object_key : Bytes → ℕ → ℕ → Bytes
unfolding member_text
make_object_key prefix t i = take 511 (prefix ++ (codes "object:" ++ member_text t i))

-- A digit is neither white space nor a sign.
scan_int-digit :
    (c : ℕ) (s rest : Bytes) (n : ℕ)
    → is_digit c ≡ true
    → scan_nat (c ∷ s) ≡ some (n, rest)
    → scan_int (c ∷ s) ≡ some (pos n, rest)
unfolding scan_int skip_spaces scan_signed
scan_int-digit c s rest n d e = ground arith

scan_int-print :
    (n : ℕ) (rest : Bytes) → Ends rest → scan_int (print_nat n ++ rest) ≡ some (pos n, rest)
scan_int-print n rest e =
    first (print_nat n) (print_nat-AreDigits n) (length-print_pos n) (scan-print n rest e)
  where
    first :
        (s : Bytes)
        → All (λ c. is_digit c ≡ true) s
        → 0 < length s
        → scan_nat (s ++ rest) ≡ some (n, rest)
        → scan_int (s ++ rest) ≡ some (pos n, rest)
    first [] h p f = absurd (omega arith)
    first (c ∷ s) h p f = scan_int-digit c (s ++ rest) rest n h.0 f

-- A minus sign in front of a number that is not 0.
scan_int-minus :
    (n : ℕ) (rest : Bytes)
    → 0 < n
    → Ends rest
    → scan_int (b'-' ∷ (print_nat n ++ rest)) ≡ some (negsuc (n - 1), rest)
unfolding scan_int skip_spaces scan_signed
scan_int-minus n rest p e = rw (scan-print n rest e) (ground arith)

scan_int-signed :
    (t : ℕ) (rest : Bytes)
    → t < 2 ^ 32
    → Ends rest
    → (z : ℤ) × ((scan_int (print_signed 32 t ++ rest) ≡ some (z, rest)) × (word_of z ≡ t))
unfolding print_signed word_of
scan_int-signed t rest h e = elim (Bool-cases (leb (2 ^ 31) t)) [
  | inl negative ↦
      rw negative
        (negsuc (2 ^ 32 - t - 1), (scan_int-minus (2 ^ 32 - t) rest (omega arith) e, omega arith))
  | inr positive ↦ rw positive (pos t, (scan_int-print t rest e, ground arith))
]

pub scan_int-end : (n : ℕ) → scan_int (print_nat n) ≡ some (pos n, [])
scan_int-end n =
    subst (λ s. scan_int s ≡ some (pos n, [])) (append-nil (print_nat n)) (scan_int-print n [] tt)

-- A member of the index is read back as its type and instance, be they any 32-bit words.
pub parse-member_text :
    (t i : ℕ) → t < 2 ^ 32 → i < 2 ^ 32 → parse_member (member_text t i) ≡ some (t, i)
unfolding parse_member member_text word_of
parse-member_text t i h k =
    let (z, (scanned, word)) = scan_int-signed t (b':' ∷ print_nat i) h refl in
    rw (scanned, scan_int-end i) (ground (arith, word))

pub member_text-injective :
    (t i t' i' : ℕ)
    → t < 2 ^ 32
    → i < 2 ^ 32
    → t' < 2 ^ 32
    → i' < 2 ^ 32
    → member_text t i ≡ member_text t' i'
    → (t ≡ t') × (i ≡ i')
member_text-injective t i t' i' h k h' k' e =
    let same =
      sym (parse-member_text t i h k) ∙ ap parse_member e ∙ parse-member_text t' i' h' k' in
    ground (arith, same)

-- A key that the buffer does not cut.
abbrev pub IsWhole : Bytes → ℕ → ℕ → Type 0
IsWhole prefix t i = length (prefix ++ (codes "object:" ++ member_text t i)) ≤ 511

-- Different objects have different keys, if the key prefix leaves room for them in the buffer.
pub make_object_key-injective :
    (prefix : Bytes) (t i t' i' : ℕ)
    → t < 2 ^ 32
    → i < 2 ^ 32
    → t' < 2 ^ 32
    → i' < 2 ^ 32
    → IsWhole prefix t i
    → IsWhole prefix t' i'
    → make_object_key prefix t i ≡ make_object_key prefix t' i'
    → (t ≡ t') × (i ≡ i')
unfolding make_object_key
make_object_key-injective prefix t i t' i' h k h' k' w w' e =
    member_text-injective t i t' i' h k h' k' (
      append-injective (prefix ++ codes "object:") (member_text t i) (member_text t' i') (
        append_assoc prefix (codes "object:") (member_text t i)
        ∙ sym (take_enough 511 (prefix ++ (codes "object:" ++ member_text t i)) w)
        ∙ e
        ∙ take_enough 511 (prefix ++ (codes "object:" ++ member_text t' i')) w'
        ∙ sym (append_assoc prefix (codes "object:") (member_text t' i'))))
