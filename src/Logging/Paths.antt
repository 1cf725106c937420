-- ===== src/Logging/Paths.antt =====
-- The file name that get_filename of src/logging.c takes from a path.
use bacnet_event_server.Base.{
  ◌≡◌, ◌≢◌, refl, ap, sym, subst, ◌∙◌, [], ◌∷◌, ◌++◌, Bytes, arith, All, ◌==◌, Bool-cases, inl, inr,
  append_assoc, append-nil,
}
use bacnet_event_server.Logging.Escape.{filename_from, get_filename}

abbrev pub HasNoSlash : Bytes → Type 0
HasNoSlash s = All (λ c. c ≢ b'/') s

append-HasNoSlash : (s t : Bytes) → HasNoSlash s → HasNoSlash t → HasNoSlash (s ++ t)
append-HasNoSlash [] t h k = k
append-HasNoSlash (c ∷ s) t (x, h) k = (x, append-HasNoSlash s t h k)

-- The walk, with the directory and the front part of the best name so far.
filename_from-HasNoSlash :
    (path dir pre best s : Bytes)
    → path ≡ dir ++ best
    → best ≡ pre ++ s
    → HasNoSlash pre
    → ((d : Bytes) × (path ≡ d ++ filename_from best s)) × HasNoSlash (filename_from best s)
unfolding filename_from
filename_from-HasNoSlash path dir pre best [] e f h =
    ((dir, e), subst HasNoSlash (sym (f ∙ append-nil pre)) h)
filename_from-HasNoSlash path dir pre best (c ∷ s) e f h = elim (Bool-cases (c == b'/')) [
  | inl slash ↦ rw slash (
      filename_from-HasNoSlash path (dir ++ (pre ++ c ∷ [])) [] s s
        (e
          ∙ ap (λ r. dir ++ r) (f ∙ sym (append_assoc pre (c ∷ []) s))
          ∙ sym (append_assoc dir (pre ++ c ∷ []) s))
        refl tt)
  | inr other ↦ rw other (
      filename_from-HasNoSlash path dir (pre ++ c ∷ []) best s e
        (f ∙ sym (append_assoc pre (c ∷ []) s))
        (append-HasNoSlash pre (c ∷ []) h (ground arith, tt)))
]

-- The file name is the end of the path, and holds no slash.
get_filename-HasNoSlash :
    (path : Bytes)
    → ((dir : Bytes) × (path ≡ dir ++ get_filename path)) × HasNoSlash (get_filename path)
unfolding get_filename
get_filename-HasNoSlash path = filename_from-HasNoSlash path [] [] path path refl refl tt
