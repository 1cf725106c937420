-- ===== src/Health/Requests.antt =====
-- Request lines that src/health_api.c takes apart.
use bacnet_event_server.Base.{
  ℕ, zero, suc, ◌≤◌, ◌≡◌, ◌≢◌, refl, ap, ◌∙◌, false, [], ◌∷◌, ◌++◌, some, Bytes, codes, str_eq,
  if◌then◌else◌, length, All, arith,
}
use bacnet_event_server.Base.Scan.{is_space, skip_spaces}
use bacnet_event_server.Health.Http.{
  until_nul, take_word, non_empty, scan_word, request_line, not_allowed, route_of, route_request,
  route_words, ApiState, World, serve_route, handle_request,
}

-- A word without white space and NUL.
unfoldable pub IsWordText : Bytes → Type 0
IsWordText s = All (λ c. (is_space c ≡ false) × (c ≢ 0)) s

take_word-append :
    (n : ℕ) (s rest : Bytes)
    → IsWordText s
    → length s ≤ n
    → take_word n (s ++ 32 ∷ rest) ≡ (s, 32 ∷ rest)
unfolding take_word IsWordText
take_word-append zero [] rest h k = refl
take_word-append zero (c ∷ s) rest h k = absurd (omega (arith, k))
take_word-append (suc n) [] rest h k = refl
take_word-append (suc n) (c ∷ s) rest ((plain, present), h) k =
    rw (plain, take_word-append n s rest h (omega arith)) refl

scan_word-append :
    (n c : ℕ) (s rest : Bytes)
    → IsWordText (c ∷ s)
    → length (c ∷ s) ≤ n
    → scan_word n ((c ∷ s) ++ 32 ∷ rest) ≡ some (c ∷ s, 32 ∷ rest)
unfolding scan_word skip_spaces IsWordText
scan_word-append n c s rest h k = rw (h.0).0 (ap non_empty (take_word-append n (c ∷ s) rest h k))

scan_word-space : (n : ℕ) (s : Bytes) → scan_word n (32 ∷ s) ≡ scan_word n s
unfolding scan_word skip_spaces
scan_word-space n s = refl

until_nul-append :
    (s rest : Bytes) → IsWordText s → until_nul (s ++ 32 ∷ rest) ≡ s ++ 32 ∷ until_nul rest
unfolding until_nul IsWordText
until_nul-append [] rest h = refl
until_nul-append (c ∷ s) rest ((plain, present), h) =
    ground (arith, present, until_nul-append s rest h)

-- A request line of two words is taken apart into them.
request_line-append :
    (a : ℕ) (method : Bytes) (b : ℕ) (path rest : Bytes)
    → IsWordText (a ∷ method)
    → IsWordText (b ∷ path)
    → length (a ∷ method) ≤ 15
    → length (b ∷ path) ≤ 255
    → request_line ((a ∷ method) ++ 32 ∷ ((b ∷ path) ++ 32 ∷ rest)) ≡ some (a ∷ method, b ∷ path)
unfolding request_line
request_line-append a method b path rest h k l m =
    let tail = (b ∷ path) ++ 32 ∷ rest in
    let whole =
      until_nul-append (a ∷ method) tail h
      ∙ ap (λ r. (a ∷ method) ++ 32 ∷ r) (until_nul-append (b ∷ path) rest k) in
    let first = scan_word-append 15 a method ((b ∷ path) ++ 32 ∷ until_nul rest) h l in
    let second =
      scan_word-space 255 ((b ∷ path) ++ 32 ∷ until_nul rest)
      ∙ scan_word-append 255 b path (until_nul rest) k m in
    rw whole (rw first (rw second refl))

-- A request whose line has a method of at most 15 and a path of at most 255 characters, without white space and NUL and each followed by a space, is answered by the handler of the path if the method is GET, and with 405 otherwise, whatever follows.
pub handle_request-routes :
    (fixed : ℕ → ℕ → Bytes) (per_thousand : ℕ → ℕ) {F : Type 0} (w : World F) (s : ApiState F)
    (a : ℕ) (method : Bytes) (b : ℕ) (path rest : Bytes)
    → IsWordText (a ∷ method)
    → IsWordText (b ∷ path)
    → length (a ∷ method) ≤ 15
    → length (b ∷ path) ≤ 255
    → handle_request fixed per_thousand w s ((a ∷ method) ++ 32 ∷ ((b ∷ path) ++ 32 ∷ rest))
      ≡ serve_route fixed per_thousand w s
          (if str_eq (a ∷ method) (codes "GET") then route_of (b ∷ path) else not_allowed)
unfolding handle_request route_request str_eq route_of
handle_request-routes fixed per_thousand w s a method b path rest h k l m =
    ap (λ r. serve_route fixed per_thousand w s (route_words r))
      (request_line-append a method b path rest h k l m)
