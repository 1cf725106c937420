-- ===== src/Kurrent/CaughtUp.antt =====
-- Catching up with a stream that src/kurrentdb_client.c reads page by page.
use bacnet_event_server.Base.{
  ℕ, zero, suc, ◌+◌, ◌-◌, ◌*◌, ◌^◌, min, ◌<◌, ◌≤◌, ◌≡◌, refl, sym, ap, ◌∙◌, true, List, [], ◌∷◌,
  ◌++◌, some, Bytes, arith, Bool-cases, inl, inr, map, ◌==◌,
}
use mathlib.Core.List.{reverse, reverse-reverse, map-append}
use bacnet_event_server.Base.Words.{Fpu, inc64}
use bacnet_event_server.Kurrent.Curl.{Curl}
use bacnet_event_server.Kurrent.Client.{Client}
use bacnet_event_server.Kurrent.Events.{
  Pages, Event, entries_of_body, catchup_entries, caught_event, number_in, member,
}
use bacnet_event_server.Kurrent.Catchup.{
  catchup_request, catchup_loop, ask, progress_of_entries, forward,
}

-- `count` numbers from `first` on.
abbrev pub count_up : ℕ → ℕ → List ℕ
count_up first zero = []
count_up first (suc count) = first ∷ count_up (suc first) count

count_up-append :
    (first a b : ℕ) → count_up first a ++ count_up (first + a) b ≡ count_up first (a + b)
count_up-append first zero b = ground arith
count_up-append first (suc a) b =
    let shifted : first + suc a ≡ suc first + a = omega arith in
    let total : suc a + b ≡ suc (a + b) = omega arith in
    rw (shifted, total) (ap (λ r. first ∷ r) (count_up-append (suc first) a b))

-- A server that keeps a stream of `last` events and is not stopped: it answers a request from a position
-- with a page of at most 100 events from there on, the newest first.
pub record ServesStream {W J : Type 0} (curl : Curl W) (pages : Pages J) (fpu : Fpu) (c : Client)
    (stream : Bytes) (last : ℕ) (entry : ℕ → J) : Type 0 where
  pub bounded : last < 2 ^ 64
  pub runs : (w : W) → curl.is_running w ≡ true
  pub opens : (w : W) → (curl.easy_init w).1 ≡ true
  pub numbered :
      (k : ℕ) → k < last → number_in pages fpu (member pages fpu (entry k) "eventNumber") ≡ some k
  pub answers :
      (w : W) (p : ℕ) → p ≤ last → (curl.perform w (catchup_request c stream p)).1.code ≡ 0
  pub lists :
      (w : W) (p : ℕ)
      → p ≤ last
      → entries_of_body pages fpu (curl.perform w (catchup_request c stream p)).1.body
        ≡ some (reverse (map entry (count_up p (min 100 (last - p)))))

progress-reverse :
    {J : Type 0} (x : J) (xs : List J)
    → progress_of_entries (some (reverse (x ∷ xs))) ≡ forward (x ∷ xs)
progress-reverse {J} x xs = go (reverse (x ∷ xs)) refl
  where
    go : (l : List J) → l ≡ reverse (x ∷ xs) → progress_of_entries (some l) ≡ forward (x ∷ xs)
    go [] e = absurd (cc (ap reverse e ∙ reverse-reverse (x ∷ xs)))
    go (y ∷ l) e = ap forward (ap reverse e ∙ reverse-reverse (x ∷ xs))

module _ {W J : Type 0} (curl : Curl W) (pages : Pages J) (fpu : Fpu) (c : Client) (stream : Bytes)
    (last : ℕ) (entry : ℕ → J) (serves : ServesStream curl pages fpu c stream last entry) where
  entries-count_up :
      (count p : ℕ)
      → p + count ≤ last
      → catchup_entries pages fpu p (map entry (count_up p count))
        ≡ (p + count, map (caught_event pages fpu) (map entry (count_up p count)))
  unfolding catchup_entries
  entries-count_up zero p h = ground arith
  entries-count_up (suc count) p h =
      let step : inc64 p ≡ suc p = omega (arith, serves.bounded) in
      ground
        (arith, step, serves.numbered p (omega arith), entries-count_up count (suc p) (omega arith))

  abbrev after : W → ℕ → W
  after w p = (curl.perform (curl.easy_init w).0 (catchup_request c stream p)).0

  ask-page :
      (w : W) (p : ℕ)
      → p ≤ last
      → ask curl pages fpu c stream p (curl.easy_init w) ≡ (
        after w p,
        progress_of_entries (some (reverse (map entry (count_up p (min 100 (last - p)))))),
      )
  ask-page w p h =
      let w1 = (curl.easy_init w).0 in
      ground (arith, serves.opens w, serves.answers w1 p h, serves.lists w1 p h)

  abbrev delivered : ℕ → ℕ → List Event
  delivered p n = map (caught_event pages fpu) (map entry (count_up p n))

  delivered-append : (p a b : ℕ) → delivered p a ++ delivered (p + a) b ≡ delivered p (a + b)
  delivered-append p a b =
      sym (
        map-append (caught_event pages fpu) (map entry (count_up p a))
          (map entry (count_up (p + a) b)))
      ∙ ap (map (caught_event pages fpu)) (
          sym (map-append entry (count_up p a) (count_up (p + a) b))
          ∙ ap (map entry) (count_up-append p a b))

  -- One round that finds a page, and the rest of the rounds.
  catchup_page :
      (fuel p n : ℕ) (w w' : W)
      → p ≤ last
      → min 100 (last - p) ≡ suc n
      → catchup_loop curl pages fpu fuel c stream (p + suc n) (after w p)
        ≡ some (w', delivered (p + suc n) (last - (p + suc n)))
      → catchup_loop curl pages fpu (suc fuel) c stream p w ≡ some (w', delivered p (last - p))
  unfolding catchup_loop
  catchup_page fuel p n w w' h m rest =
      let total : suc n + (last - (p + suc n)) ≡ last - p = omega arith in
      let page = rw m at (ask-page w p h) in
      let joined = rw total at (delivered-append p (suc n) (last - (p + suc n))) in
      let listed = progress-reverse (entry p) (map entry (count_up (suc p) n)) in
      ground
        (arith, serves.runs w, page, listed, entries-count_up (suc n) p (omega arith), rest, joined)

  catchup_end :
      (fuel p : ℕ) (w : W)
      → p ≤ last
      → last - p ≡ 0
      → catchup_loop curl pages fpu (suc fuel) c stream p w
        ≡ some (after w p, delivered p (last - p))
  unfolding catchup_loop
  catchup_end fuel p w h e =
      let nothing : min 100 (last - p) ≡ 0 = omega arith in
      let page = rw nothing at (ask-page w p h) in rw e (ground (arith, serves.runs w, page))

  -- Catching up ends: with a round for each hundred events from the position on and one more, the thread
  -- stops by itself, and it has delivered exactly the events from the position to the end of the stream,
  -- each once and in order.
  pub catchup-delivers :
      (fuel p : ℕ) (w : W)
      → p ≤ last
      → last - p + 100 ≤ 100 * fuel
      → (w' : W) × (catchup_loop curl pages fpu fuel c stream p w
          ≡ some (w', map (caught_event pages fpu) (map entry (count_up p (last - p)))))
  unfolding catchup_loop
  catchup-delivers zero p w h k = absurd (omega arith)
  catchup-delivers (suc fuel) p w h k = elim (Bool-cases (last - p == 0)) [
    | inl done ↦ (after w p, catchup_end fuel p w h (ground arith))
    | inr more ↦
        let n = min 100 (last - p) - 1 in
        let m : min 100 (last - p) ≡ suc n = ground arith in
        let (w', rest) =
          catchup-delivers fuel (p + suc n) (after w p) (omega arith) (omega arith) in
        (w', catchup_page fuel p n w w' h m rest)
  ]
