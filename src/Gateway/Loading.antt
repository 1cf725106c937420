-- ===== src/Gateway/Loading.antt =====
-- What load_subscriptions of src/main.c loads.
use bacnet_event_server.Base.{
  ℕ, zero, suc, ◌-◌, ◌≤◌, ◌≡◌, refl, ap, sym, ◌∙◌, Bool, List, [], ◌∷◌, Option, some, arith, length,
  take, if◌then◌else◌, leb, Option-cases, Bool-cases, inl, inr, length-take,
}
use bacnet_event_server.Base.Json.{CJson}
use bacnet_event_server.Base.Words.{Fpu}
use bacnet_event_server.Gateway.Events.{
  Subscription, max_subscriptions, is_skipped, entry_of, add_entry, load_loop, load_devices,
}

-- The devices that pass a test.
abbrev pub keep {ℓ} : {A : Type ℓ} → (A → Bool) → List A → List A
keep drop [] = []
keep drop (x ∷ xs) = let rest = keep drop xs in if drop x then rest else x ∷ rest

-- The entries of all devices, if each has one.
abbrev pub entries : {J : Type 0} → (J → Option Subscription) → List J → Option (List Subscription)
entries f [] = some []
entries f (x ∷ xs) = add_entry (f x) (entries f xs)

entries-take_nil :
    {J : Type 0} (f : J → Option Subscription) (n : ℕ) → entries f (take n []) ≡ some []
entries-take_nil f zero = refl
entries-take_nil f (suc n) = refl

module _ {J : Type 0} (cj : CJson J) (fpu : Fpu) where
  load_loop-entries :
      (count : ℕ) (devices : List J)
      → load_loop cj fpu count devices
        ≡ entries
            (entry_of cj fpu)
            (take (max_subscriptions - count) (keep (is_skipped cj fpu) devices))
  unfolding load_loop
  load_loop-entries count [] = sym (entries-take_nil (entry_of cj fpu) (max_subscriptions - count))
  load_loop-entries count (device ∷ devices) = elim (Bool-cases (leb max_subscriptions count)) [
    | inl full ↦
        let none_left : max_subscriptions - count ≡ 0 = ground arith in rw (full, none_left) refl
    | inr room ↦
        let left : max_subscriptions - count ≡ suc (max_subscriptions - suc count) = ground arith in
        elim (Bool-cases (is_skipped cj fpu device)) [
          | inl skipped ↦ rw (room, skipped) (load_loop-entries count devices)
          | inr taken ↦
              rw (room, taken, left)
                (ap (add_entry (entry_of cj fpu device)) (load_loop-entries (suc count) devices))
        ]
  ]

  length-entries :
      (devices : List J) (subs : List Subscription)
      → entries (entry_of cj fpu) devices ≡ some subs
      → length subs ≡ length devices
  length-entries [] subs e = ground arith
  length-entries (device ∷ devices) subs e = elim (Option-cases (entry_of cj fpu device)) [
    | inl fault ↦ absurd (cc (rw fault at e))
    | inr (entry, found) ↦ elim (Option-cases (entries (entry_of cj fpu) devices)) [
      | inl fault ↦ absurd (cc (rw (found, fault) at e))
      | inr (rest, loaded) ↦
          ground (arith, length-entries devices rest loaded, rw (found, loaded) at e)
    ]
  ]

  -- The subscriptions that are loaded are the entries of the first 32 devices that have an identifier
  -- and a stream and are not disabled, in the order of the file; so they fit g_subscriptions.
  pub load_devices-first :
      (devices : List J) (subs : List Subscription)
      → load_devices cj fpu (some devices) ≡ some subs
      → (entries (entry_of cj fpu) (take 32 (keep (is_skipped cj fpu) devices)) ≡ some subs)
        × (length subs ≤ 32)
  load_devices-first devices subs e =
      let same = sym (load_loop-entries 0 devices) ∙ e in
      (
        same,
        omega (
          arith,
          length-entries (take 32 (keep (is_skipped cj fpu) devices)) subs same,
          length-take 32 (keep (is_skipped cj fpu) devices),
        ),
      )
