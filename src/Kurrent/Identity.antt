-- ===== src/Kurrent/Identity.antt =====
-- Which subscription an acknowledgement of src/kurrentdb_client.c is sent for.
use bacnet_event_server.Base.{
  ℕ, suc, ◌+◌, ◌-◌, ◌≤◌, ◌≡◌, ◌≢◌, refl, sym, ap, subst, ◌∙◌, Bool, true, false, List, [], ◌∷◌,
  ◌++◌, none, some, Bytes, codes, copy_string, str_eq, str_eq_sound, str_eq_refl, arith, length,
  append_assoc, append-nil, length-append, take_enough, Bool-cases, inl, inr, leb, ◌⊎◌, ◌*◌,
}
use bacnet_event_server.Base.Decimal.{
  print_nat, print_nat-AreDigits, AreDigits, print_nat-injective,
}
use bacnet_event_server.Kurrent.Curl.{Request, post, Curl}
use bacnet_event_server.Kurrent.Client.{Subscription, Client, login_of}
use bacnet_event_server.Kurrent.Subscriptions.{
  Subscribe, id_text, new_subscription, grown, subscribe_persistent, find_subscription, ack_event,
  nak_event, send_event, send_create, create_request, out_id,
}

digits_no_dash : (d s t : Bytes) → AreDigits d → d ≢ s ++ b'-' ∷ t
digits_no_dash [] [] t h e = ground (arith, e)
digits_no_dash [] (c ∷ s) t h e = ground (arith, e)
digits_no_dash (x ∷ d) [] t (y, h) e = ground (arith, e)
digits_no_dash (x ∷ d) (c ∷ s) t (y, h) e = digits_no_dash d s t h (ground (arith, e))

-- The digits behind the last dash.
same_tail : (s t d e : Bytes) → AreDigits d → AreDigits e → s ++ b'-' ∷ d ≡ t ++ b'-' ∷ e → d ≡ e
same_tail [] [] d e h k p = ground (arith, p)
same_tail [] (c ∷ t) d e h k p = absurd (digits_no_dash d t e h (ground (arith, p)))
same_tail (c ∷ s) [] d e h k p = absurd (digits_no_dash e s d k (ground (arith, sym p)))
same_tail (c ∷ s) (b ∷ t) d e h k p = same_tail s t d e h k (ground (arith, p))

id_split :
    (stream group : Bytes) (n : ℕ)
    → id_text stream group n
      ≡ (codes "sub-" ++ (stream ++ (codes "-" ++ group))) ++ b'-' ∷ print_nat n
id_split stream group n = sym (simp append_assoc)

id_text-injective : (s g s' g' : Bytes) (m n : ℕ) → id_text s g m ≡ id_text s' g' n → m ≡ n
id_text-injective s g s' g' m n e = print_nat-injective m n (
    same_tail (codes "sub-" ++ (s ++ (codes "-" ++ g))) (codes "sub-" ++ (s' ++ (codes "-" ++ g')))
      (print_nat m) (print_nat n) (print_nat-AreDigits m) (print_nat-AreDigits n)
      (sym (id_split s g m) ∙ e ∙ id_split s' g' n))

-- The subscriptions from index `first` on carry their own index, uncut.
abbrev pub AreNumbered : ℕ → List Subscription → Type 0
AreNumbered first [] = Unit {0}
AreNumbered first (sub ∷ subs) =
    (sub.subscription_id ≡ id_text sub.stream_name sub.group_name first)
    × AreNumbered (suc first) subs

append-AreNumbered :
    (first : ℕ) (subs : List Subscription) (sub : Subscription)
    → AreNumbered first subs
    → sub.subscription_id ≡ id_text sub.stream_name sub.group_name (first + length subs)
    → AreNumbered first (subs ++ sub ∷ [])
append-AreNumbered first [] sub h e = (ground (arith, e), tt)
append-AreNumbered first (s ∷ subs) sub (x, h) e =
    let shifted : first + suc (length subs) ≡ suc first + length subs = omega arith in
    (x, append-AreNumbered (suc first) subs sub h (rw shifted at e))

find-append :
    (first : ℕ) (subs : List Subscription) (sub : Subscription)
    → AreNumbered first subs
    → sub.subscription_id ≡ id_text sub.stream_name sub.group_name (first + length subs)
    → find_subscription (subs ++ sub ∷ []) sub.subscription_id ≡ some sub
unfolding find_subscription
find-append first [] sub h e = rw (str_eq_refl sub.subscription_id) refl
find-append first (s ∷ subs) sub (x, h) e =
    let shifted : first + suc (length subs) ≡ suc first + length subs = omega arith in
    let later = find-append (suc first) subs sub h (rw shifted at e) in
    elim (Bool-cases (str_eq s.subscription_id sub.subscription_id)) [
      | inl same ↦ absurd (
          omega (
            arith,
            id_text-injective s.stream_name s.group_name sub.stream_name sub.group_name first
                (first + suc (length subs))
                (sym x ∙ str_eq_sound s.subscription_id sub.subscription_id same ∙ e),
          ))
      | inr other ↦ rw other later
    ]

-- The request about an event of a stream's group.
abbrev pub about : Client → Bytes → Bytes → Bytes → Request
about c stream group rest = record {
  url = copy_string 512 (
      c.address.base_url
      ++ (codes "/subscriptions/" ++ (stream ++ (codes "/" ++ (group ++ rest)))));
  method = post;
  headers = [];
  body = [];
  login = login_of c;
}

module _ {W : Type 0} (curl : Curl W) where
  added :
      (r : Subscribe) (stream group : Bytes) (c : Client)
      → AreNumbered 0 c.subscriptions
      → length (id_text stream group (length c.subscriptions)) ≤ 127
      → let sub = new_subscription r stream group (length c.subscriptions) in
        (sub.subscription_id ≡ id_text sub.stream_name sub.group_name (0 + length c.subscriptions))
        × (sub.stream_name ≡ stream)
        × (sub.group_name ≡ group)
  unfolding new_subscription
  added r stream group c numbered fits =
      let index = length c.subscriptions in
      let long =
        length-append (codes "sub-")
          (stream ++ (codes "-" ++ (group ++ (codes "-" ++ print_nat index)))) in
      let middle = length-append stream (codes "-" ++ (group ++ (codes "-" ++ print_nat index))) in
      let last = length-append group (codes "-" ++ print_nat index) in
      let s = take_enough 255 stream (omega (arith, long, middle, last, fits)) in
      let g = take_enough 127 group (omega (arith, long, middle, last, fits)) in
      let whole = take_enough 127 (id_text stream group index) fits in
      (rw (s, g, whole) (ground arith), s, g)

  ack_found :
      (c : Client) (w : W) (id stream group event_id : Bytes) (sub : Subscription)
      → find_subscription c.subscriptions id ≡ some sub
      → sub.stream_name ≡ stream
      → sub.group_name ≡ group
      → (ack_event curl c w id event_id
          ≡ send_event curl (about c stream group (codes "/ack/" ++ event_id)) (curl.easy_init w))
        × (nak_event curl c w id event_id
            ≡ send_event curl
                (about c stream group (codes "/nack/" ++ (event_id ++ codes "?action=retry")))
                (curl.easy_init w))
  unfolding ack_event nak_event
  ack_found c w id stream group event_id sub found s g =
      (rw (found, s, g, append-nil event_id) refl, rw (found, s, g) refl)

  grown_lem :
      (allocated : Bool) (c : Client)
      → (grown allocated c ≡ none)
        ⊎ ((k : ℕ) × (grown allocated c ≡ some (record c { subscription_capacity = k })))
  unfolding grown
  grown_lem true c = elim (Bool-cases (leb c.subscription_capacity (length c.subscriptions))) [
    | inl full ↦ inr (c.subscription_capacity * 2, rw full refl)
    | inr room ↦ inr (c.subscription_capacity, rw room refl)
  ]
  grown_lem false c = elim (Bool-cases (leb c.subscription_capacity (length c.subscriptions))) [
    | inl full ↦ inl (rw full refl)
    | inr room ↦ inr (c.subscription_capacity, rw room refl)
  ]

  out_whole : (n : ℕ) (id : Bytes) → length id ≤ 127 → 128 ≤ n → out_id n id ≡ id
  out_whole n id h k = ground (arith, take_enough (n - 1) id (omega arith))

  -- A subscription that is created with success while all identifiers are whole, its own included, keeps
  -- them whole and numbered, and events are acknowledged and refused under the identifier that the
  -- caller got at the URL of exactly its stream and group.
  pub ack-subscribe :
      (allocated : Bool) (c : Client) (w : W) (r : Subscribe) (stream group event_id : Bytes)
      → AreNumbered 0 c.subscriptions
      → r.stream_name ≡ some stream
      → r.group_name ≡ some group
      → r.has_event_callback ≡ true
      → length (id_text stream group (length c.subscriptions)) ≤ 127
      → 128 ≤ r.id_size
      → grown allocated c ≢ none
      → let result = subscribe_persistent curl allocated c w r in
        let id = id_text stream group (length c.subscriptions) in
        (result.2 ≡ some id)
        × AreNumbered 0 result.0.subscriptions
        × (ack_event curl result.0 result.1 id event_id
            ≡ send_event curl
                (about c stream group (codes "/ack/" ++ event_id))
                (curl.easy_init result.1))
        × (nak_event curl result.0 result.1 id event_id
            ≡ send_event curl
                (about c stream group (codes "/nack/" ++ (event_id ++ codes "?action=retry")))
                (curl.easy_init result.1))
  unfolding subscribe_persistent ack_event nak_event
  ack-subscribe allocated c w r stream group event_id numbered s g callback fits room allowed =
      elim (grown_lem allocated c) [
        | inl failed ↦ absurd (allowed failed)
        | inr (k, grew) ↦
            let index = length c.subscriptions in
            let sub = new_subscription r stream group index in
            let (named, stream_whole, group_whole) = added r stream group c numbered fits in
            let id_whole : sub.subscription_id ≡ id_text stream group index =
              named ∙ rw (stream_whole, group_whole) (ground arith) in
            let c' : Client = record c {
              subscription_capacity = k;
              subscriptions = c.subscriptions ++ sub ∷ [];
            } in
            let w' = send_create curl (create_request c stream group) (curl.easy_init w) in
            let found =
              subst (λ id. find_subscription (c.subscriptions ++ sub ∷ []) id ≡ some sub) id_whole
                (find-append 0 c.subscriptions sub numbered named) in
            let (acked, refused) =
              ack_found c' w' (id_text stream group index) stream group event_id sub found
                stream_whole group_whole in
            rw (s, g, callback, grew)
              (
                ap some (
                    out_whole r.id_size sub.subscription_id
                      (subst (λ id. length id ≤ 127) (sym id_whole) fits) room
                    ∙ id_whole),
                append-AreNumbered 0 c.subscriptions sub numbered named,
                acked,
                refused,
              )
      ]
