-- ===== src/Bacnet/Lifetimes.antt =====
-- How long a subscription lives: bacnet_cov_subscribe, bacnet_cov_unsubscribe and
-- bacnet_cov_update_lifetimes of src/bacnet_server.c.
use bacnet_event_server.Base.{
  ℕ, zero, suc, ◌-◌, ◌≡◌, refl, sym, subst, ◌∙◌, ap, Bool, ◌&&◌, List, [], ◌∷◌, Option, none, some,
  arith, if◌then◌else◌, ◌==◌, ltb, leb, ◌||◌, is_some, Option-cases, inl, inr, Bytes, length,
  str_eq_iff, str_eq_refl, none_of_not-is_some,
}
use bacnet_event_server.Bacnet.Model.{Subscription, Server}
use bacnet_event_server.Bacnet.Objects.{find_object}
use bacnet_event_server.Bacnet.Cov.{
  find_subscription, update_lifetimes, Subscribe, subscribe_address, subscribe, renewed,
  new_subscription, renew_subscription, unlink_subscription, cancels, unsubscribe,
}
use bacnet_event_server.Bacnet.Subscriptions.{
  AreDistinct, survivors, survivors-none, survivors-AreDistinct, expire_loop-survivors,
}

-- The subscription that a subscription is after n seconds: gone when its lifetime has run out, and
-- unchanged for ever when the lifetime is 0.
abbrev pub after_seconds : ℕ → Subscription → Option Subscription
after_seconds n sub =
    if sub.lifetime == 0
    then some sub
    else if ltb n sub.lifetime
    then some (record sub { lifetime = sub.lifetime - n })
    else none

abbrev pub then_after : ℕ → Option Subscription → Option Subscription
then_after n none = none
then_after n (some sub) = after_seconds n sub

-- n calls of bacnet_cov_update_lifetimes.
unfoldable pub pass_seconds : ℕ → Server → Server
pass_seconds zero s = s
pass_seconds (suc n) s = pass_seconds n (update_lifetimes s)

find-survivors :
    (subs : List Subscription) (t i pid : ℕ) (address : Bytes)
    → AreDistinct subs
    → find_subscription (survivors subs) t i pid address
      ≡ then_after 1 (find_subscription subs t i pid address)
unfolding find_subscription
find-survivors [] t i pid address d = refl
find-survivors (sub ∷ subs) t i pid address d = ground (
  arith,
  find-survivors subs t i pid address d.1,
  survivors-none subs t i pid address,
  str_eq_iff sub.address address,
)

pub then_after-suc :
    (n : ℕ) (o : Option Subscription) → then_after n (then_after 1 o) ≡ then_after (suc n) o
then_after-suc n none = refl
then_after-suc n (some sub) = ground arith

-- After n calls of bacnet_cov_update_lifetimes a subscriber's subscription is what n seconds make
-- of it: it is there with n less to live if it had more than n, gone if it had from 1 to n, and
-- unchanged if its lifetime was 0.
pub find-pass_seconds :
    (n : ℕ) (s : Server) (t i pid : ℕ) (address : Bytes)
    → AreDistinct s.cov_subscriptions
    → find_subscription (pass_seconds n s).cov_subscriptions t i pid address
      ≡ then_after n (find_subscription s.cov_subscriptions t i pid address)
unfolding pass_seconds update_lifetimes
find-pass_seconds zero s t i pid address d =
    elim (Option-cases (find_subscription s.cov_subscriptions t i pid address)) [
      | inl e ↦ rw e refl
      | inr (sub, e) ↦ rw e (ground arith)
    ]
find-pass_seconds (suc n) s t i pid address d =
    let e = expire_loop-survivors s.cov_subscriptions s.cov_subscription_count in
    find-pass_seconds n (update_lifetimes s) t i pid address
      (rw e (survivors-AreDistinct s.cov_subscriptions d))
    ∙ ap (λ subs. then_after n (find_subscription subs t i pid address)) e
    ∙ ap (then_after n) (find-survivors s.cov_subscriptions t i pid address d)
    ∙ then_after-suc n (find_subscription s.cov_subscriptions t i pid address)

find-renew :
    (now : ℕ) (confirmed : Bool) (lifetime : ℕ) (subs : List Subscription) (t i pid : ℕ)
    (address : Bytes) (old : Subscription)
    → find_subscription subs t i pid address ≡ some old
    → find_subscription
        (renew_subscription (renewed now confirmed lifetime) subs t i pid address)
        t
        i
        pid
        address
      ≡ some (renewed now confirmed lifetime old)
unfolding find_subscription renew_subscription
find-renew now confirmed lifetime [] t i pid address old e = cc
find-renew now confirmed lifetime (sub ∷ subs) t i pid address old e =
    ground (arith, find-renew now confirmed lifetime subs t i pid address old)

-- The subscription that an accepted call leaves for its subscriber.
abbrev pub granted : ℕ → Subscribe → Bytes → Option Subscription → Subscription
granted now r address none = new_subscription now r address
granted now r address (some old) = renewed now r.confirmed r.lifetime old

find-new :
    (now : ℕ) (r : Subscribe) (address : Bytes) (subs : List Subscription)
    → find_subscription
        (new_subscription now r address ∷ subs)
        r.object_type
        r.object_instance
        r.process_id
        address
      ≡ some (new_subscription now r address)
unfolding find_subscription
find-new now r address subs = ground (arith, str_eq_refl address)

-- The subscription that the caller of bacnet_cov_subscribe has.
abbrev pub own : Server → Subscribe → Bytes → Option Subscription
own s r address =
    find_subscription s.cov_subscriptions r.object_type r.object_instance r.process_id address

-- What bacnet_cov_subscribe promises of a state and an answer.
abbrev pub Grants : Bool → ℕ → Server → Subscribe → Bytes → Server × Bool → Type 0
Grants allocated now s r address w =
    (w.1 ≡ (
      leb (length address) 32
      && is_some (find_object s.objects r.object_type r.object_instance)
      && ltb s.cov_subscription_count s.config.max_cov_subscriptions
      && (is_some (own s r address) || allocated)))
    × (own w.0 r address
        ≡ (if w.1 then some (granted now r address (own s r address)) else own s r address))
    × (w.0 ≡ (if w.1 then w.0 else s))

subscribe_address-Grants :
    (allocated : Bool) (now : ℕ) (s : Server) (r : Subscribe) (address : Bytes)
    → Grants allocated now s r address (subscribe_address allocated now s r (some address))
unfolding subscribe_address
subscribe_address-Grants allocated now s r address = elim (Option-cases (own s r address)) [
  | inl new ↦ ground (arith, find-new now r address s.cov_subscriptions)
  | inr (old, found) ↦ ground (
    arith,
    find-renew now r.confirmed r.lifetime s.cov_subscriptions r.object_type r.object_instance
        r.process_id address old,
  )
]

-- A call of bacnet_cov_subscribe with an address is accepted exactly if the address has at most 32
-- bytes, the object exists, the subscription count is below its limit, and memory suffices unless
-- the subscriber is known; then the subscriber has a new or a renewed subscription, with the
-- lifetime and the confirmation of the call. A refused call changes nothing.
pub subscribe-Grants :
    (allocated : Bool) (now : ℕ) (s : Server) (r : Subscribe) (address : Bytes)
    → r.address ≡ some address
    → Grants allocated now s r address (subscribe allocated now s r)
unfolding subscribe
subscribe-Grants allocated now s r address e =
    subst (λ a. Grants allocated now s r address (subscribe_address allocated now s r a)) (sym e)
      (subscribe_address-Grants allocated now s r address)

find-unlink_self :
    (subs : List Subscription) (t i pid : ℕ) (address : Bytes)
    → AreDistinct subs
    → find_subscription (unlink_subscription subs t i pid (some address)) t i pid address ≡ none
unfolding find_subscription unlink_subscription
find-unlink_self [] t i pid address d = refl
find-unlink_self (sub ∷ subs) t i pid address d =
    ground (arith, find-unlink_self subs t i pid address d.1, str_eq_iff sub.address address)

cancels-find :
    (subs : List Subscription) (t i pid : ℕ) (address : Bytes)
    → cancels subs t i pid (some address) ≡ is_some (find_subscription subs t i pid address)
unfolding cancels find_subscription
cancels-find [] t i pid address = refl
cancels-find (sub ∷ subs) t i pid address = ground (arith, cancels-find subs t i pid address)

-- A call of bacnet_cov_unsubscribe with an address is accepted exactly if the subscriber has a
-- subscription, and afterwards it has none.
pub unsubscribe_lem :
    (s : Server) (t i pid : ℕ) (address : Bytes)
    → AreDistinct s.cov_subscriptions
    → ((unsubscribe s t i pid (some address)).1
        ≡ is_some (find_subscription s.cov_subscriptions t i pid address))
      × (find_subscription
            (unsubscribe s t i pid (some address)).0.cov_subscriptions
            t
            i
            pid
            address
          ≡ none)
unfolding unsubscribe
unsubscribe_lem s t i pid address d = ground (
  arith,
  cancels-find s.cov_subscriptions t i pid address,
  find-unlink_self s.cov_subscriptions t i pid address d,
  none_of_not-is_some (find_subscription s.cov_subscriptions t i pid address),
)
