-- ===== src/Bacnet/Subscriptions.antt =====
-- The subscription list as a map from subscribers to subscriptions: what each walk does to a lookup.
use bacnet_event_server.Base.{
  ℕ, suc, ◌+◌, ◌<◌, ◌≤◌, ◌≡◌, refl, true, List, [], ◌∷◌, Option, none, arith, length, if◌then◌else◌,
  Bytes, inl, inr, Bool-cases,
}
use bacnet_event_server.Base.Words.{u64_mod, dec64}
use bacnet_event_server.Bacnet.Model.{Subscription}
use bacnet_event_server.Bacnet.Cov.{
  find_subscription, aged, is_expiring, expire_loop, renew_subscription, is_cancelled, cancels,
  unlink_subscription,
}

-- No two subscriptions of the list are of one subscriber to one object.
abbrev pub AreDistinct : List Subscription → Type 0
AreDistinct [] = Unit {0}
AreDistinct (sub ∷ subs) =
    (find_subscription subs sub.object_type sub.object_instance sub.process_id sub.address ≡ none)
    × AreDistinct subs

-- What the walk of bacnet_cov_update_lifetimes leaves, whatever the count.
abbrev pub survivors : List Subscription → List Subscription
survivors [] = []
survivors (sub ∷ subs) =
    let rest = survivors subs in if is_expiring sub then rest else aged sub ∷ rest

pub expire_loop-survivors :
    (subs : List Subscription) (count : ℕ) → (expire_loop subs count).0 ≡ survivors subs
unfolding expire_loop
expire_loop-survivors [] count = refl
expire_loop-survivors (sub ∷ subs) count =
    ground (arith, expire_loop-survivors subs (dec64 count), expire_loop-survivors subs count)

pub expire_loop-count :
    (subs : List Subscription) (n count : ℕ)
    → count ≡ length subs + n
    → count < u64_mod
    → (expire_loop subs count).1 ≡ length (survivors subs) + n
unfolding expire_loop
expire_loop-count [] n count e h = omega arith
expire_loop-count (sub ∷ subs) n count e h =
    ground (arith, expire_loop-count subs n (dec64 count), expire_loop-count subs (suc n) count)

pub length-survivors-le : (subs : List Subscription) → length (survivors subs) ≤ length subs
length-survivors-le [] = omega arith
length-survivors-le (sub ∷ subs) = ground (arith, length-survivors-le subs)

pub survivors-none :
    (subs : List Subscription) (t i pid : ℕ) (address : Bytes)
    → find_subscription subs t i pid address ≡ none
    → find_subscription (survivors subs) t i pid address ≡ none
unfolding find_subscription
survivors-none [] t i pid address h = refl
survivors-none (sub ∷ subs) t i pid address h = ground (arith, survivors-none subs t i pid address)

pub survivors-AreDistinct :
    (subs : List Subscription) → AreDistinct subs → AreDistinct (survivors subs)
survivors-AreDistinct [] d = tt
survivors-AreDistinct (sub ∷ subs) d = ground (
  arith,
  survivors-AreDistinct subs d.1,
  survivors-none subs sub.object_type sub.object_instance sub.process_id sub.address d.0,
)

-- Renewal keeps every key.
module _ (f : Subscription → Subscription)
    (keeps : (sub : Subscription)
      → ((f sub).object_type ≡ sub.object_type)
        × ((f sub).object_instance ≡ sub.object_instance)
        × ((f sub).process_id ≡ sub.process_id)
        × ((f sub).address ≡ sub.address)) where
  pub length-renew :
      (subs : List Subscription) (t i pid : ℕ) (address : Bytes)
      → length (renew_subscription f subs t i pid address) ≡ length subs
  unfolding renew_subscription
  length-renew [] t i pid address = refl
  length-renew (sub ∷ subs) t i pid address = ground (arith, length-renew subs t i pid address)

  pub renew_none :
      (subs : List Subscription) (t i pid : ℕ) (address : Bytes) (t' i' pid' : ℕ) (address' : Bytes)
      → find_subscription subs t' i' pid' address' ≡ none
      → find_subscription (renew_subscription f subs t i pid address) t' i' pid' address' ≡ none
  unfolding renew_subscription find_subscription
  renew_none [] t i pid address t' i' pid' address' h = refl
  renew_none (sub ∷ subs) t i pid address t' i' pid' address' h =
      ground (arith, keeps sub, renew_none subs t i pid address t' i' pid' address')

  pub renew-AreDistinct :
      (subs : List Subscription) (t i pid : ℕ) (address : Bytes)
      → AreDistinct subs
      → AreDistinct (renew_subscription f subs t i pid address)
  unfolding renew_subscription
  renew-AreDistinct [] t i pid address d = tt
  renew-AreDistinct (sub ∷ subs) t i pid address d = ground (
    arith,
    keeps sub,
    renew-AreDistinct subs t i pid address d.1,
    renew_none subs t i pid address sub.object_type sub.object_instance sub.process_id sub.address
        d.0,
  )

pub unlink_none :
    (subs : List Subscription) (t i pid : ℕ) (address : Option Bytes) (t' i' pid' : ℕ)
    (address' : Bytes)
    → find_subscription subs t' i' pid' address' ≡ none
    → find_subscription (unlink_subscription subs t i pid address) t' i' pid' address' ≡ none
unfolding unlink_subscription find_subscription
unlink_none [] t i pid address t' i' pid' address' h = refl
unlink_none (sub ∷ subs) t i pid address t' i' pid' address' h =
    elim (Bool-cases (is_cancelled t i pid address sub)) [
      | inl hit ↦ rw hit (ground arith)
      | inr miss ↦ rw miss (ground (arith, unlink_none subs t i pid address t' i' pid' address'))
    ]

pub unlink-AreDistinct :
    (subs : List Subscription) (t i pid : ℕ) (address : Option Bytes)
    → AreDistinct subs
    → AreDistinct (unlink_subscription subs t i pid address)
unfolding unlink_subscription
unlink-AreDistinct [] t i pid address d = tt
unlink-AreDistinct (sub ∷ subs) t i pid address d =
    elim (Bool-cases (is_cancelled t i pid address sub)) [
      | inl hit ↦ rw hit d.1
      | inr miss ↦ rw miss (
        unlink_none subs t i pid address sub.object_type sub.object_instance sub.process_id
            sub.address d.0,
        unlink-AreDistinct subs t i pid address d.1,
      )
    ]

pub length-unlink :
    (subs : List Subscription) (t i pid : ℕ) (address : Option Bytes)
    → cancels subs t i pid address ≡ true
    → suc (length (unlink_subscription subs t i pid address)) ≡ length subs
unfolding unlink_subscription cancels
length-unlink [] t i pid address h = cc
length-unlink (sub ∷ subs) t i pid address h =
    elim (Bool-cases (is_cancelled t i pid address sub)) [
      | inl hit ↦ rw hit refl
      | inr miss ↦ rw miss (omega (arith, length-unlink subs t i pid address (rw miss at h)))
    ]
