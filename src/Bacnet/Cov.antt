-- ===== src/Bacnet/Cov.antt =====
-- The CoV part of src/bacnet_server.c: the change test, notifications, lifetimes, subscriptions.
pub mod Notifying
unfoldable pub use Notifying.*
use bacnet_event_server.Base.{
  ℕ, suc, ◌-◌, Bool, true, false, not, ◌&&◌, ◌||◌, List, [], ◌∷◌, Option, none, some, Bytes, length,
  str_eq, if◌then◌else◌, ◌==◌, leb, ltb, is_some,
}
use bacnet_event_server.Base.Words.{inc64, dec64, Fpu}
use bacnet_event_server.Bacnet.Model.{
  Value, null, real, double, integer, unsigned, boolean, enumerated, Object, Subscription, Server,
  StackCall, notify,
}
use bacnet_event_server.Bacnet.Objects.{find_object, modify_object, store_value}

-- A subscription one second later, and the test that it has just run out.
abbrev pub aged : Subscription → Subscription
aged sub = if ltb 0 sub.lifetime then record sub { lifetime = sub.lifetime - 1 } else sub

abbrev pub is_expiring : Subscription → Bool
is_expiring sub = ltb 0 sub.lifetime && sub.lifetime - 1 == 0

-- The loop of bacnet_cov_update_lifetimes: the subscriptions left, and the count.
unfoldable pub expire_loop : List Subscription → ℕ → List Subscription × ℕ
expire_loop [] count = ([], count)
expire_loop (sub ∷ subs) count = elim (is_expiring sub) [
  | true ↦ expire_loop subs (dec64 count)
  | false ↦ (aged sub ∷ (expire_loop subs count).0, (expire_loop subs count).1)
]

-- bacnet_cov_update_lifetimes. A lifetime of 0 stays 0.
unfoldable pub update_lifetimes : Server → Server
update_lifetimes s =
    let (subs, count) = expire_loop s.cov_subscriptions s.cov_subscription_count in
    record s { cov_subscriptions = subs; cov_subscription_count = count }

-- The arguments of bacnet_cov_subscribe.
pub record Subscribe : Type 0 where
  pub object_type : ℕ
  pub object_instance : ℕ
  pub process_id : ℕ
  pub address : Option Bytes
  pub confirmed : Bool
  pub lifetime : ℕ

-- The same subscriber: `address` is the block of `address_len` bytes.
abbrev pub is_subscriber : ℕ → ℕ → ℕ → Bytes → Subscription → Bool
is_subscriber t i pid address sub =
    sub.object_type == t
    && sub.object_instance == i
    && sub.process_id == pid
    && length sub.address == length address
    && str_eq sub.address address

unfoldable pub find_subscription : List Subscription → ℕ → ℕ → ℕ → Bytes → Option Subscription
find_subscription [] t i pid address = none
find_subscription (sub ∷ subs) t i pid address =
    if is_subscriber t i pid address sub then some sub else find_subscription subs t i pid address

abbrev pub renewed : ℕ → Bool → ℕ → Subscription → Subscription
renewed now confirmed lifetime sub = record sub {
  lifetime = lifetime;
  confirmed = confirmed;
  subscribed_at = now;
}

-- The walk of bacnet_cov_subscribe that renews the first subscription of the same subscriber.
unfoldable pub renew_subscription :
    (Subscription → Subscription) → List Subscription → ℕ → ℕ → ℕ → Bytes → List Subscription
renew_subscription f [] t i pid address = []
renew_subscription f (sub ∷ subs) t i pid address =
    if is_subscriber t i pid address sub
    then f sub ∷ subs
    else sub ∷ renew_subscription f subs t i pid address

abbrev pub new_subscription : ℕ → Subscribe → Bytes → Subscription
new_subscription now r address = record {
  process_id = r.process_id;
  address = address;
  object_type = r.object_type;
  object_instance = r.object_instance;
  confirmed = r.confirmed;
  lifetime = r.lifetime;
  subscribed_at = now;
}

-- bacnet_cov_subscribe. `allocated` and `now` as in bacnet_server_create_object; the address is the
-- block that the pointer shows, NULL being `none`.
unfoldable pub subscribe_address : Bool → ℕ → Server → Subscribe → Option Bytes → Server × Bool
subscribe_address allocated now s r none = (s, false)
subscribe_address allocated now s r (some address) =
    if ltb 32 (length address)
    then (s, false)
    else if not (is_some (find_object s.objects r.object_type r.object_instance))
    then (s, false)
    else if leb s.config.max_cov_subscriptions s.cov_subscription_count
    then (s, false)
    else if is_some
        (find_subscription s.cov_subscriptions r.object_type r.object_instance r.process_id address)
    then (
      record s {
        cov_subscriptions =
            renew_subscription (renewed now r.confirmed r.lifetime) s.cov_subscriptions
              r.object_type r.object_instance r.process_id address;
      },
      true,
    )
    else if not allocated
    then (s, false)
    else (
      record s {
        cov_subscriptions = new_subscription now r address ∷ s.cov_subscriptions;
        cov_subscription_count = inc64 s.cov_subscription_count;
      },
      true,
    )

unfoldable pub subscribe : Bool → ℕ → Server → Subscribe → Server × Bool
unfolding subscribe_address
subscribe allocated now s r = subscribe_address allocated now s r r.address

-- The test of bacnet_cov_unsubscribe: a NULL address fits every subscriber.
abbrev pub is_cancelled : ℕ → ℕ → ℕ → Option Bytes → Subscription → Bool
is_cancelled t i pid none sub =
    sub.object_type == t && sub.object_instance == i && sub.process_id == pid
is_cancelled t i pid (some address) sub = is_subscriber t i pid address sub

unfoldable pub cancels : List Subscription → ℕ → ℕ → ℕ → Option Bytes → Bool
cancels [] t i pid address = false
cancels (sub ∷ subs) t i pid address =
    is_cancelled t i pid address sub || cancels subs t i pid address

unfoldable pub unlink_subscription :
    List Subscription → ℕ → ℕ → ℕ → Option Bytes → List Subscription
unlink_subscription [] t i pid address = []
unlink_subscription (sub ∷ subs) t i pid address =
    if is_cancelled t i pid address sub
    then subs
    else sub ∷ unlink_subscription subs t i pid address

-- bacnet_cov_unsubscribe.
unfoldable pub unsubscribe : Server → ℕ → ℕ → ℕ → Option Bytes → Server × Bool
unsubscribe s t i pid address =
    if cancels s.cov_subscriptions t i pid address
    then (
      record s {
        cov_subscriptions = unlink_subscription s.cov_subscriptions t i pid address;
        cov_subscription_count = dec64 s.cov_subscription_count;
      },
      true,
    )
    else (s, false)
