-- ===== src/Bacnet/Invariant.antt =====
-- The calls of the server as commands, and its well-formedness invariant.
use bacnet_event_server.Base.{
  ℕ, ◌%◌, ◌^◌, ◌⊎◌, ◌<◌, ◌≤◌, ◌≡◌, refl, Bool, true, ◌&&◌, List, [], ◌∷◌, Option, none, some, arith,
  length, Bytes, inl, inr, Bool-cases, none_of_not-is_some,
}
use bacnet_event_server.Base.Words.{u64_mod, Fpu}
use bacnet_event_server.Bacnet.Model.{Value, Object, Config, Server}
use bacnet_event_server.Bacnet.Objects.{
  find_object, Request, new_object, add_object, create_named, create_object, delete_object,
  set_value, store_value, reset_stats, server_create, server_start, server_stop,
}
use bacnet_event_server.Bacnet.Cov.{
  Subscribe, subscribe_address, subscribe, unsubscribe, update_lifetimes, send_notifications,
  update_found, update_value, set_cov_value, values_differ_by_increment, renewed, find_subscription,
}
use bacnet_event_server.Bacnet.Registry.{
  IsDistinct, length-unlink, length-modify, unlink-IsDistinct, modify-IsDistinct,
}
use bacnet_event_server.Bacnet.Subscriptions.{
  AreDistinct, survivors, expire_loop-survivors, expire_loop-count, length-survivors-le,
  survivors-AreDistinct, length-renew, renew-AreDistinct, unlink-AreDistinct,
}
use bacnet_event_server.Bacnet.Subscriptions

-- A call of the public interface, with what the environment answers (memory, time, threads).
pub data Command : Type 0 where
  starts : (linked threaded : Bool) → Command
  stops : Command
  creates : (allocated : Bool) (now : ℕ) → Request → Command
  deletes : (object_type object_instance : ℕ) → Command
  updates : (now object_type object_instance : ℕ) → Option Value → (check_cov : Bool) → Command
  notifies : (object_type object_instance : ℕ) → Command
  ticks : Command
  subscribes : (allocated : Bool) (now : ℕ) → Subscribe → Command
  unsubscribes : (object_type object_instance process_id : ℕ) → Option Bytes → Command
  resets : Command

-- The state and the return value of a call; a call without a return value answers true.
unfoldable pub call : Fpu → Server → Command → Server × Bool
call fpu s (starts linked threaded) = server_start linked threaded s
call fpu s stops = (server_stop s, true)
call fpu s (creates allocated now r) = create_object allocated now s r
call fpu s (deletes t i) = delete_object s t i
call fpu s (updates now t i v check) = update_value fpu now s t i v check
call fpu s (notifies t i) = send_notifications fpu s t i
call fpu s ticks = (update_lifetimes s, true)
call fpu s (subscribes allocated now r) = subscribe allocated now s r
call fpu s (unsubscribes t i pid address) = unsubscribe s t i pid address
call fpu s resets = (reset_stats s, true)

unfoldable pub run : Fpu → Server → List Command → Server
run fpu s [] = s
run fpu s (c ∷ cs) = run fpu (call fpu s c).0 cs

-- The limits are `size_t` values.
pub record IsValid (s : Server) : Type 0 where
  pub max_objects_fits : s.config.max_objects < u64_mod
  pub max_subscriptions_fits : s.config.max_cov_subscriptions < u64_mod
  pub objects_counted : s.object_count ≡ length s.objects
  pub objects_bounded : s.object_count ≤ s.config.max_objects
  pub objects_distinct : IsDistinct s.objects
  pub objects_total :
      (s.stats.objects_total ≡ s.object_count) ⊎ (s.stats.objects_total ≡ s.object_count % 2 ^ 32)
  pub subscriptions_counted : s.cov_subscription_count ≡ length s.cov_subscriptions
  pub subscriptions_bounded : s.cov_subscription_count ≤ s.config.max_cov_subscriptions
  pub subscriptions_distinct : AreDistinct s.cov_subscriptions

pub server_create-IsValid :
    (c : Config) (s : Server)
    → c.max_objects < u64_mod
    → c.max_cov_subscriptions < u64_mod
    → server_create true (some c) ≡ some s
    → IsValid s
unfolding server_create
server_create-IsValid c s h k e = ground arith

create_named-IsValid :
    (allocated : Bool) (now : ℕ) (s : Server) (r : Request) (name : Option Bytes)
    → IsValid s
    → IsValid (create_named allocated now s r name).0
unfolding create_named add_object new_object
create_named-IsValid allocated now s r none v = v
create_named-IsValid allocated now s r (some name) v =
    ground (arith, none_of_not-is_some (find_object s.objects r.object_type r.object_instance))

delete_object-IsValid : (s : Server) (t i : ℕ) → IsValid s → IsValid (delete_object s t i).0
unfolding delete_object
delete_object-IsValid s t i v =
    ground (arith, length-unlink s.objects t i, unlink-IsDistinct s.objects t i v.objects_distinct)

send_notifications-IsValid :
    (fpu : Fpu) (s : Server) (t i : ℕ) → IsValid s → IsValid (send_notifications fpu s t i).0
unfolding send_notifications
send_notifications-IsValid fpu s t i v = ground (
  arith,
  length-modify set_cov_value s.objects t i,
  modify-IsDistinct set_cov_value s.objects t i (λ o. (refl, refl)) v.objects_distinct,
)

store_value-IsValid :
    (now : ℕ) (s : Server) (t i : ℕ) (value : Value)
    → IsValid s
    → IsValid (store_value now s t i value)
unfolding store_value
store_value-IsValid now s t i value v = ground (
  arith,
  length-modify (set_value value now) s.objects t i,
  modify-IsDistinct (set_value value now) s.objects t i (λ o. (refl, refl)) v.objects_distinct,
)

update_found-IsValid :
    (fpu : Fpu) (now : ℕ) (s : Server) (t i : ℕ) (value : Value) (check : Bool) (o : Option Object)
    → IsValid s
    → IsValid (update_found fpu now s t i value check o).0
unfolding update_found
update_found-IsValid fpu now s t i value check none v = v
update_found-IsValid fpu now s t i value check (some o) v =
    let stored = store_value-IsValid now s t i value v in
    elim (Bool-cases
      (check && values_differ_by_increment fpu o.present_value value o.cov_increment)) [
        | inl changed ↦
            rw changed (send_notifications-IsValid fpu (store_value now s t i value) t i stored)
        | inr same ↦ rw same stored
      ]

update_value-IsValid :
    (fpu : Fpu) (now : ℕ) (s : Server) (t i : ℕ) (value : Option Value) (check : Bool)
    → IsValid s
    → IsValid (update_value fpu now s t i value check).0
unfolding update_value
update_value-IsValid fpu now s t i none check v = v
update_value-IsValid fpu now s t i (some value) check v =
    update_found-IsValid fpu now s t i value check (find_object s.objects t i) v

update_lifetimes-IsValid : (s : Server) → IsValid s → IsValid (update_lifetimes s)
unfolding update_lifetimes
update_lifetimes-IsValid s v = ground (
  arith,
  expire_loop-survivors s.cov_subscriptions s.cov_subscription_count,
  expire_loop-count s.cov_subscriptions 0 s.cov_subscription_count,
  length-survivors-le s.cov_subscriptions,
  survivors-AreDistinct s.cov_subscriptions v.subscriptions_distinct,
)

subscribe_address-IsValid :
    (allocated : Bool) (now : ℕ) (s : Server) (r : Subscribe) (address : Option Bytes)
    → IsValid s
    → IsValid (subscribe_address allocated now s r address).0
unfolding subscribe_address
subscribe_address-IsValid allocated now s r none v = v
subscribe_address-IsValid allocated now s r (some address) v = ground (
  arith,
  none_of_not-is_some
      (find_subscription s.cov_subscriptions r.object_type r.object_instance r.process_id address),
  length-renew (renewed now r.confirmed r.lifetime) (λ sub. (refl, refl, refl, refl))
      s.cov_subscriptions r.object_type r.object_instance r.process_id address,
  renew-AreDistinct (renewed now r.confirmed r.lifetime) (λ sub. (refl, refl, refl, refl))
      s.cov_subscriptions r.object_type r.object_instance r.process_id address
      v.subscriptions_distinct,
)

unsubscribe-IsValid :
    (s : Server) (t i pid : ℕ) (address : Option Bytes)
    → IsValid s
    → IsValid (unsubscribe s t i pid address).0
unfolding unsubscribe
unsubscribe-IsValid s t i pid address v = ground (
  arith,
  Subscriptions.length-unlink s.cov_subscriptions t i pid address,
  unlink-AreDistinct s.cov_subscriptions t i pid address v.subscriptions_distinct,
)

-- Every call keeps the counts, the limits and the keys.
pub call-IsValid : (fpu : Fpu) (s : Server) (c : Command) → IsValid s → IsValid (call fpu s c).0
unfolding call create_object subscribe
call-IsValid fpu s (starts linked threaded) v = unfold server_start in ground arith
call-IsValid fpu s stops v = unfold server_stop in ground arith
call-IsValid fpu s (creates allocated now r) v = create_named-IsValid allocated now s r r.name v
call-IsValid fpu s (deletes t i) v = delete_object-IsValid s t i v
call-IsValid fpu s (updates now t i value check) v =
    update_value-IsValid fpu now s t i value check v
call-IsValid fpu s (notifies t i) v = send_notifications-IsValid fpu s t i v
call-IsValid fpu s ticks v = update_lifetimes-IsValid s v
call-IsValid fpu s (subscribes allocated now r) v =
    subscribe_address-IsValid allocated now s r r.address v
call-IsValid fpu s (unsubscribes t i pid address) v = unsubscribe-IsValid s t i pid address v
call-IsValid fpu s resets v = unfold reset_stats in ground arith
