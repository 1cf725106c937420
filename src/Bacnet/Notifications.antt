-- ===== src/Bacnet/Notifications.antt =====
-- Who is notified of a change, and of which changes: bacnet_cov_send_notifications and
-- bacnet_server_update_value of src/bacnet_server.c.
use bacnet_event_server.Base.{
  ℕ, ◌+◌, ◌<◌, ◌≡◌, refl, Bool, true, ◌&&◌, List, [], ◌∷◌, ◌++◌, some, arith, if◌then◌else◌, ltb,
  is_some, Option-cases, inl, inr, count_if, append_assoc,
}
use mathlib.Core.List.{reverse, reverse-cons}
use bacnet_event_server.Base.Words.{Fpu, add64, u64_mod}
use bacnet_event_server.Bacnet.Model.{Value, Object, Subscription, StackCall, Server}
use bacnet_event_server.Bacnet.Objects.{find_object, set_value, store_value, stack_update}
use bacnet_event_server.Bacnet.Cov.{
  is_notified, notification, Sending, notify_one, notify_loop, start_sending, send_notifications,
  update_value, values_differ_by_increment,
}
use bacnet_event_server.Bacnet.Registry.{find-modify}

-- The notifications that an object is due, in the order of the subscription list.
abbrev pub due : Fpu → ℕ → Object → List Subscription → List StackCall
due fpu device o [] = []
due fpu device o (sub ∷ subs) =
    let rest = due fpu device o subs in
    if is_notified o.object_type o.object_instance sub
    then notification fpu device o sub ∷ rest
    else rest

abbrev pub active : ℕ → ℕ → List Subscription → ℕ
active t i = count_if (is_notified t i)

notify_loop-sent :
    (fpu : Fpu) (device : ℕ) (o : Object) (subs : List Subscription) (w : Sending)
    → (notify_loop fpu device o subs w).sent ≡ w.sent + active o.object_type o.object_instance subs
unfolding notify_loop
notify_loop-sent fpu device o [] w = omega arith
notify_loop-sent fpu device o (sub ∷ subs) w =
    ground (arith, notify_loop-sent fpu device o subs (notify_one fpu device o sub w))

notify_loop-total :
    (fpu : Fpu) (device : ℕ) (o : Object) (subs : List Subscription) (w : Sending)
    → w.total < u64_mod
    → (notify_loop fpu device o subs w).total
      ≡ add64 w.total (active o.object_type o.object_instance subs)
unfolding notify_loop
notify_loop-total fpu device o [] w h = omega arith
notify_loop-total fpu device o (sub ∷ subs) w h =
    ground (arith, notify_loop-total fpu device o subs (notify_one fpu device o sub w))

reverse-cons-append :
    (x : StackCall) (xs ys : List StackCall) → reverse (x ∷ xs) ++ ys ≡ reverse xs ++ (x ∷ ys)
reverse-cons-append x xs ys = simp (reverse-cons, append_assoc)

notify_loop-calls :
    (fpu : Fpu) (device : ℕ) (o : Object) (subs : List Subscription) (w : Sending)
    → (notify_loop fpu device o subs w).calls ≡ reverse (due fpu device o subs) ++ w.calls
unfolding notify_loop
notify_loop-calls fpu device o [] w = refl
notify_loop-calls fpu device o (sub ∷ subs) w = ground (
  arith,
  notify_loop-calls fpu device o subs (notify_one fpu device o sub w),
  reverse-cons-append (notification fpu device o sub) (due fpu device o subs) w.calls,
)

-- A change is reported: the test of bacnet_server_update_value.
abbrev pub reports : Fpu → Object → Value → Bool → Bool
reports fpu o v check = check && values_differ_by_increment fpu o.present_value v o.cov_increment

find-store :
    (now : ℕ) (s : Server) (t i : ℕ) (v : Value) (o : Object)
    → find_object s.objects t i ≡ some o
    → find_object (store_value now s t i v).objects t i ≡ some (set_value v now o)
unfolding store_value
find-store now s t i v o e =
    ground (arith, find-modify (set_value v now) s.objects t i t i (λ o. (refl, refl)))

find-key :
    (os : List Object) (t i : ℕ) (o : Object)
    → find_object os t i ≡ some o
    → (o.object_type ≡ t) × (o.object_instance ≡ i)
unfolding find_object
find-key [] t i o e = cc
find-key (x ∷ os) t i o e = ground (arith, find-key os t i o)

-- For an object that exists, an update is accepted. If it asks for the CoV check and the values
-- differ by the object's increment, each subscription of the object with time left is notified
-- once, of the new value, in the order of the list, and the counter rises by their number; if not,
-- nobody is notified and the counter stays.
pub update_value-notifies :
    (fpu : Fpu) (now : ℕ) (s : Server) (t i : ℕ) (v : Value) (check : Bool) (o : Object)
    → find_object s.objects t i ≡ some o
    → s.stats.cov_notifications_sent < u64_mod
    → let w = update_value fpu now s t i (some v) check in
      let told = stack_update t i v ++ s.calls in
      (w.1 ≡ true)
      × (w.0.calls ≡ (
          if reports fpu o v check
          then reverse (due fpu s.config.device_instance (set_value v now o) s.cov_subscriptions)
            ++ told
          else told))
      × (w.0.stats.cov_notifications_sent ≡ (
          if reports fpu o v check
          then add64 s.stats.cov_notifications_sent (active t i s.cov_subscriptions)
          else s.stats.cov_notifications_sent))
unfolding update_value store_value send_notifications
update_value-notifies fpu now s t i v check o e h =
    let stored = find-store now s t i v o e in
    let w = start_sending (store_value now s t i v) in
    rw (e, update_value)
      (ground (
        arith,
        stored,
        find-key s.objects t i o e,
        notify_loop-total fpu s.config.device_instance (set_value v now o) s.cov_subscriptions w,
        notify_loop-calls fpu s.config.device_instance (set_value v now o) s.cov_subscriptions w,
      ))

-- bacnet_cov_send_notifications answers true exactly if the object exists and one of its
-- subscriptions has time left.
pub send_notifications_iff :
    (fpu : Fpu) (s : Server) (t i : ℕ)
    → (send_notifications fpu s t i).1
      ≡ (is_some (find_object s.objects t i) && ltb 0 (active t i s.cov_subscriptions))
unfolding send_notifications
send_notifications_iff fpu s t i = elim (Option-cases (find_object s.objects t i)) [
  | inl e ↦ rw (e, send_notifications) refl
  | inr (o, e) ↦
      rw (e, send_notifications)
        (ground (
          arith,
          find-key s.objects t i o e,
          notify_loop-sent fpu s.config.device_instance o s.cov_subscriptions (start_sending s),
        ))
]
