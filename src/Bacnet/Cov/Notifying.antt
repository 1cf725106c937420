-- ===== src/Bacnet/Cov/Notifying.antt =====
-- The change test, the notifications and the updates of src/bacnet_server.c.
use bacnet_event_server.Base.{
  ℕ, suc, Bool, true, false, ◌&&◌, List, [], ◌∷◌, Option, none, some, if◌then◌else◌, ◌==◌, ltb,
}
use bacnet_event_server.Base.Words.{inc64, Fpu}
use bacnet_event_server.Bacnet.Model.{
  Value, null, real, double, integer, unsigned, boolean, enumerated, Object, Subscription, Server,
  StackCall, notify,
}
use bacnet_event_server.Bacnet.Objects.{find_object, modify_object, store_value}

-- value_to_double.
unfoldable pub value_to_double : Fpu → Value → ℕ
value_to_double fpu null = fpu.zero_double
value_to_double fpu (real v) = fpu.widen v
value_to_double fpu (double v) = v
value_to_double fpu (integer v) = fpu.double_of_i32 v
value_to_double fpu (unsigned v) = fpu.double_of_u32 v
value_to_double fpu (boolean v) = if v then fpu.one_double else fpu.zero_double
value_to_double fpu (enumerated v) = fpu.double_of_u32 v

-- values_differ_by_increment.
unfoldable pub values_differ_by_increment : Fpu → Value → Value → ℕ → Bool
values_differ_by_increment fpu v1 v2 increment =
    let d1 = value_to_double fpu v1 in
    let d2 = value_to_double fpu v2 in
    if fpu.float_le_zero increment
    then fpu.ne d1 d2
    else fpu.ge (fpu.fabs (fpu.sub d1 d2)) (fpu.widen increment)

-- The test of the notification loop.
abbrev pub is_notified : ℕ → ℕ → Subscription → Bool
is_notified t i sub = sub.object_type == t && sub.object_instance == i && ltb 0 sub.lifetime

-- The notification of one subscription: the value is sent as a float.
abbrev pub notification : Fpu → ℕ → Object → Subscription → StackCall
notification fpu device o sub =
    notify sub.confirmed sub.address sub.process_id device o.object_type o.object_instance
      sub.lifetime (fpu.narrow (value_to_double fpu o.present_value))

-- What the loop of bacnet_cov_send_notifications changes.
pub record Sending : Type 0 where
  pub sent : ℕ
  pub total : ℕ
  pub calls : List StackCall

unfoldable pub notify_one : Fpu → ℕ → Object → Subscription → Sending → Sending
notify_one fpu device o sub w =
    if is_notified o.object_type o.object_instance sub
    then record {
      sent = suc w.sent;
      total = inc64 w.total;
      calls = notification fpu device o sub ∷ w.calls;
    }
    else w

unfoldable pub notify_loop : Fpu → ℕ → Object → List Subscription → Sending → Sending
unfolding notify_one
notify_loop fpu device o [] w = w
notify_loop fpu device o (sub ∷ subs) w =
    notify_loop fpu device o subs (notify_one fpu device o sub w)

abbrev pub set_cov_value : Object → Object
set_cov_value o = record o { last_cov_value = o.present_value }

abbrev pub start_sending : Server → Sending
start_sending s = record { sent = 0; total = s.stats.cov_notifications_sent; calls = s.calls }

abbrev pub finish_sending : Server → ℕ → ℕ → Sending → Server × Bool
finish_sending s t i w = (
  record s {
    objects = modify_object set_cov_value s.objects t i;
    stats = record (s.stats) { cov_notifications_sent = w.total };
    calls = w.calls;
  },
  ltb 0 w.sent,
)

-- bacnet_cov_send_notifications.
unfoldable pub send_notifications : Fpu → Server → ℕ → ℕ → Server × Bool
send_notifications fpu s t i = elim (find_object s.objects t i) [
  | none ↦ (s, false)
  | some o ↦
      finish_sending s t i
        (notify_loop fpu s.config.device_instance o s.cov_subscriptions (start_sending s))
]

-- bacnet_server_update_value; a NULL value is `none`. The increment is read from the object after
-- the lock is released: here no other call comes between.
unfoldable pub update_found :
    Fpu → ℕ → Server → ℕ → ℕ → Value → Bool → Option Object → Server × Bool
update_found fpu now s t i v check_cov none = (s, false)
update_found fpu now s t i v check_cov (some o) =
    let stored = store_value now s t i v in
    if check_cov && values_differ_by_increment fpu o.present_value v o.cov_increment
    then ((send_notifications fpu stored t i).0, true)
    else (stored, true)

unfoldable pub update_value : Fpu → ℕ → Server → ℕ → ℕ → Option Value → Bool → Server × Bool
unfolding update_found
update_value fpu now s t i none check_cov = (s, false)
update_value fpu now s t i (some v) check_cov =
    update_found fpu now s t i v check_cov (find_object s.objects t i)
