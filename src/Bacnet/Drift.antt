-- ===== src/Bacnet/Drift.antt =====
-- The reference of the CoV test in src/bacnet_server.c: an update is compared with the value before
-- it, and not with the value that was last reported.
use bacnet_event_server.Base.{ℕ, ◌≡◌, refl, ◌∙◌, true, false, List, [], ◌∷◌, some, arith}
use bacnet_event_server.Base.Words.{Fpu}
use bacnet_event_server.Bacnet.Model.{Value, Object, Server}
use bacnet_event_server.Bacnet.Objects.{find_object, set_value, store_value}
use bacnet_event_server.Bacnet.Cov.{update_value, values_differ_by_increment}
use bacnet_event_server.Bacnet.Registry.{find-modify}

-- Updates of one object with the CoV check, one after the other.
unfoldable pub feed : Fpu → Server → ℕ → ℕ → List (ℕ × Value) → Server
feed fpu s t i [] = s
feed fpu s t i ((now, v) ∷ vs) = feed fpu (update_value fpu now s t i (some v) true).0 t i vs

-- Each value differs from the one before it by less than the increment.
abbrev pub IsGradual : Fpu → ℕ → Value → List (ℕ × Value) → Type 0
IsGradual fpu increment v [] = Unit {0}
IsGradual fpu increment v ((now, w) ∷ vs) =
    (values_differ_by_increment fpu v w increment ≡ false) × IsGradual fpu increment w vs

abbrev pub last_value : Value → List (ℕ × Value) → Value
last_value v [] = v
last_value v ((now, w) ∷ vs) = last_value w vs

-- The object with the last value of the list; what CoV has reported stays.
abbrev pub with_last : Object → List (ℕ × Value) → Object
with_last o [] = o
with_last o ((now, w) ∷ vs) = with_last (set_value w now o) vs

quiet_step :
    (fpu : Fpu) (now : ℕ) (s : Server) (t i : ℕ) (v : Value) (o : Object)
    → find_object s.objects t i ≡ some o
    → values_differ_by_increment fpu o.present_value v o.cov_increment ≡ false
    → let s' = (update_value fpu now s t i (some v) true).0 in
      (find_object s'.objects t i ≡ some (set_value v now o))
      × (s'.stats.cov_notifications_sent ≡ s.stats.cov_notifications_sent)
unfolding update_value store_value
quiet_step fpu now s t i v o e h =
    rw (e, update_value)
      (ground (arith, find-modify (set_value v now) s.objects t i t i (λ o. (refl, refl))))

-- A value that drifts by less than the increment at a time is never reported, however far it gets
-- from the value last reported: the notification counter stays, and the object ends with the last
-- value and its old `last_cov_value`.
pub feed_gradual :
    (fpu : Fpu) (s : Server) (t i : ℕ) (o : Object) (vs : List (ℕ × Value))
    → find_object s.objects t i ≡ some o
    → IsGradual fpu o.cov_increment o.present_value vs
    → ((feed fpu s t i vs).stats.cov_notifications_sent ≡ s.stats.cov_notifications_sent)
      × (find_object (feed fpu s t i vs).objects t i ≡ some (with_last o vs))
      × ((with_last o vs).last_cov_value ≡ o.last_cov_value)
      × ((with_last o vs).present_value ≡ last_value o.present_value vs)
unfolding feed
feed_gradual fpu s t i o [] e g = (refl, e, refl, refl)
feed_gradual fpu s t i o ((now, v) ∷ vs) e (near, rest) =
    let (found, quiet) = quiet_step fpu now s t i v o e near in
    let (sent, last, kept, final) =
      feed_gradual fpu (update_value fpu now s t i (some v) true).0 t i (set_value v now o) vs found
        rest in
    (sent ∙ quiet, last, kept, final)
