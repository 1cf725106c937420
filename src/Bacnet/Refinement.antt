-- ===== src/Bacnet/Refinement.antt =====
-- The registry as a map from (type, instance) to objects, the specification of the calls of the server.
use bacnet_event_server.Base.{
  ℕ, ◌≡◌, refl, Bool, true, ◌&&◌, List, [], ◌∷◌, Option, none, some, Bytes, arith, if◌then◌else◌,
  ◌==◌, Option-cases, inl, inr,
}
use mathlib.Core.Option
use mathlib.Core.Path.{fun_ext, ap, ◌∙◌}
use bacnet_event_server.Base.Words.{Fpu}
use bacnet_event_server.Bacnet.Model.{Value, Object, Server}
use bacnet_event_server.Bacnet.Objects.{
  find_object, Request, new_object, add_object, create_named, create_object, delete_object,
  set_value, store_value, reset_stats, server_start, server_stop, text_or_empty,
}
use bacnet_event_server.Bacnet.Cov.{
  subscribe_address, subscribe, unsubscribe, update_lifetimes, send_notifications, update_found,
  update_value, set_cov_value, values_differ_by_increment,
}
use bacnet_event_server.Bacnet.Registry.{find-unlink_ne, find-unlink_self, find-modify}
use bacnet_event_server.Bacnet.Invariant.{
  Command, starts, stops, creates, deletes, updates, notifies, ticks, subscribes, unsubscribes,
  resets, call, run, IsValid, call-IsValid,
}

abbrev pub Registry : Type 0
Registry = ℕ → ℕ → Option Object

-- The map changed at one key.
abbrev pub put : Registry → ℕ → ℕ → Option Object → Registry
put m t i o t' i' = if t == t' && i == i' then o else m t' i'

-- An object with a new value; a reported change also moves the reference value.
abbrev pub with_value : Fpu → ℕ → Value → Bool → Object → Object
with_value fpu now v check o =
    if check && values_differ_by_increment fpu o.present_value v o.cov_increment
    then set_cov_value (set_value v now o)
    else set_value v now o

-- What an accepted call does to the map; a refused one does nothing to it.
abbrev pub effect : Fpu → Registry → Command → Registry
effect fpu m (creates allocated now r) =
    put m r.object_type r.object_instance (some (new_object now r (text_or_empty r.name)))
effect fpu m (deletes t i) = put m t i none
effect fpu m (updates now t i none check) = m
effect fpu m (updates now t i (some v) check) =
    put m t i (Option.map (with_value fpu now v check) (m t i))
effect fpu m _ = m

-- A notification moves the reference value of the object, also when nobody subscribes to it.
abbrev pub spec : Fpu → Registry → Command → Bool → ℕ → ℕ → Option Object
spec fpu m (notifies t i) accepted t' i' = put m t i (Option.map set_cov_value (m t i)) t' i'
spec fpu m c accepted t' i' = if accepted then effect fpu m c t' i' else m t' i'

abbrev view : Server → Registry
view s = find_object s.objects

find-key :
    (os : List Object) (t i t' i' : ℕ)
    → (t == t' && i == i') ≡ true
    → find_object os t i ≡ find_object os t' i'
find-key os t i t' i' h = ground arith

create-effect :
    (fpu : Fpu) (allocated : Bool) (now : ℕ) (s : Server) (r : Request) (name : Option Bytes)
    (t' i' : ℕ)
    → view (create_named allocated now s r name).0 t' i' ≡ (
        if (create_named allocated now s r name).1
        then put
            (view s)
            r.object_type
            r.object_instance
            (some (new_object now r (text_or_empty name)))
            t'
            i'
        else view s t' i')
unfolding create_named add_object find_object new_object
create-effect fpu allocated now s r none t' i' = refl
create-effect fpu allocated now s r (some name) t' i' = ground arith

delete-effect :
    (s : Server) (t i t' i' : ℕ)
    → IsValid s
    → view (delete_object s t i).0 t' i'
      ≡ (if (delete_object s t i).1 then put (view s) t i none t' i' else view s t' i')
unfolding delete_object
delete-effect s t i t' i' v =
    ground
      (arith, find-unlink_ne s.objects t i t' i', find-unlink_self s.objects t i v.objects_distinct)

send-effect :
    (fpu : Fpu) (s : Server) (t i t' i' : ℕ)
    → view (send_notifications fpu s t i).0 t' i'
      ≡ put (view s) t i (Option.map set_cov_value (view s t i)) t' i'
unfolding send_notifications
send-effect fpu s t i t' i' = ground (
  arith,
  find-modify set_cov_value s.objects t i t' i' (λ o. (refl, refl)),
  find-key s.objects t i t' i',
)

store-effect :
    (now : ℕ) (s : Server) (t i : ℕ) (value : Value) (t' i' : ℕ)
    → view (store_value now s t i value) t' i'
      ≡ put (view s) t i (Option.map (set_value value now) (view s t i)) t' i'
unfolding store_value
store-effect now s t i value t' i' = ground (
  arith,
  find-modify (set_value value now) s.objects t i t' i' (λ o. (refl, refl)),
  find-key s.objects t i t' i',
)

update-effect :
    (fpu : Fpu) (now : ℕ) (s : Server) (t i : ℕ) (value : Value) (check : Bool) (t' i' : ℕ)
    (o : Option Object)
    → view s t i ≡ o
    → view (update_found fpu now s t i value check o).0 t' i' ≡ (
        if (update_found fpu now s t i value check o).1
        then put (view s) t i (Option.map (with_value fpu now value check) o) t' i'
        else view s t' i')
unfolding update_found
update-effect fpu now s t i value check t' i' none e = refl
update-effect fpu now s t i value check t' i' (some o) e = ground (
  arith,
  store-effect now s t i value t' i',
  store-effect now s t i value t i,
  send-effect fpu (store_value now s t i value) t i t' i',
)

update_value-effect :
    (fpu : Fpu) (now : ℕ) (s : Server) (t i : ℕ) (value : Option Value) (check : Bool) (t' i' : ℕ)
    → view (update_value fpu now s t i value check).0 t' i'
      ≡ spec fpu
          (view s)
          (updates now t i value check)
          (update_value fpu now s t i value check).1
          t'
          i'
unfolding update_value
update_value-effect fpu now s t i none check t' i' = refl
update_value-effect fpu now s t i (some value) check t' i' =
    update-effect fpu now s t i value check t' i' (find_object s.objects t i) refl

-- Every call implements its effect on the map: what a lookup finds after it is what the
-- specification gives from what lookups found before, and the answer of the call.
pub find-call :
    (fpu : Fpu) (s : Server) (c : Command) (t' i' : ℕ)
    → IsValid s
    → find_object (call fpu s c).0.objects t' i'
      ≡ spec fpu (find_object s.objects) c (call fpu s c).1 t' i'
unfolding call create_object subscribe
find-call fpu s (starts linked threaded) t' i' v = unfold server_start in ground arith
find-call fpu s stops t' i' v = unfold server_stop in ground arith
find-call fpu s (creates allocated now r) t' i' v = create-effect fpu allocated now s r r.name t' i'
find-call fpu s (deletes t i) t' i' v = delete-effect s t i t' i' v
find-call fpu s (updates now t i value check) t' i' v =
    update_value-effect fpu now s t i value check t' i'
find-call fpu s (notifies t i) t' i' v = send-effect fpu s t i t' i'
find-call fpu s ticks t' i' v = unfold update_lifetimes in refl
find-call fpu s (subscribes allocated now r) t' i' v = elim (Option-cases r.address) [
  | inl e ↦ unfold subscribe_address in rw e (ground arith)
  | inr (a, e) ↦ unfold subscribe_address in rw e (ground arith)
]
find-call fpu s (unsubscribes t i pid address) t' i' v = unfold unsubscribe in ground arith
find-call fpu s resets t' i' v = unfold reset_stats in refl

-- The answers of a sequence of calls, and what the map specification makes of them.
abbrev pub answers : Fpu → Server → List Command → List Bool
answers fpu s [] = []
answers fpu s (c ∷ cs) = (call fpu s c).1 ∷ answers fpu (call fpu s c).0 cs

abbrev pub spec_run : Fpu → Registry → List Command → List Bool → Registry
spec_run fpu m [] answered = m
spec_run fpu m (c ∷ cs) [] = m
spec_run fpu m (c ∷ cs) (a ∷ answered) = spec_run fpu (spec fpu m c a) cs answered

-- From a well-formed server, any sequence of calls leaves the map that the specification gives for
-- these calls and their answers.
pub find-run :
    (fpu : Fpu) (cs : List Command) (s : Server)
    → IsValid s
    → find_object (run fpu s cs).objects
      ≡ spec_run fpu (find_object s.objects) cs (answers fpu s cs)
unfolding run
find-run fpu [] s v = refl
find-run fpu (c ∷ cs) s v =
    find-run fpu cs (call fpu s c).0 (call-IsValid fpu s c v)
    ∙ ap (λ m. spec_run fpu m cs (answers fpu (call fpu s c).0 cs))
        (fun_ext λ t. fun_ext λ i. find-call fpu s c t i v)
