-- ===== src/Bacnet/Mirror.antt =====
-- What the BACnet stack knows of the registry: the creations and deletions that src/bacnet_server.c
-- passes on.
use bacnet_event_server.Base.{
  ℕ, ◌≢◌, ◌≡◌, Bool, true, false, ◌&&◌, ◌||◌, List, [], ◌∷◌, ◌++◌, Option, none, some, Bytes, arith,
  if◌then◌else◌, ◌==◌,
}
use bacnet_event_server.Bacnet.Model.{Value, Server, StackCall, create, remove, analog_input}
use bacnet_event_server.Bacnet.Objects.{
  find_object, stack_create, stack_delete, Request, new_object, add_object, create_named,
  create_object, delete_object, unlink_object,
}
use bacnet_event_server.Bacnet.Invariant.{IsValid}

-- Whether the stack has an object, by the calls that it got (newest first).
unfoldable pub in_stack : List StackCall → ℕ → ℕ → Bool
in_stack [] t i = false
in_stack (create t' i' ∷ calls) t i = t' == t && i' == i || in_stack calls t i
in_stack (remove t' i' ∷ calls) t i =
    let rest = in_stack calls t i in if t' == t && i' == i then false else rest
in_stack (_ ∷ calls) t i = in_stack calls t i

-- The object types that bacnet_server_create_object passes on to the stack.
abbrev pub is_listed : ℕ → Bool
is_listed t =
    t == 0 || t == 1 || t == 2 || t == 3 || t == 4 || t == 5 || t == 13 || t == 14 || t == 19

in_stack-create :
    (t i : ℕ) (name : Bytes) (units : ℕ) (initial : Option Value) (calls : List StackCall)
    (t' i' : ℕ)
    → in_stack (stack_create t i name units initial ++ calls) t' i'
      ≡ (is_listed t && t == t' && i == i' || in_stack calls t' i')
unfolding in_stack stack_create
in_stack-create t i name units none calls t' i' = ground arith
in_stack-create t i name units (some v) calls t' i' = ground arith

-- An accepted creation and deletion of an object of a listed type other than analog-input: the
-- registry has no such object any more, and the stack still has it.
pub delete_leaves_stack :
    (allocated : Bool) (now : ℕ) (s : Server) (r : Request) (name : Bytes)
    → IsValid s
    → is_listed r.object_type ≡ true
    → r.object_type ≢ analog_input
    → r.name ≡ some name
    → (create_object allocated now s r).1 ≡ true
    → let s' = (create_object allocated now s r).0 in
      let w = delete_object s' r.object_type r.object_instance in
      (w.1 ≡ true)
      × (find_object w.0.objects r.object_type r.object_instance ≡ none)
      × (in_stack w.0.calls r.object_type r.object_instance ≡ true)
unfolding create_object create_named add_object delete_object stack_delete find_object unlink_object
    new_object
delete_leaves_stack allocated now s r name v listed other named accepted = ground (
  arith,
  in_stack-create r.object_type r.object_instance name r.units r.initial_value s.calls r.object_type
      r.object_instance,
)
