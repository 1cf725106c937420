-- ===== src/Bacnet/Tests.antt =====
-- Runs of the server at concrete inputs, and each theorem at an input that meets its hypotheses.
use bacnet_event_server.Base.{
  ◌≡◌, refl, true, false, List, [], ◌∷◌, none, some, arith, codes, str_eq,
}
use bacnet_event_server.Base.Samples.{whole}
use bacnet_event_server.Bacnet.Model.{
  real, Object, Subscription, Config, Server, analog_input, binary_input,
}
use bacnet_event_server.Bacnet.Objects.{
  zero_stats, Request, find_object, new_object, create_object, delete_object, server_create,
  add_object, stack_create, modify_object, unlink_object, store_value,
}
use bacnet_event_server.Bacnet.Cov.{
  Subscribe, subscribe, unsubscribe, find_subscription, update_value, send_notifications,
  update_lifetimes, notify_loop, expire_loop, value_to_double, values_differ_by_increment,
}
use bacnet_event_server.Bacnet.Invariant.{
  Command, creates, updates, subscribes, ticks, deletes, call, run, IsValid, server_create-IsValid,
}
use bacnet_event_server.Bacnet.Refinement.{find-run, answers, spec_run}
use bacnet_event_server.Bacnet.Notifications.{update_value-notifies}
use bacnet_event_server.Bacnet.Lifetimes.{Grants, subscribe-Grants, unsubscribe_lem}
use bacnet_event_server.Bacnet.Task.{Round, task_loop, HasNoGap, find-task_loop}
use bacnet_event_server.Bacnet.Drift.{feed, feed_gradual}
use bacnet_event_server.Bacnet.Mirror.{delete_leaves_stack, in_stack}

abbrev config : Config
config = record {
  device_instance = 1234;
  device_name = codes "gateway";
  device_description = [];
  device_location = [];
  vendor_id = 999;
  vendor_name = [];
  model_name = [];
  port = 47808;
  max_objects = 2;
  max_cov_subscriptions = 1;
}

abbrev room : Request
room = record {
  object_type = analog_input;
  object_instance = 7;
  name = some (codes "room");
  description = none;
  initial_value = some (real 20);
  units = 62;
  cov_increment = 5;
}

abbrev fan : Request
fan = record {
  object_type = binary_input;
  object_instance = 1;
  name = some (codes "fan");
  description = none;
  initial_value = none;
  units = 95;
  cov_increment = 0;
}

abbrev reader : Subscribe
reader = record {
  object_type = analog_input;
  object_instance = 7;
  process_id = 18;
  address = some (192 ∷ 168 ∷ []);
  confirmed = false;
  lifetime = 3;
}

abbrev empty : Server
empty = record {
  config = config;
  objects = [];
  object_count = 0;
  cov_subscriptions = [];
  cov_subscription_count = 0;
  running = false;
  stats = zero_stats;
  calls = [];
}

empty-IsValid : IsValid empty
unfolding server_create
empty-IsValid = server_create-IsValid config empty (omega arith) (omega arith) refl

abbrev room_object : Object
room_object = record {
  object_type = analog_input;
  object_instance = 7;
  name = codes "room";
  description = [];
  present_value = real 20;
  last_cov_value = real 20;
  units = 62;
  cov_increment = 5;
  out_of_service = false;
  number_of_states = 0;
  created_at = 100;
  updated_at = 100;
}

abbrev reader_subscription : Subscription
reader_subscription = record {
  process_id = 18;
  address = 192 ∷ 168 ∷ [];
  object_type = analog_input;
  object_instance = 7;
  confirmed = false;
  lifetime = 3;
  subscribed_at = 101;
}

abbrev watched : Server
watched = record empty {
  objects = room_object ∷ [];
  object_count = 1;
  cov_subscriptions = reader_subscription ∷ [];
  cov_subscription_count = 1;
}

abbrev session : List Command
session =
    creates true 100 room
    ∷ subscribes true 101 reader
    ∷ updates 102 0 7 (some (real 30)) true
    ∷ ticks
    ∷ deletes 0 7
    ∷ []

-- One name for all that a run computes with.
machine : Unit {0}
unfolding call run create_object delete_object subscribe update_value find_object find_subscription
    add_object new_object update_lifetimes values_differ_by_increment value_to_double
    send_notifications store_value modify_object unlink_object stack_create str_eq notify_loop
    expire_loop
machine = tt

session-answers : answers whole empty session ≡ true ∷ true ∷ true ∷ true ∷ true ∷ []
unfolding machine
session-answers = refl

session_reports :
    (run whole empty (
      creates true 100 room
      ∷ subscribes true 101 reader
      ∷ updates 102 0 7 (some (real 30)) true
      ∷ [])).stats.cov_notifications_sent
    ≡ 1
unfolding machine
session_reports = refl

find-run_example :
    find_object (run whole empty session).objects
    ≡ spec_run whole (find_object []) session (answers whole empty session)
find-run_example = find-run whole session empty empty-IsValid

room_found : find_object watched.objects 0 7 ≡ some room_object
unfolding find_object
room_found = refl

update_value-notifies_example : (update_value whole 102 watched 0 7 (some (real 30)) true).1 ≡ true
update_value-notifies_example =
    (update_value-notifies whole 102 watched 0 7 (real 30) true room_object room_found
      (omega arith)).0

-- Two seconds in three rounds, with a packet in the second.
abbrev rounds : List Round
rounds =
    record { received = false; now = 101 }
    ∷ record { received = true; now = 101 }
    ∷ record { received = false; now = 102 }
    ∷ []

find-task_loop_example :
    find_subscription (task_loop rounds (100, watched)).1.cov_subscriptions 0 7 18 (192 ∷ 168 ∷ [])
    ≡ some (record reader_subscription { lifetime = 1 })
unfolding find_subscription str_eq task_loop HasNoGap
find-task_loop_example =
    (find-task_loop rounds 100 watched 0 7 18 (192 ∷ 168 ∷ []) (refl, tt)
      (omega arith, (omega arith, (omega arith, tt)))).1

subscribe-Grants_example :
    Grants true 101 watched reader (192 ∷ 168 ∷ []) (subscribe true 101 watched reader)
subscribe-Grants_example = subscribe-Grants true 101 watched reader (192 ∷ 168 ∷ []) refl

unsubscribe_lem_example :
    find_subscription
      (unsubscribe watched 0 7 18 (some (192 ∷ 168 ∷ []))).0.cov_subscriptions
      0
      7
      18
      (192 ∷ 168 ∷ [])
    ≡ none
unfolding find_subscription
unsubscribe_lem_example = (unsubscribe_lem watched 0 7 18 (192 ∷ 168 ∷ []) (refl, tt)).1

-- 20, 24, 28, 32: each step is below the increment 5, the whole way is not.
feed_gradual_example :
    (feed whole watched 0 7
      ((1, real 24) ∷ (2, real 28) ∷ (3, real 32) ∷ [])).stats.cov_notifications_sent
    ≡ 0
unfolding values_differ_by_increment value_to_double
feed_gradual_example =
    (feed_gradual whole watched 0 7 room_object ((1, real 24) ∷ (2, real 28) ∷ (3, real 32) ∷ [])
      room_found (refl, (refl, (refl, tt)))).0

fan_accepted : (create_object true 100 empty fan).1 ≡ true
unfolding create_object find_object
fan_accepted = refl

delete_leaves_stack_example :
    in_stack (delete_object (create_object true 100 empty fan).0 3 1).0.calls 3 1 ≡ true
delete_leaves_stack_example =
    (delete_leaves_stack true 100 empty fan (codes "fan") empty-IsValid refl (omega arith) refl
      fan_accepted).2
