-- ===== src/Gateway/Tests.antt =====
-- The gateway at concrete devices, events and environments.
use bacnet_event_server.Base.{
  ℕ, ◌+◌, ◌≡◌, refl, arith, get_elem?, map, Bool, true, false, List, [], ◌∷◌, some, Bytes, codes,
  str_eq,
}
use bacnet_event_server.Base.Samples.{whole, Doc, text, number, flag, nil, field, member, documents}
use bacnet_event_server.Gateway.Events.{Subscription, is_skipped, entry_of, load_loop, load_devices}
use bacnet_event_server.Gateway.Loading.{entries, keep, load_devices-first}
use bacnet_event_server.Gateway.Startup.{Environment, thread, main, main-replay, replay, idle}
use bacnet_event_server.Gateway.Threads.{
  TaskRound, task_thread, seconds_of, tasks_of, task_thread-seconds, status_loop, running_second,
  status_loop-sixtieth,
}

abbrev plant : Subscription
plant = record { subscription_id = codes "plant"; instance_offset = 1000 }

abbrev device : Bytes → Bool → Doc
device id enabled = field (codes "subscriptionId") (text id) (
    field (codes "streamName") (text (codes "s")) (
      field (codes "enabled") (flag enabled)
        (field (codes "objectInstanceOffset") (number 1000) nil)))

abbrev devices : List Doc
devices = device (codes "idle") false ∷ device (codes "plant") true ∷ []

one_loaded : load_devices (documents nil) whole (some devices) ≡ some (plant ∷ [])
unfolding load_loop is_skipped entry_of member str_eq
one_loaded = refl

load_devices-first_example :
    entries (entry_of (documents nil) whole) (keep (is_skipped (documents nil) whole) devices)
    ≡ some (plant ∷ [])
unfolding is_skipped member str_eq
load_devices-first_example =
    (load_devices-first (documents nil) whole devices (plant ∷ []) one_loaded).0

abbrev environment : Environment
environment = record {
  config_loads = true;
  subscriptions = plant ∷ [];
  redis_connects = true;
  server_inits = true;
  server_starts = true;
  kurrentdb_inits = true;
  thread_starts = false;
  stored_position = λ id. some 7;
  has_handle = λ id. true;
}

main-replay_example :
    replay environment (main environment).0 (idle [] []) ≡ some (idle [] (thread ∷ []))
main-replay_example = (main-replay environment).0

-- The clock is set back once, and the second reading after that is later than all before.
abbrev rounds : List TaskRound
rounds =
    record { running = true; now = 103 }
    ∷ record { running = true; now = 90 }
    ∷ record { running = true; now = 107 }
    ∷ record { running = false; now = 120 }
    ∷ []

task_thread-seconds_example :
    (100 + seconds_of (task_thread 100 rounds) ≡ 107) × (tasks_of (task_thread 100 rounds) ≡ 3)
task_thread-seconds_example = task_thread-seconds 100 rounds (omega arith)

abbrev two_stats : List ℕ
two_stats = 7 ∷ 8 ∷ []

status_loop-sixtieth_example : get_elem? (status_loop 58 (map running_second two_stats)) 0 ≡ some 8
status_loop-sixtieth_example = status_loop-sixtieth 58 0 two_stats (omega arith)
