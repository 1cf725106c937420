-- ===== src/Gateway/Startup.antt =====
-- The main function of src/main.c: what is started, and what is stopped, on every path.
use bacnet_event_server.Base.{
  ℕ, ◌≡◌, refl, Bool, true, false, not, ◌&&◌, List, [], ◌∷◌, ◌++◌, Option, none, some, Bytes,
  if◌then◌else◌, arith, Bool-cases, inl, inr, sym, ap, ◌∙◌, append-nil, append_assoc, str_eq,
  str_eq_refl,
}
use mathlib.Core.Option
use bacnet_event_server.Base.Words.{inc64}
use bacnet_event_server.Gateway.Events.{Subscription}

-- Where a subscription starts: at the beginning, or at a position.
pub data Start : Type 0 where
  beginning : Start
  position : ℕ → Start

pub data Part : Type 0 where
  handler redis server kurrentdb thread : Part

pub data Action : Type 0 where
  starts stops : Part → Action
  recovers serves runs_loop stops_loop : Action
  subscribes : Bytes → Start → ℕ → Action
  unsubscribes : Bytes → Action

-- What the environment answers: whether each step succeeds, the stored positions, and whether a
-- subscription gives a handle.
pub record Environment : Type 0 where
  pub config_loads : Bool
  pub subscriptions : List Subscription
  pub redis_connects : Bool
  pub server_inits : Bool
  pub server_starts : Bool
  pub kurrentdb_inits : Bool
  pub thread_starts : Bool
  pub stored_position : Bytes → Option ℕ
  pub has_handle : Bytes → Bool

-- A stored position is the last one processed: the next one is wanted.
abbrev pub start_from : Option ℕ → Start
start_from none = beginning
start_from (some p) = position (inc64 p)

unfoldable pub subscribe_all : Environment → List Subscription → List Action
subscribe_all env [] = []
subscribe_all env (sub ∷ subs) =
    subscribes sub.subscription_id (start_from (env.stored_position sub.subscription_id))
      sub.instance_offset
    ∷ subscribe_all env subs

unfoldable pub unsubscribe_all : Environment → List Subscription → List Action
unsubscribe_all env [] = []
unsubscribe_all env (sub ∷ subs) =
    let rest = unsubscribe_all env subs in
    if env.has_handle sub.subscription_id then unsubscribes sub.subscription_id ∷ rest else rest

abbrev pub is_empty : List Subscription → Bool
is_empty [] = true
is_empty (sub ∷ subs) = false

-- The part after KurrentDB is connected, up to the end of main. The thread is joined whether or not
-- it was created.
unfoldable pub serve : Environment → List Action
serve env =
    subscribe_all env env.subscriptions
    ++ ((if env.thread_starts then starts thread ∷ [] else [])
        ++ (runs_loop
            ∷ stops_loop
            ∷ (unsubscribe_all env env.subscriptions
                ++ (stops thread
                    ∷ stops kurrentdb
                    ∷ stops server
                    ∷ stops redis
                    ∷ stops handler
                    ∷ []))))

-- message_handler_init has nothing to do yet: it returns 0.
abbrev pub message_handler_init : Bool
message_handler_init = true

-- main: its actions and its exit code.
unfoldable pub main : Environment → List Action × ℕ
main env =
    if not env.config_loads
    then ([], 1)
    else if is_empty env.subscriptions
    then ([], 1)
    else if not message_handler_init
    then ([], 1)
    else if not env.redis_connects
    then (starts handler ∷ [], 1)
    else if not env.server_inits
    then (starts handler ∷ starts redis ∷ stops redis ∷ [], 1)
    else if not env.server_starts
    then (
      starts handler ∷ starts redis ∷ starts server ∷ recovers ∷ stops server ∷ stops redis ∷ [],
      1,
    )
    else if not env.kurrentdb_inits
    then (
      starts handler
          ∷ starts redis
          ∷ starts server
          ∷ recovers
          ∷ serves
          ∷ stops server
          ∷ stops redis
          ∷ [],
      1,
    )
    else (
      starts handler
          ∷ starts redis
          ∷ starts server
          ∷ recovers
          ∷ serves
          ∷ starts kurrentdb
          ∷ serve env,
      0,
    )

abbrev pub same_part : Part → Part → Bool
same_part handler handler = true
same_part redis redis = true
same_part server server = true
same_part kurrentdb kurrentdb = true
same_part thread thread = true
same_part _ _ = false

-- What runs: the parts, the last started first, the event loop, and the subscriptions with a handle, the
-- first one first; and the parts that were stopped although they were not the last one that runs.
pub record Running : Type 0 where
  pub parts : List Part
  pub looping : Bool
  pub handles : List Bytes
  pub strays : List Part

-- Neither a loop nor a subscription runs.
abbrev pub idle : List Part → List Part → Running
idle parts strays = record { parts = parts; looping = false; handles = []; strays = strays }

abbrev pub stop_part : Part → List Part → Running → Running
stop_part p [] r = record r { strays = p ∷ r.strays }
stop_part p (q ∷ parts) r =
    if same_part p q then record r { parts = parts } else record r { strays = p ∷ r.strays }

-- KurrentDB stops only when no loop and no subscription is left.
abbrev pub is_free : Part → Bool → List Bytes → Bool
is_free kurrentdb looping [] = not looping
is_free kurrentdb looping (id ∷ ids) = false
is_free _ looping handles = true

abbrev pub close_first : Bytes → List Bytes → Option (List Bytes)
close_first id [] = none
close_first id (other ∷ ids) = if str_eq id other then some ids else none

-- What runs after an action; `none` when a part is stopped that is still used, the loop when it does not
-- run, or a subscription that is not the next one.
unfoldable pub take_effect : Environment → Action → Running → Option Running
take_effect env (starts p) r = some (record r { parts = p ∷ r.parts })
take_effect env (stops p) r =
    if is_free p r.looping r.handles then some (stop_part p r.parts r) else none
take_effect env recovers r = some r
take_effect env serves r = some r
take_effect env runs_loop r = some (record r { looping = true })
take_effect env stops_loop r = if r.looping then some (record r { looping = false }) else none
take_effect env (subscribes id start offset) r =
    some (if env.has_handle id then record r { handles = r.handles ++ (id ∷ []) } else r)
take_effect env (unsubscribes id) r =
    Option.map (λ ids. record r { handles = ids }) (close_first id r.handles)

abbrev pub then_replay : (Running → Option Running) → Option Running → Option Running
then_replay rest none = none
then_replay rest (some r) = rest r

unfoldable pub replay : Environment → List Action → Running → Option Running
unfolding take_effect
replay env [] r = some r
replay env (action ∷ rest) r = then_replay (λ r'. replay env rest r') (take_effect env action r)

-- The subscriptions that get a handle.
opened : Environment → List Subscription → List Bytes
opened env [] = []
opened env (sub ∷ subs) =
    let rest = opened env subs in
    if env.has_handle sub.subscription_id then sub.subscription_id ∷ rest else rest

abbrev holding : List Part → List Bytes → Running
holding parts handles = record { parts = parts; looping = false; handles = handles; strays = [] }

replay-subscribe_all :
    (env : Environment) (subs : List Subscription) (rest : List Action) (parts : List Part)
    (handles : List Bytes)
    → replay env (subscribe_all env subs ++ rest) (holding parts handles)
      ≡ replay env rest (holding parts (handles ++ opened env subs))
unfolding replay take_effect subscribe_all opened
replay-subscribe_all env [] rest parts handles =
    ap (λ hs. replay env rest (holding parts hs)) (sym (append-nil handles))
replay-subscribe_all env (sub ∷ subs) rest parts handles =
    elim (Bool-cases (env.has_handle sub.subscription_id)) [
      | inl has ↦ rw has (
          replay-subscribe_all env subs rest parts (handles ++ (sub.subscription_id ∷ []))
          ∙ ap (λ hs. replay env rest (holding parts hs))
              (append_assoc handles (sub.subscription_id ∷ []) (opened env subs)))
      | inr lacks ↦ rw lacks (replay-subscribe_all env subs rest parts handles)
    ]

replay-unsubscribe_all :
    (env : Environment) (subs : List Subscription) (rest : List Action) (parts : List Part)
    → replay env (unsubscribe_all env subs ++ rest) (holding parts (opened env subs))
      ≡ replay env rest (holding parts [])
unfolding replay take_effect unsubscribe_all opened
replay-unsubscribe_all env [] rest parts = refl
replay-unsubscribe_all env (sub ∷ subs) rest parts =
    elim (Bool-cases (env.has_handle sub.subscription_id)) [
      | inl has ↦
          rw (has, str_eq_refl sub.subscription_id) (replay-unsubscribe_all env subs rest parts)
      | inr lacks ↦ rw lacks (replay-unsubscribe_all env subs rest parts)
    ]

abbrev upward : List Part
upward = kurrentdb ∷ server ∷ redis ∷ handler ∷ []

serve-replay :
    (env : Environment)
    → replay env (serve env) (idle upward [])
      ≡ some (idle [] (if env.thread_starts then [] else thread ∷ []))
unfolding serve replay take_effect
serve-replay env =
    let ends = stops thread ∷ stops kurrentdb ∷ stops server ∷ stops redis ∷ stops handler ∷ [] in
    let closed = λ (parts : List Part). replay-unsubscribe_all env env.subscriptions ends parts in
    rw (replay-subscribe_all env env.subscriptions) (elim (Bool-cases env.thread_starts) [
      | inl created ↦ ground (arith, created, closed (thread ∷ upward))
      | inr failed ↦ ground (arith, failed, closed upward)
    ])

-- The program comes as far as the message handler.
abbrev pub is_configured : Environment → Bool
is_configured env = env.config_loads && not (is_empty env.subscriptions)

-- Everything up to the connection with KurrentDB succeeds.
abbrev pub is_serving : Environment → Bool
is_serving env =
    is_configured env
    && env.redis_connects
    && env.server_inits
    && env.server_starts
    && env.kurrentdb_inits

-- What main leaves running.
abbrev pub leftover : Environment → List Part
leftover env = if is_configured env && not (is_serving env) then handler ∷ [] else []

-- What main stops although it does not run.
abbrev pub never_started : Environment → List Part
never_started env = if is_serving env && not env.thread_starts then thread ∷ [] else []

-- On every path main stops what it has started: the parts with the last started first, the event loop, and each
-- subscription that got a handle once, in their order and before KurrentDB. There are two exceptions: when a
-- step after the message handler fails, the message handler is not shut down, and a task thread that could not
-- be created is joined all the same. The exit code is 0 exactly if all parts up to KurrentDB have come up.
pub main-replay :
    (env : Environment)
    → (replay env (main env).0 (idle [] []) ≡ some (idle (leftover env) (never_started env)))
      × ((main env).1 ≡ (if is_serving env then 0 else 1))
unfolding main replay take_effect
main-replay env = ground (arith, serve-replay env)
