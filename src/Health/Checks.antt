-- ===== src/Health/Checks.antt =====
-- The health checks of src/health_api.c: registration, /health and /health/ready. One request is handled at a time, and what the check functions answer during it is a parameter.
use bacnet_event_server.Base.{
  ℕ, Bool, true, false, not, List, [], ◌∷◌, ◌++◌, Option, none, some, Bytes, codes, copy_string,
  if◌then◌else◌, leb, length,
}

pub data HealthStatus : Type 0 where
  up down degraded unknown : HealthStatus

-- The text of a status.
unfoldable pub health_status_string : HealthStatus → Bytes
health_status_string up = codes "UP"
health_status_string down = codes "DOWN"
health_status_string degraded = codes "DEGRADED"
health_status_string unknown = codes "UNKNOWN"

abbrev pub is_up : HealthStatus → Bool
is_up up = true
is_up _ = false

-- A check; `F` is the type of check functions, with their user data.
pub record RegisteredCheck (F : Type 0) : Type 0 where
  pub name : Bytes
  pub check_fn : Option F
  pub last_status : HealthStatus
  pub last_message : Bytes
  pub last_check_time : ℕ

abbrev pub max_health_checks : ℕ
max_health_checks = 16

abbrev pub new_check : {F : Type 0} → Bytes → Option F → RegisteredCheck F
new_check name check_fn = record {
  name = copy_string 64 name;
  check_fn = check_fn;
  last_status = unknown;
  last_message = [];
  last_check_time = 0;
}

-- health_api_register_check: the new check comes last.
unfoldable pub register_check :
    {F : Type 0} → List (RegisteredCheck F) → Bytes → Option F → List (RegisteredCheck F) × Bool
register_check checks name check_fn =
    if leb max_health_checks (length checks)
    then (checks, false)
    else (checks ++ new_check name check_fn ∷ [], true)

-- Several registrations.
unfoldable pub register_all :
    {F : Type 0} → List (RegisteredCheck F) → List (Bytes × Option F) → List (RegisteredCheck F)
register_all checks [] = checks
register_all checks ((name, check_fn) ∷ rest) =
    register_all (register_check checks name check_fn).0 rest

module _ {F : Type 0} (answer : F → HealthStatus × Bytes) where
  -- One check is run, if it has a function, which writes its message into 256 bytes.
  abbrev pub run_with : ℕ → RegisteredCheck F → Option F → RegisteredCheck F
  run_with now check none = check
  run_with now check (some f) = record check {
    last_status = (answer f).0;
    last_message = copy_string 256 ((answer f).1);
    last_check_time = now;
  }

  unfoldable pub run_check : ℕ → RegisteredCheck F → RegisteredCheck F
  run_check now check = run_with now check check.check_fn

  abbrev pub fails_with : HealthStatus → Option F → Bool
  fails_with status none = false
  fails_with status (some f) = not (is_up status)

  -- The loop of handle_health: the checks with their new results, and `all_healthy`.
  unfoldable pub run_loop : ℕ → Bool → List (RegisteredCheck F) → List (RegisteredCheck F) × Bool
  unfolding run_check
  run_loop now healthy [] = ([], healthy)
  run_loop now healthy (check ∷ checks) =
      let ran = run_check now check in
      let (rest, all) =
        run_loop now (if fails_with ran.last_status ran.check_fn then false else healthy) checks in
      (ran ∷ rest, all)

  -- The loop of handle_health_ready, which stops at the first check that is not up.
  abbrev pub is_failing : Option F → Bool
  is_failing none = false
  is_failing (some f) = not (is_up (answer f).0)

  unfoldable pub ready_loop : List (RegisteredCheck F) → Bool
  ready_loop [] = true
  ready_loop (check ∷ checks) =
      let later = ready_loop checks in if is_failing check.check_fn then false else later

-- The text of one component, and of all of them.
abbrev pub message_or_ok : Bytes → Bytes
message_or_ok [] = codes "OK"
message_or_ok (c ∷ s) = c ∷ s

abbrev pub quoted : Bytes → Bytes
quoted s = 34 ∷ (s ++ 34 ∷ [])

unfoldable pub component_text : {F : Type 0} → RegisteredCheck F → Bytes
unfolding health_status_string
component_text check =
    quoted check.name
    ++ codes ":{"
    ++ quoted (codes "status")
    ++ codes ":"
    ++ quoted (health_status_string check.last_status)
    ++ codes ","
    ++ quoted (codes "message")
    ++ codes ":"
    ++ quoted (message_or_ok check.last_message)
    ++ codes "}"

unfoldable pub components_text : {F : Type 0} → List (RegisteredCheck F) → Bytes
unfolding component_text
components_text [] = []
components_text (check ∷ []) = component_text check
components_text (check ∷ next ∷ checks) =
    component_text check ++ codes "," ++ components_text (next ∷ checks)

-- The answer as long as it fits the buffer of 4096 bytes; nothing in the source keeps it there.
unfoldable pub health_text : {F : Type 0} → Bool → List (RegisteredCheck F) → Bytes
unfolding components_text
health_text healthy checks =
    codes "{"
    ++ quoted (codes "status")
    ++ codes ":"
    ++ quoted (if healthy then codes "UP" else codes "DOWN")
    ++ codes ","
    ++ quoted (codes "components")
    ++ codes ":{"
    ++ components_text checks
    ++ codes "}}"

pub record Response : Type 0 where
  pub code : ℕ
  pub body : Bytes

module _ {F : Type 0} (answer : F → HealthStatus × Bytes) where
  abbrev pub health_response : List (RegisteredCheck F) × Bool → List (RegisteredCheck F) × Response
  health_response (checks, healthy) =
      (checks, record { code = if healthy then 200 else 503; body = health_text healthy checks })

  -- handle_health.
  unfoldable pub handle_health : ℕ → List (RegisteredCheck F) → List (RegisteredCheck F) × Response
  unfolding run_loop health_text
  handle_health now checks = health_response (run_loop answer now true checks)

  -- handle_health_ready.
  unfoldable pub handle_health_ready : List (RegisteredCheck F) → Response
  unfolding ready_loop
  handle_health_ready checks =
      if ready_loop answer checks
      then record {
        code = 200;
        body =
            codes "{" ++ quoted (codes "status") ++ codes ":" ++ quoted (codes "UP") ++ codes "}";
      }
      else record {
        code = 503;
        body =
            codes "{" ++ quoted (codes "status") ++ codes ":" ++ quoted (codes "DOWN") ++ codes "}";
      }
