-- ===== src/Health/Readiness.antt =====
-- The two health answers of src/health_api.c side by side, and the bound of registration.
use bacnet_event_server.Base.{
  ℕ, zero, suc, append-nil, ◌-◌, ◌≤◌, ◌≡◌, refl, sym, ◌∙◌, Bool, true, false, ◌&&◌, List, [], ◌∷◌,
  ◌++◌, Option, none, some, Bytes, arith, leb, length, length-append, take, map, Bool-cases, inl,
  inr, append_assoc,
}
use bacnet_event_server.Health.Checks.{
  HealthStatus, RegisteredCheck, register_check, register_all, new_check, run_check, run_with,
  run_loop, ready_loop, is_failing, fails_with, handle_health, handle_health_ready,
  max_health_checks,
}

module _ {F : Type 0} (answer : F → HealthStatus × Bytes) where
  fails-run :
      (now : ℕ) (check : RegisteredCheck F) (f : Option F)
      → fails_with answer (run_with answer now check f).last_status f ≡ is_failing answer f
  fails-run now check none = refl
  fails-run now check (some f) = refl

  fn-run :
      (now : ℕ) (check : RegisteredCheck F) (f : Option F)
      → (run_with answer now check f).check_fn ≡ check.check_fn
  fn-run now check none = refl
  fn-run now check (some f) = refl

  run_loop_lem :
      (now : ℕ) (healthy : Bool) (checks : List (RegisteredCheck F))
      → (run_loop answer now healthy checks).0 ≡ map (run_check answer now) checks
        × ((run_loop answer now healthy checks).1 ≡ (healthy && ready_loop answer checks))
  unfolding run_loop ready_loop run_check
  run_loop_lem now true [] = (refl, refl)
  run_loop_lem now false [] = (refl, refl)
  run_loop_lem now healthy (check ∷ checks) = ground (
    arith,
    fails-run now check check.check_fn,
    fn-run now check check.check_fn,
    run_loop_lem now false checks,
    run_loop_lem now healthy checks,
  )

  -- /health runs every check and keeps its result; its status code is that of /health/ready, which stops
  -- at the first check that is not up.
  pub health-ready :
      (now : ℕ) (checks : List (RegisteredCheck F))
      → ((handle_health answer now checks).0 ≡ map (run_check answer now) checks)
        × ((handle_health answer now checks).1.code ≡ (handle_health_ready answer checks).code)
  unfolding handle_health handle_health_ready
  health-ready now checks = ground (arith, run_loop_lem now true checks)

abbrev pub to_check : {F : Type 0} → Bytes × Option F → RegisteredCheck F
to_check (name, check_fn) = new_check name check_fn

full_stays :
    {F : Type 0} (checks : List (RegisteredCheck F)) (requests : List (Bytes × Option F))
    → max_health_checks ≤ length checks
    → register_all checks requests ≡ checks
unfolding register_all register_check
full_stays checks [] h = refl
full_stays checks ((name, check_fn) ∷ rest) h =
    let full : leb max_health_checks (length checks) ≡ true = ground arith in
    rw full (full_stays checks rest h)

take_nil : (A : Type 0) (n : ℕ) → take {A = A} n [] ≡ []
take_nil A zero = refl
take_nil A (suc n) = refl

module _ {F : Type 0} where
  -- The checks that are registered are those that were, followed by the first requests up to 16 checks in
  -- all, in their order.
  pub register_all-first :
      (checks : List (RegisteredCheck F)) (requests : List (Bytes × Option F))
      → register_all checks requests ≡ checks ++ map to_check (take (16 - length checks) requests)
  unfolding register_all register_check
  register_all-first checks [] =
      rw (take_nil (Bytes × Option F) (16 - length checks)) (sym (append-nil checks))
  register_all-first checks ((name, check_fn) ∷ rest) =
      elim (Bool-cases (leb max_health_checks (length checks))) [
        | inl full ↦
            let none_left : 16 - length checks ≡ 0 = ground arith in
            rw (full, none_left) (full_stays checks rest (ground arith) ∙ sym (append-nil checks))
        | inr room ↦
            let more = checks ++ new_check name check_fn ∷ [] in
            let left : 16 - length checks ≡ suc (16 - length more) =
              ground (arith, length-append checks (new_check name check_fn ∷ [])) in
            rw (room, left)
              (register_all-first more rest
                ∙ append_assoc checks (new_check name check_fn ∷ [])
                    (map to_check (take (16 - length more) rest)))
      ]
