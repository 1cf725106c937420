-- ===== src/Gateway/Threads.antt =====
-- bacnet_task_thread and the loop of main in src/main.c.
use bacnet_event_server.Base.{
  ℕ, zero, suc, ◌+◌, ◌-◌, ◌*◌, ◌%◌, ◌^◌, ◌<◌, ◌≤◌, ◌≡◌, refl, Bool, true, false, ◌&&◌, List, [],
  ◌∷◌, arith, if◌then◌else◌, ltb, leb, length, get_elem?, map, Bool-cases, inl, inr,
}

-- The calls of the server that the thread makes: bacnet_server_task and bacnet_cov_update_lifetimes.
pub data TaskCall : Type 0 where
  handles_task : ℕ → TaskCall
  updates_lifetimes : ℕ → TaskCall

-- A round of the thread: g_running at its start, which the signal handler clears, and time(NULL).
pub record TaskRound : Type 0 where
  pub running : Bool
  pub now : ℕ

-- The end of a round; the seconds are passed as an `int`.
unfoldable pub update_seconds : ℕ → ℕ → ℕ × List TaskCall
update_seconds last now =
    if ltb last now then (now, updates_lifetimes ((now - last) % 2 ^ 32) ∷ []) else (last, [])

abbrev pub then_calls : List TaskCall → List TaskCall → List TaskCall
then_calls [] rest = rest
then_calls (call ∷ calls) rest = call ∷ then_calls calls rest

-- bacnet_task_thread, with the time of the last update.
unfoldable pub task_thread : ℕ → List TaskRound → List TaskCall
unfolding update_seconds
task_thread last [] = []
task_thread last (r ∷ rounds) =
    let (next, calls) = update_seconds last r.now in
    let rest = task_thread next rounds in
    if r.running then handles_task 100 ∷ then_calls calls rest else []

-- A second of the loop of main: g_running before and after the sleep, and the statistics.
pub record Second (A : Type 0) : Type 0 where
  pub running : Bool
  pub still_running : Bool
  pub stats : A

-- The loop of main: the statistics that are printed; the counter is status_counter.
unfoldable pub status_loop : {A : Type 0} → ℕ → List (Second A) → List A
status_loop counter [] = []
status_loop counter (s ∷ rest) =
    let printed = s.stats ∷ status_loop 0 rest in
    let waiting = status_loop (suc counter) rest in
    if s.running && s.still_running then (if leb 60 (suc counter) then printed else waiting) else []

-- The seconds that the calls hand over, and the number of calls of bacnet_server_task.
unfoldable pub seconds_of : List TaskCall → ℕ
seconds_of [] = 0
seconds_of (handles_task ms ∷ calls) = seconds_of calls
seconds_of (updates_lifetimes n ∷ calls) = n + seconds_of calls

unfoldable pub tasks_of : List TaskCall → ℕ
tasks_of [] = 0
tasks_of (handles_task ms ∷ calls) = suc (tasks_of calls)
tasks_of (updates_lifetimes n ∷ calls) = tasks_of calls

-- The readings of the rounds before the first one that finds the flag cleared.
abbrev pub readings : List TaskRound → List ℕ
readings [] = []
readings (r ∷ rounds) = let rest = readings rounds in if r.running then r.now ∷ rest else []

abbrev pub latest : ℕ → List ℕ → ℕ
latest last [] = last
latest last (now ∷ rest) = latest (if ltb last now then now else last) rest

abbrev pub AreBelow : ℕ → List ℕ → Type 0
AreBelow bound [] = Unit
AreBelow bound (now ∷ rest) = (now < bound) × AreBelow bound rest

-- A second with the flag set.
abbrev pub running_second : {A : Type 0} → A → Second A
running_second stats = record { running = true; still_running = true; stats = stats }

AreBelow-weaken :
    (bound larger : ℕ) (times : List ℕ)
    → bound ≤ larger
    → AreBelow bound times
    → AreBelow larger times
AreBelow-weaken bound larger [] h below = tt
AreBelow-weaken bound larger (now ∷ rest) h below =
    (omega (arith, below.0), AreBelow-weaken bound larger rest h below.1)

-- Whatever the clock answers, also when it is set back, as long as every reading is less than 2 ^ 31 seconds after
-- the start: the thread calls bacnet_server_task once in each round before the flag is cleared, and the seconds
-- that it hands over are together those from its start to the latest reading.
pub task_thread-seconds :
    (last : ℕ) (rounds : List TaskRound)
    → AreBelow (last + 2 ^ 31) (readings rounds)
    → (last + seconds_of (task_thread last rounds) ≡ latest last (readings rounds))
      × (tasks_of (task_thread last rounds) ≡ length (readings rounds))
unfolding task_thread seconds_of tasks_of update_seconds
task_thread-seconds last [] h = (omega arith, refl)
task_thread-seconds last (r ∷ rounds) h =
    round r.running h λ next k. task_thread-seconds next rounds k
  where
    round :
        (running : Bool)
        → AreBelow (last + 2 ^ 31) (if running then r.now ∷ readings rounds else [])
        → ((next : ℕ)
            → AreBelow (next + 2 ^ 31) (readings rounds)
            → (next + seconds_of (task_thread next rounds) ≡ latest next (readings rounds))
              × (tasks_of (task_thread next rounds) ≡ length (readings rounds)))
        → let calls =
            (if running
              then handles_task 100
                ∷ then_calls
                    (update_seconds last r.now).1
                    (task_thread (update_seconds last r.now).0 rounds)
              else []) in
          let read = if running then r.now ∷ readings rounds else [] in
          (last + seconds_of calls ≡ latest last read) × (tasks_of calls ≡ length read)
    round false k rest = (omega arith, refl)
    round true k rest = elim (Bool-cases (ltb last r.now)) [
      | inl newer ↦
          let later = rest r.now (
            AreBelow-weaken (last + 2 ^ 31) (r.now + 2 ^ 31) (readings rounds)
              (ground (arith, newer)) k.1) in
          let bound = k.0 in ground (arith, later, newer, bound)
      | inr same ↦ let kept = rest last k.1 in ground (arith, kept, same)
    ]

-- While the program runs, the status lines are the statistics of every sixtieth second, in order: with a
-- counter below 60 before, line n is that of second 60 * n + 59 less the counter.
pub status_loop-sixtieth :
    {A : Type 0} (counter n : ℕ) (stats : List A)
    → counter < 60
    → get_elem? (status_loop counter (map running_second stats)) n
      ≡ get_elem? stats (60 * n + (59 - counter))
unfolding status_loop
status_loop-sixtieth counter n [] h = refl
status_loop-sixtieth counter zero (s ∷ stats) h = elim (Bool-cases (leb 60 (suc counter))) [
  | inl due ↦
      let first : 60 * 0 + (59 - counter) ≡ 0 = ground (arith, due, h) in rw (due, first) refl
  | inr waits ↦
      let later : 60 * 0 + (59 - counter) ≡ suc (60 * 0 + (59 - suc counter)) =
        ground (arith, waits, h) in
      rw (waits, later) (status_loop-sixtieth (suc counter) zero stats (ground (arith, waits, h)))
]
status_loop-sixtieth counter (suc n) (s ∷ stats) h = elim (Bool-cases (leb 60 (suc counter))) [
  | inl due ↦
      let later : 60 * suc n + (59 - counter) ≡ suc (60 * n + (59 - 0)) = ground (arith, due, h) in
      rw (due, later) (status_loop-sixtieth 0 n stats (omega arith))
  | inr waits ↦
      let later : 60 * suc n + (59 - counter) ≡ suc (60 * suc n + (59 - suc counter)) =
        ground (arith, waits, h) in
      rw (waits, later)
        (status_loop-sixtieth (suc counter) (suc n) stats (ground (arith, waits, h)))
]
