-- ===== src/Bacnet/Task.antt =====
-- The task thread of src/bacnet_server.c: packets and the lifetimes of subscriptions.
use bacnet_event_server.Base.{
  ℕ, suc, ◌+◌, ◌-◌, ◌≤◌, ◌≡◌, refl, sym, subst, ap, ◌∙◌, Bool, true, false, List, [], ◌∷◌, Option,
  none, some, Bytes, arith, if◌then◌else◌, ltb, Bool-cases, inl, inr,
}
use bacnet_event_server.Base.Words.{inc64}
use bacnet_event_server.Bacnet.Model.{Server, Subscription}
use bacnet_event_server.Bacnet.Cov.{find_subscription, update_lifetimes}
use bacnet_event_server.Bacnet.Subscriptions.{
  AreDistinct, survivors-AreDistinct, expire_loop-survivors,
}
use bacnet_event_server.Bacnet.Lifetimes.{
  then_after, then_after-suc, pass_seconds, find-pass_seconds,
}

-- One round while `running` holds: whether datalink_receive has a packet, which the stack handles, and what time answers.
pub record Round : Type 0 where
  pub received : Bool
  pub now : ℕ

-- handle_bacnet_packet.
unfoldable pub handle_packet : Bool → Server → Server
handle_packet received s =
    if received
    then record s { stats = record s.stats { read_requests = inc64 s.stats.read_requests } }
    else s

-- bacnet_server_task.
unfoldable pub server_task : Bool → Server → Server
unfolding handle_packet
server_task received s = if s.running then handle_packet received s else s

-- The body of the loop: the time of the last check, and the server.
unfoldable pub task_round : Round → ℕ × Server → ℕ × Server
unfolding handle_packet update_lifetimes
task_round r (last, s) =
    let handled = handle_packet r.received s in
    if ltb last r.now then (r.now, update_lifetimes handled) else (last, handled)

-- bacnet_task_thread_func.
unfoldable pub task_loop : List Round → ℕ × Server → ℕ × Server
unfolding task_round
task_loop [] state = state
task_loop (r ∷ rounds) state = task_loop rounds (task_round r state)

-- No round comes more than a second after the last check.
unfoldable pub HasNoGap : ℕ → List Round → Type 0
HasNoGap last [] = Unit
HasNoGap last (r ∷ rounds) =
    (r.now ≤ last + 1) × HasNoGap (if ltb last r.now then r.now else last) rounds

packet-subscriptions :
    (received : Bool) (s : Server)
    → (handle_packet received s).cov_subscriptions ≡ s.cov_subscriptions
unfolding handle_packet
packet-subscriptions true s = refl
packet-subscriptions false s = refl

update-AreDistinct :
    (s : Server)
    → AreDistinct s.cov_subscriptions
    → AreDistinct (update_lifetimes s).cov_subscriptions
unfolding update_lifetimes
update-AreDistinct s d =
    rw (expire_loop-survivors s.cov_subscriptions s.cov_subscription_count)
      (survivors-AreDistinct s.cov_subscriptions d)

then_after_zero : (o : Option Subscription) → then_after 0 o ≡ o
then_after_zero none = refl
then_after_zero (some sub) = ground arith

round_ticks :
    (r : Round) (last : ℕ) (s : Server)
    → ltb last r.now ≡ true
    → task_round r (last, s) ≡ (r.now, update_lifetimes (handle_packet r.received s))
unfolding task_round
round_ticks r last s later = rw later refl

round_waits :
    (r : Round) (last : ℕ) (s : Server)
    → ltb last r.now ≡ false
    → task_round r (last, s) ≡ (last, handle_packet r.received s)
unfolding task_round
round_waits r last s same = rw same refl

-- One update of the lifetimes, and those of the `n` seconds that follow.
find-tick :
    (n : ℕ) (received : Bool) (s : Server) (t i pid : ℕ) (address : Bytes)
    → AreDistinct s.cov_subscriptions
    → then_after n (
        find_subscription
          (update_lifetimes (handle_packet received s)).cov_subscriptions
          t
          i
          pid
          address)
      ≡ then_after (suc n) (find_subscription s.cov_subscriptions t i pid address)
unfolding pass_seconds
find-tick n received s t i pid address d =
    let same = packet-subscriptions received s in
    let distinct = subst AreDistinct (sym same) d in
    ap (then_after n) (find-pass_seconds 1 (handle_packet received s) t i pid address distinct)
    ∙ then_after-suc n
        (find_subscription (handle_packet received s).cov_subscriptions t i pid address)
    ∙ ap (λ subs. then_after (suc n) (find_subscription subs t i pid address)) same

-- From the time `last` and the server `s` to the state `end`, a subscriber's subscription ages by the seconds between.
abbrev pub AgesTo : ℕ → Server → ℕ → ℕ → ℕ → Bytes → ℕ × Server → Type 0
AgesTo last s t i pid address (end, after) =
    (last ≤ end)
    × (find_subscription after.cov_subscriptions t i pid address
        ≡ then_after (end - last) (find_subscription s.cov_subscriptions t i pid address))

-- If no two subscriptions of the server are of the same subscriber and no round of the task thread comes more than a second after the last check, then after any number of rounds, packets handled or not, a subscriber's subscription is what the seconds from the first check to the last one make of it: it is there with so much less to live, gone if they have used up its lifetime, and unchanged if that was 0.
pub find-task_loop :
    (rounds : List Round) (last : ℕ) (s : Server) (t i pid : ℕ) (address : Bytes)
    → AreDistinct s.cov_subscriptions
    → HasNoGap last rounds
    → AgesTo last s t i pid address (task_loop rounds (last, s))
unfolding task_loop HasNoGap
find-task_loop [] last s t i pid address d h =
    let none_passed : last - last ≡ 0 = omega arith in
    (
      omega arith,
      rw none_passed
          (sym (then_after_zero (find_subscription s.cov_subscriptions t i pid address))),
    )
find-task_loop (r ∷ rounds) last s t i pid address d (near, h) =
    let handled = handle_packet r.received s in
    let distinct = subst AreDistinct (sym (packet-subscriptions r.received s)) d in
    elim (Bool-cases (ltb last r.now)) [
      | inl later ↦
          let ih =
            find-task_loop rounds r.now (update_lifetimes handled) t i pid address
              (update-AreDistinct handled distinct)
              (subst (λ b. HasNoGap (if b then r.now else last) rounds) later h) in
          let end = (task_loop rounds (r.now, update_lifetimes handled)).0 in
          let next : suc (end - r.now) ≡ end - last = ground (arith, ih.0, later, near) in
          subst (λ state. AgesTo last s t i pid address (task_loop rounds state))
            (sym (round_ticks r last s later))
            (
              ground (arith, ih.0, later),
              ih.1
                  ∙ find-tick (end - r.now) r.received s t i pid address d
                  ∙ ap (λ n. then_after n (find_subscription s.cov_subscriptions t i pid address))
                      next,
            )
      | inr same ↦
          let ih =
            find-task_loop rounds last handled t i pid address distinct
              (subst (λ b. HasNoGap (if b then r.now else last) rounds) same h) in
          subst (λ state. AgesTo last s t i pid address (task_loop rounds state))
            (sym (round_waits r last s same))
            (
              ih.0,
              ih.1
                  ∙ ap
                      (λ subs.
                        then_after ((task_loop rounds (last, handled)).0 - last)
                          (find_subscription subs t i pid address))
                      (packet-subscriptions r.received s),
            )
    ]
