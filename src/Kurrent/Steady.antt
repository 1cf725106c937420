-- ===== src/Kurrent/Steady.antt =====
-- The connection of the poll thread of src/kurrentdb_client.c over many rounds.
use bacnet_event_server.Base.{
  ℕ, zero, suc, ◌≡◌, refl, ap, Bool, true, false, not, ◌&&◌, List, [], ◌∷◌, ◌++◌, arith, Bool-cases,
  inl, inr, if◌then◌else◌, Option-cases, append-nil,
}
use mathlib.Core.List.{reverse}
use bacnet_event_server.Base.Words.{Fpu}
use bacnet_event_server.Kurrent.Curl.{Answer, Curl}
use bacnet_event_server.Kurrent.Client.{Subscription, Client, Statuses, client_connect}
use bacnet_event_server.Kurrent.Events.{Pages, Event, entries_of_body, poll_entries}
use bacnet_event_server.Kurrent.Poll.{
  Callback, status, event, failed, as_statuses, as_events, on_answer, poll_round, poll_loop,
  poll_connected, poll_request,
}

-- The statuses among the callbacks.
abbrev pub statuses_in : List Callback → Statuses
statuses_in [] = []
statuses_in (status b ∷ cs) = b ∷ statuses_in cs
statuses_in (event e ∷ cs) = statuses_in cs
statuses_in (failed code ∷ cs) = statuses_in cs

statuses-append : (a b : List Callback) → statuses_in (a ++ b) ≡ statuses_in a ++ statuses_in b
statuses-append [] b = refl
statuses-append (status s ∷ a) b = ap (λ r. s ∷ r) (statuses-append a b)
statuses-append (event e ∷ a) b = statuses-append a b
statuses-append (failed code ∷ a) b = statuses-append a b

statuses-as_events : (es : List Event) → statuses_in (as_events es) ≡ []
statuses-as_events [] = refl
statuses-as_events (e ∷ es) = statuses-as_events es

-- What one round or several do to the connection: it is never lost, and the status callback is called
-- once when it is made.
pub record IsSteady {W : Type 0} (c : Client) (r : Client × W × List Callback) : Type 0 where
  pub kept : (c.connected && not r.0.connected) ≡ false
  pub callback : r.0.has_status_callback ≡ c.has_status_callback
  pub statuses :
      statuses_in r.2
      ≡ (if not c.connected && r.0.connected && c.has_status_callback then true ∷ [] else [])

module _ {W J : Type 0} (curl : Curl W) (pages : Pages J) (fpu : Fpu) (sub : Subscription) where
  statuses-on_answer : (a : Answer) → statuses_in (on_answer curl pages fpu sub a) ≡ []
  unfolding on_answer
  statuses-on_answer a = elim (Option-cases (entries_of_body pages fpu a.body)) [
    | inl unlisted ↦ ground (arith, unlisted)
    | inr (entries, listed) ↦
        ground (arith, listed, statuses-as_events (poll_entries pages fpu (reverse entries)))
  ]

  connect-statuses :
      (c : Client) (w : W)
      → c.connected ≡ false
      → ((client_connect curl c w).0.has_status_callback ≡ c.has_status_callback)
        × ((client_connect curl c w).3 ≡ (
            if (client_connect curl c w).0.connected && c.has_status_callback
            then true ∷ []
            else []))
  unfolding client_connect
  connect-statuses c w off = elim (Bool-cases (curl.easy_init w).1) [
    | inl ready ↦ ground (arith, ready)
    | inr missing ↦ ground (arith, missing)
  ]

  statuses-as_statuses : (bs : Statuses) → statuses_in (as_statuses bs) ≡ bs
  statuses-as_statuses [] = refl
  statuses-as_statuses (b ∷ bs) = ap (λ r. b ∷ r) (statuses-as_statuses bs)

  statuses-poll_connected :
      (r : Client × W × Bool × Statuses)
      → ((poll_connected curl pages fpu sub r).0 ≡ r.0)
        × (statuses_in (poll_connected curl pages fpu sub r).2 ≡ r.3)
  statuses-poll_connected (c, w, done, bs) =
      let a = (curl.perform w (poll_request c sub)).1 in
      ground (
        arith,
        statuses-as_statuses bs,
        statuses-on_answer a,
        statuses-append (as_statuses bs) (on_answer curl pages fpu sub a),
        append-nil bs,
      )

  poll_round-IsSteady : (c : Client) (w : W) → IsSteady c (poll_round curl pages fpu c sub w)
  unfolding poll_round
  poll_round-IsSteady c w = elim (Bool-cases c.connected) [
    | inl on ↦
        let (same, bs) = statuses-poll_connected (c, w, true, []) in
        record {
          kept = ground (arith, on, same);
          callback = ground (arith, on, same);
          statuses = ground (arith, on, same, bs);
        }
    | inr off ↦
        let (same, bs) = statuses-poll_connected (client_connect curl c w) in
        let (callback, made) = connect-statuses c w off in
        record {
          kept = ground (arith, off);
          callback = ground (arith, off, same, callback);
          statuses = ground (arith, off, same, bs, made);
        }
  ]

  -- However many rounds the poll thread makes and whatever the server answers: a connection is never
  -- given up, and the status callback, if there is one, is called once, when a client that was not
  -- connected has connected, and otherwise not at all.
  pub poll_loop-IsSteady :
      (rounds : ℕ) (c : Client) (w : W) → IsSteady c (poll_loop curl pages fpu rounds c sub w)
  unfolding poll_loop
  poll_loop-IsSteady zero c w = ground arith
  poll_loop-IsSteady (suc rounds) c w = elim (Bool-cases (curl.is_running w)) [
    | inr stopped ↦ rw stopped (ground arith)
    | inl runs ↦
        let r = poll_round curl pages fpu c sub w in
        let first = poll_round-IsSteady c w in
        let later = poll_loop-IsSteady rounds r.0 r.1 in
        let joined = statuses-append r.2 (poll_loop curl pages fpu rounds r.0 sub r.1).2 in
        record {
          kept = ground (arith, runs, first.kept, later.kept);
          callback = ground (arith, runs, first.callback, later.callback);
          statuses = ground (arith, runs, first, later, joined);
        }
  ]
