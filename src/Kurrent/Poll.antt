-- ===== src/Kurrent/Poll.antt =====
-- subscription_poll_thread of src/kurrentdb_client.c.
use bacnet_event_server.Base.{
  ℕ, zero, suc, ◌^◌, ◌-◌, Bool, true, false, not, List, [], ◌∷◌, ◌++◌, Option, none, some, Bytes,
  codes, copy_string, if◌then◌else◌, ◌==◌,
}
use mathlib.Core.List.{reverse}
use bacnet_event_server.Base.Words.{Fpu}
use bacnet_event_server.Kurrent.Curl.{Request, get, Answer, Curl}
use bacnet_event_server.Kurrent.Client.{
  Pointer, null, client, other, Subscription, Client, Statuses, login_of, client_connect,
}
use bacnet_event_server.Kurrent.Events.{Pages, Event, entries_of_body, poll_entries}

-- What a thread calls back: the status of the connection, an event, or an error.
pub data Callback : Type 0 where
  status : Bool → Callback
  event : Event → Callback
  failed : ℕ → Callback

abbrev pub as_statuses : Statuses → List Callback
as_statuses [] = []
as_statuses (b ∷ bs) = status b ∷ as_statuses bs

abbrev pub as_events : List Event → List Callback
as_events [] = []
as_events (e ∷ es) = event e ∷ as_events es

abbrev pub poll_request : Client → Subscription → Request
poll_request c sub = record {
  url = copy_string 1024 (
      c.address.base_url
      ++ (codes "/subscriptions/"
          ++ (sub.stream_name ++ (codes "/" ++ (sub.group_name ++ codes "/10?embed=body")))));
  method = get;
  headers =
      codes "Accept: application/vnd.eventstore.competingatom+json"
      ∷ codes "Content-Type: application/json"
      ∷ [];
  body = [];
  login = login_of c;
}

abbrev pub when_listed : {J A : Type 0} → A → (List J → A) → Option (List J) → A
when_listed d f none = d
when_listed d f (some entries) = f entries

module _ {W J : Type 0} (curl : Curl W) (pages : Pages J) (fpu : Fpu) where
  -- The error callback, if there is one.
  abbrev pub report : Subscription → ℕ → List Callback
  report sub code = if sub.has_error_callback then failed code ∷ [] else []

  abbrev pub on_body : Bytes → List Callback
  on_body body =
      when_listed [] (λ entries. as_events (poll_entries pages fpu (reverse entries)))
        (entries_of_body pages fpu body)

  -- What an answer makes the poll thread call back.
  unfoldable pub on_answer : Subscription → Answer → List Callback
  on_answer sub a =
      if not (a.code == 0)
      then report sub a.code
      else if a.http_code == 200
      then on_body a.body
      else []

  abbrev pub take_answer :
      Client → Subscription → Statuses → W × Answer → Client × W × List Callback
  take_answer c sub statuses (w, a) = (c, w, as_statuses statuses ++ on_answer sub a)

  abbrev pub poll_connected :
      Subscription → Client × W × Bool × Statuses → Client × W × List Callback
  poll_connected sub (c, w, done, statuses) =
      if c.connected
      then take_answer c sub statuses (curl.perform w (poll_request c sub))
      else (c, w, as_statuses statuses)

  -- One round of the loop: an attempt to connect if need be, a request, and its events, oldest first.
  unfoldable pub poll_round : Client → Subscription → W → Client × W × List Callback
  unfolding on_answer
  poll_round c sub w =
      poll_connected sub (if c.connected then (c, w, true, []) else client_connect curl c w)

  abbrev pub add_callbacks : List Callback → Client × W × List Callback → Client × W × List Callback
  add_callbacks earlier (c, w, later) = (c, w, earlier ++ later)

  -- `rounds` rounds, until the subscription or the client is stopped.
  unfoldable pub poll_loop : ℕ → Client → Subscription → W → Client × W × List Callback
  unfolding poll_round
  poll_loop zero c sub w = (c, w, [])
  poll_loop (suc rounds) c sub w =
      let (c1, w1, first) = poll_round c sub w in
      let rest = add_callbacks first (poll_loop rounds c1 sub w1) in
      if curl.is_running w then rest else (c, w, [])

  -- A failure to get a handle is reported as -1.
  abbrev pub poll_with : ℕ → Client → Subscription → W × Bool → Client × W × List Callback
  poll_with rounds c sub (w, false) = (c, w, report sub (2 ^ 32 - 1))
  poll_with rounds c sub (w, true) = poll_loop rounds c sub w

  -- subscription_poll_thread takes the subscription's user data for the client; any other pointer is read
  -- as a client all the same, which is a fault (`none`).
  abbrev pub poll_from :
      ℕ → Client → Subscription → W → Pointer → Option (Client × W × List Callback)
  poll_from rounds c sub w client = some (poll_with rounds c sub (curl.easy_init w))
  poll_from rounds c sub w null = none
  poll_from rounds c sub w other = none

  unfoldable pub poll_thread : ℕ → Client → Subscription → W → Option (Client × W × List Callback)
  unfolding poll_loop
  poll_thread rounds c sub w = poll_from rounds c sub w sub.user_data
