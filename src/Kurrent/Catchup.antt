-- ===== src/Kurrent/Catchup.antt =====
-- kurrentdb_subscribe and catchup_thread of src/kurrentdb_client.c.
use bacnet_event_server.Base.{
  ℕ, zero, suc, ◌^◌, ◌-◌, Bool, true, false, ◌&&◌, List, [], ◌∷◌, ◌++◌, Option, none, some, Bytes,
  codes, copy_string, if◌then◌else◌, ◌==◌, ltb, not,
}
use mathlib.Core.List.{reverse}
use bacnet_event_server.Base.Decimal.{print_nat}
use bacnet_event_server.Base.Words.{Fpu}
use bacnet_event_server.Kurrent.Curl.{Request, get, Answer, Curl}
use bacnet_event_server.Kurrent.Client.{Client, login_of}
use bacnet_event_server.Kurrent.Events.{Pages, Event, entries_of_body, catchup_entries}

-- Where a subscription starts.
pub data Start : Type 0 where
  from_begin from_end : Start
  from_position : ℕ → Start

abbrev pub from_position_of : Start → ℕ
from_position_of from_begin = 0
from_position_of from_end = 2 ^ 64 - 1
from_position_of (from_position p) = p

-- One request for at most 100 events from a position.
abbrev pub catchup_request : Client → Bytes → ℕ → Request
catchup_request c stream position = record {
  url = copy_string 512 (
      c.address.base_url
      ++ (codes "/streams/"
          ++ (stream ++ (codes "/" ++ (print_nat position ++ codes "/forward/100?embed=body")))));
  method = get;
  headers = codes "Accept: application/vnd.eventstore.atom+json" ∷ [];
  body = [];
  login = login_of c;
}

-- What an answer makes the thread do: ask again, stop, or go on with the entries from the last one.
pub data Progress (J : Type 0) : Type 0 where
  again caught_up : Progress J
  forward : List J → Progress J

abbrev pub progress_of_entries : {J : Type 0} → Option (List J) → Progress J
progress_of_entries none = again
progress_of_entries (some []) = caught_up
progress_of_entries (some (e ∷ es)) = forward (reverse (e ∷ es))

abbrev pub add_events :
    {W : Type 0} → List Event → Option (W × List Event) → Option (W × List Event)
add_events earlier none = none
add_events earlier (some (w, later)) = some (w, earlier ++ later)

module _ {W J : Type 0} (curl : Curl W) (pages : Pages J) (fpu : Fpu) where
  abbrev pub progress_of : Answer → Progress J
  progress_of a =
      if a.code == 0 then progress_of_entries (entries_of_body pages fpu a.body) else again

  -- One round: a handle, a request, and what its answer asks for; a round without a handle is the last.
  abbrev pub ask : Client → Bytes → ℕ → W × Bool → W × Progress J
  ask c stream position (w, false) = (w, caught_up)
  ask c stream position (w, true) =
      let (w', a) = curl.perform w (catchup_request c stream position) in (w', progress_of a)

  -- After a round that goes on: the next position and the events of the round.
  abbrev pub events_from : ℕ → Progress J → ℕ × List Event
  events_from position (forward entries) = catchup_entries pages fpu position entries
  events_from position _ = (position, [])

  abbrev pub is_over : Progress J → Bool
  is_over caught_up = true
  is_over _ = false

  -- The loop, with fuel for its rounds; `none` when the fuel runs out. The events are those given to the
  -- callback, in order.
  unfoldable pub catchup_loop : ℕ → Client → Bytes → ℕ → W → Option (W × List Event)
  catchup_loop zero c stream position w = none
  catchup_loop (suc fuel) c stream position w =
      let (w', progress) = ask c stream position (curl.easy_init w) in
      let (position', events) = events_from position progress in
      let rest = add_events events (catchup_loop fuel c stream position' w') in
      if not (curl.is_running w)
      then some (w, [])
      else if is_over progress
      then some (w', [])
      else rest

  -- kurrentdb_subscribe, whose thread it is; `none` for false, without fuel, or for a failed allocation.
  unfoldable pub subscribe :
      ℕ → Bool → Client → Option Bytes → Start → Bool → W → Option (W × List Event)
  unfolding catchup_loop
  subscribe fuel allocated c none start has_callback w = none
  subscribe fuel allocated c (some stream) start has_callback w =
      let events = catchup_loop fuel c (copy_string 256 stream) (from_position_of start) w in
      if has_callback && allocated then events else none

-- The identifier that kurrentdb_subscribe writes into a buffer of `size` bytes.
unfoldable pub catchup_id : Bytes → Start → ℕ → Bytes
catchup_id stream start size =
    if ltb 0 size
    then copy_string size
        (codes "catchup-" ++ (stream ++ (codes "-" ++ print_nat (from_position_of start))))
    else []
