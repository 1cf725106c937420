-- ===== src/Kurrent/Events.antt =====
-- The events of a page that KurrentDB answers, as src/kurrentdb_client.c reads them. No header declares
-- kurrentdb_event_t, so the sizes of its buffers are parameters.
use bacnet_event_server.Base.{
  ℕ, List, [], ◌∷◌, Option, none, some, Bytes, String, codes, copy_string, str_eq, if◌then◌else◌,
}
use bacnet_event_server.Base.Json.{CJson}
use bacnet_event_server.Base.Words.{Fpu, inc64}
use bacnet_event_server.Message.Fields.{or_default}

-- The other calls of cJSON: lookup without regard to letter case, and printing.
pub record Pages (J : Type 0) : Type 0 where
  pub cj : CJson J
  pub find_item : J → Bytes → Option J
  pub print_unformatted : J → Option Bytes
  pub event_id_size : ℕ
  pub event_type_size : ℕ
  pub stream_name_size : ℕ

-- `position` is both the commit and the prepare position. `ack_url` is what is written 128 bytes behind
-- the start of the event's identifier.
pub record Event : Type 0 where
  pub event_id : Bytes
  pub event_type : Bytes
  pub stream_name : Bytes
  pub event_number : ℕ
  pub position : ℕ
  pub payload : Option Bytes
  pub metadata : Option Bytes
  pub ack_url : Option Bytes

module _ {J : Type 0} (pages : Pages J) (fpu : Fpu) where
  abbrev pub text_in : Option J → Option Bytes
  text_in none = none
  text_in (some item) = pages.cj.string_value item

  abbrev pub number_in : Option J → Option ℕ
  number_in none = none
  number_in (some item) =
      if pages.cj.is_number item then some (fpu.u64_of_double (pages.cj.number item)) else none

  abbrev pub items_in : Option J → Option (List J)
  items_in none = none
  items_in (some item) = pages.cj.array_items item

  abbrev pub member : J → String → Option J
  member entry key = pages.find_item entry (codes key)

  abbrev pub short_text : ℕ → J → String → Bytes
  short_text size entry key = copy_string size (or_default (text_in (member entry key)) [])

  abbrev pub printed : Option J → Option Bytes
  printed none = none
  printed (some item) = pages.print_unformatted item

  -- The last "ack" link with a text for its address.
  abbrev pub ack_of : Option Bytes → Option Bytes → Option Bytes → Option Bytes
  ack_of (some relation) (some uri) later = elim later [
    | none ↦ if str_eq relation (codes "ack") then some (copy_string 256 uri) else none
    | some found ↦ some found
  ]
  ack_of (some relation) none later = later
  ack_of none _ later = later

  unfoldable pub ack_link : List J → Option Bytes
  ack_link [] = none
  ack_link (link ∷ links) =
      ack_of (text_in (member link "relation")) (text_in (member link "uri")) (ack_link links)

  -- One entry, as the poll thread reads it.
  unfoldable pub polled_event : J → Event
  unfolding ack_link
  polled_event entry = record {
    event_id = short_text pages.event_id_size entry "eventId";
    event_type = short_text pages.event_type_size entry "eventType";
    stream_name = short_text pages.stream_name_size entry "eventStreamId";
    event_number = or_default (number_in (member entry "eventNumber")) 0;
    position = or_default (number_in (member entry "positionEventNumber")) 0;
    payload = printed (member entry "data");
    metadata = text_in (member entry "metaData");
    ack_url = ack_link (or_default (items_in (member entry "links")) []);
  }

  -- One entry, as the catch-up thread reads it.
  unfoldable pub caught_event : J → Event
  caught_event entry = record {
    event_id = short_text pages.event_id_size entry "eventId";
    event_type = short_text pages.event_type_size entry "eventType";
    stream_name = [];
    event_number = or_default (number_in (member entry "eventNumber")) 0;
    position = 0;
    payload = printed (member entry "data");
    metadata = none;
    ack_url = none;
  }

  -- The entries of an answer: `none` unless the body parses to an object with an array of entries.
  abbrev pub entries_in : Option J → Option (List J)
  entries_in none = none
  entries_in (some root) = items_in (member root "entries")

  abbrev pub entries_of_body : Bytes → Option (List J)
  entries_of_body [] = none
  entries_of_body (b ∷ body) = entries_in (pages.cj.parse (b ∷ body))

  -- The loop from the last entry to the first of the poll thread.
  unfoldable pub poll_entries : List J → List Event
  unfolding polled_event
  poll_entries [] = []
  poll_entries (entry ∷ older) = polled_event entry ∷ poll_entries older

  -- The same loop of the catch-up thread, with the position for the next request.
  abbrev pub next_position : ℕ → Option ℕ → ℕ
  next_position position none = position
  next_position position (some number) = inc64 number

  unfoldable pub catchup_entries : ℕ → List J → ℕ × List Event
  unfolding caught_event
  catchup_entries position [] = (position, [])
  catchup_entries position (entry ∷ older) =
      let (last, events) =
        catchup_entries (next_position position (number_in (member entry "eventNumber"))) older in
      (last, caught_event entry ∷ events)
