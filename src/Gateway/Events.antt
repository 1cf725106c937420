-- ===== src/Gateway/Events.antt =====
-- load_subscriptions, on_event_received and recover_from_cache of src/main.c.
use bacnet_event_server.Base.{
  ℕ, suc, Bool, true, false, not, ◌||◌, List, [], ◌∷◌, Option, none, some, Bytes, String, codes,
  copy_string, str_eq, if◌then◌else◌, leb, is_some,
}
use bacnet_event_server.Base.Json.{CJson}
use bacnet_event_server.Base.Words.{Fpu}
use bacnet_event_server.Message.Model.{ParsedMessage, CachedObject}
use bacnet_event_server.Message.Fields.{Parsed, ok, err}
use bacnet_event_server.Message.Parse.{message_handler_parse}
use bacnet_event_server.Message.Process.{Services, message_handler_process}

-- An entry of g_subscriptions; `active` is true in every entry that is filled.
pub record Subscription : Type 0 where
  pub subscription_id : Bytes
  pub instance_offset : ℕ

abbrev pub max_subscriptions : ℕ
max_subscriptions = 32

abbrev pub add_entry : Option Subscription → Option (List Subscription) → Option (List Subscription)
add_entry none rest = none
add_entry (some e) none = none
add_entry (some e) (some rest) = some (e ∷ rest)

module _ {J : Type 0} (cj : CJson J) (fpu : Fpu) where
  abbrev pub offset_of : Option J → ℕ
  offset_of none = 0
  offset_of (some item) = fpu.u32_of_double (cj.number item)

  -- A device that the loop passes over: a missing field, or `enabled` present and not true.
  abbrev pub is_disabled : Option J → Bool
  is_disabled none = false
  is_disabled (some item) = not (cj.is_true item)

  abbrev pub field : J → String → Option J
  field device key = cj.get_item device (codes key)

  unfoldable pub is_skipped : J → Bool
  is_skipped device =
      not (is_some (field device "subscriptionId"))
      || not (is_some (field device "streamName"))
      || is_disabled (field device "enabled")

  abbrev pub id_of : Option J → Option Bytes
  id_of none = none
  id_of (some item) = cj.string_value item

  -- The entry of a device that is not passed over; `none` is the read through the NULL `valuestring` of
  -- an identifier that is no string.
  unfoldable pub entry_of : J → Option Subscription
  entry_of device = elim (id_of (field device "subscriptionId")) [
    | none ↦ none
    | some text ↦ some (record {
      subscription_id = copy_string 128 text;
      instance_offset = offset_of (field device "objectInstanceOffset");
    })
  ]

  -- The loop over the devices with `count` entries filled: the entries that it adds.
  unfoldable pub load_loop : ℕ → List J → Option (List Subscription)
  load_loop count [] = some []
  load_loop count (device ∷ devices) =
      let skipped = load_loop count devices in
      let taken = add_entry (entry_of device) (load_loop (suc count) devices) in
      if leb max_subscriptions count then some [] else if is_skipped device then skipped else taken

  -- load_subscriptions on the text of the file: `none` for -1 and for a fault.
  abbrev pub devices_of : Option J → Option (List J)
  devices_of none = none
  devices_of (some item) = cj.array_items item

  abbrev pub load_devices : Option (List J) → Option (List Subscription)
  load_devices none = none
  load_devices (some devices) = load_loop 0 devices

  abbrev pub load_root : Option J → Option (List Subscription)
  load_root none = none
  load_root (some root) = load_devices (devices_of (field root "devices"))

  unfoldable pub load_subscriptions : Bytes → Option (List Subscription)
  unfolding load_loop
  load_subscriptions text = load_root (cj.parse text)

-- The walk for the instance offset of an event: the first subscription of that name, or 0.
unfoldable pub find_offset : List Subscription → Bytes → ℕ
find_offset [] id = 0
find_offset (sub ∷ subs) id =
    if str_eq sub.subscription_id id then sub.instance_offset else find_offset subs id

pub record Event : Type 0 where
  pub subscription_id : Bytes
  pub text : Option Bytes
  pub stream_revision : ℕ

-- After processing: the position is stored only on success.
abbrev pub finish_event : {S : Type 0} → Services S → Event → S × Bool → S × Bool
finish_event api e (s, true) = (api.store_position s e.subscription_id e.stream_revision, true)
finish_event api e (s, false) = (s, false)

-- on_event_received: the new state, and whether the event is acknowledged.
module _ {J S : Type 0} (cj : CJson J) (fpu : Fpu) (api : Services S) where
  abbrev pub handle_parsed : ℕ → List Subscription → S → Event → Parsed ParsedMessage → S × Bool
  handle_parsed now subs s e (err code) = (s, true)
  handle_parsed now subs s e (ok m) =
      finish_event api e (message_handler_process api now s m (find_offset subs e.subscription_id))

  unfoldable pub handle_text : ℕ → List Subscription → S → Event → Option Bytes → S × Bool
  handle_text now subs s e none = (s, true)
  handle_text now subs s e (some text) =
      handle_parsed now subs s e (message_handler_parse cj fpu now (some text))

  unfoldable pub on_event_received : ℕ → List Subscription → S → Event → S × Bool
  unfolding handle_text
  on_event_received now subs s e = handle_text now subs s e e.text

  -- recover_from_cache over the objects that the cache iterates: the number of objects created.
  unfoldable pub recover : S → List CachedObject → S × ℕ
  recover s [] = (s, 0)
  recover s (o ∷ os) =
      let (s1, created) = api.create_object s o in
      let (s2, count) = recover s1 os in (s2, if created then suc count else count)
