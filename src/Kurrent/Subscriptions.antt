-- ===== src/Kurrent/Subscriptions.antt =====
-- Persistent subscriptions of src/kurrentdb_client.c: creation, acknowledgement, refusal, cancellation.
use bacnet_event_server.Base.{
  ℕ, ◌-◌, ◌*◌, Bool, true, false, List, [], ◌∷◌, ◌++◌, Option, none, some, Bytes, codes,
  copy_string, str_eq, if◌then◌else◌, ◌==◌, leb, ltb, length, take,
}
use bacnet_event_server.Base.Decimal.{print_nat}
use bacnet_event_server.Kurrent.Curl.{Request, put, post, Answer, Curl}
use bacnet_event_server.Kurrent.Client.{Pointer, Subscription, Client, login_of, stopped}

-- The arguments of kurrentdb_subscribe_persistent; the handle is not NULL. `id_size` is the size of the
-- buffer for the identifier, if there is one.
pub record Subscribe : Type 0 where
  pub stream_name : Option Bytes
  pub group_name : Option Bytes
  pub has_event_callback : Bool
  pub has_error_callback : Bool
  pub user_data : Pointer
  pub id_size : ℕ

-- `"sub-%s-%s-%zu"`, before it is cut to 127 bytes.
abbrev pub id_text : Bytes → Bytes → ℕ → Bytes
id_text stream group index =
    codes "sub-" ++ (stream ++ (codes "-" ++ (group ++ (codes "-" ++ print_nat index))))

-- The subscription as the thread finds it: the caller's pointer has replaced the client's.
unfoldable pub new_subscription : Subscribe → Bytes → Bytes → ℕ → Subscription
new_subscription r stream group index = record {
  subscription_id = copy_string 128 (id_text stream group index);
  stream_name = copy_string 256 stream;
  group_name = copy_string 128 group;
  has_error_callback = r.has_error_callback;
  user_data = r.user_data;
  active = true;
}

-- The capacity doubles when it is reached; `none` when `realloc` fails.
unfoldable pub grown : Bool → Client → Option Client
grown allocated c =
    if leb c.subscription_capacity (length c.subscriptions)
    then if allocated
      then some (record c { subscription_capacity = c.subscription_capacity * 2 })
      else none
    else some c

-- The identifier that the caller gets, through a zeroed buffer.
abbrev pub out_id : ℕ → Bytes → Bytes
out_id size id = if ltb 0 size then take (size - 1) id else []

abbrev pub json_header : List Bytes
json_header = codes "Content-Type: application/json" ∷ []

abbrev pub create_request : Client → Bytes → Bytes → Request
create_request c stream group = record {
  url =
      copy_string 512
        (c.address.base_url ++ (codes "/subscriptions/" ++ (stream ++ (codes "/" ++ group))));
  method = put;
  headers = json_header;
  body =
      codes "{"
      ++ (34 ∷ codes "resolveLinkTos")
      ++ (34 ∷ codes ":true,")
      ++ (34 ∷ codes "startFrom")
      ++ (34 ∷ codes ":0}");
  login = login_of c;
}

module _ {W : Type 0} (curl : Curl W) where
  -- The request that creates the subscription on the server; its answer is not looked at.
  abbrev pub send_create : Request → W × Bool → W
  send_create r (w, false) = w
  send_create r (w, true) = (curl.perform w r).0

  abbrev pub add_subscription : Subscribe → Bytes → Bytes → W → Client → Client × W × Option Bytes
  add_subscription r stream group w c =
      let sub = new_subscription r stream group (length c.subscriptions) in
      (
        record c { subscriptions = c.subscriptions ++ sub ∷ [] },
        send_create (create_request c stream group) (curl.easy_init w),
        some (out_id r.id_size sub.subscription_id),
      )

  abbrev pub subscribe_grown :
      Subscribe → Bytes → Bytes → W → Client → Option Client → Client × W × Option Bytes
  subscribe_grown r stream group w c none = (c, w, none)
  subscribe_grown r stream group w c (some c') = add_subscription r stream group w c'

  abbrev pub subscribe_named :
      Bool → Subscribe → W → Client → Option Bytes → Option Bytes → Client × W × Option Bytes
  subscribe_named allocated r w c (some stream) (some group) =
      if r.has_event_callback
      then subscribe_grown r stream group w c (grown allocated c)
      else (c, w, none)
  subscribe_named allocated r w c (some stream) none = (c, w, none)
  subscribe_named allocated r w c none _ = (c, w, none)

  -- kurrentdb_subscribe_persistent: `none` for false, else the identifier.
  unfoldable pub subscribe_persistent : Bool → Client → W → Subscribe → Client × W × Option Bytes
  unfolding grown new_subscription
  subscribe_persistent allocated c w r = subscribe_named allocated r w c r.stream_name r.group_name

-- The walk of kurrentdb_ack_event, kurrentdb_nak_event and kurrentdb_unsubscribe.
unfoldable pub find_subscription : List Subscription → Bytes → Option Subscription
find_subscription [] id = none
find_subscription (sub ∷ subs) id =
    if str_eq sub.subscription_id id then some sub else find_subscription subs id

abbrev pub event_request : Client → Subscription → Bytes → Bytes → Bytes → Request
event_request c sub action event_id suffix = record {
  url = copy_string 512 (
      c.address.base_url
      ++ (codes "/subscriptions/"
          ++ (sub.stream_name
              ++ (codes "/" ++ (sub.group_name ++ (action ++ (event_id ++ suffix)))))));
  method = post;
  headers = [];
  body = [];
  login = login_of c;
}

module _ {W : Type 0} (curl : Curl W) where
  -- CURLE_OK alone decides; the HTTP status is not looked at.
  abbrev pub is_sent : W × Answer → W × Bool
  is_sent (w, a) = (w, a.code == 0)

  abbrev pub send_event : Request → W × Bool → W × Bool
  send_event r (w, false) = (w, false)
  send_event r (w, true) = is_sent (curl.perform w r)

  abbrev pub about_event : Client → W → Bytes → Bytes → Bytes → Option Subscription → W × Bool
  about_event c w action event_id suffix none = (w, false)
  about_event c w action event_id suffix (some sub) =
      send_event (event_request c sub action event_id suffix) (curl.easy_init w)

  -- kurrentdb_ack_event and kurrentdb_nak_event; the action and the reason of a refusal are not used.
  unfoldable pub ack_event : Client → W → Bytes → Bytes → W × Bool
  unfolding find_subscription
  ack_event c w id event_id =
      about_event c w (codes "/ack/") event_id [] (find_subscription c.subscriptions id)

  unfoldable pub nak_event : Client → W → Bytes → Bytes → W × Bool
  unfolding find_subscription
  nak_event c w id event_id =
      about_event c w (codes "/nack/") event_id (codes "?action=retry")
        (find_subscription c.subscriptions id)

-- kurrentdb_unsubscribe: the first subscription of that name is stopped and its thread joined.
abbrev pub add_kept : Subscription → Option (List Subscription) → Option (List Subscription)
add_kept sub none = none
add_kept sub (some subs) = some (sub ∷ subs)

unfoldable pub stop_first : List Subscription → Bytes → Option (List Subscription)
stop_first [] id = none
stop_first (sub ∷ subs) id =
    if str_eq sub.subscription_id id
    then some (stopped sub ∷ subs)
    else add_kept sub (stop_first subs id)

abbrev pub with_subscriptions : Client → Option (List Subscription) → Client × Bool
with_subscriptions c none = (c, false)
with_subscriptions c (some subs) = (record c { subscriptions = subs }, true)

unfoldable pub unsubscribe : Client → Bytes → Client × Bool
unfolding stop_first
unsubscribe c id = with_subscriptions c (stop_first c.subscriptions id)
