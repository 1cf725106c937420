-- ===== src/Kurrent/Client.antt =====
-- The client of src/kurrentdb_client.c: creation, connection and its status callback.
use bacnet_event_server.Base.{
  ℕ, Bool, true, false, not, ◌&&◌, List, [], ◌∷◌, ◌++◌, Option, none, some, Bytes, codes,
  copy_string, if◌then◌else◌, ◌==◌,
}
use bacnet_event_server.Kurrent.Address.{
  Address, Parsed, rejected, unterminated, parsed, parse_connection_string,
}
use bacnet_event_server.Kurrent.Curl.{Request, get, Answer, Curl}

-- What a `void*` of the caller points to.
pub data Pointer : Type 0 where
  null client other : Pointer

pub record Subscription : Type 0 where
  pub subscription_id : Bytes
  pub stream_name : Bytes
  pub group_name : Bytes
  pub has_error_callback : Bool
  pub user_data : Pointer
  pub active : Bool

pub record Client : Type 0 where
  pub address : Address
  pub has_status_callback : Bool
  pub subscriptions : List Subscription
  pub subscription_capacity : ℕ
  pub running : Bool
  pub connected : Bool

-- The calls of the status callback: the flag, whose text is "Connected" or "Disconnected".
abbrev pub Statuses : Type 0
Statuses = List Bool

abbrev pub new_client : Address → Client
new_client address = record {
  address = address;
  has_status_callback = false;
  subscriptions = [];
  subscription_capacity = 8;
  running = true;
  connected = false;
}

-- `none` for NULL and for the read past the host.
abbrev pub client_of : Bool → Parsed → Option Client
client_of ready rejected = none
client_of ready unterminated = none
client_of ready (parsed address) = if ready then some (new_client address) else none

-- kurrentdb_client_create; `ready`: both allocations and curl_easy_init succeed.
unfoldable pub client_create : Bool → Option Bytes → Option Client
client_create ready text = client_of ready (parse_connection_string text)

-- kurrentdb_client_destroy and kurrentdb_stop_event_loop: every subscription is stopped.
abbrev pub stopped : Subscription → Subscription
stopped sub = record sub { active = false }

unfoldable pub stop_all : List Subscription → List Subscription
stop_all [] = []
stop_all (sub ∷ subs) = stopped sub ∷ stop_all subs

unfoldable pub stop_event_loop : Client → Client
unfolding stop_all
stop_event_loop c = record c { subscriptions = stop_all c.subscriptions }

unfoldable pub client_destroy : Client → Client
unfolding stop_all
client_destroy c = record c { running = false; subscriptions = stop_all c.subscriptions }

unfoldable pub set_connection_callback : Client → Bool → Client
set_connection_callback c callback = record c { has_status_callback = callback }

-- CURLOPT_USERPWD, if there is a user.
abbrev pub login_for : Bytes → Bytes → Option Bytes
login_for [] pass = none
login_for (u ∷ user) pass = some (copy_string 256 ((u ∷ user) ++ (codes ":" ++ pass)))

abbrev pub login_of : Client → Option Bytes
login_of c = login_for c.address.username c.address.password

abbrev pub info_request : Client → Request
info_request c = record {
  url = copy_string 512 (c.address.base_url ++ codes "/info");
  method = get;
  headers = [];
  body = [];
  login = login_of c;
}

abbrev pub is_connected_by : Answer → Bool
is_connected_by a = a.code == 0 && a.http_code == 200

-- The end of kurrentdb_client_connect: the callback is called when the status has changed.
abbrev pub changed : Bool → Bool → Bool
changed true b = not b
changed false b = b

abbrev pub finish_connect : {W : Type 0} → Client → W × Answer → Client × W × Bool × Statuses
finish_connect c (w, a) =
    let now = is_connected_by a in
    (
      record c { connected = now },
      w,
      now,
      if changed now c.connected && c.has_status_callback then now ∷ [] else [],
    )

module _ {W : Type 0} (curl : Curl W) where
  abbrev pub connect_with : Client → W × Bool → Client × W × Bool × Statuses
  connect_with c (w, false) = (c, w, false, [])
  connect_with c (w, true) = finish_connect c (curl.perform w (info_request c))

  -- kurrentdb_client_connect: the client, the result, and the calls of the status callback.
  unfoldable pub client_connect : Client → W → Client × W × Bool × Statuses
  client_connect c w = connect_with c (curl.easy_init w)

-- kurrentdb_client_disconnect calls the callback in any case.
unfoldable pub client_disconnect : Client → Client × Statuses
client_disconnect c =
    (record c { connected = false }, if c.has_status_callback then false ∷ [] else [])

-- kurrentdb_client_is_connected.
unfoldable pub client_is_connected : Client → Bool
client_is_connected c = c.connected
