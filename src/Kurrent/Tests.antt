-- ===== src/Kurrent/Tests.antt =====
-- The client of src/kurrentdb_client.c at concrete addresses, servers and rounds.
use bacnet_event_server.Base.{
  ℕ, zero, suc, ◌≤◌, ◌≡◌, refl, true, false, [], ◌∷◌, Option, none, some, Bytes, codes, str_eq,
  if◌then◌else◌, arith, map, ◌-◌, min,
}
use mathlib.Core.List.{reverse}
use bacnet_event_server.Base.Decimal.{print_nat, digits}
use bacnet_event_server.Base.Samples.{whole, Doc, number, field, item, nil, member, documents}
use bacnet_event_server.Kurrent.Address.{parse_connection_string, parsed}
use bacnet_event_server.Kurrent.Login.{address_text, stored, parse-address_text, IsPlain}
use bacnet_event_server.Kurrent.Curl.{Curl}
use bacnet_event_server.Kurrent.Client.{Client, Subscription, client, new_client, client_connect}
use bacnet_event_server.Kurrent.Subscriptions.{
  Subscribe, subscribe_persistent, ack_event, send_event, grown,
}
use bacnet_event_server.Kurrent.Identity.{about, ack-subscribe}
use bacnet_event_server.Kurrent.Events.{Pages, caught_event, entries_of_body}
use bacnet_event_server.Kurrent.Catchup.{catchup_request, catchup_loop}
use bacnet_event_server.Kurrent.CaughtUp.{ServesStream, catchup-delivers, count_up}
use bacnet_event_server.Kurrent.Poll.{poll_loop}
use bacnet_event_server.Kurrent.Steady.{poll_loop-IsSteady, statuses_in}

abbrev login : Option (Bytes × Bytes)
login = some (codes "admin", codes "changeit")

login-IsPlain : IsPlain login (codes "db:2113")
login-IsPlain = record {
  login_plain = omega arith;
  host_at = omega arith;
  host_query = omega arith;
  host_fits = omega arith;
}

parse-address_text_example :
    parse_connection_string (some (address_text login (codes "db:2113") true))
    ≡ parsed (stored login (codes "db:2113") true)
parse-address_text_example = parse-address_text login (codes "db:2113") true login-IsPlain

abbrev gateway : Client
gateway = record (new_client (stored none (codes "db:2113") false)) { has_status_callback = true }

-- A server that answers every request with its URL.
abbrev echo : Curl (Unit {0})
echo = record {
  easy_init = λ w. (w, true);
  perform = λ w r. (w, record { code = 0; http_code = 200; body = r.url });
  is_running = λ w. true;
}

abbrev entry : ℕ → Doc
entry k = field (codes "eventNumber") (number k) nil

abbrev page : Doc → Doc
page entries = field (codes "entries") entries nil

-- What the URLs stand for: a stream of two events.
abbrev page_at : Bytes → Doc
page_at url =
    if str_eq url (catchup_request gateway (codes "s") 0).url
    then page (item (entry 1) (item (entry 0) nil))
    else if str_eq url (catchup_request gateway (codes "s") 1).url
    then page (item (entry 1) nil)
    else page nil

abbrev two_events : Pages Doc
two_events = record {
  cj = record (documents nil) { parse = λ url. some (page_at url) };
  find_item = member;
  print_unformatted = λ d. none;
  event_id_size = 64;
  event_type_size = 256;
  stream_name_size = 256;
}

-- One name for all that a page computes with.
reader : Unit {0}
unfolding member str_eq print_nat digits
reader = tt

two_lists :
    (p : ℕ)
    → p ≤ 2
    → entries_of_body two_events whole (catchup_request gateway (codes "s") p).url
      ≡ some (reverse (map entry (count_up p (min 100 (2 - p)))))
unfolding reader
two_lists zero h = refl
two_lists (suc zero) h = refl
two_lists (suc (suc zero)) h = refl
two_lists (suc (suc (suc p))) h = absurd (omega arith)

two-ServesStream : ServesStream echo two_events whole gateway (codes "s") 2 entry
unfolding reader
two-ServesStream = record {
  bounded = omega arith;
  runs = λ w. refl;
  opens = λ w. refl;
  numbered = λ k h. refl;
  answers = λ w p h. refl;
  lists = λ w p h. two_lists p h;
}

catchup-delivers_example :
    (w' : Unit {0}) × (catchup_loop echo two_events whole 2 gateway (codes "s") 0 tt
      ≡ some (w', map (caught_event two_events whole) (entry 0 ∷ entry 1 ∷ [])))
catchup-delivers_example =
    catchup-delivers echo two_events whole gateway (codes "s") 2 entry two-ServesStream 2 0 tt
      (omega arith) (omega arith)

abbrev sub : Subscription
sub = record {
  subscription_id = codes "sub-s-g-0";
  stream_name = codes "s";
  group_name = codes "g";
  has_error_callback = true;
  user_data = client;
  active = true;
}

poll_loop-IsSteady_example :
    statuses_in (poll_loop echo two_events whole 3 gateway sub tt).2 ≡ true ∷ []
unfolding poll_loop client_connect
poll_loop-IsSteady_example = (poll_loop-IsSteady echo two_events whole sub 3 gateway tt).statuses

abbrev wanted : Subscribe
wanted = record {
  stream_name = some (codes "s");
  group_name = some (codes "g");
  has_event_callback = true;
  has_error_callback = true;
  user_data = client;
  id_size = 128;
}

ack-subscribe_example :
    (ack_event echo
      (subscribe_persistent echo true gateway tt wanted).0
      tt
      (codes "sub-s-g-0")
      (codes "e1"))
    ≡ send_event echo (about gateway (codes "s") (codes "g") (codes "/ack/e1")) (tt, true)
unfolding reader
ack-subscribe_example =
    (ack-subscribe echo true gateway tt wanted (codes "s") (codes "g") (codes "e1") tt refl refl
      refl (omega arith) (omega arith) (λ e. (unfold grown in ground (arith, e)))).2
