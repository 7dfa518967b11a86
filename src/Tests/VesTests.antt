-- ===== src/Tests/VesTests.antt =====
-- Events to a collector that fails now and then.
use mathlib.Core.List.{map}
use sim_o1_ofhmp_interfaces.Prelude.{
  ℕ, ◌+◌, Option, ◌==◌, string_eq, List, [], ◌∷◌, true, none, some, ◌≡◌, ◌≢◌, refl, arith, text_ne,
  ltb, if◌then◌else◌,
}
use sim_o1_ofhmp_interfaces.Prelude.Result.{Result, ok, err, exception}
use sim_o1_ofhmp_interfaces.Config.Reload.{Config, reload}
use sim_o1_ofhmp_interfaces.Value.{Value, str}
use sim_o1_ofhmp_interfaces.Ves.{Event, heartbeat, alarm, file_ready, pnf_tls, Host, Session, Post}
use sim_o1_ofhmp_interfaces.Ves.Events.{fresh}
use sim_o1_ofhmp_interfaces.Ves.Update.{update}
use sim_o1_ofhmp_interfaces.Ves.Updated.{with_new}
use sim_o1_ofhmp_interfaces.Ves.Numbers.{numbers, count_up, execute_all, execute_all-IsNumbered}
use sim_o1_ofhmp_interfaces.Ves.Heartbeat.{heartbeat_again}
use sim_o1_ofhmp_interfaces.Ves.Listing.{
  Connection, tls, ssh, Endpoint, Listing, Meant, meant_tls, meant_ssh, login, endpoint_of,
  get_listen_connections, get_listen_connections-Meant,
}
use sim_o1_ofhmp_interfaces.Ves.Registration.{all_done, send_pnf_registrations}
use sim_o1_ofhmp_interfaces.Ves.Registration.Done.{Accepts, send_pnf_registrations-done}
use sim_o1_ofhmp_interfaces.Ves.Registration.Once.{weigh, weigh_done, send_pnf_registrations-once}

abbrev pub config : Config
config = record (reload (λ v. none) []) { ves_url = "https://ves/eventListener/v7" }

pub has_url : config.ves_url ≢ ""
has_url = text_ne "https://ves/eventListener/v7" "" refl

abbrev pub host : Host
host = record {
  hostname = "du";
  mac_address = "02:00:00:00:00:01";
  ipv4 = "10.0.0.2";
  microseconds = 17;
  milliseconds = "2025-01-01T00:00:00.000Z";
}

abbrev pub start : Session
unfolding fresh
start = record { seq_id = 0; notification_id = 0; message = fresh alarm; exchanges = [] }

abbrev sends : List (Event × Host × (Post → Result ℕ))
sends =
    (alarm, host, λ p. ok 202)
    ∷ (heartbeat 30, host, λ p. ok 503)
    ∷ (pnf_tls "tls0" 6513 true, host, λ p. err exception)
    ∷ (file_ready "/pm/a.xml" 77 "later", host, λ p. ok 200)
    ∷ []

execute_all-IsNumbered_example :
    numbers (execute_all config sends start).exchanges
    ≡ count_up (execute_all config sends start).seq_id
unfolding start
execute_all-IsNumbered_example = execute_all-IsNumbered config sends start has_url refl refl

heartbeat_again_example :
    (update config host (record start {
      message = (update config host (with_new (heartbeat 30) start)).1.message;
    })).1.message
    ≡ (update config host (with_new (heartbeat 30) start)).1.message
heartbeat_again_example = heartbeat_again config config host host 30 start start

abbrev meant : List Meant
meant =
    meant_tls "tls0" 6513
    ∷ meant_ssh "ssh0" 830 (login "a" "$0$x" ∷ []) (login "netconf" "$0$netconf!")
    ∷ []

abbrev nothing : Listing
nothing = record { listen_endpoints = []; netconf_username = none; netconf_password = none }

get_listen_connections-Meant_example :
    ((get_listen_connections (some (map endpoint_of meant)) nothing).0 ≡ ok tt)
    × ((get_listen_connections (some (map endpoint_of meant)) nothing).1.listen_endpoints
        ≡ tls "tls0" 6513 ∷ ssh "ssh0" 830 "netconf" "netconf!" ∷ [])
get_listen_connections-Meant_example = get_listen_connections-Meant meant nothing

-- Without users the key is missing, and the endpoint is not listed.
abbrev bare : Endpoint
bare = record {
  name = some "ssh1";
  tls = none;
  ssh = some (record { local_port = some 831; user = none });
}

left_out :
    (get_listen_connections
      (some (bare ∷ endpoint_of (meant_ssh "ssh0" 830 [] (login "netconf" "$0$pw")) ∷ []))
      nothing).1.listen_endpoints
    ≡ ssh "ssh0" 830 "netconf" "pw" ∷ []
unfolding get_listen_connections
left_out = refl

-- The collector is down for the first two attempts.
abbrev world : ℕ → Host × (Post → Result ℕ)
world k = (host, λ p. if ltb k 2 then err exception else ok 200)

accepts : Accepts world 2
accepts k p late = (200, ground arith, refl)

abbrev connections : List Connection
connections = tls "tls0" 6513 ∷ ssh "ssh0" 830 "netconf" "netconf!" ∷ []

send_pnf_registrations-done_example :
    all_done (send_pnf_registrations config world 3 connections start).0 ≡ true
send_pnf_registrations-done_example =
    send_pnf_registrations-done config world 2 connections start accepts

-- One for each time that it is the registration of the SSH connection.
abbrev is_ssh : List (Option Value) → ℕ
is_ssh (p ∷ some (str protocol) ∷ l) = if protocol == "SSH" then 1 else 0
is_ssh l = 0

send_pnf_registrations-once_example :
    (map (λ x. x.0) (send_pnf_registrations config world 2 connections start).0 ≡ connections)
    × (weigh is_ssh (send_pnf_registrations config world 2 connections start).1.session.exchanges
        ≡ weigh is_ssh start.exchanges
          + weigh_done is_ssh config (send_pnf_registrations config world 2 connections start).0)
send_pnf_registrations-once_example =
    send_pnf_registrations-once config world has_url is_ssh 2 connections start
