-- ===== src/Oru/CallHome.antt =====
-- `replace_callhome_settings`, and `startup`. What `get_data` finds is a function of the path; a
-- batch on the session merges.
use sim_o1_ofhmp_interfaces.Prelude.{String, Bool, true, false, Option, none, some, string_eq}
use sim_o1_ofhmp_interfaces.Prelude.Result.{Result, ok, err, sysrepo_not_found}
use sim_o1_ofhmp_interfaces.Prelude.Exec.{Exec, pure, ◌>>=◌, ◌>>◌}
use sim_o1_ofhmp_interfaces.Value.{Value}
use sim_o1_ofhmp_interfaces.Config.Reload.{Config}
use sim_o1_ofhmp_interfaces.Server.{running, Device, set_data}
use sim_o1_ofhmp_interfaces.Oru.Templates.{update_o_ran_certificates}
use sim_o1_ofhmp_interfaces.Oru.Address.{update_remote_address}

abbrev pub call_home_tls : String
call_home_tls =
    "/ietf-netconf-server:netconf-server/call-home/netconf-client/endpoints/endpoint/tls/tcp-client-parameters"

abbrev pub call_home_ssh : String
call_home_ssh =
    "/ietf-netconf-server:netconf-server/call-home/netconf-client/endpoints/endpoint/ssh/tcp-client-parameters"

abbrev pub listen_tls : String
listen_tls =
    "/ietf-netconf-server:netconf-server/listen/endpoints/endpoint/tls/tcp-client-parameters"

-- The address of the controller that came by DHCP.
abbrev pub dhcp_address : Config → Option String
dhcp_address c = elim c.dhcp.sdnr_fqdn [ some fqdn ↦ some fqdn | none ↦ c.dhcp.sdnr_controller_ip ]

-- `replace_callhome_settings` from the test of the configuration on.
unfoldable pub replace_address : Config → Value → Bool → Exec Device Bool
unfolding update_remote_address
replace_address c client_parameters is_tls s = elim (dhcp_address c) [
  | none ↦ (ok is_tls, s)
  | some address ↦ elim (update_remote_address client_parameters "smo" address) [
    | err e ↦ (err e, s)
    | ok v ↦ (ok is_tls, (set_data running "ietf-netconf-server" v "merge" s).1)
  ]
]

-- The innermost `try`: with TLS endpoints that listen nothing is written.
unfoldable pub without_call_home : Result Value → Exec Device Bool
without_call_home (ok v) s = (ok true, s)
without_call_home (err sysrepo_not_found) s = (ok false, s)
without_call_home (err e) s = (err e, s)

-- The second `try`, with what its own `except` goes on with.
unfoldable pub with_ssh : Config → Result Value → Exec Device Bool → Exec Device Bool
unfolding replace_address
with_ssh c (ok v) next s = replace_address c v false s
with_ssh c (err sysrepo_not_found) next s = next s
with_ssh c (err e) next s = (err e, s)

unfoldable pub with_tls : Config → Result Value → Exec Device Bool → Exec Device Bool
unfolding replace_address
with_tls c (ok v) next s = replace_address c v true s
with_tls c (err sysrepo_not_found) next s = next s
with_tls c (err e) next s = (err e, s)

unfoldable pub replace_callhome_settings : Config → (String → Result Value) → Exec Device Bool
unfolding without_call_home with_ssh with_tls
replace_callhome_settings c get_data =
    with_tls c (get_data call_home_tls)
      (with_ssh c (get_data call_home_ssh) (without_call_home (get_data listen_tls)))

-- The thread that `start_odl_allow_thread` starts.
pub data Target : Type 0 where
  allow_tls allow_ssh : Target

abbrev pub start_odl_allow_thread : Bool → Target
start_odl_allow_thread true = allow_tls
start_odl_allow_thread false = allow_ssh

-- `startup`, up to the thread that it starts.
unfoldable pub startup : Config → Result String → (String → Result Value) → Exec Device Target
unfolding update_o_ran_certificates replace_callhome_settings
startup c fingerprint get_data = do
  update_o_ran_certificates fingerprint
  is_tls ← replace_callhome_settings c get_data
  pure (start_odl_allow_thread is_tls)
