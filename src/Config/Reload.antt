-- ===== src/Config/Reload.antt =====
-- `reload`, `get_envvar_bool` and `is_tls_enabled` of `Config`. The environment is a
-- function from names; what DHCP says is the packets of each interface.
use sim_o1_ofhmp_interfaces.Prelude.{
  ℕ, String, ◌<>◌, Bool, false, ◌||◌, Option, none, some, List, [], ◌∷◌,
}
use sim_o1_ofhmp_interfaces.Text.{codes, codes_eq, lower}
use sim_o1_ofhmp_interfaces.Text.Int.{ℤ, pos, int}
use sim_o1_ofhmp_interfaces.Config.Option43.{Dhcp}
use sim_o1_ofhmp_interfaces.Config.Packets.{Packet, dhcp_get_config}

abbrev pub Environ : Type 0
Environ = String → Option String

-- `os.environ.get(name, default)`
abbrev pub get_or : Environ → String → String → String
get_or env name default = elim (env name) [ none ↦ default | some v ↦ v ]

pub record Config : Type 0 where
  pub dhcp : Dhcp
  pub netconf_function_type : String
  pub ssh_listen_endpoint : Bool
  pub tls_listen_endpoint : Bool
  pub ssh_callhome_endpoint : Bool
  pub tls_callhome_endpoint : Bool
  pub endpoint_count : ℤ
  pub netconf_username : String
  pub netconf_password : String
  pub sdnr_restconf_url : String
  pub sdnr_username : String
  pub sdnr_password : String
  pub ves_url : String
  pub ves_username : String
  pub ves_password : String
  pub sdnr_certificate_markers : Bool

any_eq : List ℕ → List String → Bool
any_eq s [] = false
any_eq s (t ∷ l) = codes_eq s (codes t) || any_eq s l

unfoldable pub get_envvar_bool : Environ → String → String → Bool
unfolding any_eq lower
get_envvar_bool env varname default =
    any_eq (lower (get_or env varname default)) ("true" ∷ "1" ∷ "t" ∷ "y" ∷ "yes" ∷ [])

-- The fields before `dhcp_get_config` writes them.
abbrev pub no_dhcp : Dhcp
no_dhcp = record {
  sdnr_controller_ip = none;
  sdnr_fqdn = none;
  sdnr_callhome_tls = false;
  ves_ip = none;
  ves_fqdn = none;
}

-- `int(endpoints)`, or 1 with the ValueError. The default of the variable is the number 1.
endpoint_count_of : Option String → ℤ
endpoint_count_of none = pos 1
endpoint_count_of (some s) = elim (int s) [ none ↦ pos 1 | some n ↦ n ]

unfoldable pub ves_url_of : Environ → Dhcp → String
ves_url_of env s = elim s.ves_fqdn [
  | some fqdn ↦ "https://" <> (fqdn <> "/eventListener/v7")
  | none ↦ elim s.ves_ip [
    | some ip ↦ "https://" <> (ip <> "/eventListener/v7")
    | none ↦ get_or env "VES_URL" ""
  ]
]

unfoldable pub reload : Environ → List (String × List Packet) → Config
unfolding endpoint_count_of ves_url_of
reload env captured =
    let dhcp = dhcp_get_config captured no_dhcp in
    record {
      dhcp = dhcp;
      netconf_function_type = get_or env "NETWORK_FUNCTION_TYPE" "undefined";
      ssh_listen_endpoint = get_envvar_bool env "SSH_LISTEN_ENDPOINT" "True";
      tls_listen_endpoint = get_envvar_bool env "TLS_LISTEN_ENDPOINT" "False";
      ssh_callhome_endpoint = get_envvar_bool env "SSH_CALLHOME_ENDPOINT" "False";
      tls_callhome_endpoint = get_envvar_bool env "TLS_CALLHOME_ENDPOINT" "False";
      endpoint_count = endpoint_count_of (env "ENDPOINT_COUNT");
      netconf_username = get_or env "NETCONF_USERNAME" "netconf";
      netconf_password = get_or env "NETCONF_PASSWORD" "netconf!";
      sdnr_restconf_url = get_or env "SDNR_RESTCONF_URL" "";
      sdnr_username = get_or env "SDNR_USERNAME" "admin";
      sdnr_password = get_or env "SDNR_PASSWORD" "admin";
      ves_url = ves_url_of env dhcp;
      ves_username = get_or env "VES_USERNAME" "sample1";
      ves_password = get_or env "VES_PASSWORD" "sample1";
      sdnr_certificate_markers = get_envvar_bool env "SDNR_CERTIFICATE_MARKERS" "False";
    }

unfoldable pub is_tls_enabled : Config → Bool
is_tls_enabled c = c.tls_listen_endpoint || c.tls_callhome_endpoint
