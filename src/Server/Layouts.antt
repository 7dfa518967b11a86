-- ===== src/Server/Layouts.antt =====
-- The templates of base/src/core/netconf_server.py.
use sim_o1_ofhmp_interfaces.Prelude.{◌<>◌, [], ◌∷◌}
use sim_o1_ofhmp_interfaces.Value.{Value, str, num}
use sim_o1_ofhmp_interfaces.Config.Reload.{Config}
use sim_o1_ofhmp_interfaces.DictFactory.Registry.{Templates, add_template}
use sim_o1_ofhmp_interfaces.Server.{fields, items}

abbrev pub ssh_server_parameters : Config → Value
ssh_server_parameters c = fields (
    (
      "server-identity",
      fields (
          (
            "host-key",
            items (
                fields (
                  ("name", str "melacon-key")
                  ∷ (
                    "public-key",
                    fields (("central-keystore-reference", str "serverkey-ssh") ∷ []),
                  )
                  ∷ [])
                ∷ []),
          )
          ∷ []),
    )
    ∷ (
      "client-authentication",
      fields (
          (
            "users",
            fields (
                (
                  "user",
                  items (
                      fields (
                        ("name", str c.netconf_username)
                        ∷ ("password", str ("$0$" <> c.netconf_password))
                        ∷ [])
                      ∷ []),
                )
                ∷ []),
          )
          ∷ []),
    )
    ∷ [])

abbrev pub ssh_endpoint : Value
ssh_endpoint = fields (
    ("name", str "ssh-password-auth-endpt")
    ∷ (
      "ssh",
      fields (
          (
            "tcp-server-parameters",
            fields (("local-address", str "0.0.0.0") ∷ ("local-port", num 830) ∷ []),
          )
          ∷ ("ssh-server-parameters", fields [])
          ∷ []),
    )
    ∷ [])

abbrev pub tls_server_parameters : Value
tls_server_parameters = fields (
    (
      "server-identity",
      fields (
          (
            "certificate",
            fields (
                (
                  "central-keystore-reference",
                  fields (
                      ("asymmetric-key", str "serverkey-tls")
                      ∷ ("certificate", str "servercert")
                      ∷ []),
                )
                ∷ []),
          )
          ∷ []),
    )
    ∷ (
      "client-authentication",
      fields (("ca-certs", fields (("central-truststore-reference", str "cacerts") ∷ [])) ∷ []),
    )
    ∷ [])

abbrev pub netconf_server_parameters : Config → Value
netconf_server_parameters c = fields (
    (
      "client-identity-mappings",
      fields (
          (
            "cert-to-name",
            items (
                fields (
                  ("id", num 1)
                  ∷ ("fingerprint", str "FINGERPRINT_TO_BE_REPLACED")
                  ∷ ("map-type", str "ietf-x509-cert-to-name:specified")
                  ∷ ("name", str c.netconf_username)
                  ∷ [])
                ∷ []),
          )
          ∷ []),
    )
    ∷ [])

abbrev pub tls_endpoint : Value
tls_endpoint = fields (
    ("name", str "tls-auth-endpt")
    ∷ (
      "tls",
      fields (
          (
            "tcp-server-parameters",
            fields (("local-address", str "0.0.0.0") ∷ ("local-port", num 6513) ∷ []),
          )
          ∷ ("tls-server-parameters", fields [])
          ∷ ("netconf-server-parameters", fields [])
          ∷ []),
    )
    ∷ [])

abbrev remote : Value
remote =
    fields
      (("remote-address", str "TO_BE_OVERWRITTEN") ∷ ("remote-port", str "TO_BE_OVERWRITTEN") ∷ [])

abbrev pub call_home_ssh_endpoint : Value
call_home_ssh_endpoint = fields (
    ("name", str "default-ssh-callhome")
    ∷ (
      "ssh",
      fields (("tcp-client-parameters", remote) ∷ ("ssh-server-parameters", fields []) ∷ []),
    )
    ∷ [])

abbrev pub call_home_tls_endpoint : Value
call_home_tls_endpoint = fields (
    ("name", str "tls-auth-endpt")
    ∷ (
      "tls",
      fields (
          ("tcp-client-parameters", remote)
          ∷ ("tls-server-parameters", fields [])
          ∷ ("netconf-server-parameters", fields [])
          ∷ []),
    )
    ∷ [])

abbrev pub ietf_netconf_server : Value
ietf_netconf_server = fields (
    (
      "ietf-netconf-server:netconf-server",
      fields (
          ("listen", fields (("endpoints", fields (("endpoint", items []) ∷ [])) ∷ []))
          ∷ (
            "call-home",
            fields (
                (
                  "netconf-client",
                  items (
                      fields (
                        ("name", str "default-client")
                        ∷ ("endpoints", fields (("endpoint", items []) ∷ []))
                        ∷ ("connection-type", fields (("persistent", fields []) ∷ []))
                        ∷ [])
                      ∷ []),
                )
                ∷ []),
          )
          ∷ []),
    )
    ∷ [])

-- What `NetconfServer.__new__` registers, before `set_config`.
unfoldable pub register : Config → Templates → Templates
unfolding add_template
register c m =
    let m1 = add_template m "ssh-server-parameters" (ssh_server_parameters c) in
    let m2 = add_template m1 "ssh-endpoint" ssh_endpoint in
    let m3 = add_template m2 "tls-server-parameters" tls_server_parameters in
    let m4 = add_template m3 "netconf-server-parameters" (netconf_server_parameters c) in
    let m5 = add_template m4 "tls-endpoint" tls_endpoint in
    let m6 = add_template m5 "call-home-ssh-endpoint" call_home_ssh_endpoint in
    let m7 = add_template m6 "call-home-tls-endpoint" call_home_tls_endpoint in
    add_template m7 "ietf-netconf-server" ietf_netconf_server
