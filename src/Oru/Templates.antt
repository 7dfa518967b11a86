-- ===== src/Oru/Templates.antt =====
-- The templates of the O-RU, `init`, and `update_o_ran_certificates`.
use sim_o1_ofhmp_interfaces.Prelude.{String, List, [], ◌∷◌}
use sim_o1_ofhmp_interfaces.Prelude.Result.{Result}
use sim_o1_ofhmp_interfaces.Prelude.Exec.{Exec, modify, lift, ◌>>=◌, ◌>>◌}
use sim_o1_ofhmp_interfaces.Value.{Key, name, index, Value, str, num}
use sim_o1_ofhmp_interfaces.DictFactory.Registry.{add_template}
use sim_o1_ofhmp_interfaces.Server.{running, operational, Device, set_data, fields, items}
use sim_o1_ofhmp_interfaces.Server.Endpoints.{template, updated}

abbrev pub o_ran_certificates : Value
o_ran_certificates = fields (
    (
      "o-ran-certificates",
      fields (
          (
            "certificate-parameters",
            fields (
                (
                  "cert-maps",
                  fields (
                      (
                        "cert-to-name",
                        items (
                            fields (
                              ("id", num 1)
                              ∷ ("fingerprint", str "FINGERPRINT_TO_BE_REPLACED")
                              ∷ ("map-type", str "ietf-x509-cert-to-name:san-rfc822-name")
                              ∷ [])
                            ∷ []),
                      )
                      ∷ []),
                )
                ∷ []),
          )
          ∷ []),
    )
    ∷ [])

abbrev pub callhome_server_ssh : Value
callhome_server_ssh = fields (
    (
      "odl-netconf-callhome-server:device",
      fields (
          ("unique-id", str "TO_BE_REPLACED_HOSTNAME")
          ∷ (
            "ssh-client-params",
            fields (
                (
                  "credentials",
                  fields
                      (("username", str "TO_BE_REPLACED_USERNAME") ∷ ("passwords", items []) ∷ []),
                )
                ∷ ("host-key", str "TO_BE_REPLACED_SSHKEY")
                ∷ []),
          )
          ∷ []),
    )
    ∷ [])

abbrev pub callhome_server_tls : Value
callhome_server_tls = fields (
    (
      "odl-netconf-callhome-server:device",
      fields (
          ("unique-id", str "TO_BE_REPLACED_HOSTNAME")
          ∷ (
            "tls-client-params",
            fields (
                ("key-id", str "ODL_private_key_0")
                ∷ ("certificate-id", str "TO_BE_REPLACED_HOSTNAME")
                ∷ []),
          )
          ∷ []),
    )
    ∷ [])

abbrev pub trusted_certificate : Value
trusted_certificate = fields (
    (
      "input",
      fields (
          (
            "trusted-certificate",
            items (
                fields (
                  ("name", str "TO_BE_REPLACED_HOSTNAME")
                  ∷ ("certificate", str "TO_BE_REPLACED_SERVER_CERT")
                  ∷ [])
                ∷ []),
          )
          ∷ []),
    )
    ∷ [])

abbrev pub trusted_certificate_remove : Value
trusted_certificate_remove =
    fields (("input", fields (("name", items (str "TO_BE_REPLACED_HOSTNAME" ∷ [])) ∷ [])) ∷ [])

unfoldable pub registered : String → Value → Exec Device (Unit {0})
unfolding add_template
registered t v = modify (λ s. record s { templates = add_template s.templates t v })

-- `Main.init`, as far as it changes the registry.
unfoldable pub init : Exec Device (Unit {0})
unfolding registered
init = do
  registered "o-ran-certificates" o_ran_certificates
  registered "odl-netconf-callhome-server-ssh" callhome_server_ssh
  registered "odl-netconf-callhome-server-tls" callhome_server_tls
  registered "odl-netconf-callhome-trusted-cert" trusted_certificate
  registered "odl-netconf-callhome-trusted-cert-remove" trusted_certificate_remove

abbrev pub to_fingerprint : List Key
to_fingerprint =
    name "o-ran-certificates"
    ∷ name "certificate-parameters"
    ∷ name "cert-maps"
    ∷ name "cert-to-name"
    ∷ index 0
    ∷ name "fingerprint"
    ∷ []

-- `update_o_ran_certificates`, with what `get_certificate_fingerprint` gives for the root certificate.
-- The path is built before the fingerprint is asked for, and the update comes after it.
unfoldable pub update_o_ran_certificates : Result String → Exec Device (Unit {0})
unfolding template updated
update_o_ran_certificates fingerprint = do
  v ← template "o-ran-certificates"
  f ← lift fingerprint
  w ← updated v to_fingerprint (str f)
  set_data running "" w "merge"
  set_data operational "" w "merge"
