-- ===== src/Oru/Allow/Done.antt =====
-- The loop over the requests ends, and sends nothing again that was accepted.
use sim_o1_ofhmp_interfaces.Prelude.{ℕ, String, Bool, true, List, [], ◌∷◌, ◌≡◌, refl}
use sim_o1_ofhmp_interfaces.Prelude.Result.{Result, ok}
use sim_o1_ofhmp_interfaces.Config.Reload.{Config}
use sim_o1_ofhmp_interfaces.Value.{str, get, put}
use sim_o1_ofhmp_interfaces.DictFactory.{assign}
use sim_o1_ofhmp_interfaces.DictFactory.Registry.{find}
use sim_o1_ofhmp_interfaces.Oru.Templates.{init}
use sim_o1_ofhmp_interfaces.Server.{Device, fields, items}
use sim_o1_ofhmp_interfaces.Oru.Allow.{Exchange, Answers, Payloads, tls_payloads}
use sim_o1_ofhmp_interfaces.Oru.Allow.Round.{Answered, AcceptsFrom, IsOnce}

module _ (c : Config) (hostname : String) (answers : Answers) (p : Payloads) (n : ℕ)
    (answered : Answered answers) (accepts : AcceptsFrom n answers) where
  abbrev Ends : Result (Bool × Bool) × List Exchange → Type 0
  Ends r = (sent : List Exchange) × (r ≡ (ok (true, true), sent)) × IsOnce (true, true) sent

-- A device where only this extension has registered its templates.
unfoldable pub fresh_device : Device
unfolding init
fresh_device = (init (record { templates = []; writes = [] })).1

-- The three requests that the templates make for a host name and a certificate.
abbrev pub payloads : String → String → Payloads
payloads hostname certificate = record {
  remove = fields (("input", fields (("name", items (str hostname ∷ [])) ∷ [])) ∷ []);
  add = fields (
      (
        "input",
        fields (
            (
              "trusted-certificate",
              items (fields (("name", str hostname) ∷ ("certificate", str certificate) ∷ []) ∷ []),
            )
            ∷ []),
      )
      ∷ []);
  allow = fields (
      (
        "odl-netconf-callhome-server:device",
        fields (
            ("unique-id", str hostname)
            ∷ (
              "tls-client-params",
              fields (("key-id", str "ODL_private_key_0") ∷ ("certificate-id", str hostname) ∷ []),
            )
            ∷ []),
      )
      ∷ []);
}

tls_payloads-eq :
    (hostname certificate : String)
    → (tls_payloads hostname (ok certificate) fresh_device).0 ≡ ok (payloads hostname certificate)
unfolding tls_payloads fresh_device find assign put get
tls_payloads-eq hostname certificate = refl
