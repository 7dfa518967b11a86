-- ===== src/Tests/OruTests.antt =====
-- An O-RU whose controller refuses twice, and call-home settings with one endpoint of the management
-- system.
use sim_o1_ofhmp_interfaces.Prelude.{zero, suc, true, false, some, List, [], ◌∷◌, ◌≡◌, refl}
use sim_o1_ofhmp_interfaces.Prelude.Result.{ok, err, request_error}
use sim_o1_ofhmp_interfaces.Value.{get, put}
use sim_o1_ofhmp_interfaces.DictFactory.{assign}
use sim_o1_ofhmp_interfaces.DictFactory.Registry.{find}
use sim_o1_ofhmp_interfaces.Config.Reload.{Config}
use sim_o1_ofhmp_interfaces.Server.{Device}
use sim_o1_ofhmp_interfaces.Oru.Allow.{Answers, send_odl_callhome_allow_ssh}
use sim_o1_ofhmp_interfaces.Oru.Allow.Done.{fresh_device}
use sim_o1_ofhmp_interfaces.Oru.Address.{contains}
use sim_o1_ofhmp_interfaces.Oru.CallHome.{replace_callhome_settings}
use sim_o1_ofhmp_interfaces.Oru.Replaced.{
  Endpoint, tls, finds, after, replace_callhome_settings-written,
}
use sim_o1_ofhmp_interfaces.Tests.VesTests.{config}

-- The first three requests are refused, in one way or another.
abbrev answers : Answers
answers zero q = err request_error
answers (suc zero) q = ok 409
answers (suc (suc zero)) q = ok 503
answers (suc (suc (suc i))) q = ok 201

abbrev redirecting : Config
redirecting = record config { dhcp = record config.dhcp { sdnr_fqdn = some "sdnr.example" } }

abbrev endpoints : List Endpoint
endpoints =
    record { name = "smo-1"; address = "10.0.0.9"; port = 4335 }
    ∷ record { name = "o-du"; address = "10.0.0.8"; port = 4335 }
    ∷ []

abbrev nothing : Device
nothing = record { templates = []; writes = [] }

replace_callhome_settings-written_example :
    replace_callhome_settings redirecting (finds tls endpoints) nothing
    ≡ (ok true, after tls endpoints (some "sdnr.example") nothing)
replace_callhome_settings-written_example =
    replace_callhome_settings-written redirecting tls endpoints nothing

holds : contains "smo" "my-smo-1" ≡ true
unfolding contains
holds = refl

holds_not : contains "smo" "sm-o" ≡ false
unfolding contains
holds_not = refl

-- Over SSH the first exception of a request ends the loop.
ssh_gives_up :
    (send_odl_callhome_allow_ssh config "ru" (ok "ssh-rsa A") answers 9 fresh_device).0
    ≡ err request_error
unfolding send_odl_callhome_allow_ssh fresh_device find put get assign
ssh_gives_up = refl
