-- ===== src/Tests/RestTests.antt =====
-- Requests to the feature after `init`.
use sim_o1_ofhmp_interfaces.Prelude.{Option, ◌<>◌, [], true, false, none, some, ◌≡◌, refl}
use sim_o1_ofhmp_interfaces.Prelude.Result.{ok, err, attribute_error, exception}
use sim_o1_ofhmp_interfaces.Fault.Manager.{Fault, init}
use sim_o1_ofhmp_interfaces.Fault.Control.{Settings, text, start, stop, load_alarms, launch}
use sim_o1_ofhmp_interfaces.Fault.Rest.{counters, not_found, replied, ends_with, on_get, on_post}
use sim_o1_ofhmp_interfaces.Fault.Rest.Routes.{reported, requests_answered}
use sim_o1_ofhmp_interfaces.Tests.FaultTests.{now, settings}

abbrev new_feature : Fault
new_feature = init true false now

abbrev asked : Option Settings
asked = some (settings (some true))

requests_answered_example :
    (on_post none ("http://ru" <> "/fault-management/start") (ok asked) new_feature
      ≡ reported (start asked none new_feature))
    × (on_post none ("http://ru" <> "/fault-management/stop") (err exception) new_feature
        ≡ reported (stop new_feature))
    × ((on_post none
          ("http://ru" <> "/fault-management/counters/clear")
          (err exception)
          new_feature).1
        ≡ new_feature)
    × (let cleared_state : Fault =
          (on_post none
            ("http://ru" <> "/fault-management/counters/clear")
            (err exception)
            new_feature).1 in
        on_get ("http://ru" <> "/fault-management/counters") cleared_state
        ≡ (ok (record { media = counters []; code = 200 }), cleared_state))
    × (on_get ("http://ru" <> "/fault-management") new_feature ≡ (err attribute_error, new_feature))
    × (on_post none ("http://ru" <> "/") (err exception) new_feature
        ≡ (ok (record { media = not_found; code = 404 }), new_feature))
unfolding init
requests_answered_example = requests_answered none asked (err exception) "http://ru" new_feature

-- Before a configuration is loaded, there is no status to show, and a request to stop has no answer.
no_status : on_get "http://ru/fault-management" new_feature ≡ (err attribute_error, new_feature)
unfolding on_get ends_with init
no_status = refl

no_answer :
    (on_post none "http://ru/fault-management/stop" (ok none) new_feature).0 ≡ err attribute_error
unfolding on_post ends_with stop init
no_answer = refl

begins :
    (on_post none "http://ru/fault-management/start"
      (ok (some (settings (some true))))
      new_feature).0
    ≡ ok (record {
      media = replied (text "ok") (record {
        stopped = false;
        disabled = false;
        config = record { loop = some true; config = none };
      });
      code = 200;
    })
unfolding on_post ends_with start load_alarms launch init
begins = refl

elsewhere :
    on_get "http://ru/fault-management/" new_feature
    ≡ (ok (record { media = not_found; code = 404 }), new_feature)
unfolding on_get ends_with init
elsewhere = refl
