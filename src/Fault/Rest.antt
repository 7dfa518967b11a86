-- ===== src/Fault/Rest.antt =====
-- `FaultManagementRest` of fault_management.py: what a request does, by the end of its URL. The answer
-- reads `alarm_config`, which the class only annotates, so that there is none before a configuration
-- was loaded.
pub mod Ends
pub mod Routes
use sim_o1_ofhmp_interfaces.Prelude.{
  ℕ, String, Bool, true, false, Option, ◌==◌, string_eq, if◌then◌else◌,
}
use sim_o1_ofhmp_interfaces.Prelude.Result.{Result, ok, err, attribute_error, ◌>>=◌}
use sim_o1_ofhmp_interfaces.Prelude.Exec.{Exec, pure, continue}
use sim_o1_ofhmp_interfaces.Prelude.Dict.{Dict}
use sim_o1_ofhmp_interfaces.DictFactory.{or_raise}
use sim_o1_ofhmp_interfaces.Fault.Alarm.{Counters}
use sim_o1_ofhmp_interfaces.Fault.Manager.{
  Fault, AlarmConfig, get_alarm_counters, clear_alarm_counters,
}
use sim_o1_ofhmp_interfaces.Fault.Control.{Settings, Message, Reply, start, stop}

-- `url.endswith(ending)`
unfoldable pub ends_with : String → String → Bool
ends_with String.[] ending = ending == ""
ends_with (String.◌∷◌ c s) ending =
    let rest = ends_with s ending in if String.◌∷◌ c s == ending then true else rest

pub record Status : Type 0 where
  pub stopped : Bool
  pub disabled : Bool
  pub config : AlarmConfig

pub data Media : Type 0 where
  status : Status → Media
  replied : Message → Status → Media
  counters : Dict Counters → Media
  cleared : Dict Counters → Media
  not_found : Media

pub record Response : Type 0 where
  pub media : Media
  pub code : ℕ

abbrev pub status_with : Fault → AlarmConfig → Status
status_with s config = record { stopped = s.stopped; disabled = s.disabled; config = config }

unfoldable pub get_status : Exec Fault Status
unfolding or_raise
get_status s = (or_raise attribute_error s.alarm_config >>= λ config. ok (status_with s config), s)

unfoldable pub show_status : Exec Fault Response
unfolding get_status
show_status s =
    continue (get_status s).0 (λ now. pure (record { media = status now; code = 200 }))
      (get_status s).1

unfoldable pub show_counters : Exec Fault Response
unfolding get_alarm_counters
show_counters s = (ok (record { media = counters (get_alarm_counters s); code = 200 }), s)

abbrev pub no_route : Exec Fault Response
no_route s = (ok (record { media = not_found; code = 404 }), s)

unfoldable pub on_get : String → Exec Fault Response
unfolding ends_with show_status show_counters
on_get url =
    if ends_with url "/fault-management"
    then show_status
    else if ends_with url "/fault-management/counters"
    then show_counters
    else no_route

-- The answer to a request to start or to stop.
unfoldable pub answer : Reply → Exec Fault Response
unfolding get_status
answer r s =
    continue (get_status s).0
      (λ now. pure (record { media = replied r.message now; code = r.code })) (get_status s).1

-- The body of the request may be refused by falcon.
unfoldable pub post_start : Option Settings → Result (Option Settings) → Exec Fault Response
unfolding start answer
post_start file (err e) s = (err e, s)
post_start file (ok given) s = answer (start given file s).0 (start given file s).1

unfoldable pub post_stop : Exec Fault Response
unfolding stop answer
post_stop s = answer (stop s).0 (stop s).1

unfoldable pub post_clear : Exec Fault Response
unfolding clear_alarm_counters get_alarm_counters
post_clear s = (
  ok (record { media = cleared (get_alarm_counters (clear_alarm_counters s)); code = 200 }),
  clear_alarm_counters s,
)

unfoldable pub on_post : Option Settings → String → Result (Option Settings) → Exec Fault Response
unfolding ends_with post_start post_stop post_clear
on_post file url body =
    if ends_with url "/fault-management/start"
    then post_start file body
    else if ends_with url "/fault-management/stop"
    then post_stop
    else if ends_with url "/fault-management/counters/clear"
    then post_clear
    else no_route
