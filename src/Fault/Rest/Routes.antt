-- ===== src/Fault/Rest/Routes.antt =====
-- What the requests do, by their URLs, and what their answers show.
use mathlib.Core.List.{map}
use sim_o1_ofhmp_interfaces.Prelude.{
  String, ◌<>◌, Option, none, some, [], ◌∷◌, ◌≡◌, refl, ap, ◌∙◌, text_ne, string_eq,
}
use sim_o1_ofhmp_interfaces.Prelude.Result.{Result, ◌>>=◌, ok, err, attribute_error}
use sim_o1_ofhmp_interfaces.Prelude.Exec.{pure, continue}
use sim_o1_ofhmp_interfaces.Prelude.Dict.{Dict}
use sim_o1_ofhmp_interfaces.DictFactory.{or_raise}
use sim_o1_ofhmp_interfaces.Fault.Alarm.{Alarm, Counters, counters_get, counters_clear}
use sim_o1_ofhmp_interfaces.Fault.Manager.{
  Fault, AlarmConfig, clear_alarm_counters, get_alarm_counters,
}
use sim_o1_ofhmp_interfaces.Fault.Control.{Settings, Reply, start, stop}
use sim_o1_ofhmp_interfaces.Fault.Rest.{
  Status, status_with, status, replied, counters, not_found, Response, get_status, answer,
  show_status, show_counters, no_route, on_get, on_post, post_start, post_stop, post_clear,
}
use sim_o1_ofhmp_interfaces.Fault.Rest.Ends.{ends_with-append, ends_with-apart}

-- What an answer shows of the feature, if a configuration was ever loaded.
abbrev pub showing : (Status → Response) → Option AlarmConfig → Fault → Result Response
showing f none s = err attribute_error
showing f (some c) s = ok (f (record { stopped = s.stopped; disabled = s.disabled; config = c }))

-- The answer to a request that has done something, and the state that it leaves.
abbrev pub reported : Reply × Fault → Result Response × Fault
reported (r, s) =
    (showing (λ now. record { media = replied r.message now; code = r.code }) s.alarm_config s, s)

abbrev pub all_zero : Fault → Dict Counters
all_zero s =
    map {B = String × Counters} (λ (k, a). (k, record { raised = 0; cleared = 0 })) s.alarms

status_shown :
    (o : Option AlarmConfig) (s : Fault) (f : Status → Response)
    → continue (or_raise attribute_error o >>= λ c. ok (status_with s c)) (λ now. pure (f now)) s
      ≡ (showing f o s, s)
unfolding or_raise
status_shown none s f = refl
status_shown (some c) s f = refl

answer-eq : (r : Reply) (s : Fault) → answer r s ≡ reported (r, s)
unfolding answer get_status
answer-eq r s =
    status_shown s.alarm_config s (λ now. record { media = replied r.message now; code = r.code })

show_status-eq :
    (s : Fault)
    → show_status s
      ≡ (showing (λ now. record { media = status now; code = 200 }) s.alarm_config s, s)
unfolding show_status get_status
show_status-eq s = status_shown s.alarm_config s (λ now. record { media = status now; code = 200 })

zeroed :
    (l : Dict Alarm)
    → map {B = String × Counters}
        (λ (k, a). (k, counters_get a))
        (map {B = String × Alarm} (λ (k, a). (k, counters_clear a)) l)
      ≡ map {B = String × Counters} (λ (k, a). (k, record { raised = 0; cleared = 0 })) l
unfolding counters_get counters_clear
zeroed [] = refl
zeroed ((k, a) ∷ l) = ap (λ m. (k, record { raised = 0; cleared = 0 }) ∷ m) (zeroed l)

abbrev start_end : String
start_end = "/fault-management/start"

abbrev stop_end : String
stop_end = "/fault-management/stop"

abbrev clear_end : String
clear_end = "/fault-management/counters/clear"

module _ (file : Option Settings) (p : String) (body : Result (Option Settings)) (s : Fault) where
  start_route : on_post file (p <> start_end) body s ≡ post_start file body s
  unfolding on_post
  start_route = rw (ends_with-append p start_end) refl

  stop_route : on_post file (p <> stop_end) body s ≡ post_stop s
  unfolding on_post
  stop_route =
      rw
        (
          ends_with-apart p stop_end start_end refl refl (text_ne "p" "t" refl),
          ends_with-append p stop_end,
        )
        refl

  clear_route : on_post file (p <> clear_end) body s ≡ post_clear s
  unfolding on_post
  clear_route =
      rw
        (
          ends_with-apart p clear_end start_end refl refl (text_ne "r" "t" refl),
          ends_with-apart p clear_end stop_end refl refl (text_ne "r" "p" refl),
          ends_with-append p clear_end,
        )
        refl

  slash_route : on_post file (p <> "/") body s ≡ no_route s
  unfolding on_post
  slash_route =
      rw
        (
          ends_with-apart p "/" start_end refl refl (text_ne "/" "t" refl),
          ends_with-apart p "/" stop_end refl refl (text_ne "/" "p" refl),
          ends_with-apart p "/" clear_end refl refl (text_ne "/" "r" refl),
        )
        refl

status_route : (p : String) (s : Fault) → on_get (p <> "/fault-management") s ≡ show_status s
unfolding on_get
status_route p s = rw (ends_with-append p "/fault-management") refl

counters_route :
    (p : String) (s : Fault) → on_get (p <> "/fault-management/counters") s ≡ show_counters s
unfolding on_get
counters_route p s =
    rw
      (
        ends_with-apart p "/fault-management/counters" "/fault-management" refl refl
            (text_ne "s" "t" refl),
        ends_with-append p "/fault-management/counters",
      )
      refl

-- Before any of the paths stands the same text `p`. A POST to start, with a body that can be read, and one
-- to stop do what `start` and `stop` do, and their answers have the reply's message and code beside the
-- status that results. A POST to clear changes nothing but the counters, and a GET of the counters shows
-- them all at 0 after it. A GET of the feature shows the status and changes nothing. Where a status is to be
-- shown and no configuration was ever loaded, an AttributeError is raised in place of the answer, after the
-- request has done its work. A POST to a path with a slash at its end is not found.
pub requests_answered :
    (file given : Option Settings) (body : Result (Option Settings)) (p : String) (s : Fault)
    → (on_post file (p <> "/fault-management/start") (ok given) s ≡ reported (start given file s))
      × (on_post file (p <> "/fault-management/stop") body s ≡ reported (stop s))
      × ((on_post file (p <> "/fault-management/counters/clear") body s).1 ≡ record s {
        alarms =
            map {B = String × Alarm}
              (λ (k, a). (k, record a { times_raised = 0; times_cleared = 0 }))
              s.alarms;
      })
      × (let cleared_state : Fault =
            (on_post file (p <> "/fault-management/counters/clear") body s).1 in
          on_get (p <> "/fault-management/counters") cleared_state
          ≡ (ok (record { media = counters (all_zero s); code = 200 }), cleared_state))
      × (on_get (p <> "/fault-management") s
          ≡ (showing (λ now. record { media = status now; code = 200 }) s.alarm_config s, s))
      × (on_post file (p <> "/") body s ≡ (ok (record { media = not_found; code = 404 }), s))
unfolding post_start post_stop post_clear show_counters clear_alarm_counters get_alarm_counters
    counters_clear
requests_answered file given body p s =
    let after : (on_post file (p <> clear_end) body s).1 ≡ clear_alarm_counters s =
      ap (λ r. r.1) (clear_route file p body s) in
    (
      start_route file p (ok given) s ∙ answer-eq (start given file s).0 (start given file s).1,
      stop_route file p body s ∙ answer-eq (stop s).0 (stop s).1,
      after,
      counters_route p (on_post file (p <> clear_end) body s).1
          ∙ ap
              (λ l. (
                ok (record { media = counters l; code = 200 }),
                (on_post file (p <> clear_end) body s).1,
              ))
              (ap get_alarm_counters after ∙ zeroed s.alarms),
      status_route p s ∙ show_status-eq s,
      slash_route file p body s,
    )
