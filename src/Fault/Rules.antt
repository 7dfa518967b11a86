-- ===== src/Fault/Rules.antt =====
-- Receiving and reporting an alarm, step by step: a property of the feature that the steps keep is
-- kept by the whole, whether it returns or raises.
use sim_o1_ofhmp_interfaces.Prelude.{String, Bool, true, false, Option, none, some, if◌then◌else◌}
use sim_o1_ofhmp_interfaces.Prelude.Result.{Result, ok, err, key_error, attribute_error}
use sim_o1_ofhmp_interfaces.Prelude.Exec.{raise, continue}
use sim_o1_ofhmp_interfaces.Prelude.Keeps.{Keeps, keeps_continue, keeps_bind, keeps_lift}
use sim_o1_ofhmp_interfaces.Datetime.{Datetime}
use sim_o1_ofhmp_interfaces.Fault.Alarm.{Alarm, new}
use sim_o1_ofhmp_interfaces.Fault.Manager.{
  Fault, Step, Notif, with_alarm, get_alarm, on_alarm_change, send_notification,
}
use sim_o1_ofhmp_interfaces.Fault.Receive.{
  item, notif_fields, ensure_alarm, time_of, from_ietf_alarm_notif,
}
use sim_o1_ofhmp_interfaces.Fault.Task.{perform, receive_step, notify_key}

module _ (P : Fault → Type 0) where
  -- The steps that write the feature.
  pub record StepsKeep : Type 0 where
    pub add :
        (resource type_id qualifier : String) (time : Datetime)
        → Keeps P (
            ensure_alarm (record (new resource type_id qualifier) {
              time_created = some time;
              last_raised = some time;
            }))
    pub write :
        (c_id : String) (n : Notif) (time : Datetime)
        → Keeps P (with_alarm c_id (notif_fields n time))
    pub change : (c_id : String) → Keeps P (on_alarm_change c_id)
    pub send : (a : Alarm) → Keeps P (send_notification a)

  module _ (steps : StepsKeep) (parse : String → Result Datetime) where
    pub from_ietf_alarm_notif-keeps :
        (n : Notif) (now : Datetime) → Keeps P (from_ietf_alarm_notif parse n now)
    unfolding from_ietf_alarm_notif
    from_ietf_alarm_notif-keeps n now = keeps_lift P (item n.resource) _ λ resource _.
        keeps_lift P (item n.alarm_type_id) _ λ type_id _.
          keeps_lift P (item n.alarm_type_qualifier) _ λ qualifier _.
            keeps_lift P (time_of parse n.time now) _ λ time _.
              keeps_bind P (ensure_alarm _) _ (steps.add resource type_id qualifier time) λ _.
                keeps_bind P (with_alarm _ (notif_fields n time)) _ (steps.write _ n time)
                  λ _. keeps_bind P (on_alarm_change _) _ (steps.change _) λ _ s h. h

    notify_key-keeps : (c_id : String) → Keeps P (notify_key c_id)
    unfolding notify_key
    notify_key-keeps c_id s h = by_found (get_alarm c_id s)
      where
        by_found :
            (o : Option Alarm)
            → P
                (elim o as (λ x. Result (Unit {0}) × Fault) [
                  | none ↦ (err key_error, s)
                  | some a ↦ send_notification a s
                ]).1
        by_found none = h
        by_found (some a) = steps.send a s h

    report-keeps :
        (o_ran_fm : Bool) (c_id : String)
        → Keeps P (if o_ran_fm then raise attribute_error else notify_key c_id)
    report-keeps true c_id s h = h
    report-keeps false c_id s h = notify_key-keeps c_id s h

    receive_step-keeps : (n : Notif) (now : Datetime) → Keeps P (receive_step parse n now)
    unfolding receive_step
    receive_step-keeps n now s h = by_provider s.ietf_alarms
      where
        by_provider :
            (b : Bool)
            → P
                (if b
                  then continue
                      (from_ietf_alarm_notif parse n now s).0
                      (λ c_id. if s.o_ran_fm then raise attribute_error else notify_key c_id)
                      (from_ietf_alarm_notif parse n now s).1
                  else (err attribute_error, s)).1
        by_provider true =
            keeps_continue P _ _ _ (from_ietf_alarm_notif-keeps n now s h)
              (λ c_id _. report-keeps s.o_ran_fm c_id)
        by_provider false = h

    pub perform-keeps : (step : Step) (now : Datetime) → Keeps P (perform parse step now)
    unfolding perform
    perform-keeps step now s h = by_alarm step.alarm
      where
        by_alarm :
            (o : Option Notif)
            → P
                (elim o as (λ x. Result (Unit {0}) × Fault) [
                  | none ↦ (ok tt, s)
                  | some n ↦ receive_step parse n now s
                ]).1
        by_alarm none = h
        by_alarm (some n) = receive_step-keeps n now s h
