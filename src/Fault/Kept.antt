-- ===== src/Fault/Kept.antt =====
-- What receiving and reporting alarms leaves alone: the configuration, the steps and the flags by
-- which the feature is started and stopped.
use sim_o1_ofhmp_interfaces.Prelude.{String, ◌≡◌, arith}
use sim_o1_ofhmp_interfaces.Prelude.Result.{Result}
use sim_o1_ofhmp_interfaces.Prelude.Exec.{Exec}
use sim_o1_ofhmp_interfaces.Prelude.Keeps.{Keeps}
use sim_o1_ofhmp_interfaces.Datetime.{Datetime}
use sim_o1_ofhmp_interfaces.Fault.Alarm.{Alarm}
use sim_o1_ofhmp_interfaces.Fault.Manager.{
  Fault, Step, with_alarm, on_alarm_change, send_notification,
}
use sim_o1_ofhmp_interfaces.Fault.Receive.{notif_fields, ensure_alarm}
use sim_o1_ofhmp_interfaces.Fault.Task.{perform}
use sim_o1_ofhmp_interfaces.Fault.Rules.{StepsKeep, perform-keeps}

pub record SameControl (a b : Fault) : Type 0 where
  pub ietf_alarms : b.ietf_alarms ≡ a.ietf_alarms
  pub o_ran_fm : b.o_ran_fm ≡ a.o_ran_fm
  pub alarm_config : b.alarm_config ≡ a.alarm_config
  pub alarm_steps : b.alarm_steps ≡ a.alarm_steps
  pub disabled : b.disabled ≡ a.disabled
  pub stopped : b.stopped ≡ a.stopped
  pub fault_stop : b.fault_stop ≡ a.fault_stop

pub SameControl-refl : (a : Fault) → SameControl a a
SameControl-refl a = ground arith

module _ (o : Fault) where
  with_alarm-SameControl :
      {A : Type 0} (c_id : String) (m : Exec Alarm A) → Keeps (SameControl o) (with_alarm c_id m)
  unfolding with_alarm
  with_alarm-SameControl c_id m s h = ground arith

  SameControl-StepsKeep : StepsKeep (SameControl o)
  unfolding ensure_alarm on_alarm_change send_notification
  SameControl-StepsKeep = record {
    add = λ resource type_id qualifier time s h. ground arith;
    write = λ c_id n time. with_alarm-SameControl c_id (notif_fields n time);
    change = λ c_id s h. ground arith;
    send = λ a s h. ground arith;
  }

  pub perform-SameControl :
      (parse : String → Result Datetime) (step : Step) (now : Datetime)
      → Keeps (SameControl o) (perform parse step now)
  perform-SameControl = perform-keeps (SameControl o) SameControl-StepsKeep
