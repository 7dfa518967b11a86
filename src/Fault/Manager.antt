-- ===== src/Fault/Manager.antt =====
-- The state of `FaultManagement`, and its operations on the dictionary of alarms.
use mathlib.Core.List.{map}
use sim_o1_ofhmp_interfaces.Prelude.{
  ℕ, String, Bool, true, false, not, ◌&&◌, ◌||◌, Option, none, some, List, [], ◌∷◌, ◌++◌, length,
  string_eq, if◌then◌else◌,
}
use sim_o1_ofhmp_interfaces.Prelude.Result.{
  Result, ok, err, value_error, attribute_error, key_error, exception,
}
use sim_o1_ofhmp_interfaces.Prelude.Dict.{Dict, lookup, insert}
use sim_o1_ofhmp_interfaces.Prelude.Exec.{Exec, pure, raise, modify, ◌>>=◌, ◌>>◌}
use sim_o1_ofhmp_interfaces.Datetime.{Datetime, ensure_aware, is_after}
use sim_o1_ofhmp_interfaces.Fault.Alarm.{
  Alarm, PerceivedSeverity, IetfNotif, IetfAlarm, Counters, raise_fields, clear_fields,
  counters_get, counters_clear, to_ietf_alarm, to_ietf_alarm_notif,
}

-- What one notification tells of an alarm; a missing key is `none`.
pub record Notif : Type 0 where
  pub resource : Option String
  pub alarm_type_id : Option String
  pub alarm_type_qualifier : Option String
  pub time : Option String
  pub perceived_severity : Option String
  pub is_cleared : Option Bool
  pub alarm_text : Option String

-- An entry of "alarms" in the configuration: a notification and a delay, each optional.
pub record Step : Type 0 where
  pub alarm : Option Notif
  pub delay : Option ℕ

-- "config" of the configuration: the key "loop", and whether the key "config" was written into it.
pub record AlarmConfig : Type 0 where
  pub loop : Option Bool
  pub config : Option Bool

-- A call of `notification_send` on the running session.
pub record Sent : Type 0 where
  pub xpath : String
  pub notif : IetfNotif

pub record Fault : Type 0 where
  pub ietf_alarms : Bool
  pub o_ran_fm : Bool
  pub alarms : Dict Alarm
  pub last_changed : Datetime
  pub alarm_config : Option AlarmConfig
  pub alarm_steps : List Step
  pub disabled : Bool
  pub stopped : Bool
  pub fault_stop : Bool
  pub sent : List Sent

-- `init`, with what `get_module` finds, and the time.
unfoldable pub init : Bool → Bool → Datetime → Fault
init ietf_alarms o_ran_fm now = record {
  ietf_alarms = ietf_alarms;
  o_ran_fm = o_ran_fm;
  alarms = [];
  last_changed = now;
  alarm_config = none;
  alarm_steps = [];
  disabled = ietf_alarms && o_ran_fm || not ietf_alarms && not o_ran_fm;
  stopped = true;
  fault_stop = false;
  sent = [];
}

unfoldable pub contains_alarm : String → Fault → Bool
contains_alarm c_id s = elim (lookup c_id s.alarms) [ none ↦ false | some a ↦ true ]

unfoldable pub add_alarm : Alarm → Exec Fault (Unit {0})
add_alarm a s = elim (lookup a.c_id s.alarms) [
  | some b ↦ (err value_error, s)
  | none ↦ (ok tt, record s { alarms = insert a.c_id a s.alarms })
]

unfoldable pub get_alarm : String → Fault → Option Alarm
get_alarm c_id s = lookup c_id s.alarms

-- A method of the alarm that the dictionary holds: what it writes is seen through the dictionary.
unfoldable pub with_alarm : {A : Type 0} → String → Exec Alarm A → Exec Fault A
with_alarm c_id m s = elim (lookup c_id s.alarms) [
  | none ↦ (err key_error, s)
  | some a ↦ ((m a).0, record s { alarms = insert c_id (m a).1 s.alarms })
]

-- `alarm.last_changed = ensure_aware(alarm.last_changed)`
unfoldable pub aware_alarm : Exec Alarm Datetime
aware_alarm a = elim a.last_changed [
  | none ↦ (err attribute_error, a)
  | some t ↦ (ok (ensure_aware t), record a { last_changed = some (ensure_aware t) })
]

-- The time of the last change never goes back.
unfoldable pub advance : Datetime → Fault → Fault
advance t s =
    let own = ensure_aware s.last_changed in
    record s { last_changed = if is_after t own then t else own }

unfoldable pub on_alarm_change : String → Exec Fault (Unit {0})
unfolding with_alarm aware_alarm advance
on_alarm_change c_id = do t ← with_alarm c_id aware_alarm; modify (advance t)

unfoldable pub on_change_if : Bool → String → Exec Fault (Unit {0})
on_change_if true c_id = on_alarm_change c_id
on_change_if false c_id = pure tt

unfoldable pub alarm_raise : String → Option PerceivedSeverity → Datetime → Exec Fault (Unit {0})
unfolding with_alarm on_change_if
alarm_raise c_id severity now = do
  changed ← with_alarm c_id (raise_fields severity now)
  on_change_if changed c_id

unfoldable pub alarm_clear : String → Datetime → Exec Fault (Unit {0})
unfolding with_alarm on_change_if
alarm_clear c_id now = do changed ← with_alarm c_id (clear_fields now); on_change_if changed c_id

-- `send_notification`. With o-ran-fm the alarm has no `to_oran_fm_notif`, and the call raises; what
-- was sent before stays sent.
unfoldable pub send_ietf : Alarm → Exec Fault (Unit {0})
send_ietf a s = elim (to_ietf_alarm_notif a) [
  | err e ↦ (err e, s)
  | ok n ↦ (
    ok tt,
    record s {
      sent = s.sent ++ record { xpath = "/ietf-alarms:alarm-notification"; notif = n } ∷ [];
    },
  )
]

unfoldable pub send_notification : Alarm → Exec Fault (Unit {0})
unfolding send_ietf
send_notification a s =
    if s.ietf_alarms
    then (do send_ietf a; if s.o_ran_fm then raise attribute_error else pure tt) s
    else if s.o_ran_fm
    then (err attribute_error, s)
    else (err exception, s)

unfoldable pub alarm_notify : Alarm → Exec Fault (Unit {0})
alarm_notify = send_notification

-- `get_alarm_counters` and `clear_alarm_counters` of `FaultManagementRest`.
unfoldable pub get_alarm_counters : Fault → Dict Counters
get_alarm_counters s = map (λ (k, a). (k, counters_get a)) s.alarms

unfoldable pub clear_alarm_counters : Fault → Fault
clear_alarm_counters s = record s { alarms = map (λ (k, a). (k, counters_clear a)) s.alarms }

unfoldable pub all_ietf : Dict Alarm → Result (List IetfAlarm)
all_ietf [] = ok []
all_ietf ((_, a) ∷ l) = elim (to_ietf_alarm a) [
  | err e ↦ err e
  | ok x ↦ elim (all_ietf l) [ err e ↦ err e | ok xs ↦ ok (x ∷ xs) ]
]

-- `_callback_oper_ietf_alarms_list`
pub record AlarmList : Type 0 where
  pub number_of_alarms : ℕ
  pub last_changed : Datetime
  pub alarm : List IetfAlarm

unfoldable pub oper_ietf_alarms_list : Fault → Result AlarmList
unfolding all_ietf
oper_ietf_alarms_list s = elim (all_ietf s.alarms) [
  | err e ↦ err e
  | ok l ↦
      ok (record { number_of_alarms = length s.alarms; last_changed = s.last_changed; alarm = l })
]
