-- ===== src/Fault/Alarm.antt =====
-- `Alarm` of alarm.py: its attributes, and the methods as far as they touch the alarm alone. An
-- attribute that the class only annotates does not exist until it is written: `none` until then.
use sim_o1_ofhmp_interfaces.Prelude.{
  ℕ, ◌+◌, String, ◌<>◌, Bool, true, false, Option, none, some, ◌==◌, string_eq, if◌then◌else◌, ◌≡◌,
  refl,
}
use sim_o1_ofhmp_interfaces.Prelude.Result.{Result, ok, err, value_error, attribute_error, ◌>>=◌}
use sim_o1_ofhmp_interfaces.Prelude.Exec.{Exec}
use sim_o1_ofhmp_interfaces.Datetime.{Datetime}

pub data PerceivedSeverity : Type 0 where
  cleared indeterminate warning minor major critical : PerceivedSeverity

-- `str(severity)`
abbrev pub severity_text : PerceivedSeverity → String
severity_text cleared = "cleared"
severity_text indeterminate = "indeterminate"
severity_text warning = "warning"
severity_text minor = "minor"
severity_text major = "major"
severity_text critical = "critical"

-- `PerceivedSeverity(text)`
unfoldable pub severity_of : String → Result PerceivedSeverity
severity_of s =
    if s == "cleared"
    then ok cleared
    else if s == "indeterminate"
    then ok indeterminate
    else if s == "warning"
    then ok warning
    else if s == "minor"
    then ok minor
    else if s == "major"
    then ok major
    else if s == "critical"
    then ok critical
    else err value_error

abbrev pub is_severity_cleared : PerceivedSeverity → Bool
is_severity_cleared cleared = true
is_severity_cleared _ = false

pub record Alarm : Type 0 where
  pub resource : String
  pub alarm_type_id : String
  pub alarm_type_qualifier : String
  pub c_id : String
  pub times_raised : ℕ
  pub times_cleared : ℕ
  pub is_cleared : Option Bool
  pub perceived_severity : Option PerceivedSeverity
  pub time_created : Option Datetime
  pub last_raised : Option Datetime
  pub last_changed : Option Datetime
  pub alarm_text : Option String

-- The key of an alarm: its three names, one after the other.
abbrev pub combined_id : String → String → String → String
combined_id resource type_id qualifier = resource <> (type_id <> qualifier)

-- `Alarm(resource, alarm_type_id, alarm_type_qualifier)`
abbrev pub new : String → String → String → Alarm
new resource type_id qualifier = record {
  resource = resource;
  alarm_type_id = type_id;
  alarm_type_qualifier = qualifier;
  c_id = combined_id resource type_id qualifier;
  times_raised = 0;
  times_cleared = 0;
  is_cleared = none;
  perceived_severity = none;
  time_created = none;
  last_raised = none;
  last_changed = none;
  alarm_text = none;
}

-- Reading an attribute.
abbrev pub attr : {A : Type 0} → Option A → Result A
attr none = err attribute_error
attr (some a) = ok a

-- What `alarm_raise` writes after the severity.
abbrev raised : Datetime → Alarm → Alarm
raised now a = record a {
  is_cleared = some false;
  last_changed = some now;
  last_raised = some now;
  times_raised = a.times_raised + 1;
}

-- The severity that `alarm_raise` is given, if any.
unfoldable pub take_severity : Option PerceivedSeverity → Alarm → Result Alarm
take_severity none a = ok a
take_severity (some s) a =
    if is_severity_cleared s then err value_error else ok (record a { perceived_severity = some s })

-- `alarm_raise` up to its call of `on_alarm_change`, which is made if the result is true.
unfoldable pub raise_fields : Option PerceivedSeverity → Datetime → Exec Alarm Bool
unfolding take_severity
raise_fields severity now a = elim a.is_cleared [
  | none ↦ (err attribute_error, a)
  | some false ↦ (ok false, a)
  | some true ↦ elim (take_severity severity a) [
    | err e ↦ (err e, a)
    | ok b ↦ (ok true, raised now b)
  ]
]

-- `alarm_clear` up to its call of `on_alarm_change`, which is made if the result is true.
unfoldable pub clear_fields : Datetime → Exec Alarm Bool
clear_fields now a = elim a.is_cleared [
  | none ↦ (err attribute_error, a)
  | some true ↦ (ok false, a)
  | some false ↦ (
    ok true,
    record a {
      is_cleared = some true;
      last_changed = some now;
      times_cleared = a.times_cleared + 1;
    },
  )
]

-- `counters_get`
pub record Counters : Type 0 where
  pub raised : ℕ
  pub cleared : ℕ

unfoldable pub counters_get : Alarm → Counters
counters_get a = record { raised = a.times_raised; cleared = a.times_cleared }

unfoldable pub counters_clear : Alarm → Alarm
counters_clear a = record a { times_raised = 0; times_cleared = 0 }

-- The dictionaries that `to_ietf_alarm` and `to_ietf_alarm_notif` build; the times are printed by
-- `datetime_to_yang_datetime`, and are kept here as they are.
pub record IetfAlarm : Type 0 where
  pub resource : String
  pub alarm_type_id : String
  pub alarm_type_qualifier : String
  pub is_cleared : Bool
  pub perceived_severity : String
  pub time_created : Datetime
  pub last_raised : Datetime
  pub last_changed : Datetime
  pub alarm_text : String

pub record IetfNotif : Type 0 where
  pub resource : String
  pub alarm_type_id : String
  pub alarm_type_qualifier : String
  pub perceived_severity : String
  pub time : Datetime
  pub alarm_text : String

-- `to_ietf_alarm`. An attribute that does not exist raises.
unfoldable pub to_ietf_alarm : Alarm → Result IetfAlarm
to_ietf_alarm a = do
  is_cleared ← attr a.is_cleared
  severity ← attr a.perceived_severity
  created ← attr a.time_created
  raised_at ← attr a.last_raised
  changed ← attr a.last_changed
  text ← attr a.alarm_text
  ok (record {
    resource = a.resource;
    alarm_type_id = a.alarm_type_id;
    alarm_type_qualifier = a.alarm_type_qualifier;
    is_cleared = is_cleared;
    perceived_severity = severity_text severity;
    time_created = created;
    last_raised = raised_at;
    last_changed = changed;
    alarm_text = text;
  })

-- The severity that a notification shows.
unfoldable pub shown_severity : Bool → Option PerceivedSeverity → Result String
shown_severity true severity = ok "cleared"
shown_severity false severity = do s ← attr severity; ok (severity_text s)

-- `to_ietf_alarm_notif`
unfoldable pub to_ietf_alarm_notif : Alarm → Result IetfNotif
unfolding shown_severity
to_ietf_alarm_notif a = do
  is_cleared ← attr a.is_cleared
  severity ← shown_severity is_cleared a.perceived_severity
  changed ← attr a.last_changed
  text ← attr a.alarm_text
  ok (record {
    resource = a.resource;
    alarm_type_id = a.alarm_type_id;
    alarm_type_qualifier = a.alarm_type_qualifier;
    perceived_severity = severity;
    time = changed;
    alarm_text = text;
  })

-- The texts of the severities are read back.
pub severity_of-severity_text : (s : PerceivedSeverity) → severity_of (severity_text s) ≡ ok s
unfolding severity_of
severity_of-severity_text cleared = refl
severity_of-severity_text _ = refl
