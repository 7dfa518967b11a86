-- ===== src/Fault/Receive.antt =====
-- `from_ietf_alarm_notif` and `from_ietf_alarm` of `Alarm`: how a notification, or an alarm of the
-- datastore, changes the alarms. `parse` is the parser of `dateutil`, which may raise.
use sim_o1_ofhmp_interfaces.Prelude.{
  ◌+◌, String, Bool, true, false, Option, none, some, if◌then◌else◌,
}
use sim_o1_ofhmp_interfaces.Prelude.Result.{Result, ok, err, key_error, attribute_error}
use sim_o1_ofhmp_interfaces.Prelude.Exec.{Exec, pure, lift, modify, ◌>>=◌, ◌>>◌}
use sim_o1_ofhmp_interfaces.Datetime.{Datetime}
use sim_o1_ofhmp_interfaces.Fault.Alarm.{
  Alarm, PerceivedSeverity, is_severity_cleared, severity_of, new,
}
use sim_o1_ofhmp_interfaces.Fault.Manager.{
  Fault, Notif, get_alarm, add_alarm, with_alarm, on_alarm_change,
}

-- `data[key]` of a key that may be missing.
abbrev pub item : {A : Type 0} → Option A → Result A
item none = err key_error
item (some a) = ok a

-- The branch on "perceived-severity", after `is_cleared = False`.
unfoldable pub severity_branch : PerceivedSeverity → Datetime → Exec Alarm (Unit {0})
severity_branch severity time a =
    if is_severity_cleared severity
    then elim a.perceived_severity [
      | none ↦ (err attribute_error, a)
      | some old ↦ (ok tt, record a { is_cleared = some true })
    ]
    else (ok tt, record a { perceived_severity = some severity; last_raised = some time })

unfoldable pub severity_given : Option String → Datetime → Exec Alarm (Unit {0})
unfolding severity_branch severity_of
severity_given none time = pure tt
severity_given (some text) time = do
  modify (λ a. record a { is_cleared = some false })
  severity ← lift (severity_of text)
  severity_branch severity time

unfoldable pub cleared_given : Option Bool → Alarm → Alarm
cleared_given none a = a
cleared_given (some b) a = record a { is_cleared = some b }

unfoldable pub text_given : Option String → Alarm → Alarm
text_given none a = a
text_given (some s) a = record a { alarm_text = some s }

-- The counter by the state that was reached.
unfoldable pub count_change : Exec Alarm (Unit {0})
count_change a = elim a.is_cleared [
  | none ↦ (err attribute_error, a)
  | some true ↦ (ok tt, record a { times_cleared = a.times_cleared + 1 })
  | some false ↦ (ok tt, record a { times_raised = a.times_raised + 1 })
]

-- What the notification writes into the alarm, in order.
unfoldable pub notif_fields : Notif → Datetime → Exec Alarm (Unit {0})
unfolding severity_given cleared_given text_given count_change
notif_fields n time = do
  severity_given n.perceived_severity time
  modify (cleared_given n.is_cleared)
  modify (text_given n.alarm_text)
  modify (λ a. record a { last_changed = some time })
  count_change

-- The alarm of the key: the one that is known, or the new one, which is added.
unfoldable pub ensure_alarm : Alarm → Exec Fault (Unit {0})
unfolding get_alarm add_alarm
ensure_alarm a s = elim (get_alarm a.c_id s) [ some old ↦ (ok tt, s) | none ↦ add_alarm a s ]

module _ (parse : String → Result Datetime) where
  unfoldable pub time_of : Option String → Datetime → Result Datetime
  time_of none now = ok now
  time_of (some s) now = parse s

  -- Returns the key of the alarm.
  unfoldable pub from_ietf_alarm_notif : Notif → Datetime → Exec Fault String
  unfolding time_of ensure_alarm with_alarm notif_fields on_alarm_change
  from_ietf_alarm_notif n now = do
    resource ← lift (item n.resource)
    type_id ← lift (item n.alarm_type_id)
    qualifier ← lift (item n.alarm_type_qualifier)
    time ← lift (time_of n.time now)
    let a = new resource type_id qualifier
    ensure_alarm (record a { time_created = some time; last_raised = some time })
    with_alarm a.c_id (notif_fields n time)
    on_alarm_change a.c_id
    pure a.c_id

-- An alarm of the datastore; a missing key is `none`.
pub record AlarmData : Type 0 where
  pub resource : Option String
  pub alarm_type_id : Option String
  pub alarm_type_qualifier : Option String
  pub is_cleared : Option Bool
  pub perceived_severity : Option String
  pub alarm_text : Option String
  pub time_created : Option String
  pub last_raised : Option String
  pub last_changed : Option String

module _ (parse : String → Result Datetime) where
  unfoldable pub times_parsed : String → String → String → Exec Alarm (Unit {0})
  times_parsed created raised_at changed = do
    t ← lift (parse created)
    modify (λ b. record b { time_created = some t })
    u ← lift (parse raised_at)
    modify (λ b. record b { last_raised = some u })
    v ← lift (parse changed)
    modify (λ b. record b { last_changed = some v })

  -- The three times if all are there, and else the current time.
  unfoldable pub data_times :
      Option String → Option String → Option String → Datetime → Exec Alarm (Unit {0})
  unfolding times_parsed
  data_times (some created) (some raised_at) (some changed) now =
      times_parsed created raised_at changed
  data_times _ _ _ now =
      modify
        (λ b. record b { time_created = some now; last_raised = some now; last_changed = some now })

  unfoldable pub data_fields : AlarmData → Datetime → Exec Alarm (Unit {0})
  unfolding data_times severity_of count_change
  data_fields d now = do
    is_cleared ← lift (item d.is_cleared)
    modify (λ a. record a { is_cleared = some is_cleared })
    text ← lift (item d.perceived_severity)
    severity ← lift (severity_of text)
    modify (λ a. record a { perceived_severity = some severity })
    alarm_text ← lift (item d.alarm_text)
    modify (λ a. record a { alarm_text = some alarm_text })
    data_times d.time_created d.last_raised d.last_changed now
    count_change

  -- Returns the key of the alarm.
  unfoldable pub from_ietf_alarm : AlarmData → Datetime → Exec Fault String
  unfolding ensure_alarm with_alarm data_fields on_alarm_change
  from_ietf_alarm d now = do
    resource ← lift (item d.resource)
    type_id ← lift (item d.alarm_type_id)
    qualifier ← lift (item d.alarm_type_qualifier)
    let a = new resource type_id qualifier
    ensure_alarm a
    with_alarm a.c_id (data_fields d now)
    on_alarm_change a.c_id
    pure a.c_id
