-- ===== src/Fault/Replay.antt =====
-- What a step of the configuration sends: the notification that it holds.
pub mod Performed
pub mod FirstCleared
use mathlib.Core.Option.{some-injective}
use sim_o1_ofhmp_interfaces.Prelude.{
  ℕ, ◌+◌, String, Bool, true, false, Option, none, some, List, [], ◌∷◌, ◌++◌, ◌≡◌, ◌≢◌, refl, arith,
  ap, ◌∙◌, sym, subst, if◌then◌else◌, eq_iff, ◌==◌, string_eq, Option-cases, inl, inr, ◌⊎◌,
}
use sim_o1_ofhmp_interfaces.Prelude.Result.{Error, Result, ok, err, attribute_error, key_error}
use sim_o1_ofhmp_interfaces.Prelude.Exec.{Exec, pure, raise, lift, modify, continue, ◌>>=◌, ◌>>◌}
use sim_o1_ofhmp_interfaces.Prelude.Dict.{Dict, lookup, insert, lookup-insert}
use sim_o1_ofhmp_interfaces.Datetime.{Datetime, ensure_aware}
use sim_o1_ofhmp_interfaces.Fault.Alarm.{
  Alarm, PerceivedSeverity, cleared, indeterminate, warning, minor, major, critical, severity_text,
  severity_of, combined_id, new, is_severity_cleared, IetfNotif, to_ietf_alarm_notif,
}
use sim_o1_ofhmp_interfaces.Fault.Manager.{
  Fault, Step, Notif, Sent, with_alarm, advance, on_alarm_change, alarm_notify, send_ietf,
  send_notification, aware_alarm, get_alarm, add_alarm,
}
use sim_o1_ofhmp_interfaces.Fault.Receive.{
  notif_fields, ensure_alarm, time_of, from_ietf_alarm_notif,
}
use sim_o1_ofhmp_interfaces.Fault.Task.{perform, receive_step, notify_key}

-- A notification with every key but "is-cleared".
abbrev pub told : String → String → String → Option String → PerceivedSeverity → String → Notif
told resource type_id qualifier time severity text = record {
  resource = some resource;
  alarm_type_id = some type_id;
  alarm_type_qualifier = some qualifier;
  time = time;
  perceived_severity = some (severity_text severity);
  is_cleared = none;
  alarm_text = some text;
}

-- The alarm once it was told, at the time `t`; one that is cleared keeps its severity.
abbrev pub after_told : PerceivedSeverity → Datetime → String → Alarm → Alarm
after_told cleared t text a = record a {
  is_cleared = some true;
  last_changed = some t;
  alarm_text = some text;
  times_cleared = a.times_cleared + 1;
}
after_told severity t text a = record a {
  is_cleared = some false;
  perceived_severity = some severity;
  last_raised = some t;
  last_changed = some t;
  alarm_text = some text;
  times_raised = a.times_raised + 1;
}

-- An alarm that was cleared must have had a severity.
abbrev pub IsClearable : PerceivedSeverity → Option PerceivedSeverity → Type 0
IsClearable cleared known = (old : PerceivedSeverity) × (known ≡ some old)
IsClearable _ known = Unit

-- What is sent of an alarm.
abbrev pub shown : String → String → String → PerceivedSeverity → Datetime → String → Sent
shown resource type_id qualifier severity t text = record {
  xpath = "/ietf-alarms:alarm-notification";
  notif = record {
    resource = resource;
    alarm_type_id = type_id;
    alarm_type_qualifier = qualifier;
    perceived_severity = severity_text severity;
    time = t;
    alarm_text = text;
  };
}

with_alarm-found :
    {A : Type 0} (k : String) (m : Exec Alarm A) (a : Alarm) (s : Fault)
    → lookup k s.alarms ≡ some a
    → with_alarm k m s ≡ ((m a).0, record s { alarms = insert k (m a).1 s.alarms })
unfolding with_alarm
with_alarm-found k m a s e = rw (e, with_alarm) refl

lookup-insert_self : (k : String) (a : Alarm) (d : Dict Alarm) → lookup k (insert k a d) ≡ some a
lookup-insert_self k a d = ground (arith, lookup-insert k k a d, eq_iff k k)

-- The alarm that stands under the key, or else the new one.
abbrev pub current : Alarm → Fault → Alarm
current a s = elim (lookup a.c_id s.alarms) [ none ↦ a | some b ↦ b ]

abbrev ensured : Alarm → Fault → Fault
ensured a s = elim (lookup a.c_id s.alarms) [
  | none ↦ record s { alarms = insert a.c_id a s.alarms }
  | some b ↦ s
]

ensure_alarm-eq : (a : Alarm) (s : Fault) → ensure_alarm a s ≡ (ok tt, ensured a s)
unfolding ensure_alarm get_alarm add_alarm
ensure_alarm-eq a s = ground arith

ensured-current : (a : Alarm) (s : Fault) → lookup a.c_id (ensured a s).alarms ≡ some (current a s)
ensured-current a s = ground (arith, lookup-insert_self a.c_id a s.alarms)

ensured-sent :
    (a : Alarm) (s : Fault)
    → ((ensured a s).sent ≡ s.sent)
      × ((ensured a s).ietf_alarms ≡ s.ietf_alarms)
      × ((ensured a s).o_ran_fm ≡ s.o_ran_fm)
ensured-sent a s = ground arith

notif_fields-told :
    (resource type_id qualifier : String) (time : Option String) (text : String) (t : Datetime)
    (severity : PerceivedSeverity) (a : Alarm)
    → IsClearable severity a.perceived_severity
    → notif_fields (told resource type_id qualifier time severity text) t a
      ≡ (ok tt, after_told severity t text a)
unfolding notif_fields
notif_fields-told r i q time text t cleared a (old, e) = ground arith
notif_fields-told r i q time text t _ a h = refl

-- The alarm after `on_alarm_change`.
abbrev settled : PerceivedSeverity → Datetime → String → Alarm → Alarm
settled severity t text a = record (after_told severity t text a) {
  last_changed = some (ensure_aware t);
}

to_ietf_alarm_notif-settled :
    (severity : PerceivedSeverity) (t : Datetime) (text : String) (a : Alarm)
    → to_ietf_alarm_notif (settled severity t text a)
      ≡ ok
          (shown a.resource a.alarm_type_id a.alarm_type_qualifier severity
            (ensure_aware t)
            text).notif
unfolding to_ietf_alarm_notif
to_ietf_alarm_notif-settled cleared t text a = refl
to_ietf_alarm_notif-settled _ t text a = refl

aware_alarm-told :
    (severity : PerceivedSeverity) (t : Datetime) (text : String) (a : Alarm)
    → aware_alarm (after_told severity t text a) ≡ (ok (ensure_aware t), settled severity t text a)
unfolding aware_alarm
aware_alarm-told cleared t text a = refl
aware_alarm-told _ t text a = refl

on_alarm_change-told :
    (k : String) (severity : PerceivedSeverity) (t : Datetime) (text : String) (a : Alarm)
    (s : Fault)
    → lookup k s.alarms ≡ some (after_told severity t text a)
    → on_alarm_change k s ≡ (
      ok tt,
      advance
          (ensure_aware t)
          (record s { alarms = insert k (settled severity t text a) s.alarms }),
    )
unfolding on_alarm_change
on_alarm_change-told k severity t text a s e =
    rw
      (
        with_alarm-found k aware_alarm (after_told severity t text a) s e,
        aware_alarm-told severity t text a,
      )
      refl
