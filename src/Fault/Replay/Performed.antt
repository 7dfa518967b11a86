-- ===== src/Fault/Replay/Performed.antt =====
-- Performing a step, as a whole.
use mathlib.Core.Option.{some-injective}
use sim_o1_ofhmp_interfaces.Prelude.{
  ℕ, String, Bool, true, false, Option, none, some, List, [], ◌∷◌, ◌++◌, ◌≡◌, refl, arith, ap, ◌∙◌,
  if◌then◌else◌, string_eq,
}
use sim_o1_ofhmp_interfaces.Prelude.Result.{Result, ok, err, attribute_error, key_error}
use sim_o1_ofhmp_interfaces.Prelude.Exec.{raise, continue}
use sim_o1_ofhmp_interfaces.Prelude.Dict.{insert}
use sim_o1_ofhmp_interfaces.Datetime.{Datetime, ensure_aware}
use sim_o1_ofhmp_interfaces.Fault.Alarm.{Alarm, PerceivedSeverity, combined_id, new}
use sim_o1_ofhmp_interfaces.Fault.Manager.{
  Fault, Step, Sent, advance, alarm_notify, send_ietf, send_notification, get_alarm,
}
use sim_o1_ofhmp_interfaces.Fault.Receive.{notif_fields, time_of, from_ietf_alarm_notif}
use sim_o1_ofhmp_interfaces.Fault.Task.{perform, receive_step, notify_key}
use sim_o1_ofhmp_interfaces.Fault.Replay.{
  told, after_told, IsClearable, shown, with_alarm-found, lookup-insert_self, current, ensured,
  ensure_alarm-eq, ensured-current, ensured-sent, notif_fields-told, settled,
  to_ietf_alarm_notif-settled, on_alarm_change-told,
}

module _ (parse : String → Result Datetime) (now : Datetime) (resource type_id qualifier : String)
    (time : Option String) (severity : PerceivedSeverity) (text : String) (t : Datetime) where
  abbrev fresh_alarm : Alarm
  fresh_alarm = record (new resource type_id qualifier) {
    time_created = some t;
    last_raised = some t;
  }

  abbrev key : String
  key = combined_id resource type_id qualifier

  abbrev received : Fault → Fault
  received s =
      let s1 = ensured fresh_alarm s in
      let a = current fresh_alarm s in
      let s2 = record s1 { alarms = insert key (after_told severity t text a) s1.alarms } in
      advance (ensure_aware t)
        (record s2 { alarms = insert key (settled severity t text a) s2.alarms })

  from_ietf_alarm_notif-told :
      (s : Fault)
      → time_of parse time now ≡ ok t
      → IsClearable severity (current fresh_alarm s).perceived_severity
      → from_ietf_alarm_notif parse (told resource type_id qualifier time severity text) now s
        ≡ (ok key, received s)
  unfolding from_ietf_alarm_notif
  from_ietf_alarm_notif-told s e h =
      rw
        (
          e,
          ensure_alarm-eq fresh_alarm s,
          with_alarm-found key (notif_fields (told resource type_id qualifier time severity text) t)
              (current fresh_alarm s) (ensured fresh_alarm s) (ensured-current fresh_alarm s),
          notif_fields-told resource type_id qualifier time text t severity (current fresh_alarm s)
              h,
          on_alarm_change-told key severity t text (current fresh_alarm s)
              (record (ensured fresh_alarm s) {
                alarms =
                    insert key (after_told severity t text (current fresh_alarm s))
                      (ensured fresh_alarm s).alarms;
              })
              (lookup-insert_self key (after_told severity t text (current fresh_alarm s))
                (ensured fresh_alarm s).alarms),
        )
        refl

  received-kept :
      (s : Fault)
      → ((received s).sent ≡ s.sent)
        × ((received s).ietf_alarms ≡ s.ietf_alarms)
        × ((received s).o_ran_fm ≡ s.o_ran_fm)
        × (get_alarm key (received s) ≡ some (settled severity t text (current fresh_alarm s)))
  unfolding advance get_alarm
  received-kept s =
      let (sent, ietf, oran) = ensured-sent fresh_alarm s in
      (sent, ietf, oran, lookup-insert_self key (settled severity t text (current fresh_alarm s)) _)

  reported : Alarm → Fault → Fault
  reported a s = record s {
    sent =
        s.sent
        ++ shown a.resource a.alarm_type_id a.alarm_type_qualifier severity (ensure_aware t) text
          ∷ [];
  }

  alarm_notify-told :
      (a : Alarm) (s : Fault)
      → s.ietf_alarms ≡ true
      → s.o_ran_fm ≡ false
      → alarm_notify (settled severity t text a) s ≡ (ok tt, reported a s)
  unfolding alarm_notify send_notification send_ietf reported
  alarm_notify-told a s ietf oran = ground (arith, to_ietf_alarm_notif-settled severity t text a)

  notify_key-told :
      (a : Alarm) (s : Fault)
      → s.ietf_alarms ≡ true
      → s.o_ran_fm ≡ false
      → get_alarm key s ≡ some (settled severity t text a)
      → notify_key key s ≡ (ok tt, reported a s)
  unfolding notify_key
  notify_key-told a s ietf oran found = by_found (get_alarm key s) found
    where
      by_found :
          (o : Option Alarm)
          → o ≡ some (settled severity t text a)
          → elim o as (λ x. Result (Unit {0}) × Fault) [
            | none ↦ (err key_error, s)
            | some b ↦ alarm_notify b s
          ]
            ≡ (ok tt, reported a s)
      by_found none e = cc
      by_found (some b) e =
          rw (some-injective b (settled severity t text a) e) (alarm_notify-told a s ietf oran)

  receive_step-told :
      (s : Fault)
      → s.ietf_alarms ≡ true
      → s.o_ran_fm ≡ false
      → time_of parse time now ≡ ok t
      → IsClearable severity (current fresh_alarm s).perceived_severity
      → receive_step parse (told resource type_id qualifier time severity text) now s
        ≡ (ok tt, reported (current fresh_alarm s) (received s))
  unfolding receive_step
  receive_step-told s ietf oran e h = by_provider s.ietf_alarms s.o_ran_fm ietf oran
    where
      by_provider :
          (b o : Bool)
          → b ≡ true
          → o ≡ false
          → (if b
              then continue
                  (from_ietf_alarm_notif parse
                    (told resource type_id qualifier time severity text)
                    now
                    s).0
                  (λ c_id. if o then raise attribute_error else notify_key c_id)
                  (from_ietf_alarm_notif parse
                    (told resource type_id qualifier time severity text)
                    now
                    s).1
              else (err attribute_error, s))
            ≡ (ok tt, reported (current fresh_alarm s) (received s))
      by_provider true false p q =
          let (sent, ietf', oran', found) = received-kept s in
          ap (λ (r : Result String × Fault). continue r.0 (λ c_id. notify_key c_id) r.1)
            (from_ietf_alarm_notif-told s e h)
          ∙ notify_key-told (current fresh_alarm s) (received s) (ietf' ∙ ietf) (oran' ∙ oran) found
      by_provider true true p q = cc
      by_provider false o p q = cc

  -- With ietf-alarms as the only provider, a step with a notification that has every key but
  -- "is-cleared", whose time can be read, and whose severity is "cleared" only if the alarm has had
  -- another one, succeeds, and sends one notification more: with the severity, the text and the time
  -- that the step has, in UTC if the time names no zone, and with the names of the step, where the
  -- alarm that stands under their key, if there is one, has these names.
  pub perform-told :
      (s : Fault) (delay : Option ℕ)
      → s.ietf_alarms ≡ true
      → s.o_ran_fm ≡ false
      → time_of parse time now ≡ ok t
      → IsClearable severity (current fresh_alarm s).perceived_severity
      → (current fresh_alarm s).resource ≡ resource
      → (current fresh_alarm s).alarm_type_id ≡ type_id
      → (current fresh_alarm s).alarm_type_qualifier ≡ qualifier
      → let step : Step = record {
        alarm = some (told resource type_id qualifier time severity text);
        delay = delay;
      } in
        ((perform parse step now s).0 ≡ ok tt)
        × ((perform parse step now s).1.sent
            ≡ s.sent ++ shown resource type_id qualifier severity (ensure_aware t) text ∷ [])
  unfolding perform reported
  perform-told s delay ietf oran e h r i q =
      let done = receive_step-told s ietf oran e h in
      (ap (λ x. x.0) done, ap (λ x. x.1.sent) done ∙ appended (received-kept s).0 r i q)
    where
      appended :
          {l m : List Sent} {r i q : String}
          → l ≡ m
          → r ≡ resource
          → i ≡ type_id
          → q ≡ qualifier
          → l ++ shown r i q severity (ensure_aware t) text ∷ []
            ≡ m ++ shown resource type_id qualifier severity (ensure_aware t) text ∷ []
      appended e r i q = cc
