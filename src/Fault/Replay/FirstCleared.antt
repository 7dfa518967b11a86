-- ===== src/Fault/Replay/FirstCleared.antt =====
-- A step whose alarm is new and cleared at once.
use sim_o1_ofhmp_interfaces.Prelude.{
  ℕ, String, Bool, true, false, Option, none, some, ◌≡◌, refl, arith, ap, ◌∙◌, if◌then◌else◌,
  string_eq,
}
use sim_o1_ofhmp_interfaces.Prelude.Result.{Result, ok, err, attribute_error}
use sim_o1_ofhmp_interfaces.Prelude.Exec.{raise, continue}
use sim_o1_ofhmp_interfaces.Prelude.Dict.{lookup, insert}
use sim_o1_ofhmp_interfaces.Datetime.{Datetime}
use sim_o1_ofhmp_interfaces.Fault.Alarm.{Alarm, cleared, combined_id, new}
use sim_o1_ofhmp_interfaces.Fault.Manager.{Fault, Step, with_alarm}
use sim_o1_ofhmp_interfaces.Fault.Receive.{
  notif_fields, ensure_alarm, time_of, from_ietf_alarm_notif,
}
use sim_o1_ofhmp_interfaces.Fault.Task.{perform, receive_step, notify_key}
use sim_o1_ofhmp_interfaces.Fault.Replay.{
  told, with_alarm-found, lookup-insert_self, ensure_alarm-eq,
}

module _ (parse : String → Result Datetime) (now : Datetime) (resource type_id qualifier : String)
    (time : Option String) (text : String) (t : Datetime) where
  abbrev fresh_alarm : Alarm
  fresh_alarm = record (new resource type_id qualifier) {
    time_created = some t;
    last_raised = some t;
  }

  abbrev key : String
  key = combined_id resource type_id qualifier

  refused : Fault → Fault
  refused s = record s {
    alarms =
        insert key (record fresh_alarm { is_cleared = some false })
          (insert key fresh_alarm s.alarms);
  }

  with_alarm-first_cleared :
      (s : Fault)
      → with_alarm key
          (notif_fields (told resource type_id qualifier time cleared text) t)
          (record s { alarms = insert key fresh_alarm s.alarms })
        ≡ (err attribute_error, refused s)
  unfolding notif_fields refused
  with_alarm-first_cleared s =
      with_alarm-found key (notif_fields (told resource type_id qualifier time cleared text) t)
        fresh_alarm (record s { alarms = insert key fresh_alarm s.alarms })
        (lookup-insert_self key fresh_alarm s.alarms)

  ensure_alarm-none :
      (s : Fault)
      → lookup key s.alarms ≡ none
      → ensure_alarm fresh_alarm s ≡ (ok tt, record s { alarms = insert key fresh_alarm s.alarms })
  ensure_alarm-none s e = ensure_alarm-eq fresh_alarm s ∙ ground arith

  from_ietf_alarm_notif-first_cleared :
      (s : Fault)
      → time_of parse time now ≡ ok t
      → lookup key s.alarms ≡ none
      → from_ietf_alarm_notif parse (told resource type_id qualifier time cleared text) now s
        ≡ (err attribute_error, refused s)
  unfolding from_ietf_alarm_notif
  from_ietf_alarm_notif-first_cleared s e new_one =
      rw (e, ensure_alarm-none s new_one, with_alarm-first_cleared s) refl

  -- A step with the first notification of an alarm that is "cleared" from the start raises an
  -- AttributeError. Nothing is sent, and the alarm stays in the dictionary, not cleared and without a
  -- severity.
  pub perform-first_cleared :
      (s : Fault) (delay : Option ℕ)
      → s.ietf_alarms ≡ true
      → time_of parse time now ≡ ok t
      → lookup key s.alarms ≡ none
      → let step : Step = record {
        alarm = some (told resource type_id qualifier time cleared text);
        delay = delay;
      } in
        ((perform parse step now s).0 ≡ err attribute_error)
        × ((perform parse step now s).1.sent ≡ s.sent)
        × (lookup key (perform parse step now s).1.alarms
            ≡ some (record fresh_alarm { is_cleared = some false }))
  unfolding perform receive_step refused
  perform-first_cleared s delay ietf e new_one =
      let done = by_provider s.ietf_alarms ietf in
      (
        ap (λ x. x.0) done,
        ap (λ x. x.1.sent) done,
        ap (λ x. lookup key x.1.alarms) done
            ∙ lookup-insert_self key _ (insert key fresh_alarm s.alarms),
      )
    where
      by_provider :
          (b : Bool)
          → b ≡ true
          → (if b
              then continue
                  (from_ietf_alarm_notif parse
                    (told resource type_id qualifier time cleared text)
                    now
                    s).0
                  (λ c_id. if s.o_ran_fm then raise attribute_error else notify_key c_id)
                  (from_ietf_alarm_notif parse
                    (told resource type_id qualifier time cleared text)
                    now
                    s).1
              else (err attribute_error, s))
            ≡ (err attribute_error, refused s)
      by_provider true p =
          ap
            (λ (r : Result String × Fault).
              continue r.0 (λ c_id. if s.o_ran_fm then raise attribute_error else notify_key c_id)
                r.1)
            (from_ietf_alarm_notif-first_cleared s e new_one)
      by_provider false p = cc
