-- ===== src/Fault/Change.antt =====
-- The time of the last change, which the alarm list shows.
use sim_o1_ofhmp_interfaces.Prelude.{
  ℕ, String, Bool, true, false, Option, none, some, ◌≡◌, refl, arith, ap, sym, subst, if◌then◌else◌,
  ◌||◌, get_elem?,
}
use sim_o1_ofhmp_interfaces.Prelude.Result.{Result, ok, err, index_error}
use sim_o1_ofhmp_interfaces.Prelude.Exec.{Exec}
use sim_o1_ofhmp_interfaces.Prelude.Keeps.{Keeps, keeps_bind}
use sim_o1_ofhmp_interfaces.Datetime.{
  Datetime, Zone, ensure_aware, is_after, NotAfter, NotAfter-refl, NotAfter-trans,
  zone_of-ensure_aware, clock-ensure_aware,
}
use sim_o1_ofhmp_interfaces.Fault.Alarm.{Alarm}
use sim_o1_ofhmp_interfaces.Fault.Manager.{
  Fault, Step, with_alarm, advance, on_alarm_change, send_notification, clear_alarm_counters,
  aware_alarm,
}
use sim_o1_ofhmp_interfaces.Fault.Receive.{notif_fields, ensure_alarm}
use sim_o1_ofhmp_interfaces.Fault.Rules.{StepsKeep, perform-keeps}
use sim_o1_ofhmp_interfaces.Fault.Control.{start, stop}
use sim_o1_ofhmp_interfaces.Fault.Task.{
  Outcome, died, finished, perform, choose, take_step, round, after_perform, System, Happens,
  asked_start, asked_stop, asked_clear, ran, Reaches, here, later,
}

NotAfter-ensure_aware : (a b : Datetime) → NotAfter a b → NotAfter a (ensure_aware b)
NotAfter-ensure_aware a b h = omega (
  arith,
  clock-ensure_aware b,
  ap (λ (z : Zone). z.east) (zone_of-ensure_aware b),
  ap (λ (z : Zone). z.west) (zone_of-ensure_aware b),
)

is_after-NotAfter : (a b : Datetime) → is_after a b ≡ true → NotAfter b a
unfolding is_after
is_after-NotAfter a b h = ground arith

module _ (o : Datetime) where
  advance-NotAfter :
      (t : Datetime) (s : Fault) → NotAfter o s.last_changed → NotAfter o (advance t s).last_changed
  unfolding advance
  advance-NotAfter t s h = by_test (is_after t (ensure_aware s.last_changed)) refl
    where
      own : NotAfter o (ensure_aware s.last_changed)
      own = NotAfter-ensure_aware o s.last_changed h

      by_test :
          (b : Bool)
          → is_after t (ensure_aware s.last_changed) ≡ b
          → NotAfter o (if b then t else ensure_aware s.last_changed)
      by_test true e =
          NotAfter-trans o (ensure_aware s.last_changed) t own
            (is_after-NotAfter t (ensure_aware s.last_changed) e)
      by_test false e = own

  with_alarm-last_changed :
      {A : Type 0} (c_id : String) (m : Exec Alarm A)
      → Keeps (λ s. NotAfter o s.last_changed) (with_alarm c_id m)
  unfolding with_alarm
  with_alarm-last_changed c_id m s h = ground arith

  NotAfter-StepsKeep : StepsKeep (λ s. NotAfter o s.last_changed)
  unfolding ensure_alarm on_alarm_change send_notification
  NotAfter-StepsKeep = record {
    add = λ resource type_id qualifier time s h. ground arith;
    write = λ c_id n time. with_alarm-last_changed c_id (notif_fields n time);
    change = λ c_id.
        keeps_bind (λ s. NotAfter o s.last_changed) (with_alarm c_id aware_alarm) _
          (with_alarm-last_changed c_id aware_alarm) (λ t s. advance-NotAfter t s);
    send = λ a s h. ground arith;
  }

  abbrev Kept : System → Type 0
  Kept s = NotAfter o s.fault.last_changed

  take_step-last_changed :
      (parse : String → Result Datetime) (r : Result (Option ℕ)) (now : Datetime) (s : Fault)
      → NotAfter o s.last_changed
      → NotAfter o (take_step parse r now s).1.last_changed
  unfolding take_step
  take_step-last_changed parse (err e) now s h = h
  take_step-last_changed parse (ok none) now s h = h
  take_step-last_changed parse (ok (some i)) now s h = by_step (get_elem? s.alarm_steps i)
    where
      by_step :
          (x : Option Step)
          → let r : Outcome × Fault = elim x [
            | none ↦ (died index_error, s)
            | some step ↦
                (after_perform i (perform parse step now s).0, (perform parse step now s).1)
          ] in
            NotAfter o r.1.last_changed
      by_step none = h
      by_step (some step) =
          perform-keeps (λ s. NotAfter o s.last_changed) NotAfter-StepsKeep parse step now s h

  round-last_changed :
      (parse : String → Result Datetime) (stopping : Bool) (now : Datetime) (k : ℕ) (s : Fault)
      → NotAfter o s.last_changed
      → NotAfter o (round parse stopping now k s).1.last_changed
  unfolding round
  round-last_changed parse stopping now k s h = by_test (s.stopped || stopping || s.fault_stop)
    where
      by_test :
          (b : Bool)
          → let r : Outcome × Fault =
              if b
              then (finished, record s { stopped = true })
              else take_step parse (choose k s) now s in
            NotAfter o r.1.last_changed
      by_test true = h
      by_test false = take_step-last_changed parse (choose k s) now s h

  Happens-last_changed :
      (parse : String → Result Datetime) (s t : System)
      → Happens parse s t
      → NotAfter o s.fault.last_changed
      → NotAfter o t.fault.last_changed
  unfolding start stop clear_alarm_counters
  Happens-last_changed parse s t (asked_start given file e) h = subst Kept (sym e) (ground arith)
  Happens-last_changed parse s t (asked_stop e) h = subst Kept (sym e) (ground arith)
  Happens-last_changed parse s t (asked_clear e) h = subst Kept (sym e) h
  Happens-last_changed parse s t (ran before after k stopping now here_is e) h =
      subst Kept (sym e) (round-last_changed parse stopping now k s.fault h)

-- Whatever requests and rounds come in whatever order, the time of the last change never goes back,
-- whatever times the notifications carry, in whatever zones.
pub Reaches-last_changed :
    (parse : String → Result Datetime) (s t : System)
    → Reaches parse s t
    → NotAfter s.fault.last_changed t.fault.last_changed
Reaches-last_changed parse s _ here = NotAfter-refl s.fault.last_changed
Reaches-last_changed parse s _ (later {t} {u} r step) =
    Happens-last_changed s.fault.last_changed parse t u step (Reaches-last_changed parse s t r)
