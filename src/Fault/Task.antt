-- ===== src/Fault/Task.antt =====
-- `fault_management_task` of fault_management.py, one round of its loop at a time, and the whole of
-- the feature: its state, the threads that were started, and what requests and threads do to it.
use sim_o1_ofhmp_interfaces.Prelude.{
  ℕ, suc, String, Bool, true, false, ◌||◌, Option, none, some, List, [], ◌∷◌, ◌++◌, ltb, nat_beq,
  length, ◌≡◌, get_elem?, if◌then◌else◌,
}
use sim_o1_ofhmp_interfaces.Prelude.Result.{
  Error, Result, ok, err, key_error, index_error, attribute_error,
}
use sim_o1_ofhmp_interfaces.Prelude.Exec.{Exec, raise, ◌>>=◌}
use sim_o1_ofhmp_interfaces.Datetime.{Datetime}
use sim_o1_ofhmp_interfaces.Fault.Manager.{
  Fault, Step, Notif, get_alarm, alarm_notify, clear_alarm_counters, init,
}
use sim_o1_ofhmp_interfaces.Fault.Receive.{from_ietf_alarm_notif}
use sim_o1_ofhmp_interfaces.Fault.Control.{Settings, Reply, start, stop}

-- How a round leaves its thread: it goes on with the step after the one it took, it has left the
-- loop, or an exception has ended it.
pub data Outcome : Type 0 where
  next : ℕ → Outcome
  finished : Outcome
  died : Error → Outcome

-- `current_step` in range, or what happens at the end of the steps; `none` is the `break`.
unfoldable pub choose : ℕ → Fault → Result (Option ℕ)
choose k s = if ltb k (length s.alarm_steps) then ok (some k) else elim s.alarm_config [
  | none ↦ err attribute_error
  | some c ↦ elim c.loop [ none ↦ err key_error | some true ↦ ok (some 0) | some false ↦ ok none ]
]

-- The alarm of the key, which `from_ietf_alarm_notif` has just returned.
unfoldable pub notify_key : String → Exec Fault (Unit {0})
unfolding alarm_notify get_alarm
notify_key c_id s = elim (get_alarm c_id s) [
  | none ↦ (err key_error, s)
  | some a ↦ alarm_notify a s
]

-- How performing the step of an index ends the round.
unfoldable pub after_perform : ℕ → Result (Unit {0}) → Outcome
after_perform i (ok _) = next (suc i)
after_perform i (err e) = died e

module _ (parse : String → Result Datetime) where
  -- The alarm of a step. Without a provider there is no alarm to notify of, and with o-ran-fm the
  -- class has no `from_oran_fm_notif`.
  unfoldable pub receive_step : Notif → Datetime → Exec Fault (Unit {0})
  unfolding from_ietf_alarm_notif notify_key
  receive_step n now s =
      if s.ietf_alarms
      then (do
        c_id ← from_ietf_alarm_notif parse n now
        if s.o_ran_fm then raise attribute_error else notify_key c_id)
          s
      else (err attribute_error, s)

  -- One step; the delay changes nothing.
  unfoldable pub perform : Step → Datetime → Exec Fault (Unit {0})
  unfolding receive_step
  perform step now s = elim step.alarm [ none ↦ (ok tt, s) | some n ↦ receive_step n now s ]

  unfoldable pub take_step : Result (Option ℕ) → Datetime → Fault → Outcome × Fault
  unfolding perform after_perform
  take_step (err e) now s = (died e, s)
  take_step (ok none) now s = (finished, record s { stopped = true })
  take_step (ok (some i)) now s = elim (get_elem? s.alarm_steps i) [
    | none ↦ (died index_error, s)
    | some step ↦ (after_perform i (perform step now s).0, (perform step now s).1)
  ]

  -- One round of the loop, from its test on: `stopping` says whether the global stop event is set.
  unfoldable pub round : Bool → Datetime → ℕ → Fault → Outcome × Fault
  unfolding choose take_step
  round stopping now k s =
      if s.stopped || stopping || s.fault_stop
      then (finished, record s { stopped = true })
      else take_step (choose k s) now s

-- The threads that were started, in order.
pub data Thread : Type 0 where
  running : ℕ → Thread
  ended : Thread
  failed : Error → Thread

abbrev pub thread_of : Outcome → Thread
thread_of (next k) = running k
thread_of finished = ended
thread_of (died e) = failed e

pub record System : Type 0 where
  pub fault : Fault
  pub threads : List Thread

-- The thread that a request to start leaves, by the reply.
abbrev pub started : Reply → List Thread
started r = if nat_beq r.code 200 then running 0 ∷ [] else []

-- What may happen next: a request to start, to stop or to clear the counters, or one round of a
-- thread that is running.
pub data Happens (parse : String → Result Datetime) (s t : System) : Type 0 where
  asked_start :
      (given file : Option Settings)
      → t ≡ record {
        fault = (start given file s.fault).1;
        threads = s.threads ++ started (start given file s.fault).0;
      }
      → Happens parse s t
  asked_stop : t ≡ record s { fault = (stop s.fault).1 } → Happens parse s t
  asked_clear : t ≡ record s { fault = clear_alarm_counters s.fault } → Happens parse s t
  ran :
      (before after : List Thread) (k : ℕ) (stopping : Bool) (now : Datetime)
      → s.threads ≡ before ++ (running k ∷ after)
      → t ≡ record {
        fault = (round parse stopping now k s.fault).1;
        threads = before ++ (thread_of (round parse stopping now k s.fault).0 ∷ after);
      }
      → Happens parse s t

pub data Reaches (parse : String → Result Datetime) (s : System) : System → Type 0 where
  here : Reaches parse s s
  later : {t u : System} → Reaches parse s t → Happens parse t u → Reaches parse s u

-- The feature after `init`.
abbrev pub initial : Bool → Bool → Datetime → System
initial ietf_alarms o_ran_fm now = record { fault = init ietf_alarms o_ran_fm now; threads = [] }
