-- ===== src/Fault/Schedule/Course.antt =====
-- The steps of the task that runs, while requests come between its rounds.
use mathlib.Core.List.{append-nil}
use sim_o1_ofhmp_interfaces.Prelude.{
  ℕ, suc, ◌≤◌, ◌<◌, String, Bool, true, false, Option, none, some, List, [], ◌∷◌, ◌++◌, ◌≡◌, refl,
  arith, ap, ◌∙◌, sym, subst, Bool-cases, inl, inr, length,
}
use sim_o1_ofhmp_interfaces.Prelude.Result.{Result, ok}
use sim_o1_ofhmp_interfaces.Datetime.{Datetime}
use sim_o1_ofhmp_interfaces.Fault.Manager.{Fault, clear_alarm_counters}
use sim_o1_ofhmp_interfaces.Fault.Control.{Settings, start, stop}
use sim_o1_ofhmp_interfaces.Fault.Kept.{SameControl}
use sim_o1_ofhmp_interfaces.Fault.Task.{
  Outcome, next, Thread, running, ended, failed, thread_of, System, Happens, asked_start,
  asked_stop, asked_clear, ran, Reaches, started, initial, choose, round,
}
use sim_o1_ofhmp_interfaces.Fault.Threads.{
  busy, IsTidy, busy-append, round-IsTidy, Happens-IsTidy, Reaches-IsTidy,
}
use sim_o1_ofhmp_interfaces.Fault.Schedule.{
  round_robin, round-next, Loops, Loops-kept, choose-loop, in_range, index_in_range,
  round_robin-suc,
}

-- A request, and no round of a thread.
abbrev pub IsRequest :
    {parse : String → Result Datetime} {s t : System} → Happens parse s t → Type 0
IsRequest (ran before after k stopping now threads e) = ⊥
IsRequest _ = Unit

-- What may happen from a state on, as long as the task goes on, with the indices of the steps that it
-- takes: any requests, and rounds that take a step.
pub data Course (parse : String → Result Datetime) : System → List ℕ → Type 0 where
  none_yet : {s : System} → Course parse s []
  requested :
      {s : System} {l : List ℕ} (t : System) (h : Happens parse s t)
      → IsRequest h
      → Course parse t l
      → Course parse s l
  took :
      {s : System} (before after : List Thread) (k : ℕ) (stopping : Bool) (now : Datetime) (i : ℕ)
      (u : Fault) (l : List ℕ)
      → s.threads ≡ before ++ (running k ∷ after)
      → round parse stopping now k s.fault ≡ (next (suc i), u)
      → Course parse (record { fault = u; threads = before ++ (running (suc i) ∷ after) }) l
      → Course parse s (i ∷ l)

-- The step before which the first thread that runs stands.
abbrev first_running : List Thread → Option ℕ
first_running [] = none
first_running (running k ∷ l) = some k
first_running (_ ∷ l) = first_running l

first_running-append :
    (before after : List Thread) (k : ℕ)
    → busy before ≡ 0
    → first_running (before ++ (running k ∷ after)) ≡ some k
first_running-append [] after k h = refl
first_running-append (running j ∷ l) after k h = absurd (omega (arith, h))
first_running-append (ended ∷ l) after k h = first_running-append l after k h
first_running-append (failed e ∷ l) after k h = absurd (omega (arith, h))

running_busy : (l : List Thread) (k : ℕ) → first_running l ≡ some k → 1 ≤ busy l
running_busy [] k h = cc
running_busy (running j ∷ l) k h = omega arith
running_busy (ended ∷ l) k h = running_busy l k h
running_busy (failed e ∷ l) k h = omega arith

some_inj : (j k : ℕ) → some j ≡ some k → j ≡ k
some_inj j k h = cc

-- The task of a tidy system is the first thread that runs.
task_first :
    (s : System) (before after : List Thread) (k : ℕ)
    → IsTidy s
    → s.threads ≡ before ++ (running k ∷ after)
    → first_running s.threads ≡ some k
task_first s before after k tidy e =
    ap first_running e
    ∙ first_running-append before after k
        (omega (arith, tidy.one, ap busy e ∙ busy-append before (running k ∷ after)))

running_unstopped :
    (s : System) (k : ℕ) → IsTidy s → first_running s.threads ≡ some k → s.fault.stopped ≡ false
running_unstopped s k tidy first = elim (Bool-cases s.fault.stopped) [
  | inl e ↦ absurd (omega (arith, tidy.none_when_stopped e, running_busy s.threads k first))
  | inr e ↦ e
]

start_refused :
    (given file : Option Settings) (s : Fault)
    → s.stopped ≡ false
    → ((start given file s).1 ≡ s) × (started (start given file s).0 ≡ [])
unfolding start
start_refused given file s h = ground arith

-- What a request leaves to a task that runs.
record Kept (s t : System) : Type 0 where
  steps : t.fault.alarm_steps ≡ s.fault.alarm_steps
  config : t.fault.alarm_config ≡ s.fault.alarm_config
  threads : t.threads ≡ s.threads

request-Kept :
    (parse : String → Result Datetime) (s t : System) (h : Happens parse s t)
    → IsRequest h
    → s.fault.stopped ≡ false
    → Kept s t
unfolding stop clear_alarm_counters
request-Kept parse s t (asked_start given file e) q on =
    let (same, new) = start_refused given file s.fault on in
    record {
      steps = ap (λ (u : System). u.fault.alarm_steps) e ∙ ap (λ (f : Fault). f.alarm_steps) same;
      config =
          ap (λ (u : System). u.fault.alarm_config) e ∙ ap (λ (f : Fault). f.alarm_config) same;
      threads =
          ap (λ (u : System). u.threads) e ∙ ap (λ l. s.threads ++ l) new ∙ append-nil s.threads;
    }
request-Kept parse s t (asked_stop e) q on = record {
  steps = ap (λ (u : System). u.fault.alarm_steps) e ∙ ground arith;
  config = ap (λ (u : System). u.fault.alarm_config) e ∙ ground arith;
  threads = ap (λ (u : System). u.threads) e;
}
request-Kept parse s t (asked_clear e) q on = record {
  steps = ap (λ (u : System). u.fault.alarm_steps) e;
  config = ap (λ (u : System). u.fault.alarm_config) e;
  threads = ap (λ (u : System). u.threads) e;
}
request-Kept parse s t (ran before after k stopping now threads e) q on = absurd q

module _ (parse : String → Result Datetime) where
  took-IsTidy :
      (s : System) (before after : List Thread) (k : ℕ) (stopping : Bool) (now : Datetime) (i : ℕ)
      (u : Fault)
      → s.threads ≡ before ++ (running k ∷ after)
      → round parse stopping now k s.fault ≡ (next (suc i), u)
      → IsTidy s
      → IsTidy (record { fault = u; threads = before ++ (running (suc i) ∷ after) })
  took-IsTidy s before after k stopping now i u here_is e tidy =
      subst
        (λ (p : Outcome × Fault).
          IsTidy (record { fault = p.1; threads = before ++ (thread_of p.0 ∷ after) }))
        e (round-IsTidy parse s before after k stopping now here_is tidy)

  tidy_loop :
      (k : ℕ) (s : System) (l : List ℕ)
      → IsTidy s
      → first_running s.threads ≡ some k
      → Loops true s.fault
      → 0 < length s.fault.alarm_steps
      → k ≤ length s.fault.alarm_steps
      → Course parse s l
      → l ≡ round_robin (length s.fault.alarm_steps) k (length l)
  unfolding round_robin
  tidy_loop k s _ tidy first loops pos h none_yet = refl
  tidy_loop k s l tidy first loops pos h (requested t step q rest) =
      let kept : Kept s t = request-Kept parse s t step q (running_unstopped s k tidy first) in
      let (c, config_is, loop_is) = loops in
      let len : length t.fault.alarm_steps ≡ length s.fault.alarm_steps = ap length kept.steps in
      tidy_loop k t l (Happens-IsTidy parse s t step tidy) (ap first_running kept.threads ∙ first)
        (c, kept.config ∙ config_is, loop_is) (omega arith) (omega arith) rest
      ∙ ap (λ n. round_robin n k (length l)) len
  tidy_loop k s _ tidy first loops pos h (took before after j stopping now i u l here_is e rest) =
      let n : ℕ = length s.fault.alarm_steps in
      let next_system : System = record {
        fault = u;
        threads = before ++ (running (suc i) ∷ after);
      } in
      let same_task : j ≡ k =
        some_inj j k (sym (task_first s before after j tidy here_is) ∙ first) in
      let (chosen_j, same_j) = round-next parse stopping now j s.fault i (ap (λ p. p.0) e) in
      let chosen : choose k s.fault ≡ ok (some i) =
        ap (λ m. choose m s.fault) (sym same_task) ∙ chosen_j in
      let kept : SameControl s.fault u = subst (SameControl s.fault) (ap (λ p. p.1) e) same_j in
      let len : length u.alarm_steps ≡ n = ap length kept.alarm_steps in
      let tidy_next : IsTidy next_system =
        took-IsTidy s before after j stopping now i u here_is e tidy in
      round_robin-suc n k i l (choose-loop k i s.fault loops h chosen ∙ index_in_range n k pos h) (
        tidy_loop (suc i) next_system l tidy_next
          (task_first next_system before after (suc i) tidy_next refl)
          (Loops-kept true s.fault u u kept refl loops) (omega arith)
          (omega (arith, choose-loop k i s.fault loops h chosen, in_range k n pos)) rest
        ∙ ap (λ m. round_robin m (suc i) (length l)) len)

-- The feature after `init` and any requests and rounds, with a configuration that loops over at least one
-- step, where the task stands before the step `k` or at the end: whatever requests to start, to stop and to
-- clear come between its rounds from then on, the steps that it takes follow one another and begin anew
-- after the last.
pub Course-loop :
    (parse : String → Result Datetime) (ietf_alarms o_ran_fm : Bool) (at_start : Datetime)
    (s : System) (before after : List Thread) (k : ℕ) (l : List ℕ)
    → Reaches parse (initial ietf_alarms o_ran_fm at_start) s
    → s.threads ≡ before ++ (running k ∷ after)
    → Loops true s.fault
    → 0 < length s.fault.alarm_steps
    → k ≤ length s.fault.alarm_steps
    → Course parse s l
    → l ≡ round_robin (length s.fault.alarm_steps) k (length l)
Course-loop parse ietf_alarms o_ran_fm at_start s before after k l reached here_is loops pos h
      course =
    let tidy : IsTidy s = Reaches-IsTidy parse ietf_alarms o_ran_fm at_start reached in
    tidy_loop parse k s l tidy (task_first s before after k tidy here_is) loops pos h course
