-- ===== src/Fault/Threads.antt =====
-- The threads of the feature: at most one task runs, and one that an exception has ended leaves the
-- feature unable to start.
use sim_o1_ofhmp_interfaces.Prelude.{
  ℕ, suc, ◌+◌, ◌≤◌, ◌<◌, subst, String, Bool, true, false, ◌||◌, Option, none, some, List, [], ◌∷◌,
  ◌++◌, ◌≡◌, refl, arith, ap, ◌∙◌, sym, Bool-cases, inl, inr, ◌⊎◌, if◌then◌else◌, get_elem?,
}
use sim_o1_ofhmp_interfaces.Prelude.Result.{Result, ok, err, index_error}
use sim_o1_ofhmp_interfaces.Datetime.{Datetime}
use sim_o1_ofhmp_interfaces.Fault.Manager.{Fault, Step, clear_alarm_counters, init}
use sim_o1_ofhmp_interfaces.Fault.Control.{Settings, text, start, stop}
use sim_o1_ofhmp_interfaces.Fault.Kept.{SameControl-refl, perform-SameControl}
use sim_o1_ofhmp_interfaces.Fault.Task.{
  Outcome, next, finished, died, Thread, running, ended, failed, thread_of, System, Happens,
  asked_start, asked_stop, asked_clear, ran, Reaches, here, later, started, initial, choose,
  take_step, round, perform, after_perform,
}

-- How many threads run, and how many an exception has ended.
abbrev pub count_running : List Thread → ℕ
count_running [] = 0
count_running (running k ∷ l) = suc (count_running l)
count_running (_ ∷ l) = count_running l

abbrev pub count_failed : List Thread → ℕ
count_failed [] = 0
count_failed (failed e ∷ l) = suc (count_failed l)
count_failed (_ ∷ l) = count_failed l

-- How many threads run or have failed.
abbrev pub busy : List Thread → ℕ
busy [] = 0
busy (ended ∷ l) = busy l
busy (_ ∷ l) = suc (busy l)

pub busy_counts : (l : List Thread) → busy l ≡ count_running l + count_failed l
busy_counts [] = omega arith
busy_counts (running k ∷ l) = omega (arith, busy_counts l)
busy_counts (ended ∷ l) = busy_counts l
busy_counts (failed e ∷ l) = omega (arith, busy_counts l)

pub busy-append : (l m : List Thread) → busy (l ++ m) ≡ busy l + busy m
busy-append [] m = omega arith
busy-append (running k ∷ l) m = omega (arith, busy-append l m)
busy-append (ended ∷ l) m = busy-append l m
busy-append (failed e ∷ l) m = omega (arith, busy-append l m)

busy-thread_of : (o : Outcome) (l : List Thread) → busy (thread_of o ∷ l) ≤ suc (busy l)
busy-thread_of finished l = omega arith
busy-thread_of (next k) l = omega arith
busy-thread_of (died e) l = omega arith

-- What the threads are to the flag `stopped`.
pub record IsTidy (s : System) : Type 0 where
  pub one : busy s.threads ≤ 1
  pub none_when_stopped : s.fault.stopped ≡ true → busy s.threads ≡ 0

-- A round leaves the flag, or sets it and ends its thread; it takes no step if the flag is set.
take_step-stopped :
    (parse : String → Result Datetime) (r : Result (Option ℕ)) (now : Datetime) (s : Fault)
    → ((take_step parse r now s).0 ≡ finished) ⊎ ((take_step parse r now s).1.stopped ≡ s.stopped)
unfolding take_step
take_step-stopped parse (err e) now s = inr refl
take_step-stopped parse (ok none) now s = inl refl
take_step-stopped parse (ok (some i)) now s = by_step (get_elem? s.alarm_steps i)
  where
    by_step :
        (o : Option Step)
        → let r : Outcome × Fault = elim o [
          | none ↦ (died index_error, s)
          | some step ↦ (after_perform i (perform parse step now s).0, (perform parse step now s).1)
        ] in
          (r.0 ≡ finished) ⊎ (r.1.stopped ≡ s.stopped)
    by_step none = inr refl
    by_step (some step) = inr (perform-SameControl s parse step now s (SameControl-refl s)).stopped

round-stopped :
    (parse : String → Result Datetime) (stopping : Bool) (now : Datetime) (k : ℕ) (s : Fault)
    → ((round parse stopping now k s).0 ≡ finished)
      ⊎ ((round parse stopping now k s).1.stopped ≡ s.stopped)
unfolding round
round-stopped parse stopping now k s = by_test (s.stopped || stopping || s.fault_stop)
  where
    by_test :
        (b : Bool)
        → let r : Outcome × Fault =
            if b
            then (finished, record s { stopped = true })
            else take_step parse (choose k s) now s in
          (r.0 ≡ finished) ⊎ (r.1.stopped ≡ s.stopped)
    by_test true = inl refl
    by_test false = take_step-stopped parse (choose k s) now s

-- A request to start that is answered with 200 found the feature stopped; any other leaves the flag.
start-stopped :
    (given file : Option Settings) (s : Fault)
    → ((s.stopped ≡ true)
        × (started (start given file s).0 ≡ running 0 ∷ [])
        × ((start given file s).1.stopped ≡ false))
      ⊎ ((started (start given file s).0 ≡ []) × ((start given file s).1.stopped ≡ s.stopped))
unfolding start
start-stopped given file s = ground arith

start-IsTidy :
    (s : System) (given file : Option Settings)
    → IsTidy s
    → IsTidy (record {
      fault = (start given file s.fault).1;
      threads = s.threads ++ started (start given file s.fault).0;
    })
start-IsTidy s given file h = elim (start-stopped given file s.fault) [
  | inl (was, new, now) ↦ record {
    one = omega (
      arith,
      busy-append s.threads (started (start given file s.fault).0),
      ap busy new,
      h.none_when_stopped was,
    );
    none_when_stopped = λ e. cc (now, e);
  }
  | inr (new, same) ↦ record {
    one = omega (arith, busy-append s.threads (started (start given file s.fault).0), ap busy new);
    none_when_stopped = λ e. omega (
      arith,
      busy-append s.threads (started (start given file s.fault).0),
      ap busy new,
      h.none_when_stopped (sym same ∙ e),
    );
  }
]

pub round-IsTidy :
    (parse : String → Result Datetime) (s : System) (before after : List Thread) (k : ℕ)
    (stopping : Bool) (now : Datetime)
    → s.threads ≡ before ++ (running k ∷ after)
    → IsTidy s
    → IsTidy (record {
      fault = (round parse stopping now k s.fault).1;
      threads = before ++ (thread_of (round parse stopping now k s.fault).0 ∷ after);
    })
round-IsTidy parse s before after k stopping now e h =
    elim (round-stopped parse stopping now k s.fault) [
      | inl done ↦ record {
        one = omega (arith, split, busy-append before _, ap (λ o. busy (thread_of o ∷ after)) done);
        none_when_stopped = λ _.
            omega (arith, split, busy-append before _, ap (λ o. busy (thread_of o ∷ after)) done);
      }
      | inr same ↦ record {
        one = omega (arith, split, busy-append before _, busy-thread_of _ after);
        none_when_stopped = λ f. absurd (omega (arith, split, h.none_when_stopped (sym same ∙ f)));
      }
    ]
  where
    split : busy s.threads ≡ busy before + suc (busy after)
    split = ap busy e ∙ busy-append before (running k ∷ after)

stop-stopped : (s : Fault) → (stop s).1.stopped ≡ s.stopped
unfolding stop
stop-stopped s = ground arith

clear-stopped : (s : Fault) → (clear_alarm_counters s).stopped ≡ s.stopped
unfolding clear_alarm_counters
clear-stopped s = refl

refused :
    (given file : Option Settings) (s : Fault)
    → s.disabled ≡ false
    → s.stopped ≡ false
    → start given file s ≡ (record { code = 500; message = text "feature is already running" }, s)
unfolding start
refused given file s on busy_now = rw (on, busy_now, start) refl

pub Happens-IsTidy :
    (parse : String → Result Datetime) (s t : System) → Happens parse s t → IsTidy s → IsTidy t
Happens-IsTidy parse s t (asked_start given file e) h =
    subst IsTidy (sym e) (start-IsTidy s given file h)
Happens-IsTidy parse s t (asked_stop e) h = subst IsTidy (sym e) (record {
  one = h.one;
  none_when_stopped = λ f. h.none_when_stopped (sym (stop-stopped s.fault) ∙ f);
})
Happens-IsTidy parse s t (asked_clear e) h = subst IsTidy (sym e) (record {
  one = h.one;
  none_when_stopped = λ f. h.none_when_stopped (sym (clear-stopped s.fault) ∙ f);
})
Happens-IsTidy parse s t (ran before after k stopping now here_is e) h =
    subst IsTidy (sym e) (round-IsTidy parse s before after k stopping now here_is h)

module _ (parse : String → Result Datetime) (ietf_alarms o_ran_fm : Bool) (now : Datetime) where
  pub Reaches-IsTidy : {s : System} → Reaches parse (initial ietf_alarms o_ran_fm now) s → IsTidy s
  unfolding init
  Reaches-IsTidy here = record { one = omega arith; none_when_stopped = λ _. omega arith }
  Reaches-IsTidy (later {t} {u} r st) = Happens-IsTidy parse t u st (Reaches-IsTidy r)

  -- Whatever requests and rounds come in whatever order, at most one task runs, and none while the
  -- feature shows itself as stopped.
  pub one_task :
      (s : System)
      → Reaches parse (initial ietf_alarms o_ran_fm now) s
      → (count_running s.threads ≤ 1) × (s.fault.stopped ≡ true → count_running s.threads ≡ 0)
  one_task s r =
      let tidy : IsTidy s = Reaches-IsTidy r in
      (
        omega (arith, busy_counts s.threads, tidy.one),
        λ e. omega (arith, busy_counts s.threads, tidy.none_when_stopped e),
      )

  -- Once an exception has ended a task, no task runs, and every request to start is refused with
  -- "feature is already running".
  pub start_after_failure :
      (s : System) (given file : Option Settings)
      → Reaches parse (initial ietf_alarms o_ran_fm now) s
      → 0 < count_failed s.threads
      → s.fault.disabled ≡ false
      → (count_running s.threads ≡ 0)
        × (start given file s.fault
            ≡ (record { code = 500; message = text "feature is already running" }, s.fault))
  start_after_failure s given file r some_failed on =
      let tidy : IsTidy s = Reaches-IsTidy r in
      (
        omega (arith, busy_counts s.threads, tidy.one),
        elim (Bool-cases s.fault.stopped) [
          | inl e ↦ absurd (omega (arith, busy_counts s.threads, tidy.none_when_stopped e))
          | inr e ↦ refused given file s.fault on e
        ],
      )
