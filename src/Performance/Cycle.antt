-- ===== src/Performance/Cycle.antt =====
-- The reports that the task writes, one after another.
use mathlib.Core.Path.{ap₂}
use sim_o1_ofhmp_interfaces.Prelude.{
  ℕ, suc, ◌%◌, ◌+◌, ◌<◌, String, Bool, true, false, none, some, List, [], ◌∷◌, length, ◌≡◌, refl,
  sym, ◌∙◌, ap, subst, arith, Bool-cases, inl, inr, if◌then◌else◌, nat_beq, All,
}
use sim_o1_ofhmp_interfaces.Prelude.Result.{Result, ok}
use sim_o1_ofhmp_interfaces.Prelude.Dict.{Dict}
use sim_o1_ofhmp_interfaces.Config.Reload.{Config}
use sim_o1_ofhmp_interfaces.Ves.{Post}
use sim_o1_ofhmp_interfaces.Performance.{Performance}
use sim_o1_ofhmp_interfaces.Performance.Task.{
  Task, Texts, World, one_turn, performance_management_task,
}
use sim_o1_ofhmp_interfaces.Performance.Index.{Cycled, index_after}
use sim_o1_ofhmp_interfaces.Performance.Turn.{IsTurn, one_turn-IsTurn}

-- How many turns, up to the first that meets the end, come when a period is over.
unfoldable pub dues : ℕ → List World → ℕ
dues period [] = 0
dues period (w ∷ l) =
    let rest = dues period l in
    if w.stopping then 0 else if nat_beq (w.now % period) 0 then suc rest else rest

added :
    (rest n : ℕ) (due : Bool) (m : ℕ)
    → m ≡ (if due then suc n else n)
    → rest + m ≡ (if due then suc rest else rest) + n
added rest n true m h = ground arith
added rest n false m h = ground arith

-- A collector that answers each request with a status.
abbrev pub Answers : World → Type 0
Answers w = (p : Post) → (n : ℕ) × (w.collector p ≡ ok n)

-- Texts that are made for all values and times.
abbrev pub MakesTexts : Texts → Performance → Type 0
MakesTexts t p =
    (hostname : String) (v : Dict String) (a b : ℕ) → (n : ℕ) × (t.content p hostname v a b ≡ ok n)

module _ (t : Texts) (c : Config) (perf : Performance) (l : List (Dict String)) (period m : ℕ)
    (values_are : perf.values ≡ some l) (some_values : 0 < length l)
    (log_is : perf.log_period ≡ some (suc period)) (repetition_is : perf.repetition_period ≡ some m)
    (texts : MakesTexts t perf) where
  step-IsTurn :
      (w : World) (s : Task)
      → Answers w
      → s.performance ≡ perf
      → s.current_value_index ≡ index_after l s.files
      → Cycled l s.files
      → IsTurn l (nat_beq (w.now % suc period) 0) s (one_turn t c w s)
  step-IsTurn w s answers p i cycled =
      subst (λ u. IsTurn l (nat_beq (w.now % suc period) 0) u (one_turn t c w u))
        (sym (ap₂ (λ q j. record s { performance = q; current_value_index = j }) p i))
        (one_turn-IsTurn t c perf l period m values_are some_values log_is repetition_is texts w
          answers s.start_time s.files s.ves cycled)

  task-Cycled :
      (ws : List World) (s : Task)
      → All Answers ws
      → s.performance ≡ perf
      → s.current_value_index ≡ index_after l s.files
      → Cycled l s.files
      → let r : Result (Unit {0}) × Task = performance_management_task t c ws s in
        (r.0 ≡ ok tt)
        × (length r.1.files ≡ dues (suc period) ws + length s.files)
        × Cycled l r.1.files
  unfolding performance_management_task dues
  task-Cycled [] s answers p i cycled = (refl, ground arith, cycled)
  task-Cycled (w ∷ ws) s (answer, answers) p i cycled =
      let turn : IsTurn l (nat_beq (w.now % suc period) 0) s (one_turn t c w s) =
        step-IsTurn w s answer p i cycled in
      let (ok_rest, count, cycled_rest) =
        task-Cycled ws (one_turn t c w s).1 answers (turn.performance ∙ p) turn.index turn.cycled in
      elim (Bool-cases w.stopping) [
        | inl e ↦ rw e (refl, ground arith, cycled)
        | inr e ↦ rw e (
            rw turn.returns (
              ok_rest,
              count ∙ added _ _ (nat_beq (w.now % suc period) 0) _ turn.count,
              cycled_rest,
            ))
      ]

-- From the start of the task on, with a log period that is not 0, a repetition period and a list of values
-- that is not empty, and as long as the texts are made and the collector answers: nothing is raised, each
-- turn that comes when a period is over, up to the first that meets the end, writes one report and no
-- other turn does, and the reports have the values of the configuration in turn, the first again after
-- the last.
pub performance_management_task-Cycled :
    (t : Texts) (c : Config) (l : List (Dict String)) (period m : ℕ) (ws : List World) (s : Task)
    → s.performance.values ≡ some l
    → 0 < length l
    → s.performance.log_period ≡ some (suc period)
    → s.performance.repetition_period ≡ some m
    → MakesTexts t s.performance
    → All Answers ws
    → s.current_value_index ≡ none
    → s.files ≡ []
    → let r : Result (Unit {0}) × Task = performance_management_task t c ws s in
      (r.0 ≡ ok tt) × (length r.1.files ≡ dues (suc period) ws) × Cycled l r.1.files
unfolding index_after Cycled
performance_management_task-Cycled t c l period m ws s v n lp rp texts answers i f =
    let (ended, count, cycled) =
      task-Cycled t c s.performance l period m v n lp rp texts ws s answers refl
        (i ∙ sym (ap (index_after l) f)) (subst (Cycled l) (sym f) tt) in
    (ended, count ∙ rw f (ground arith), cycled)
