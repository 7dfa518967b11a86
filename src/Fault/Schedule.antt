-- ===== src/Fault/Schedule.antt =====
-- Which steps of the configuration a task takes, in which order.
pub mod Course
use mathlib.Core.Path.{ap₂}
use native.Mathlib.Nat.{mod-eq_of_lt, mod_self, mod-add-mod}
use sim_o1_ofhmp_interfaces.Prelude.{
  ℕ, zero, suc, ◌+◌, ◌%◌, ◌≤◌, ◌<◌, String, Bool, true, false, ◌||◌, Option, none, some, List, [],
  ◌∷◌, ◌≡◌, refl, arith, ap, ◌∙◌, sym, Bool-cases, inl, inr, ltb, length, if◌then◌else◌, get_elem?,
  subst,
}
use sim_o1_ofhmp_interfaces.Prelude.Result.{Result, ok, err, index_error}
use sim_o1_ofhmp_interfaces.Datetime.{Datetime}
use sim_o1_ofhmp_interfaces.Fault.Manager.{Fault, Step, AlarmConfig}
use sim_o1_ofhmp_interfaces.Fault.Kept.{SameControl, SameControl-refl, perform-SameControl}
use sim_o1_ofhmp_interfaces.Fault.Task.{
  Outcome, next, finished, died, choose, take_step, round, perform, after_perform,
}

-- Rounds of one task, with the indices of the steps that they took. Between two rounds other
-- threads may change the feature, but not its steps and its configuration.
pub data Rounds (parse : String → Result Datetime) : ℕ → Fault → List ℕ → Type 0 where
  none_yet : {k : ℕ} {s : Fault} → Rounds parse k s []
  one_more :
      {k : ℕ} {s : Fault} (stopping : Bool) (now : Datetime) (i : ℕ) (t u : Fault) (l : List ℕ)
      → round parse stopping now k s ≡ (next (suc i), t)
      → u.alarm_steps ≡ t.alarm_steps
      → u.alarm_config ≡ t.alarm_config
      → Rounds parse (suc i) u l
      → Rounds parse k s (i ∷ l)

-- `m` indices of a list of the length `n` from `k` on, going round.
unfoldable pub round_robin : ℕ → ℕ → ℕ → List ℕ
round_robin n k zero = []
round_robin n k (suc m) = k % n ∷ round_robin n (k + 1) m

after_perform-next : (i j : ℕ) (r : Result (Unit {0})) → after_perform i r ≡ next (suc j) → i ≡ j
unfolding after_perform
after_perform-next i j (ok x) e = ground arith
after_perform-next i j (err x) e = cc

-- What a round that goes on has done.
module _ (parse : String → Result Datetime) where
  take_step-next :
      (r : Result (Option ℕ)) (now : Datetime) (s : Fault) (j : ℕ)
      → (take_step parse r now s).0 ≡ next (suc j)
      → (r ≡ ok (some j)) × SameControl s (take_step parse r now s).1
  unfolding take_step
  take_step-next (err e) now s j h = cc
  take_step-next (ok none) now s j h = cc
  take_step-next (ok (some i)) now s j h = by_step (get_elem? s.alarm_steps i) h
    where
      by_step :
          (o : Option Step)
          → let r : Outcome × Fault = elim o [
            | none ↦ (died index_error, s)
            | some step ↦
                (after_perform i (perform parse step now s).0, (perform parse step now s).1)
          ] in
            r.0 ≡ next (suc j)
            → (◌≡◌ {A = Result (Option ℕ)} (ok (some i)) (ok (some j))) × SameControl s r.1
      by_step none e = cc
      by_step (some step) e = (
        ap (λ n. ok (some n)) (after_perform-next i j (perform parse step now s).0 e),
        perform-SameControl s parse step now s (SameControl-refl s),
      )

  round-next :
      (stopping : Bool) (now : Datetime) (k : ℕ) (s : Fault) (j : ℕ)
      → (round parse stopping now k s).0 ≡ next (suc j)
      → (choose k s ≡ ok (some j)) × SameControl s (round parse stopping now k s).1
  unfolding round
  round-next stopping now k s j = by_test (s.stopped || stopping || s.fault_stop)
    where
      by_test :
          (b : Bool)
          → let r : Outcome × Fault =
              if b
              then (finished, record s { stopped = true })
              else take_step parse (choose k s) now s in
            r.0 ≡ next (suc j) → (choose k s ≡ ok (some j)) × SameControl s r.1
      by_test true e = cc
      by_test false e = take_step-next (choose k s) now s j e

abbrev pub Loops : Bool → Fault → Type 0
Loops b s = (c : AlarmConfig) × (s.alarm_config ≡ some c) × (c.loop ≡ some b)

choose-loop :
    (k j : ℕ) (s : Fault)
    → Loops true s
    → k ≤ length s.alarm_steps
    → choose k s ≡ ok (some j)
    → j ≡ (if ltb k (length s.alarm_steps) then k else 0)
unfolding choose
choose-loop k j s (c, e, f) h g = ground arith

choose-once :
    (k j : ℕ) (s : Fault)
    → Loops false s
    → choose k s ≡ ok (some j)
    → (j ≡ k) × (k < length s.alarm_steps)
unfolding choose
choose-once k j s (c, e, f) g = ground arith

in_range : (n m : ℕ) → 0 < m → (if ltb n m then n else 0) < m
in_range n m h = ground arith

index_in_range : (n k : ℕ) → 0 < n → k ≤ n → (if ltb k n then k else 0) ≡ k % n
index_in_range n k pos h = elim (Bool-cases (ltb k n)) [
  | inl e ↦ rw e (sym (mod-eq_of_lt (ground arith)))
  | inr e ↦ let same : k ≡ n = ground arith in rw e (rw same (sym (mod_self n)))
]

round_robin-mod : (n a b m : ℕ) → a % n ≡ b % n → round_robin n a m ≡ round_robin n b m
unfolding round_robin
round_robin-mod n a b zero h = refl
round_robin-mod n a b (suc m) h =
    ap₂ (λ x xs. x ∷ xs) h
      (round_robin-mod n (a + 1) (b + 1) m
        (sym (mod-add-mod a n 1) ∙ ap (λ x. (x + 1) % n) h ∙ mod-add-mod b n 1))

-- One round more.
round_robin-suc :
    (n k i : ℕ) (l : List ℕ)
    → i ≡ k % n
    → l ≡ round_robin n (suc i) (length l)
    → i ∷ l ≡ round_robin n k (suc (length l))
unfolding round_robin
round_robin-suc n k i l e h =
    ap₂ (λ x xs. x ∷ xs) e (h ∙ round_robin-mod n (suc i) (k + 1) (length l) same)
  where
    one : suc i ≡ k % n + 1
    one = omega arith

    same : suc i % n ≡ (k + 1) % n
    same = ap (λ x. x % n) one ∙ mod-add-mod k n 1

Loops-kept :
    (b : Bool) (s t u : Fault)
    → SameControl s t
    → u.alarm_config ≡ t.alarm_config
    → Loops b s
    → Loops b u
Loops-kept b s t u same e (c, f, g) = (c, e ∙ same.alarm_config ∙ f, g)

-- `m` indices from `k` on.
unfoldable pub upwards : ℕ → ℕ → List ℕ
upwards k zero = []
upwards k (suc m) = k ∷ upwards (suc k) m

-- Where the configuration does not loop, a task that starts before the step `k` takes each step once,
-- in order, and none beyond the last.
pub Rounds-once :
    (parse : String → Result Datetime) (k : ℕ) (s : Fault) (l : List ℕ)
    → Loops false s
    → k ≤ length s.alarm_steps
    → Rounds parse k s l
    → (l ≡ upwards k (length l)) × (k + length l ≤ length s.alarm_steps)
unfolding upwards
Rounds-once parse k s _ loops h none_yet = (refl, omega arith)
Rounds-once parse k s _ loops h (one_more stopping now i t u l e steps config r) =
    let (chosen, same) = round-next parse stopping now k s i (ap (λ p. p.0) e) in
    let kept : SameControl s t = subst (SameControl s) (ap (λ p. p.1) e) same in
    let len : length u.alarm_steps ≡ length s.alarm_steps = ap length (steps ∙ kept.alarm_steps) in
    let (index, below) = choose-once k i s loops chosen in
    let (rest, fits) =
      Rounds-once parse (suc i) u l (Loops-kept false s t u kept config loops) (omega arith) r in
    (ap₂ (λ x xs. x ∷ xs) index (rest ∙ ap (λ x. upwards (suc x) (length l)) index), omega arith)
