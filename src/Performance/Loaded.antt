-- ===== src/Performance/Loaded.antt =====
-- What holds of the measurements once their configuration is loaded, and what happens without it.
use sim_o1_ofhmp_interfaces.Prelude.{
  ℕ, ◌/◌, ◌%◌, ◌<◌, String, ◌<>◌, true, false, Option, none, some, List, [], ◌∷◌, ◌≡◌, ◌≢◌, refl,
  arith, ap, ◌∙◌, All, Option-cases, inl, inr,
}
use sim_o1_ofhmp_interfaces.Prelude.Result.{Result, ok, err, attribute_error}
use sim_o1_ofhmp_interfaces.Prelude.Dict.{Dict, lookup}
use sim_o1_ofhmp_interfaces.Text.{of_nat}
use sim_o1_ofhmp_interfaces.Performance.{
  Settings, Performance, load_data, checked, check_periods, check_values, number_points, has_points,
  all_have, numbered, start, read_file,
}

-- Every report has a value for every point.
abbrev pub HasPoints : List String → List (Dict String) → Type 0
HasPoints points values = All (λ v. All (λ p. lookup p v ≢ none) points) values

pub record IsLoaded (s : Performance) : Type 0 where
  pub log_period : ℕ
  pub repetition_period : ℕ
  pub points : List String
  pub values : List (Dict String)
  pub log_is : s.log_period ≡ some log_period
  pub repetition_is : s.repetition_period ≡ some repetition_period
  pub points_are : s.points ≡ some points
  pub values_are : s.values ≡ some values
  pub minutes : repetition_period % 60 ≡ 0
  pub positive : 0 < log_period
  pub multiple : repetition_period % log_period ≡ 0
  pub have : HasPoints points values
  pub ids : s.points_id ≡ some (numbered 1 points [])
  pub roll : s.roll_after ≡ "+" <> of_nat (repetition_period / 60)

has_points-eq :
    (p : List String) (v : Dict String) → has_points p v ≡ true → All (λ p. lookup p v ≢ none) p
unfolding has_points
has_points-eq [] v h = tt
has_points-eq (x ∷ p) v h = elim (Option-cases (lookup x v)) [
  | inl e ↦ absurd (ground arith)
  | inr (y, e) ↦ (ground arith, has_points-eq p v (ground arith))
]

all_have-eq : (p : List String) (l : List (Dict String)) → all_have p l ≡ true → HasPoints p l
unfolding all_have
all_have-eq p [] h = tt
all_have-eq p (v ∷ l) h = (has_points-eq p v (ground arith), all_have-eq p l (ground arith))

values_checked :
    (p : List String) (l : List (Dict String)) → check_values (some p) l ≡ ok tt → HasPoints p l
unfolding check_values
values_checked p [] h = tt
values_checked p (v ∷ l) h = all_have-eq p (v ∷ l) (ground arith)

periods :
    (r l : Option ℕ) (m : ℕ)
    → check_periods r l ≡ ok m
    → (k : ℕ) × (r ≡ some m) × (l ≡ some k) × (m % 60 ≡ 0) × (0 < k) × (m % k ≡ 0)
unfolding check_periods
periods none l m h = cc
periods (some r) none m h = ground arith
periods (some r) (some l) m h = (l, ground arith, refl, ground arith, ground arith, ground arith)

-- What `checked` has seen when it returns.
checked-ok :
    (s : Performance) (o : Option (List (Dict String))) (q : Option (List String)) (x : Result ℕ)
    → s.values ≡ o
    → s.points ≡ q
    → check_periods s.repetition_period s.log_period ≡ x
    → (checked s).0 ≡ ok tt
    → (r : ℕ) × (v : List (Dict String)) × (p : List String) × (x ≡ ok r)
      × (o ≡ some v)
      × (q ≡ some p)
      × (check_values (some p) v ≡ ok tt)
      × ((checked s).1
          ≡ record s { roll_after = "+" <> of_nat (r / 60); points_id = some (numbered 1 p []) })
unfolding checked number_points check_values
checked-ok s o q (err e) ov oq ox h = absurd (ground arith)
checked-ok s none q (ok r) ov oq ox h = absurd (ground arith)
checked-ok s (some []) none (ok r) ov oq ox h = absurd (ground arith)
checked-ok s (some (y ∷ l)) none (ok r) ov oq ox h = absurd (ground arith)
checked-ok s (some v) (some p) (ok r) ov oq ox h =
    (r, v, p, refl, refl, refl, ground arith, ground arith)

checked-IsLoaded : (s : Performance) → (checked s).0 ≡ ok tt → IsLoaded (checked s).1
checked-IsLoaded s h =
    let (r, v, p, ox, ov, oq, values_ok, e) =
      checked-ok s s.values s.points (check_periods s.repetition_period s.log_period) refl refl refl
        h in
    let (l, repetition, log, minutes, positive, multiple) =
      periods s.repetition_period s.log_period r ox in
    record {
      log_period = l;
      repetition_period = r;
      points = p;
      values = v;
      log_is = ap (λ (t : Performance). t.log_period) e ∙ log;
      repetition_is = ap (λ (t : Performance). t.repetition_period) e ∙ repetition;
      points_are = ap (λ (t : Performance). t.points) e ∙ oq;
      values_are = ap (λ (t : Performance). t.values) e ∙ ov;
      minutes = minutes;
      positive = positive;
      multiple = multiple;
      have = values_checked p v values_ok;
      ids = ap (λ (t : Performance). t.points_id) e;
      roll = ap (λ (t : Performance). t.roll_after) e;
    }

-- If `load_data` returns, from the file or with what was there before, the repetition period is full
-- minutes and a multiple of the period of the log, which is not 0; each report has a value for each
-- point; the points are numbered from 1 on, and old files are deleted after as many minutes as the
-- repetition period has.
pub load_data-IsLoaded :
    (given file : Option Settings) (s : Performance)
    → (load_data given file s).0 ≡ ok tt
    → IsLoaded (load_data given file s).1
unfolding load_data
load_data-IsLoaded given file s = by_read (read_file given file s).0
  where
    by_read :
        (x : Result (Unit {0}))
        → let out : Result (Unit {0}) × Performance = elim x [
          | err e ↦ (err e, (read_file given file s).1)
          | ok _ ↦ checked (read_file given file s).1
        ] in
          out.0 ≡ ok tt → IsLoaded out.1
    by_read (err e) h = cc
    by_read (ok x) h = checked-IsLoaded (read_file given file s).1 h

checked-unset :
    (s : Performance) → s.repetition_period ≡ none → checked s ≡ (err attribute_error, s)
unfolding checked check_periods
checked-unset s unset = ground arith

start-launched :
    (given file : Option Settings) (s : Performance)
    → s.disabled ≡ false
    → s.stopped ≡ true
    → start given file s
      ≡ (record (load_data given file s).1 { stopped = false; stop_event = false }, true)
unfolding start
start-launched given file s on off = ground (arith, on, off)

load_data-unset :
    (given : Settings) (file : Option Settings) (s : Performance)
    → s.repetition_period ≡ none
    → load_data (some given) file s ≡ (err attribute_error, s)
unfolding load_data read_file
load_data-unset given file s unset = checked-unset s unset

-- A configuration that is given to `start` is not looked at: where the feature is enabled, stopped and has
-- never read a file, `load_data` raises and changes nothing, whatever the configuration says, and the
-- thread is started nevertheless, with every attribute as it was but for the two flags.
pub start_given :
    (given : Settings) (file : Option Settings) (s : Performance)
    → s.disabled ≡ false
    → s.stopped ≡ true
    → s.repetition_period ≡ none
    → (load_data (some given) file s ≡ (err attribute_error, s))
      × (start (some given) file s ≡ (record s { stopped = false; stop_event = false }, true))
start_given given file s on off unset =
    let e = load_data-unset given file s unset in
    (
      e,
      start-launched (some given) file s on off
          ∙ ap
              (λ (r : Result (Unit {0}) × Performance).
                (record r.1 { stopped = false; stop_event = false }, true))
              e,
    )
