-- ===== src/Performance/Turn.antt =====
-- What one turn of the task leaves, while texts are made and the collector answers.
use native.Mathlib.Nat.{mod-lt}
use sim_o1_ofhmp_interfaces.Prelude.{
  ℕ, suc, ◌+◌, ◌%◌, ◌<◌, String, Bool, true, false, Option, some, List, ◌∷◌, length, get_elem?, ◌≡◌,
  refl, subst, sym, ◌∙◌, ap, arith, if◌then◌else◌, ◌==◌, string_eq, Bool-cases, inl, inr, nat_beq,
}
use sim_o1_ofhmp_interfaces.Prelude.Result.{Result, ok, err}
use sim_o1_ofhmp_interfaces.Prelude.Exec.{continue, pure}
use sim_o1_ofhmp_interfaces.Prelude.Dict.{Dict}
use sim_o1_ofhmp_interfaces.Config.Reload.{Config}
use sim_o1_ofhmp_interfaces.Ves.{file_ready, Host, Session, Post, Event}
use sim_o1_ofhmp_interfaces.Ves.Update.{update}
use sim_o1_ofhmp_interfaces.Ves.Execute.{execute, deliver, answered, post_of, is_success}
use sim_o1_ofhmp_interfaces.Ves.Updated.{with_new, update-IsUpdated, IsUpdated}
use sim_o1_ofhmp_interfaces.Ves.Numbers.{execute-returns}
use sim_o1_ofhmp_interfaces.Performance.{Performance, divides}
use sim_o1_ofhmp_interfaces.Performance.Index.{Cycled, index_after, elem_of, next_index-after}
use sim_o1_ofhmp_interfaces.Performance.Task.{
  Report, Task, Texts, World, generate_report, report_path, send_file_ready, report, is_due,
  one_turn,
}

answered-ok :
    (p : Post) (r : Result ℕ) (s : Session)
    → (n : ℕ) × (r ≡ ok n)
    → (b : Bool) × ((answered p r s).0 ≡ ok b)
unfolding answered
answered-ok p (err e) s (n, h) = cc
answered-ok p (ok status) s h = (is_success status, refl)

deliver-ok :
    (c : Config) (answer : Post → Result ℕ) (s : Session)
    → ((p : Post) → (n : ℕ) × (answer p ≡ ok n))
    → (b : Bool) × ((deliver c answer s).0 ≡ ok b)
unfolding deliver
deliver-ok c answer s h = elim (Bool-cases (c.ves_url == "")) [
  | inl e ↦ (true, rw e refl)
  | inr e ↦
      let (b, sent) = answered-ok (post_of c s.message) (answer (post_of c s.message)) s (h _) in
      (b, rw e sent)
]

sent-ok :
    (c : Config) (host : Host) (answer : Post → Result ℕ) (e : Event) (s : Session)
    → ((p : Post) → (n : ℕ) × (answer p ≡ ok n))
    → (b : Bool) × ((execute c host answer (with_new e s)).0 ≡ ok b)
sent-ok c host answer e s h =
    let updated : IsUpdated s (update c host (with_new e s)) = update-IsUpdated c host e s in
    let (b, sent) = deliver-ok c answer (update c host (with_new e s)).1 h in
    (b, ap (λ r. r.0) (execute-returns c host answer (with_new e s) updated.returns) ∙ sent)

divides-eq : (k n : ℕ) → divides (suc k) n ≡ ok (nat_beq (n % suc k) 0)
divides-eq k n = ground arith

-- What a turn leaves.
pub record IsTurn (l : List (Dict String)) (due : Bool) (s : Task) (r : Result (Unit {0}) × Task)
    : Type 0 where
  pub returns : r.0 ≡ ok tt
  pub performance : r.1.performance ≡ s.performance
  pub index : r.1.current_value_index ≡ index_after l r.1.files
  pub cycled : Cycled l r.1.files
  pub count : length r.1.files ≡ (if due then suc (length s.files) else length s.files)

module _ (t : Texts) (c : Config) (perf : Performance) (l : List (Dict String)) (period m : ℕ)
    (values_are : perf.values ≡ some l) (some_values : 0 < length l)
    (log_is : perf.log_period ≡ some (suc period)) (repetition_is : perf.repetition_period ≡ some m)
    (texts : (hostname : String) (v : Dict String) (a b : ℕ)
      → (n : ℕ) × (t.content perf hostname v a b ≡ ok n)) where
  module _ (w : World) (answers : (p : Post) → (n : ℕ) × (w.collector p ≡ ok n)) where
    abbrev pub at : ℕ → List Report → Session → Option ℕ → Task
    at start files ves i = record {
      performance = perf;
      start_time = start;
      current_value_index = i;
      ves = ves;
      files = files;
    }

    made_of : ℕ → Dict String → List Report → List Report
    made_of start x files =
        record {
          path = report_path t w.host.hostname start w.end_time;
          values = x;
          start_time = start;
          end_time = w.end_time;
        }
        ∷ files

    generate_report-eq :
        (x : Dict String) (start : ℕ) (files : List Report) (ves : Session) (i : Option ℕ)
        → (r : String × ℕ × String) × (generate_report t w x (at start files ves i)
            ≡ (ok r, at start (made_of start x files) ves i))
    unfolding generate_report made_of
    generate_report-eq x start files ves i =
        let (n, made) = texts w.host.hostname x start w.end_time in
        (
          (report_path t w.host.hostname start w.end_time, n, t.timestamp (w.written + m)),
          simp (made, repetition_is),
        )

    send_file_ready-eq :
        (r : String × ℕ × String) (start : ℕ) (files : List Report) (ves : Session) (i : Option ℕ)
        → (b : Bool) × (v : Session) × (send_file_ready c w r (at start files ves i)
            ≡ (ok b, at start files v i))
    unfolding send_file_ready
    send_file_ready-eq (path, n, expiry) start files ves i =
        let (b, sent) = sent-ok c w.host w.collector (file_ready path n expiry) ves answers in
        (
          b,
          (execute c w.host w.collector (with_new (file_ready path n expiry) ves)).1,
          ap
              (λ q. (
                q,
                at start files
                    (execute c w.host w.collector (with_new (file_ready path n expiry) ves)).1 i,
              ))
              sent,
        )

    report-eq :
        (start : ℕ) (files : List Report) (ves : Session)
        → (x : Dict String) × (v : Session) × (get_elem? l (length files % length l) ≡ some x)
          × (report t c w (at start files ves (index_after l files))
              ≡ (ok tt, at w.next_start (made_of start x files) v (some (length files % length l))))
    unfolding report
    report-eq start files ves =
        let (x, x_is) = elem_of l (length files % length l) (mod-lt (length files) some_values) in
        let (r, made) = generate_report-eq x start files ves (some (length files % length l)) in
        let (b, v, sent) =
          send_file_ready-eq r w.next_start (made_of start x files) ves
            (some (length files % length l)) in
        (
          x,
          v,
          x_is,
          simp (values_are, next_index-after l files some_values, x_is, made)
              (ap (λ q. continue q.0 (λ y. pure tt) q.1) sent),
        )

    report-IsTurn :
        (start : ℕ) (files : List Report) (ves : Session)
        → Cycled l files
        → IsTurn l true
            (at start files ves (index_after l files))
            (report t c w (at start files ves (index_after l files)))
    unfolding Cycled index_after made_of
    report-IsTurn start files ves cycled =
        let (x, v, x_is, e) = report-eq start files ves in
        subst (IsTurn l true (at start files ves (index_after l files))) (sym e) (record {
          returns = refl;
          performance = refl;
          index = refl;
          cycled = (x_is, cycled);
          count = refl;
        })

    pub one_turn-IsTurn :
        (start : ℕ) (files : List Report) (ves : Session)
        → Cycled l files
        → let s : Task = at start files ves (index_after l files) in
          IsTurn l (nat_beq (w.now % suc period) 0) s (one_turn t c w s)
    unfolding one_turn is_due
    one_turn-IsTurn start files ves cycled =
        subst (λ r. IsTurn l due s (continue r (λ b. if b then report t c w else pure tt) s))
          (sym is_due-eq) (by_due due)
      where
        due : Bool
        due = nat_beq (w.now % suc period) 0

        s : Task
        s = at start files ves (index_after l files)

        is_due-eq : is_due w perf ≡ ok due
        is_due-eq = rw log_is (divides-eq period w.now)

        by_due :
            (b : Bool) → IsTurn l b s (continue (ok b) (λ d. if d then report t c w else pure tt) s)
        by_due true = report-IsTurn start files ves cycled
        by_due false = record {
          returns = refl;
          performance = refl;
          index = refl;
          cycled = cycled;
          count = refl;
        }
