-- ===== src/Odu/Listed.antt =====
-- What the dictionary of sessions and the aggregation hold, whatever handlers run in whatever order.
use sim_o1_ofhmp_interfaces.Prelude.{
  ℕ, ◌≤◌, String, none, some, true, false, ◌≡◌, ◌≢◌, refl, sym, ◌∙◌, ap, subst, arith, ◌⊎◌, inl,
  inr, Bool-cases, eq_iff, nat_beq, nat_beq_iff, if◌then◌else◌, string_eq,
}
use sim_o1_ofhmp_interfaces.Prelude.Result.{ok}
use sim_o1_ofhmp_interfaces.Prelude.Table.{Table, find, put, del, find-put, find-del}
use sim_o1_ofhmp_interfaces.Ves.{Session}
use sim_o1_ofhmp_interfaces.Odu.{Active, State, is_in, without}
use sim_o1_ofhmp_interfaces.Odu.Handler.{Phase, submitted, looping, leaving, finished, leave}
use sim_o1_ofhmp_interfaces.Odu.Threads.{
  Input, left, proceed, System, accept, run, accepted, ran, Reaches, here, later, initial,
}
use sim_o1_ofhmp_interfaces.Odu.Covered.{Covers, is_in-without}
use sim_o1_ofhmp_interfaces.Odu.Stretch.{entry_of, entry_in, Proceeds, proceed-Proceeds}

record IsListed (s : System) : Type 0 where
  pub listed : (k : ℕ) → find k s.state.active ≡ entry_in k s.handlers
  pub unused : (k : ℕ) → s.session_id ≤ k → find k s.handlers ≡ none
  pub covers : Covers s.state.active s.state.instances

entry_in-put :
    (k j : ℕ) (phase : Phase) (h : Table Phase)
    → entry_in j (put k phase h) ≡ (if nat_beq k j then entry_of phase else entry_in j h)
entry_in-put k j phase h = ground (arith, find-put k j phase h)

accept-IsListed : (address : String) (s : System) → IsListed s → IsListed (accept address s)
unfolding accept
accept-IsListed address s h = record {
  listed = λ k.
      ground
        (arith, h.listed k, h.unused k, entry_in-put s.session_id k (submitted address) s.handlers);
  unused =
      λ k le. ground (arith, h.unused k, find-put s.session_id k (submitted address) s.handlers);
  covers = h.covers;
}

run-IsListed :
    (k : ℕ) (phase : Phase) (input : Input) (s : System)
    → find k s.handlers ≡ some phase
    → IsListed s
    → IsListed (run k phase input s)
unfolding run
run-IsListed k phase input s e h = record {
  listed = λ j. listed_by j (Bool-cases (nat_beq k j));
  unused = λ j le. ground (arith, h.unused j, e, nat_beq_iff k j, find-put k j r.0 s.handlers);
  covers = done.covers h.covers;
}
  where
    r : Phase × State
    r = proceed k phase input s.state

    done : Proceeds k s.state r
    done =
        proceed-Proceeds k s.state phase input
          (h.listed k ∙ ap (λ o. elim o [ none ↦ none | some p ↦ entry_of p ]) e)

    listed_by :
        (j : ℕ)
        → (nat_beq k j ≡ true) ⊎ (nat_beq k j ≡ false)
        → find j r.1.active ≡ entry_in j (put k r.0 s.handlers)
    listed_by j (inl at_k) =
        subst (λ i. find i r.1.active ≡ entry_in i (put k r.0 s.handlers))
          ((nat_beq_iff k j).0 at_k) (done.own ∙ ground (arith, entry_in-put k k r.0 s.handlers))
    listed_by j (inr apart) =
        done.others j (ground (arith, nat_beq_iff k j))
        ∙ h.listed j
        ∙ ground (arith, entry_in-put k j r.0 s.handlers)

Reaches-IsListed : (ves : Session) {s : System} → Reaches (initial ves) s → IsListed s
unfolding initial find
Reaches-IsListed ves here = record {
  listed = λ k. refl;
  unused = λ k le. refl;
  covers = λ x m. absurd (cc);
}
Reaches-IsListed ves (later {t} {u} r (accepted address e)) =
    subst IsListed (sym e) (accept-IsListed address t (Reaches-IsListed ves r))
Reaches-IsListed ves (later {t} {u} r (ran k phase input at_k e)) =
    subst IsListed (sym e) (run-IsListed k phase input t at_k (Reaches-IsListed ves r))

leave-found :
    (k : ℕ) (a : Active) (s : State)
    → find k s.active ≡ some a
    → leave k (ok tt) s
      ≡ (finished, record s { active = del k s.active; instances = without a.hostname s.instances })
unfolding leave
leave-found k a s e = rw (e, leave) refl

module _ (ves : Session) (s : System) (r : Reaches (initial ves) s) where
  -- Whatever calls are accepted and whatever stretches of the handlers run, in whatever order, with
  -- whatever answers and exceptions: the dictionary of sessions holds, for every number, what the
  -- handler of that number has entered and not taken back, and nothing else; every instance that the
  -- handlers have left in the aggregation has a session in the dictionary whose host name it is; and
  -- the number of the next session is one that no handler has had.
  pub sessions_listed :
      ((k : ℕ) → find k s.state.active ≡ entry_in k s.handlers)
      × ((x : String)
          → is_in x s.state.instances ≡ true
          → (k : ℕ) × (a : Active) × (find k s.state.active ≡ some a) × (a.hostname ≡ x))
      × (find s.session_id s.handlers ≡ none)
  sessions_listed =
      let h : IsListed s = Reaches-IsListed ves r in
      (h.listed, h.covers, h.unused s.session_id (omega arith))

  -- Where two sessions have the same host name, the end of one, once sysrepo takes the change, leaves
  -- the other in the dictionary and takes its instance out of the aggregation.
  pub leave-drops_other :
      (k j : ℕ) (a b : Active)
      → k ≢ j
      → find k s.handlers ≡ some (leaving (some a))
      → find j s.handlers ≡ some (looping b)
      → a.hostname ≡ b.hostname
      → (find j (run k (leaving (some a)) (left (ok tt)) s).state.active ≡ some b)
        × (is_in b.hostname (run k (leaving (some a)) (left (ok tt)) s).state.instances ≡ false)
  unfolding run leave proceed
  leave-drops_other k j a b apart at_k at_j same =
      let h : IsListed s = Reaches-IsListed ves r in
      let e : find k s.state.active ≡ some a = h.listed k ∙ ground (arith, at_k) in
      let f : find j s.state.active ≡ some b = h.listed j ∙ ground (arith, at_j) in
      (
        ap (λ q. find j q.1.active) (leave-found k a s.state e)
            ∙ find-del k j s.state.active
            ∙ ground (arith, f, nat_beq_iff k j),
        ap (λ q. is_in b.hostname q.1.instances) (leave-found k a s.state e)
            ∙ is_in-without b.hostname a.hostname s.state.instances
            ∙ ground (arith, eq_iff a.hostname b.hostname),
      )
