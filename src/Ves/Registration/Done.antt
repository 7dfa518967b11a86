-- ===== src/Ves/Registration/Done.antt =====
-- The loop of the registration ends.
use sim_o1_ofhmp_interfaces.Prelude.{
  ℕ, zero, suc, ◌+◌, ◌≤◌, Bool, true, false, List, [], ◌∷◌, ltb, length, ◌≡◌, refl, arith, ap, ◌∙◌,
  if◌then◌else◌, ◌==◌, string_eq, Bool-cases, inl, inr,
}
use sim_o1_ofhmp_interfaces.Prelude.Result.{Result, ok}
use sim_o1_ofhmp_interfaces.Config.Reload.{Config}
use sim_o1_ofhmp_interfaces.Ves.{Event, Host, Session, Post}
use sim_o1_ofhmp_interfaces.Ves.Execute.{deliver, answered, is_success, post_of}
use sim_o1_ofhmp_interfaces.Ves.Updated.{with_new, update-IsUpdated}
use sim_o1_ofhmp_interfaces.Ves.Numbers.{execute-returns}
use sim_o1_ofhmp_interfaces.Ves.Listing.{Connection}
use sim_o1_ofhmp_interfaces.Ves.Registration.{
  Run, event_of, attempt, is_true, pass, all_done, rounds, unsent, send_pnf_registrations,
}

-- The collector answers with success from some attempt on.
abbrev pub Accepts : (ℕ → Host × (Post → Result ℕ)) → ℕ → Type 0
Accepts world n =
    (k : ℕ) (p : Post)
    → n ≤ k
    → (status : ℕ) × ((world k).1 p ≡ ok status) × (is_success status ≡ true)

module _ (c : Config) (world : ℕ → Host × (Post → Result ℕ)) where
  deliver-true :
      (answer : Post → Result ℕ) (s : Session)
      → ((p : Post) → (status : ℕ) × (answer p ≡ ok status) × (is_success status ≡ true))
      → (deliver c answer s).0 ≡ ok true
  unfolding deliver
  deliver-true answer s h = by_url (c.ves_url == "") (h (post_of c s.message))
    where
      by_url :
          (b : Bool)
          → (status : ℕ) × (answer (post_of c s.message) ≡ ok status) × (is_success status ≡ true)
          → let r : Result Bool × Session =
              if b
              then (ok true, record s { seq_id = s.seq_id + 1 })
              else answered (post_of c s.message) (answer (post_of c s.message)) s in
            r.0 ≡ ok true
      by_url true accepted = refl
      by_url false (status, e, f) = rw (e, answered, f) refl

  attempt-true :
      (n : ℕ) (e : Event) (r : Run) → Accepts world n → n ≤ r.tried → (attempt c world e r).0 ≡ true
  unfolding attempt
  attempt-true n e r accepts late =
      let done = update-IsUpdated c (world r.tried).0 e r.session in
      ap (λ x. is_true x.0)
        (execute-returns c (world r.tried).0 (world r.tried).1 (with_new e r.session) done.returns)
      ∙ ap is_true (deliver-true (world r.tried).1 _ (λ p. accepts r.tried p late))

  attempt-late : (n : ℕ) (e : Event) (r : Run) → n ≤ r.tried → n ≤ (attempt c world e r).1.tried
  unfolding attempt
  attempt-late n e r late = omega arith

  -- A round makes at least one attempt, unless all is done.
  pass-tried :
      (append_port : Bool) (l : List (Connection × Bool)) (r : Run)
      → (r.tried ≤ (pass c world append_port l r).1.tried)
        × (all_done l ≡ false → r.tried + 1 ≤ (pass c world append_port l r).1.tried)
  unfolding pass attempt
  pass-tried append_port [] r = (omega arith, λ e. cc)
  pass-tried append_port ((i, true) ∷ l) r = pass-tried append_port l r
  pass-tried append_port ((i, false) ∷ l) r =
      let (more, _) = pass-tried append_port l (attempt c world (event_of append_port i) r).1 in
      (omega arith, λ e. omega arith)

  pass-done :
      (n : ℕ) (append_port : Bool) (l : List (Connection × Bool)) (r : Run)
      → Accepts world n
      → n ≤ r.tried
      → all_done (pass c world append_port l r).0 ≡ true
  unfolding pass
  pass-done n append_port [] r accepts late = refl
  pass-done n append_port ((i, true) ∷ l) r accepts late = pass-done n append_port l r accepts late
  pass-done n append_port ((i, false) ∷ l) r accepts late =
      rw (attempt-true n (event_of append_port i) r accepts late)
        (pass-done n append_port l _ accepts (attempt-late n (event_of append_port i) r late))

  rounds-done :
      (n m : ℕ) (append_port : Bool) (l : List (Connection × Bool)) (r : Run)
      → Accepts world n
      → n ≤ r.tried + m
      → all_done (rounds c world (suc m) append_port l r).0 ≡ true
  unfolding rounds
  rounds-done n zero append_port l r accepts late = elim (Bool-cases (all_done l)) [
    | inl e ↦ rw e e
    | inr e ↦ rw e (pass-done n append_port l r accepts (omega arith))
  ]
  rounds-done n (suc m) append_port l r accepts late = elim (Bool-cases (all_done l)) [
    | inl e ↦ rw e e
    | inr e ↦ rw e (
        rounds-done n m append_port (pass c world append_port l r).0
          (pass c world append_port l r).1 accepts
          (omega (arith, (pass-tried append_port l r).1 e)))
  ]

  -- If the collector answers with success from the attempt `n` on, whatever happens before, every
  -- connection is registered after `n + 1` rounds of the loop at most.
  pub send_pnf_registrations-done :
      (n : ℕ) (l : List Connection) (s : Session)
      → Accepts world n
      → all_done (send_pnf_registrations c world (suc n) l s).0 ≡ true
  unfolding send_pnf_registrations
  send_pnf_registrations-done n l s accepts =
      rounds-done n n (ltb 1 (length l)) (unsent l) (record { session = s; tried = 0 }) accepts
        (omega arith)
