-- ===== src/Ves/Registration/Once.antt =====
-- Which registrations the collector took.
use sim_o1_ofhmp_interfaces.Prelude.{
  ℕ, zero, suc, ◌+◌, Bool, true, false, List, [], ◌∷◌, ◌++◌, ltb, length, ◌≡◌, ◌≢◌, Option, none,
  some, map, refl, arith, ap, ◌∙◌, sym, subst, ne_text, if◌then◌else◌, string_eq, Bool-cases, inl,
  inr,
}
use sim_o1_ofhmp_interfaces.Prelude.Result.{Result, ok, err}
use sim_o1_ofhmp_interfaces.Text.{of_nat}
use sim_o1_ofhmp_interfaces.Value.{Key, name, Value, str, get_path, put}
use sim_o1_ofhmp_interfaces.DictFactory.{assign}
use sim_o1_ofhmp_interfaces.Ves.Events.{fresh}
use sim_o1_ofhmp_interfaces.Config.Reload.{Config}
use sim_o1_ofhmp_interfaces.Ves.{Event, Host, Session, Post, Exchange}
use sim_o1_ofhmp_interfaces.Ves.Execute.{deliver, answered, noted, post_of}
use sim_o1_ofhmp_interfaces.Ves.Update.{update}
use sim_o1_ofhmp_interfaces.Ves.Updated.{with_new, IsUpdated, update-IsUpdated}
use sim_o1_ofhmp_interfaces.Ves.Numbers.{execute-returns}
use sim_o1_ofhmp_interfaces.Ves.Listing.{Connection, tls, ssh}
use sim_o1_ofhmp_interfaces.Ves.Registration.{
  Run, event_of, attempt, is_true, pass, all_done, rounds, unsent, send_pnf_registrations,
}

-- What tells one registration from another: fields below "additionalFields".
abbrev to_fields : List Key
to_fields = name "event" ∷ name "pnfRegistrationFields" ∷ name "additionalFields" ∷ []

abbrev pub fields_at : Value → List (Option Value)
unfolding get_path
fields_at v =
    map (λ k. get_path v (to_fields ++ name k ∷ []))
      ("oamPort" ∷ "protocol" ∷ "username" ∷ "password" ∷ "keyId" ∷ [])

-- What a connection is registered with.
abbrev pub registration : Config → Connection → List (Option Value)
unfolding of_nat
registration c (ssh label port nc_user nc_pass) =
    some (str (of_nat port))
    ∷ some (str "SSH")
    ∷ some (str nc_user)
    ∷ some (str nc_pass)
    ∷ none
    ∷ []
registration c (tls label port) =
    some (str (of_nat port))
    ∷ some (str "TLS")
    ∷ some (str c.netconf_username)
    ∷ none
    ∷ some (str label)
    ∷ []

-- The sum of the weights of the registrations that were accepted, and of those that count as done.
abbrev pub weigh : (List (Option Value) → ℕ) → List Exchange → ℕ
weigh w [] = 0
weigh w (x ∷ l) = if x.accepted then w (fields_at x.post.contents) + weigh w l else weigh w l

abbrev pub weigh_done : (List (Option Value) → ℕ) → Config → List (Connection × Bool) → ℕ
weigh_done w c [] = 0
weigh_done w c ((i, b) ∷ l) =
    if b then w (registration c i) + weigh_done w c l else weigh_done w c l

abbrev only_if : Bool → ℕ → ℕ
only_if b n = if b then n else 0

module _ (w : List (Option Value) → ℕ) where
  weigh-append :
      (l : List Exchange) (x : Exchange)
      → weigh w (l ++ x ∷ []) ≡ weigh w l + only_if x.accepted (w (fields_at x.post.contents))
  weigh-append [] x = ground arith
  weigh-append (y ∷ l) x = ground (arith, weigh-append l x)

  abbrev Weighs : Value → Session → Result Bool × Session → Type 0
  Weighs v s x =
      weigh w x.1.exchanges ≡ weigh w s.exchanges + only_if (is_true x.0) (w (fields_at v))

  answered-Weighs : (p : Post) (r : Result ℕ) (s : Session) → Weighs p.contents s (answered p r s)
  unfolding answered noted
  answered-Weighs p (err e) s = weigh-append s.exchanges _
  answered-Weighs p (ok status) s = weigh-append s.exchanges _

  weigh_done-unsent : (c : Config) (l : List Connection) → weigh_done w c (unsent l) ≡ 0
  weigh_done-unsent c [] = refl
  weigh_done-unsent c (i ∷ l) = weigh_done-unsent c l

module _ (c : Config) (world : ℕ → Host × (Post → Result ℕ)) where
  -- The update leaves what the message of a connection is told by.
  updated_fields :
      (h : Host) (append_port : Bool) (i : Connection) (s : Session)
      → fields_at (update c h (with_new (event_of append_port i) s)).1.message.contents
        ≡ registration c i
  unfolding update event_of fresh get_path assign put of_nat
  updated_fields h append_port (tls label port) s = refl
  updated_fields h append_port (ssh label port nc_user nc_pass) s = refl

  pass_connections :
      (append_port : Bool) (l : List (Connection × Bool)) (r : Run)
      → map (λ x. x.0) (pass c world append_port l r).0 ≡ map (λ x. x.0) l
  unfolding pass
  pass_connections append_port [] r = refl
  pass_connections append_port ((i, true) ∷ l) r =
      ap (λ k. i ∷ k) (pass_connections append_port l r)
  pass_connections append_port ((i, false) ∷ l) r =
      ap (λ k. i ∷ k) (pass_connections append_port l _)

  rounds_connections :
      (n : ℕ) (append_port : Bool) (l : List (Connection × Bool)) (r : Run)
      → map (λ x. x.0) (rounds c world n append_port l r).0 ≡ map (λ x. x.0) l
  unfolding rounds
  rounds_connections zero append_port l r = refl
  rounds_connections (suc n) append_port l r = elim (Bool-cases (all_done l)) [
    | inl e ↦ rw e refl
    | inr e ↦ rw e (
        rounds_connections n append_port (pass c world append_port l r).0 _
        ∙ pass_connections append_port l r)
  ]

  unsent_connections : (l : List Connection) → map (λ x. x.0) (unsent l) ≡ l
  unsent_connections [] = refl
  unsent_connections (i ∷ l) = ap (λ k. i ∷ k) (unsent_connections l)

module _ (c : Config) (world : ℕ → Host × (Post → Result ℕ)) (url : c.ves_url ≢ "")
    (w : List (Option Value) → ℕ) where
  deliver-Weighs :
      (answer : Post → Result ℕ) (s : Session) → Weighs w s.message.contents s (deliver c answer s)
  unfolding deliver
  deliver-Weighs answer s =
      rw (ne_text c.ves_url "" url) (answered-Weighs w (post_of c s.message) _ s)

  attempt-weighs :
      (append_port : Bool) (i : Connection) (r : Run)
      → let done : Bool × Run = attempt c world (event_of append_port i) r in
        weigh w done.1.session.exchanges
        ≡ weigh w r.session.exchanges + only_if done.0 (w (registration c i))
  unfolding attempt
  attempt-weighs append_port i r =
      let h : Host = (world r.tried).0 in
      let e : Event = event_of append_port i in
      let t : Session = (update c h (with_new e r.session)).1 in
      let done : IsUpdated r.session (update c h (with_new e r.session)) =
        update-IsUpdated c h e r.session in
      let sent : Result Bool × Session = deliver c (world r.tried).1 t in
      subst
        (λ (x : Result Bool × Session).
          weigh w x.1.exchanges
          ≡ weigh w r.session.exchanges + only_if (is_true x.0) (w (registration c i)))
        (sym (execute-returns c h (world r.tried).1 (with_new e r.session) done.returns))
        (deliver-Weighs (world r.tried).1 t
          ∙ ap (λ l. weigh w l + only_if (is_true sent.0) (w (fields_at t.message.contents)))
              done.exchanges
          ∙ ap (λ f. weigh w r.session.exchanges + only_if (is_true sent.0) (w f))
              (updated_fields c world h append_port i r.session))

  pass-weighs :
      (append_port : Bool) (l : List (Connection × Bool)) (r : Run)
      → weigh w (pass c world append_port l r).1.session.exchanges + weigh_done w c l
        ≡ weigh w r.session.exchanges + weigh_done w c (pass c world append_port l r).0
  unfolding pass
  pass-weighs append_port [] r = refl
  pass-weighs append_port ((i, true) ∷ l) r = omega (arith, pass-weighs append_port l r)
  pass-weighs append_port ((i, false) ∷ l) r = ground (
    arith,
    pass-weighs append_port l (attempt c world (event_of append_port i) r).1,
    attempt-weighs append_port i r,
  )

  rounds-weighs :
      (n : ℕ) (append_port : Bool) (l : List (Connection × Bool)) (r : Run)
      → weigh w (rounds c world n append_port l r).1.session.exchanges + weigh_done w c l
        ≡ weigh w r.session.exchanges + weigh_done w c (rounds c world n append_port l r).0
  unfolding rounds
  rounds-weighs zero append_port l r = refl
  rounds-weighs (suc n) append_port l r = elim (Bool-cases (all_done l)) [
    | inl e ↦ rw e refl
    | inr e ↦ rw e (
        omega (
          arith,
          pass-weighs append_port l r,
          rounds-weighs n append_port (pass c world append_port l r).0
              (pass c world append_port l r).1,
        ))
  ]

  -- Where an address is configured, after any number of rounds and whatever was answered: the list of
  -- `success` has the given connections in their order, and the registrations that the collector took
  -- weigh as much more as those of the connections that count as done, however a registration is
  -- weighed by its port, protocol, user, password and key. With the weight 1 for one registration and 0
  -- for all others: the collector took it as often as it has connections that count as done.
  pub send_pnf_registrations-once :
      (n : ℕ) (l : List Connection) (s : Session)
      → let r : List (Connection × Bool) × Run = send_pnf_registrations c world n l s in
        (map (λ x. x.0) r.0 ≡ l)
        × (weigh w r.1.session.exchanges ≡ weigh w s.exchanges + weigh_done w c r.0)
  unfolding send_pnf_registrations
  send_pnf_registrations-once n l s =
      let first : Run = record { session = s; tried = 0 } in
      (
        rounds_connections c world n (ltb 1 (length l)) (unsent l) first
            ∙ unsent_connections c world l,
        omega (arith, weigh_done-unsent w c l, rounds-weighs n (ltb 1 (length l)) (unsent l) first),
      )
