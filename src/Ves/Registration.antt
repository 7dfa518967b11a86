-- ===== src/Ves/Registration.antt =====
-- `send_pnf_registrations_in_background` of base/src/feature/ves_pnfregistration.py: every connection
-- is registered, and what failed is tried again.
pub mod Done
pub mod Once
use sim_o1_ofhmp_interfaces.Prelude.{
  ℕ, zero, suc, ◌+◌, ◌≤◌, String, Bool, true, false, ◌&&◌, Option, none, some, List, [], ◌∷◌, ◌++◌,
  ltb, length, ◌≡◌, ◌≢◌, refl, arith, ap, ◌∙◌, sym, subst, ne_text, if◌then◌else◌, ◌==◌, string_eq,
  Bool-cases, inl, inr, ◌⊎◌,
}
use sim_o1_ofhmp_interfaces.Prelude.Result.{Error, Result, ok, err}
use sim_o1_ofhmp_interfaces.Config.Reload.{Config}
use sim_o1_ofhmp_interfaces.Ves.{Event, pnf_ssh, pnf_tls, Host, Session, Post, Exchange}
use sim_o1_ofhmp_interfaces.Ves.Update.{update}
use sim_o1_ofhmp_interfaces.Ves.Execute.{execute, deliver, answered, noted, is_success, post_of}
use sim_o1_ofhmp_interfaces.Ves.Updated.{with_new, IsUpdated, update-IsUpdated}
use sim_o1_ofhmp_interfaces.Ves.Numbers.{execute-returns}
use sim_o1_ofhmp_interfaces.Ves.Listing.{Connection, tls, ssh}

-- The thread, with the number of attempts that it made.
pub record Run : Type 0 where
  pub session : Session
  pub tried : ℕ

unfoldable pub event_of : Bool → Connection → Event
event_of append_port (tls name port) = pnf_tls name port append_port
event_of append_port (ssh name port nc_user nc_pass) = pnf_ssh port nc_user nc_pass append_port

-- `result is True`, where an exception is logged and counts as no success.
abbrev pub is_true : Result Bool → Bool
is_true (ok b) = b
is_true (err e) = false

-- What the host says and the collector answers at each attempt.
module _ (c : Config) (world : ℕ → Host × (Post → Result ℕ)) where
  unfoldable pub attempt : Event → Run → Bool × Run
  attempt e r =
      let sent = execute c (world r.tried).0 (world r.tried).1 (with_new e r.session) in
      (is_true sent.0, record { session = sent.1; tried = r.tried + 1 })

  -- One round over the connections, each with its entry of `success`.
  unfoldable pub pass : Bool → List (Connection × Bool) → Run → List (Connection × Bool) × Run
  unfolding attempt event_of
  pass append_port [] r = ([], r)
  pass append_port ((i, true) ∷ l) r =
      let rest = pass append_port l r in ((i, true) ∷ rest.0, rest.1)
  pass append_port ((i, false) ∷ l) r =
      let done = attempt (event_of append_port i) r in
      let rest = pass append_port l done.1 in ((i, done.0) ∷ rest.0, rest.1)

-- `all(success.values())`
abbrev pub all_done : List (Connection × Bool) → Bool
all_done [] = true
all_done ((i, b) ∷ l) = b && all_done l

-- `success` before the loop.
abbrev pub unsent : List Connection → List (Connection × Bool)
unsent [] = []
unsent (i ∷ l) = (i, false) ∷ unsent l

module _ (c : Config) (world : ℕ → Host × (Post → Result ℕ)) where
  -- The loop, cut off after so many rounds.
  unfoldable pub rounds : ℕ → Bool → List (Connection × Bool) → Run → List (Connection × Bool) × Run
  unfolding pass
  rounds zero append_port l r = (l, r)
  rounds (suc n) append_port l r =
      let next = pass c world append_port l r in
      let rest = rounds n append_port next.0 next.1 in if all_done l then (l, r) else rest

  unfoldable pub send_pnf_registrations :
      ℕ → List Connection → Session → List (Connection × Bool) × Run
  unfolding rounds
  send_pnf_registrations n l s =
      rounds n (ltb 1 (length l)) (unsent l) (record { session = s; tried = 0 })
