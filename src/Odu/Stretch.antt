-- ===== src/Odu/Stretch.antt =====
-- What one stretch of a handler does to the dictionary and the aggregation.
use sim_o1_ofhmp_interfaces.Prelude.{
  ℕ, String, Option, none, some, ◌≡◌, ◌≢◌, refl, sym, ◌∙◌, ap, subst, arith, string_eq,
}
use sim_o1_ofhmp_interfaces.Prelude.Result.{Result, ok, err}
use sim_o1_ofhmp_interfaces.Prelude.Keeps.{keeps_lift}
use sim_o1_ofhmp_interfaces.Prelude.Table.{Table, find, put, find-put, find-del}
use sim_o1_ofhmp_interfaces.Config.Reload.{Config}
use sim_o1_ofhmp_interfaces.Odu.{Active, State}
use sim_o1_ofhmp_interfaces.Odu.Handler.{
  Answered, Phase, after, name_of, submitted, registered, looping, leaving, finished, died, Turn,
  stopping, raising, quiet, heard, register, sync_running, handle_notification, prepare, turn,
  leave,
}
use sim_o1_ofhmp_interfaces.Odu.Threads.{Input, connected, prepared, turned, left, proceed}
use sim_o1_ofhmp_interfaces.Odu.Covered.{Covers, Covers-put, Covers-del}
use sim_o1_ofhmp_interfaces.Odu.Calls.{Kept, sync_running-Kept, handle_notification-Kept}

-- The entry that a handler has made and not taken back.
abbrev pub entry_of : Phase → Option Active
entry_of (submitted address) = none
entry_of (registered a) = some a
entry_of (looping a) = some a
entry_of (leaving o) = o
entry_of finished = none
entry_of (died a) = some a

abbrev pub entry_in : ℕ → Table Phase → Option Active
entry_in k handlers = elim (find k handlers) [ none ↦ none | some phase ↦ entry_of phase ]

-- What a stretch of the handler of the session `k` does to the dictionary and the aggregation.
pub record Proceeds (k : ℕ) (s : State) (r : Phase × State) : Type 0 where
  pub own : find k r.1.active ≡ entry_of r.0
  pub others : (j : ℕ) → k ≢ j → find j r.1.active ≡ find j s.active
  pub covers : Covers s.active s.instances → Covers r.1.active r.1.instances

module _ (k : ℕ) (s : State) where
  stays : (phase : Phase) → find k s.active ≡ entry_of phase → Proceeds k s (phase, s)
  stays phase e = record { own = e; others = λ j ne. refl; covers = λ h. h }

  after-Proceeds :
      (a : Active) (r : Result (Unit {0}) × State)
      → find k s.active ≡ some a
      → Kept s.active s.instances r.1
      → Proceeds k s (after a r)
  after-Proceeds a (err e, u) h (same, kept) = record {
    own = ap (find k) same ∙ h;
    others = λ j ne. ap (find j) same;
    covers = λ c. subst (λ t. Covers t u.instances) (sym same) (kept c);
  }
  after-Proceeds a (ok x, u) h (same, kept) = record {
    own = ap (find k) same ∙ h;
    others = λ j ne. ap (find j) same;
    covers = λ c. subst (λ t. Covers t u.instances) (sym same) (kept c);
  }

  turn-Proceeds :
      (c : Config) (a : Active) (x : Turn)
      → find k s.active ≡ some a
      → Proceeds k s (turn c k a x s)
  unfolding turn
  turn-Proceeds c a stopping e = stays (leaving (some a)) e
  turn-Proceeds c a (raising x) e = stays (leaving (some a)) e
  turn-Proceeds c a quiet e = stays (looping a) e
  turn-Proceeds c a (heard h collector given n) e =
      after-Proceeds a (handle_notification c h collector k given n s) e
        (handle_notification-Kept s.active s.instances k c h collector given n s (refl, λ h. h))

  prepare-Proceeds :
      (a : Active) (subscribed given : Result (Unit {0}))
      → find k s.active ≡ some a
      → Proceeds k s (prepare k a subscribed given s)
  unfolding prepare
  prepare-Proceeds a subscribed given e = after-Proceeds a _ e (
      keeps_lift (Kept s.active s.instances) subscribed (λ _. sync_running k given)
        (λ _ _. sync_running-Kept s.active s.instances k given) s (refl, λ h. h))

  register-Proceeds :
      (address : String) (answer : Result Answered)
      → find k s.active ≡ none
      → Proceeds k s (register k address answer s)
  unfolding register
  register-Proceeds address answer e =
      elim (name_of answer)
        as (λ r. Proceeds k s (elim r [
          | err x ↦ (leaving none, s)
          | ok hostname ↦
              let active : Active = record { address = address; hostname = hostname } in
              (registered active, record s { active = put k active s.active })
        ])) [
          | err x ↦ stays (leaving none) e
          | ok hostname ↦ record {
            own =
                ground (
                  arith,
                  find-put k k (record { address = address; hostname = hostname }) s.active,
                );
            others = λ j ne.
                ground (
                  arith,
                  find-put k j (record { address = address; hostname = hostname }) s.active,
                );
            covers = Covers-put s.active k _ s.instances e;
          }
        ]

  leave-Proceeds :
      (deleted : Result (Unit {0})) (o : Option Active)
      → find k s.active ≡ o
      → Proceeds k s (leave k deleted s)
  unfolding leave
  leave-Proceeds deleted none e = rw (e, leave) (stays finished e)
  leave-Proceeds (err x) (some a) e = rw (e, leave) (stays (died a) e)
  leave-Proceeds (ok x) (some a) e =
      rw (e, leave)
        (record {
          own = ground (arith, find-del k k s.active);
          others = λ j ne. ground (arith, find-del k j s.active);
          covers = Covers-del s.active k a s.instances e;
        })

  pub proceed-Proceeds :
      (phase : Phase) (input : Input)
      → find k s.active ≡ entry_of phase
      → Proceeds k s (proceed k phase input s)
  unfolding proceed
  proceed-Proceeds (submitted address) (connected answer) e = register-Proceeds address answer e
  proceed-Proceeds (registered a) (prepared subscribed given) e =
      prepare-Proceeds a subscribed given e
  proceed-Proceeds (looping a) (turned c t) e = turn-Proceeds c a t e
  proceed-Proceeds (leaving a) (left deleted) e = leave-Proceeds deleted a e
  proceed-Proceeds phase input e = stays phase e
