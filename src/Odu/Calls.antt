-- ===== src/Odu/Calls.antt =====
-- What the calls of a session's handler keep.
use sim_o1_ofhmp_interfaces.Prelude.{
  ℕ, String, Option, none, some, List, ◌≡◌, sym, ◌∙◌, ap, arith, string_eq,
}
use sim_o1_ofhmp_interfaces.Prelude.Result.{Result, ok, err, key_error, attribute_error}
use sim_o1_ofhmp_interfaces.Prelude.Exec.{pure}
use sim_o1_ofhmp_interfaces.Prelude.Keeps.{Keeps, keeps_bind, keeps_lift, keeps_continue}
use sim_o1_ofhmp_interfaces.DictFactory.{or_raise}
use sim_o1_ofhmp_interfaces.Prelude.Table.{Table, find}
use sim_o1_ofhmp_interfaces.Value.{Value, Entries, get}
use sim_o1_ofhmp_interfaces.Config.Reload.{Config}
use sim_o1_ofhmp_interfaces.Ves.{Host, Post}
use sim_o1_ofhmp_interfaces.Odu.{Active, State}
use sim_o1_ofhmp_interfaces.Odu.Handler.{
  config_change, Notice, session_of, sync_running, sync_if_changed, handle_notification, notify,
  received, forward, json_notif, send_ves_event_notification,
}
use sim_o1_ofhmp_interfaces.Odu.Covered.{Covers, merged-Covers}

-- The calls of a session leave the dictionary, and add instances of its own host name only.
abbrev pub Kept : Table Active → List String → State → Type 0
Kept t l s = (s.active ≡ t) × (Covers t l → Covers t s.instances)

found : (o : Option Active) (a : Active) → or_raise key_error o ≡ ok a → o ≡ some a
unfolding or_raise
found o a h = ground arith

module _ (t : Table Active) (l : List String) (k : ℕ) where
  pub sync_running-Kept : (given : Result (Unit {0})) → Keeps (Kept t l) (sync_running k given)
  unfolding sync_running session_of
  sync_running-Kept given s h =
      keeps_continue (Kept t l) (or_raise key_error (find k s.active)) _ s h λ a e.
        keeps_lift (Kept t l) given _ λ _ _ u v. (
          v.0,
          λ covers.
              merged-Covers t k a u.instances (ap (find k) (sym h.0) ∙ found (find k s.active) a e)
                (v.1 covers),
        )

  sync_if_changed-Kept :
      (contents : Entries) (given : Result (Unit {0}))
      → Keeps (Kept t l) (sync_if_changed k contents given)
  unfolding sync_if_changed
  sync_if_changed-Kept contents given =
      elim (get contents config_change)
        as (λ o. Keeps (Kept t l) (elim o [ none ↦ pure tt | some v ↦ sync_running k given ])) [
          | none ↦ λ s h. h
          | some v ↦ sync_running-Kept given
        ]

  forward-Kept :
      (c : Config) (h : Host) (collector : Post → Result ℕ) (n : Notice) (notif : Value)
      → Keeps (Kept t l) (forward c h collector k n notif)
  unfolding forward session_of send_ves_event_notification
  forward-Kept c h collector n notif s kept =
      keeps_continue (Kept t l) (or_raise key_error (find k s.active))
        (λ a. send_ves_event_notification c h collector notif n a.hostname) s kept λ a e u v. v

  received-Kept :
      (c : Config) (h : Host) (collector : Post → Result ℕ) (given : Result (Unit {0})) (n : Notice)
      (time : Value)
      → Keeps (Kept t l) (received c h collector k given n time)
  unfolding received
  received-Kept c h collector given n time =
      keeps_bind (Kept t l) (sync_if_changed k n.contents given)
        (λ _. forward c h collector k n (json_notif time n.contents))
        (sync_if_changed-Kept n.contents given)
        λ _. forward-Kept c h collector n (json_notif time n.contents)

  notify-Kept :
      (c : Config) (h : Host) (collector : Post → Result ℕ) (given : Result (Unit {0}))
      (n : Option Notice)
      → Keeps (Kept t l) (notify c h collector k given n)
  unfolding notify
  notify-Kept c h collector given none = λ s kept. kept
  notify-Kept c h collector given (some n) =
      keeps_lift (Kept t l) (or_raise attribute_error n.event_time)
        (received c h collector k given n) λ time _. received-Kept c h collector given n time

  pub handle_notification-Kept :
      (c : Config) (h : Host) (collector : Post → Result ℕ) (given : Result (Unit {0}))
      (n : Result (Option Notice))
      → Keeps (Kept t l) (handle_notification c h collector k given n)
  unfolding handle_notification
  handle_notification-Kept c h collector given (err e) = λ s kept. kept
  handle_notification-Kept c h collector given (ok n) = notify-Kept c h collector given n
