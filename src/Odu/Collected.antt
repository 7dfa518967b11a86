-- ===== src/Odu/Collected.antt =====
-- What a failing event collector does to the session of an O-RU.
use sim_o1_ofhmp_interfaces.Prelude.{
  ℕ, Bool, none, some, ◌≡◌, ◌≢◌, refl, ◌∙◌, ap, ne_text, string_eq,
}
use sim_o1_ofhmp_interfaces.Prelude.Result.{
  Result, ok, err, libyang_error, key_error, attribute_error,
}
use sim_o1_ofhmp_interfaces.Prelude.Exec.{pure, continue, ◌>>◌}
use sim_o1_ofhmp_interfaces.DictFactory.{or_raise}
use sim_o1_ofhmp_interfaces.Prelude.Table.{find}
use sim_o1_ofhmp_interfaces.Value.{Value, get}
use sim_o1_ofhmp_interfaces.Config.Reload.{Config}
use sim_o1_ofhmp_interfaces.Ves.{notified, Host, Session, Post}
use sim_o1_ofhmp_interfaces.Ves.Update.{update}
use sim_o1_ofhmp_interfaces.Ves.Execute.{execute, deliver, answered, post_of, is_success}
use sim_o1_ofhmp_interfaces.Ves.Updated.{with_new, IsUpdated, update-IsUpdated}
use sim_o1_ofhmp_interfaces.Ves.Numbers.{execute-returns}
use sim_o1_ofhmp_interfaces.Odu.{Active, State}
use sim_o1_ofhmp_interfaces.Odu.Handler.{
  looping, leaving, heard, Notice, turn, config_change, json_notif, handle_notification, notify,
  received, forward, sync_if_changed, sync_running, session_of, send_ves_event_notification, caught,
  done, after,
}

module _ (c : Config) (h : Host) (collector : Post → Result ℕ) (k : ℕ) (a : Active) (n : Notice)
    (time : Value) (s : State) where
  -- The request that carries the notification to the collector.
  abbrev pub request : Post
  request =
      post_of c
        (update c h (
          with_new
            (notified (json_notif time n.contents) (some n.namespace) n.schema n.notif_name
              (some a.hostname))
            s.ves)).1.message

  abbrev result : Result ℕ → Result Bool
  result (err e) = err e
  result (ok status) = ok (is_success status)

  abbrev wrapper : Session
  wrapper =
      with_new
        (notified (json_notif time n.contents) (some n.namespace) n.schema n.notif_name
          (some a.hostname))
        s.ves

  answered-result : (p : Post) (r : Result ℕ) (u : Session) → (answered p r u).0 ≡ result r
  unfolding answered
  answered-result p (err e) u = refl
  answered-result p (ok status) u = refl

  deliver-result :
      (u : Session)
      → c.ves_url ≢ ""
      → (deliver c collector u).0 ≡ result (collector (post_of c u.message))
  unfolding deliver
  deliver-result u url = rw (ne_text c.ves_url "" url) (answered-result _ _ u)

  execute-result : c.ves_url ≢ "" → (execute c h collector wrapper).0 ≡ result (collector request)
  execute-result url =
      let updated : IsUpdated s.ves (update c h wrapper) = update-IsUpdated c h _ s.ves in
      ap (λ r. r.0) (execute-returns c h collector wrapper updated.returns)
      ∙ deliver-result (update c h wrapper).1 url

  forward-eq :
      find k s.active ≡ some a
      → forward c h collector k n (json_notif time n.contents) s
        ≡ send_ves_event_notification c h collector (json_notif time n.contents) n a.hostname s
  unfolding forward session_of or_raise
  forward-eq e =
      ap
        (λ o.
          continue (or_raise key_error o)
            (λ b.
              send_ves_event_notification c h collector (json_notif time n.contents) n b.hostname)
            s)
        e

  received-eq :
      (given : Result (Unit {0}))
      → get n.contents config_change ≡ none
      → received c h collector k given n time s
        ≡ forward c h collector k n (json_notif time n.contents) s
  unfolding received sync_if_changed
  received-eq given e =
      ap
        (λ o.
          ((elim o [ none ↦ pure tt | some v ↦ sync_running k given ])
              >> forward c h collector k n (json_notif time n.contents))
            s)
        e

  notify-eq :
      (given : Result (Unit {0}))
      → n.event_time ≡ some time
      → notify c h collector k given (some n) s ≡ received c h collector k given n time s
  unfolding notify or_raise
  notify-eq given e =
      ap (λ o. continue (or_raise attribute_error o) (received c h collector k given n) s) e

  notify-result :
      (given : Result (Unit {0}))
      → n.event_time ≡ some time
      → get n.contents config_change ≡ none
      → find k s.active ≡ some a
      → c.ves_url ≢ ""
      → (notify c h collector k given (some n) s).0 ≡ done (result (collector request))
  unfolding send_ves_event_notification
  notify-result given timed same listed url =
      ap (λ r. r.0) (notify-eq given timed ∙ received-eq given same ∙ forward-eq listed)
      ∙ ap done (execute-result url)

  caught-result :
      (r : Result ℕ) (u : State)
      → r ≢ err libyang_error
      → (after a (caught (done (result r)), u)).0
        ≡ elim r [ err e ↦ leaving (some a) | ok status ↦ looping a ]
  caught-result (err libyang_error) u other = absurd (other refl)
  caught-result (err e) u other = refl
  caught-result (ok status) u other = refl

  -- A notification that is no change of the configuration, of a session in the dictionary, where an
  -- address of the collector is configured: the session goes on if the request to the collector
  -- returns, whatever its status, and ends if the request raises.
  pub turn-collected :
      n.event_time ≡ some time
      → get n.contents config_change ≡ none
      → find k s.active ≡ some a
      → c.ves_url ≢ ""
      → collector request ≢ err libyang_error
      → (given : Result (Unit {0}))
      → (turn c k a (heard h collector given (ok (some n))) s).0
        ≡ elim (collector request) [ err e ↦ leaving (some a) | ok status ↦ looping a ]
  unfolding turn handle_notification
  turn-collected timed same listed url other given =
      ap (λ r. (after a (caught r, (notify c h collector k given (some n) s).1)).0)
        (notify-result given timed same listed url)
      ∙ caught-result (collector request) _ other
