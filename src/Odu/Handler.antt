-- ===== src/Odu/Handler.antt =====
-- `handle_callhome_session`, and the methods it calls. The handler is cut where the lock or a call to
-- the O-RU lets other threads run; what sysrepo, libyang and the O-RU answer is given. `sync_running`
-- is one step: it reads the entry of its own session only, which no other handler removes.
use sim_o1_ofhmp_interfaces.Prelude.{ℕ, String, Option, none, some, Bool, [], ◌∷◌}
use sim_o1_ofhmp_interfaces.Prelude.Result.{
  Error, Result, ok, err, key_error, attribute_error, libyang_error,
}
use sim_o1_ofhmp_interfaces.Prelude.Exec.{Exec, pure, raise, lift, modify, ◌>>=◌, ◌>>◌}
use sim_o1_ofhmp_interfaces.Prelude.Table.{find, put, del}
use sim_o1_ofhmp_interfaces.Value.{Key, name, Value, dict, Entries, end, entry, get}
use sim_o1_ofhmp_interfaces.Value as Values
use sim_o1_ofhmp_interfaces.Config.Reload.{Config}
use sim_o1_ofhmp_interfaces.DictFactory.{or_raise}
use sim_o1_ofhmp_interfaces.Ves.{notified, Host, Session, Post, object}
use sim_o1_ofhmp_interfaces.Ves.Execute.{execute}
use sim_o1_ofhmp_interfaces.Ves.Updated.{with_new}
use sim_o1_ofhmp_interfaces.Odu.{Active, State, merged, without}

-- What `get_json_object_from_xml` makes of the O-RU's host name: nothing where libyang fails, else
-- the system if it is there, and its host name if that is there.
abbrev pub Answered : Type 0
Answered = Option (Option (Option String))

unfoldable pub hostname_of : Answered → Result String
hostname_of none = err attribute_error
hostname_of (some none) = ok "error-oru"
hostname_of (some (some none)) = ok "error-oru"
hostname_of (some (some (some hostname))) = ok hostname

abbrev pub name_of : Result Answered → Result String
unfolding hostname_of
name_of (err e) = err e
name_of (ok a) = hostname_of a

-- How far the handler of a session is, with its local variables.
pub data Phase : Type 0 where
  submitted : (address : String) → Phase
  registered : Active → Phase
  looping : Active → Phase
  leaving : Option Active → Phase
  finished : Phase
  died : Active → Phase

-- The handler up to the dictionary: the connection, the host name, and the entry. Nothing is entered
-- if any of them raises.
unfoldable pub register : ℕ → String → Result Answered → State → Phase × State
unfolding hostname_of put
register k address answer s = elim (name_of answer) [
  | err e ↦ (leaving none, s)
  | ok hostname ↦
      let active : Active = record { address = address; hostname = hostname } in
      (registered active, record s { active = put k active s.active })
]

-- `active_sessions[session_id]`
unfoldable pub session_of : ℕ → Exec State Active
unfolding or_raise find
session_of k s = (or_raise key_error (find k s.active), s)

-- `sync_running`; `given` is what the O-RU, libyang and sysrepo answer to its calls.
unfoldable pub sync_running : ℕ → Result (Unit {0}) → Exec State (Unit {0})
unfolding session_of merged
sync_running k given = do
  a ← session_of k
  lift given
  modify (λ s. record s { instances = merged a.hostname s.instances })

-- What libyang reads in a notification: its content as a dictionary, and its definition.
pub record Notice : Type 0 where
  pub event_time : Option Value
  pub contents : Entries
  pub schema : String
  pub notif_name : String
  pub namespace : String

-- `d | e`
unfoldable pub union : Entries → Entries → Entries
unfolding put
union d end = d
union d (entry k v e) = union (Values.put d k v) e

abbrev pub json_notif : Value → Entries → Value
unfolding union
json_notif time contents = dict (
    object (
      ("notifications:notification", dict (union (object (("eventTime", time) ∷ [])) contents))
      ∷ []))

abbrev pub config_change : Key
config_change = name "ietf-netconf-notifications:netconf-config-change"

unfoldable pub sync_if_changed : ℕ → Entries → Result (Unit {0}) → Exec State (Unit {0})
unfolding sync_running get
sync_if_changed k contents given = elim (get contents config_change) [
  | none ↦ pure tt
  | some v ↦ sync_running k given
]

abbrev pub done : Result Bool → Result (Unit {0})
done (err e) = err e
done (ok delivered) = ok tt

-- `send_ves_event_notification`; the arguments are read before the call.
unfoldable pub send_ves_event_notification :
    Config → Host → (Post → Result ℕ) → Value → Notice → String → Exec State (Unit {0})
unfolding execute
send_ves_event_notification c h collector notif n source s =
    let event = notified notif (some n.namespace) n.schema n.notif_name (some source) in
    let r : Result Bool × Session = execute c h collector (with_new event s.ves) in
    (done r.0, record s { ves = r.1 })

-- What `handle_notification` does once the notification is read.
unfoldable pub forward :
    Config → Host → (Post → Result ℕ) → ℕ → Notice → Value → Exec State (Unit {0})
unfolding session_of send_ves_event_notification
forward c h collector k n notif = do
  a ← session_of k
  send_ves_event_notification c h collector notif n a.hostname

unfoldable pub received :
    Config
    → Host
    → (Post → Result ℕ)
    → ℕ
    → Result (Unit {0})
    → Notice
    → Value
    → Exec State (Unit {0})
unfolding sync_if_changed forward
received c h collector k given n time = do
  sync_if_changed k n.contents given
  forward c h collector k n (json_notif time n.contents)

-- The body of the `try` of `handle_notification`; `none` is an error that libyang raises at once.
unfoldable pub notify :
    Config
    → Host
    → (Post → Result ℕ)
    → ℕ
    → Result (Unit {0})
    → Option Notice
    → Exec State (Unit {0})
unfolding received or_raise
notify c h collector k given none = raise libyang_error
notify c h collector k given (some n) = do
  time ← lift (or_raise attribute_error n.event_time)
  received c h collector k given n time

-- `except LibyangError`
abbrev pub caught : Result (Unit {0}) → Result (Unit {0})
caught (err libyang_error) = ok tt
caught r = r

-- `handle_notification`; the outer result is that of the XML parser.
unfoldable pub handle_notification :
    Config
    → Host
    → (Post → Result ℕ)
    → ℕ
    → Result (Unit {0})
    → Result (Option Notice)
    → Exec State (Unit {0})
unfolding notify
handle_notification c h collector k given (err e) s = (err e, s)
handle_notification c h collector k given (ok n) s =
    let r = notify c h collector k given n s in (caught r.0, r.1)

-- What one turn of the loop meets: the event that stops the program, an exception of the session,
-- no notification, or a notification.
pub data Turn : Type 0 where
  stopping : Turn
  raising : Error → Turn
  quiet : Turn
  heard :
      Host
      → (collector : Post → Result ℕ) → (given : Result (Unit {0})) → Result (Option Notice)
      → Turn

abbrev pub after : Active → Result (Unit {0}) × State → Phase × State
after a (err e, s) = (leaving (some a), s)
after a (ok x, s) = (looping a, s)

-- The calls after the registration: `create_subscription`, and the first `sync_running`.
unfoldable pub prepare : ℕ → Active → (subscribed given : Result (Unit {0})) → State → Phase × State
unfolding sync_running
prepare k a subscribed given s = after a ((do lift subscribed; sync_running k given) s)

-- One turn of the loop. A closed session and a transport error break it, any other exception ends
-- the `try` around it.
unfoldable pub turn : Config → ℕ → Active → Turn → State → Phase × State
unfolding handle_notification
turn c k a stopping s = (leaving (some a), s)
turn c k a (raising e) s = (leaving (some a), s)
turn c k a quiet s = (looping a, s)
turn c k a (heard h collector given n) s = after a (handle_notification c h collector k given n s)

-- The `finally` block; `deleted` is what `delete_item` and `apply_changes` come to. The deletion that a
-- failing `apply_changes` leaves staged in the shared session is left out.
unfoldable pub leave : ℕ → Result (Unit {0}) → State → Phase × State
unfolding find del without
leave k deleted s = elim (find k s.active) [
  | none ↦ (finished, s)
  | some a ↦ elim deleted [
    | err e ↦ (died a, s)
    | ok x ↦
        (finished, record s { active = del k s.active; instances = without a.hostname s.instances })
  ]
]
