-- ===== src/Ves.antt =====
-- base/src/core/ves.py: messages to the event collector, and the classes of its events
-- (base/src/fault_management/ves_alarm.py, base/src/performance_management/ves_fileready.py,
-- base/src/feature/ves_heartbeat.py, ves_pnfregistration.py, and `VesEventNotificationWrapper` of
-- o-du-o1/src/main.py). The collector is a function that
-- answers a request with a status code or an exception of `requests.post`.
pub mod Events
pub mod Update
pub mod Execute
pub mod Updated
pub mod Numbers
pub mod Notification
pub mod Heartbeat
pub mod Listing
pub mod Registration
use sim_o1_ofhmp_interfaces.Prelude.{ℕ, String, Bool, Option, none, some, List, [], ◌∷◌}
use sim_o1_ofhmp_interfaces.Prelude.Result.{
  Error, Result, ok, err, type_error, key_error, index_error,
}
use sim_o1_ofhmp_interfaces.Prelude.Exec.{Exec}
use sim_o1_ofhmp_interfaces.Value.{
  Key, name, index, Value, str, list, dict, Items, Entries, end, entry, get, at,
}
use sim_o1_ofhmp_interfaces.DictFactory.{within, assign, or_raise}

-- The classes below `VesMessage`, with the arguments of their constructors.
pub data Event : Type 0 where
  heartbeat : ℕ → Event
  alarm : Event
  file_ready : (file_location : String) (file_size : ℕ) (expiry : String) → Event
  pnf_ssh : (port : ℕ) (nc_user nc_pass : String) (append_port : Bool) → Event
  pnf_tls : (name : String) (port : ℕ) (append_port : Bool) → Event
  notified :
      (notif : Value) (namespace : Option String) (schema notif_name : String)
      (source_oru : Option String)
      → Event

pub record Message : Type 0 where
  pub event : Event
  pub append_port : Bool
  pub port : ℕ
  pub contents : Value
  pub namespace : Option String
  pub domain : String
  pub priority : String
  pub event_type : String

-- What the container and the clock say when a message is updated.
pub record Host : Type 0 where
  pub hostname : String
  pub mac_address : String
  pub ipv4 : String
  pub microseconds : ℕ
  pub milliseconds : String

pub record Post : Type 0 where
  pub url : String
  pub auth : Option (String × String)
  pub contents : Value

-- A request, and whether its status was one of success.
pub record Exchange : Type 0 where
  pub post : Post
  pub accepted : Bool

-- The state of `Ves`, the counter of ves_fileready.py, the message at hand, and what was sent.
pub record Session : Type 0 where
  pub seq_id : ℕ
  pub notification_id : ℕ
  pub message : Message
  pub exchanges : List Exchange

abbrev pub object : List (String × Value) → Entries
object [] = end
object ((k, v) ∷ l) = entry (name k) v (object l)

-- `v[k]`
unfoldable pub subscript : Value → Key → Result Value
unfolding or_raise at
subscript (list xs) (name a) = err type_error
subscript (list xs) k = or_raise index_error (at (list xs) k)
subscript (dict d) k = or_raise key_error (get d k)
subscript v k = err type_error

assign_last : Value → Value → Option Key → Result Value
assign_last x v none = err index_error
assign_last x v (some k) = assign v k x

-- `self.data[k1][k2]… = x`
unfoldable pub put_data : List Key → Value → Exec Session (Unit {0})
unfolding within subscript assign_last
put_data p x s = elim (within subscript (assign_last x) s.message.contents p) [
  | err e ↦ (err e, s)
  | ok v ↦ (ok tt, record s { message = record s.message { contents = v } })
]
