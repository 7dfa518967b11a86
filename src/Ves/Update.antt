-- ===== src/Ves/Update.antt =====
-- `update` of `VesMessage` and of the classes below it. The vendor of `Ves` is "pynts".
use sim_o1_ofhmp_interfaces.Prelude.{
  ℕ, ◌+◌, String, ◌<>◌, Option, none, some, List, [], ◌∷◌, ◌++◌, if◌then◌else◌, ◌==◌, string_eq,
}
use sim_o1_ofhmp_interfaces.Prelude.Exec.{Exec, pure, modify, ◌>>◌}
use sim_o1_ofhmp_interfaces.Text.{of_nat}
use sim_o1_ofhmp_interfaces.Value.{Key, name, index, Value, num, str}
use sim_o1_ofhmp_interfaces.Config.Reload.{Config}
use sim_o1_ofhmp_interfaces.Ves.{
  Event, heartbeat, alarm, file_ready, pnf_ssh, pnf_tls, notified, Message, Host, Session, put_data,
}

abbrev vendor : String
vendor = "pynts"

-- Assignments one after another, each below the same path.
unfoldable pub put_fields : List Key → List (String × Value) → Exec Session (Unit {0})
unfolding put_data
put_fields p [] = pure tt
put_fields p ((k, x) ∷ l) = do put_data (p ++ name k ∷ []) x; put_fields p l

-- `self.hostname`
unfoldable pub host_of : Host → Message → String
unfolding of_nat
host_of h m = if m.append_port then h.hostname <> ("_" <> of_nat m.port) else h.hostname

abbrev to_header : List Key
to_header = name "event" ∷ name "commonEventHeader" ∷ []

abbrev pub header_fields : Host → Message → ℕ → List (String × Value)
header_fields h m seq_id =
    ("domain", str m.domain)
    ∷ ("eventId", str ("ManagedElement=" <> (host_of h m <> ("_" <> m.domain))))
    ∷ ("eventName", str (m.domain <> ("_" <> m.event_type)))
    ∷ ("eventType", str m.event_type)
    ∷ ("sequence", num seq_id)
    ∷ ("priority", str m.priority)
    ∷ ("reportingEntityName", str ("ManagementElement=" <> host_of h m))
    ∷ ("sourceId", str ("ManagementElement=" <> host_of h m))
    ∷ ("sourceName", str (host_of h m))
    ∷ ("startEpochMicrosec", num h.microseconds)
    ∷ ("lastEpochMicrosec", num h.microseconds)
    ∷ ("nfVendorName", str vendor)
    ∷ []

-- `if self.namespace:` holds of a text that is not empty.
unfoldable pub namespace_fields : Option String → List (String × Value)
namespace_fields none = []
namespace_fields (some n) = if n == "" then [] else ("stndDefinedNamespace", str n) ∷ []

-- `VesMessage.update`
unfoldable pub update_header : Host → Exec Session (Unit {0})
unfolding put_fields host_of namespace_fields
update_header h s =
    put_fields to_header
      (header_fields h s.message s.seq_id ++ namespace_fields s.message.namespace) s

abbrev to_pnf : List Key
to_pnf = name "event" ∷ name "pnfRegistrationFields" ∷ []

abbrev pnf_unit : Config → Host → List (String × Value)
pnf_unit c h =
    ("macAddress", str h.mac_address)
    ∷ ("oamV4IpAddress", str h.ipv4)
    ∷ (
      "serialNumber",
      str (vendor <> ("-" <> (c.netconf_function_type <> ("-" <> (h.ipv4 <> "-pynts"))))),
    )
    ∷ ("unitFamily", str (vendor <> ("-" <> c.netconf_function_type)))
    ∷ ("unitType", str c.netconf_function_type)
    ∷ ("vendorName", str vendor)
    ∷ []

-- `Config.sftp_listen_port`
abbrev sftp_listen_port : ℕ
sftp_listen_port = 22

abbrev file_url : Config → Host → String → String
unfolding of_nat
file_url c h location =
    "sftp://"
    <> (c.netconf_username
        <> (":"
            <> (c.netconf_password
                <> ("@" <> (h.ipv4 <> (":" <> (of_nat sftp_listen_port <> location)))))))

abbrev to_data : List Key
to_data = name "event" ∷ name "stndDefinedFields" ∷ name "data" ∷ []

abbrev to_file : List Key
to_file = name "event" ∷ name "stndDefinedFields" ∷ name "data" ∷ name "fileInfoList" ∷ index 0 ∷ []

-- The part of `VesFileReady.update` after the header; the counter of the module is written first.
unfoldable pub update_file : Config → Host → String → Exec Session (Unit {0})
unfolding put_fields file_url host_of
update_file c h location = do
  modify (λ s. record s { notification_id = s.notification_id + 1 })
  λ s.
      put_fields to_data
        (("notificationId", num s.notification_id)
          ∷ ("eventTime", str h.milliseconds)
          ∷ ("systemDN", str ("ManagedElement=" <> host_of h s.message))
          ∷ [])
        s
  put_fields to_file
      (("fileLocation", str (file_url c h location)) ∷ ("fileReadyTime", str h.milliseconds) ∷ [])

-- The part of `VesHeartbeat.update` after the header.
unfoldable update_heartbeat : Host → Exec Session (Unit {0})
unfolding put_fields
update_heartbeat h =
    put_fields (name "event" ∷ name "heartbeatFields" ∷ name "additionalFields" ∷ [])
      (("eventTime", str h.milliseconds) ∷ [])

-- The part of `VesPnfRegistrationSSH.update` after the header.
unfoldable update_pnf_ssh : Config → Host → Exec Session (Unit {0})
unfolding put_fields
update_pnf_ssh c h = put_fields to_pnf (pnf_unit c h)

-- The part of `VesPnfRegistrationTLS.update` after the header.
unfoldable update_pnf_tls : Config → Host → String → Exec Session (Unit {0})
unfolding put_fields
update_pnf_tls c h n = do
  put_fields to_pnf (pnf_unit c h)
  put_fields (to_pnf ++ name "additionalFields" ∷ [])
      (("username", str c.netconf_username) ∷ ("keyId", str n) ∷ [])

abbrev source_fields : Option String → List (String × Value)
source_fields none = []
source_fields (some source) = ("sourceName", str source) ∷ ("sourceId", str source) ∷ []

-- The part of `VesEventNotificationWrapper.update` after the header. `update` asks for `Ves()` again,
-- which is the one object of the program.
unfoldable update_notification : Value → Option String → Exec Session (Unit {0})
unfolding put_fields of_nat
update_notification notif source_oru = do
  λ s.
      put_fields to_header
        (("eventName", str s.message.event_type)
          ∷ ("eventId", str (s.message.domain <> ("-ORU-YANG-" <> of_nat s.seq_id)))
          ∷ [])
        s
  put_fields (name "event" ∷ name "stndDefinedFields" ∷ []) (
      ("data", notif)
      ∷ ("schemaReference", str "https://o-ran-sc.org/any-standard-defined-message.yaml")
      ∷ [])
  put_fields to_header (source_fields source_oru)

-- What the class adds to the header.
unfoldable pub update_event : Config → Host → Event → Exec Session (Unit {0})
unfolding update_file update_heartbeat update_pnf_ssh update_pnf_tls update_notification
update_event c h (heartbeat interval) = update_heartbeat h
update_event c h alarm = pure tt
update_event c h (file_ready location size expiry) = update_file c h location
update_event c h (pnf_ssh port nc_user nc_pass append_port) = update_pnf_ssh c h
update_event c h (pnf_tls n port append_port) = update_pnf_tls c h n
update_event c h (notified notif namespace schema notif_name source_oru) =
    update_notification notif source_oru

-- `message.update()`
unfoldable pub update : Config → Host → Exec Session (Unit {0})
unfolding update_header update_event
update c h = do update_header h; λ s. update_event c h s.message.event s
