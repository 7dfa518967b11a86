-- ===== src/Ves/Events.antt =====
-- The constructors of `VesMessage` and of the classes below it: the data before the first update.
use sim_o1_ofhmp_interfaces.Prelude.{
  ℕ, String, ◌<>◌, Option, Bool, true, false, none, some, List, [], ◌∷◌, ◌++◌,
}
use sim_o1_ofhmp_interfaces.Text.{of_nat}
use sim_o1_ofhmp_interfaces.Value.{Value, bool, num, str, list, dict, nil, cons}
use sim_o1_ofhmp_interfaces.Ves.{
  Event, heartbeat, alarm, file_ready, pnf_ssh, pnf_tls, notified, Message, object,
}

abbrev pub header : Value
header = dict (
    object (
      ("reportingEntityId", str "")
      ∷ ("nfNamingCode", str "001")
      ∷ ("timeZoneOffset", str "+00:00")
      ∷ ("version", str "4.1")
      ∷ ("vesEventListenerVersion", str "7.2.1")
      ∷ []))

-- The data of `VesMessage.__init__`, with the entry that the class adds.
abbrev pub event_data : String → Value → Value
event_data key fields =
    dict
      (object (("event", dict (object (("commonEventHeader", header) ∷ (key, fields) ∷ []))) ∷ []))

abbrev pub heartbeat_fields : ℕ → Value
heartbeat_fields interval = dict (
    object (
      ("heartbeatFieldsVersion", str "3.0")
      ∷ ("heartbeatInterval", num interval)
      ∷ ("additionalFields", dict (object (("eventTime", str "@timestampISO3milisec@") ∷ [])))
      ∷ []))

abbrev stnd_defined : String → Value → Value
stnd_defined reference fields = dict (
    object (
      ("schemaReference", str reference)
      ∷ ("stndDefinedFieldsVersion", str "1.0")
      ∷ ("data", fields)
      ∷ []))

abbrev alarm_fields : Value
alarm_fields =
    stnd_defined
      "https://forge.3gpp.org/rep/sa5/MnS/blob/Rel-18/OpenAPI/TS28532_FaultMnS.yaml#components/schemas/NotifyNewAlarm"
      (dict (
        object (
          ("href", str "href1")
          ∷ ("notificationId", num 0)
          ∷ ("notificationType", str "notifyNewAlarm")
          ∷ ("eventTime", str "@timestampISO3milisec@")
          ∷ ("systemDN", str "ManagedElement=@node-id@")
          ∷ ("alarmId", str "@object-instance@-@alarm@")
          ∷ ("alarmType", str "@alarm-type@")
          ∷ ("probableCause", str "@alarm@")
          ∷ ("specificProblem", str "@alarm@")
          ∷ ("perceivedSeverity", str "@severity@")
          ∷ ("backedUpStatus", bool true)
          ∷ ("trendIndication", str "MORE_SEVERE")
          ∷ (
            "stateChangeDefinition",
            list (cons (dict (object (("operational-state", str "DISABLED") ∷ []))) nil),
          )
          ∷ ("proposedRepairActions", str "Add more units")
          ∷ ("additionalText", str "Open Air Interface")
          ∷ ("rootCauseIndicator", bool false)
          ∷ [])))

abbrev file_ready_fields : ℕ → String → Value
file_ready_fields size expiry =
    stnd_defined
      "https://forge.3gpp.org/rep/sa5/MnS/blob/Rel-18/OpenAPI/TS28532_FileDataReportingMnS.yaml#components/schemas/NotifyFileReady"
      (dict (
        object (
          ("href", str "href1")
          ∷ ("notificationType", str "notifyFileReady")
          ∷ (
            "fileInfoList",
            list (
                cons
                  (dict (
                    object (
                      ("fileSize", num size)
                      ∷ ("fileExpirationTime", str expiry)
                      ∷ ("fileCompression", str "no")
                      ∷ ("fileFormat", str "xml")
                      ∷ ("fileDataType", str "Performance")
                      ∷ [])))
                  nil),
          )
          ∷ ("additionalText", str "Have fun!")
          ∷ [])))

abbrev pnf_fields : ℕ → String → List (String × Value) → Value
unfolding of_nat
pnf_fields port protocol login = dict (
    object (
      ("pnfRegistrationFieldsVersion", str "2.1")
      ∷ ("lastServiceDate", str "2021-03-26")
      ∷ ("manufactureDate", str "2021-01-16")
      ∷ ("modelNumber", str "pynts")
      ∷ ("softwareVersion", str "2.3.5")
      ∷ (
        "additionalFields",
        dict (
            object (
              (("oamPort", str (of_nat port)) ∷ ("protocol", str protocol) ∷ login)
              ++ (("reconnectOnChangedSchema", str "false")
                  ∷ ("sleep-factor", str "1.5")
                  ∷ ("tcpOnly", str "false")
                  ∷ ("connectionTimeout", str "20000")
                  ∷ ("maxConnectionAttempts", str "100")
                  ∷ ("betweenAttemptsTimeout", str "2000")
                  ∷ ("keepaliveDelay", str "120")
                  ∷ []))),
      )
      ∷ []))

unfoldable new_heartbeat : ℕ → Message
new_heartbeat interval = record {
  event = heartbeat interval;
  append_port = false;
  port = 830;
  contents = event_data "heartbeatFields" (heartbeat_fields interval);
  namespace = none;
  domain = "HeartBeat";
  priority = "Low";
  event_type = "PyNTS_HeartBeat";
}

unfoldable new_alarm : Message
new_alarm = record {
  event = alarm;
  append_port = false;
  port = 830;
  contents = event_data "stndDefinedFields" alarm_fields;
  namespace = some "3GPP-FaultSupervision";
  domain = "stndDefined";
  priority = "Low";
  event_type = "PyNTS_Alarm";
}

unfoldable new_file_ready : String → ℕ → String → Message
new_file_ready location size expiry = record {
  event = file_ready location size expiry;
  append_port = false;
  port = 830;
  contents = event_data "stndDefinedFields" (file_ready_fields size expiry);
  namespace = some "3GPP-PerformanceAssurance";
  domain = "stndDefined";
  priority = "Low";
  event_type = "PyNTS_FileReady";
}

unfoldable new_pnf_ssh : ℕ → String → String → Bool → Message
unfolding pnf_fields
new_pnf_ssh port nc_user nc_pass append_port = record {
  event = pnf_ssh port nc_user nc_pass append_port;
  append_port = append_port;
  port = port;
  contents =
      event_data "pnfRegistrationFields"
        (pnf_fields port "SSH" (("username", str nc_user) ∷ ("password", str nc_pass) ∷ []));
  namespace = none;
  domain = "pnfRegistration";
  priority = "Low";
  event_type = "PyNTS_pnfRegistration";
}

unfoldable new_pnf_tls : String → ℕ → Bool → Message
unfolding pnf_fields
new_pnf_tls name port append_port = record {
  event = pnf_tls name port append_port;
  append_port = append_port;
  port = port;
  contents = event_data "pnfRegistrationFields" (pnf_fields port "TLS" []);
  namespace = none;
  domain = "pnfRegistration";
  priority = "Low";
  event_type = "PyNTS_pnfRegistration";
}

-- `VesEventNotificationWrapper`, of a notification that an O-RU has sent.
unfoldable new_notification :
    Value → Option String → (schema notif_name : String) → Option String → Message
new_notification notif namespace schema notif_name source_oru = record {
  event = notified notif namespace schema notif_name source_oru;
  append_port = false;
  port = 830;
  contents =
      event_data "stndDefinedFields" (dict (object (("stndDefinedFieldsVersion", str "1.0") ∷ [])));
  namespace = namespace;
  domain = "stndDefined";
  priority = "Normal";
  event_type = "ORU-YANG/" <> (schema <> (":" <> notif_name));
}

-- The constructor of each class.
unfoldable pub fresh : Event → Message
unfolding new_heartbeat new_alarm new_file_ready new_pnf_ssh new_pnf_tls new_notification
fresh (heartbeat interval) = new_heartbeat interval
fresh alarm = new_alarm
fresh (file_ready location size expiry) = new_file_ready location size expiry
fresh (pnf_ssh port nc_user nc_pass append_port) = new_pnf_ssh port nc_user nc_pass append_port
fresh (pnf_tls name port append_port) = new_pnf_tls name port append_port
fresh (notified notif namespace schema notif_name source_oru) =
    new_notification notif namespace schema notif_name source_oru
