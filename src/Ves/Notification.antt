-- ===== src/Ves/Notification.antt =====
-- The message that `VesEventNotificationWrapper` makes of an O-RU's notification.
use sim_o1_ofhmp_interfaces.Prelude.{
  ℕ, String, ◌<>◌, Option, none, some, [], ◌∷◌, ◌≡◌, ◌≢◌, refl, sym, subst, ne_text, string_eq,
}
use sim_o1_ofhmp_interfaces.Prelude.Result.{Result, ok}
use sim_o1_ofhmp_interfaces.Text.{of_nat}
use sim_o1_ofhmp_interfaces.Value.{Value, num, str, dict, get_path, put}
use sim_o1_ofhmp_interfaces.DictFactory.{assign}
use sim_o1_ofhmp_interfaces.Config.Reload.{Config}
use sim_o1_ofhmp_interfaces.Ves.{notified, Host, Session, object}
use sim_o1_ofhmp_interfaces.Ves.Events.{fresh}
use sim_o1_ofhmp_interfaces.Ves.Update.{
  update, update_header, update_event, put_fields, namespace_fields, host_of,
}
use sim_o1_ofhmp_interfaces.Ves.Updated.{with_new, with_fields}

-- The source of an event: the O-RU where it is known, else the O-DU itself.
abbrev source_or : String → Option String → String
source_or own none = own
source_or own (some source) = source

-- The whole message, written out. The reporting entity is the O-DU, the source is the O-RU.
abbrev pub wrapped :
    Host → ℕ → Value → (space schema notif_name : String) → (source : Option String) → Value
wrapped h seq_id notif space schema notif_name source = dict (
    object (
      (
        "event",
        dict (
            object (
              (
                "commonEventHeader",
                dict (
                    object (
                      ("reportingEntityId", str "")
                      ∷ ("nfNamingCode", str "001")
                      ∷ ("timeZoneOffset", str "+00:00")
                      ∷ ("version", str "4.1")
                      ∷ ("vesEventListenerVersion", str "7.2.1")
                      ∷ ("domain", str "stndDefined")
                      ∷ ("eventId", str ("stndDefined" <> ("-ORU-YANG-" <> of_nat seq_id)))
                      ∷ ("eventName", str ("ORU-YANG/" <> (schema <> (":" <> notif_name))))
                      ∷ ("eventType", str ("ORU-YANG/" <> (schema <> (":" <> notif_name))))
                      ∷ ("sequence", num seq_id)
                      ∷ ("priority", str "Normal")
                      ∷ ("reportingEntityName", str ("ManagementElement=" <> h.hostname))
                      ∷ ("sourceId", str (source_or ("ManagementElement=" <> h.hostname) source))
                      ∷ ("sourceName", str (source_or h.hostname source))
                      ∷ ("startEpochMicrosec", num h.microseconds)
                      ∷ ("lastEpochMicrosec", num h.microseconds)
                      ∷ ("nfVendorName", str "pynts")
                      ∷ ("stndDefinedNamespace", str space)
                      ∷ [])),
              )
              ∷ (
                "stndDefinedFields",
                dict (
                    object (
                      ("stndDefinedFieldsVersion", str "1.0")
                      ∷ ("data", notif)
                      ∷ (
                        "schemaReference",
                        str "https://o-ran-sc.org/any-standard-defined-message.yaml",
                      )
                      ∷ [])),
              )
              ∷ [])),
      )
      ∷ []))

module _ (c : Config) (h : Host) (notif : Value) (space schema notif_name : String)
    (s : Session) where
  abbrev pub wrapper : Option String → Session
  wrapper source = with_new (notified notif (some space) schema notif_name source) s

  abbrev IsWrapped : Option String → Result (Unit {0}) × Session → Type 0
  IsWrapped source r =
      (r.0 ≡ ok tt)
      × (r.1.message.contents ≡ wrapped h s.seq_id notif space schema notif_name source)

  with_fields-IsWrapped :
      (source : Option String)
      → IsWrapped source
          (with_fields c h (("stndDefinedNamespace", str space) ∷ []) (wrapper source))
  unfolding update_event fresh get_path assign put put_fields host_of of_nat
  with_fields-IsWrapped none = (refl, refl)
  with_fields-IsWrapped (some x) = (refl, refl)

  namespace_fields-some :
      space ≢ "" → namespace_fields (some space) ≡ ("stndDefinedNamespace", str space) ∷ []
  unfolding namespace_fields
  namespace_fields-some h = rw (ne_text space "" h) refl

  -- Where the module of a notification has a namespace, the update of its message returns and leaves
  -- the whole message: the header names the notification, the number that the message gets and, where
  -- it is known, the O-RU that sent it as source and source id, while the reporting entity is the
  -- O-DU; the notification itself is the data.
  pub update-notification :
      (source : Option String)
      → space ≢ ""
      → ((update c h (wrapper source)).0 ≡ ok tt)
        × ((update c h (wrapper source)).1.message.contents
            ≡ wrapped h s.seq_id notif space schema notif_name source)
  unfolding update update_header fresh
  update-notification source e =
      subst (λ l. IsWrapped source (with_fields c h l (wrapper source)))
        (sym (namespace_fields-some e)) (with_fields-IsWrapped source)
