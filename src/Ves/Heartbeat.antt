-- ===== src/Ves/Heartbeat.antt =====
-- The heartbeat of base/src/feature/ves_heartbeat.py, which sends one message again and again.
use sim_o1_ofhmp_interfaces.Prelude.{ℕ, [], ◌∷◌, ◌≡◌, refl, ap, ◌∙◌, sym}
use sim_o1_ofhmp_interfaces.Value.{num, str, dict, put}
use sim_o1_ofhmp_interfaces.DictFactory.{assign}
use sim_o1_ofhmp_interfaces.Config.Reload.{Config}
use sim_o1_ofhmp_interfaces.Ves.{heartbeat, Message, Host, Session, object}
use sim_o1_ofhmp_interfaces.Ves.Events.{fresh}
use sim_o1_ofhmp_interfaces.Ves.Update.{update, header_fields}
use sim_o1_ofhmp_interfaces.Ves.Updated.{with_new}

-- A heartbeat that was updated.
abbrev beating : Host → ℕ → ℕ → Message
unfolding fresh
beating h seq_id interval = record (fresh (heartbeat interval)) {
  contents = dict (
      object (
        (
          "event",
          dict (
              object (
                (
                  "commonEventHeader",
                  dict (
                      object (
                        ("reportingEntityId", str "")
                        ∷ ("nfNamingCode", str "001")
                        ∷ ("timeZoneOffset", str "+00:00")
                        ∷ ("version", str "4.1")
                        ∷ ("vesEventListenerVersion", str "7.2.1")
                        ∷ header_fields h (fresh (heartbeat interval)) seq_id)),
                )
                ∷ (
                  "heartbeatFields",
                  dict (
                      object (
                        ("heartbeatFieldsVersion", str "3.0")
                        ∷ ("heartbeatInterval", num interval)
                        ∷ (
                          "additionalFields",
                          dict (object (("eventTime", str h.milliseconds) ∷ [])),
                        )
                        ∷ [])),
                )
                ∷ [])),
        )
        ∷ []));
}

first_beat :
    (c : Config) (h : Host) (interval : ℕ) (s : Session)
    → (update c h (with_new (heartbeat interval) s)).1.message ≡ beating h s.seq_id interval
unfolding update fresh assign put
first_beat c h interval s = refl

next_beat :
    (c : Config) (h h' : Host) (seq_id interval : ℕ) (s : Session)
    → (update c h' (record s { message = beating h seq_id interval })).1.message
      ≡ beating h' s.seq_id interval
unfolding update fresh assign put
next_beat c h h' seq_id interval s = refl

-- A heartbeat that was sent before, with any number and at any time, carries after its update what a
-- new message would carry.
pub heartbeat_again :
    (c c' : Config) (h h' : Host) (interval : ℕ) (s t : Session)
    → (update c' h'
        (record s { message = (update c h (with_new (heartbeat interval) t)).1.message })).1.message
      ≡ (update c' h' (with_new (heartbeat interval) s)).1.message
heartbeat_again c c' h h' interval s t =
    ap (λ m. (update c' h' (record s { message = m })).1.message) (first_beat c h interval t)
    ∙ next_beat c' h h' t.seq_id interval s
    ∙ sym (first_beat c' h' interval s)
