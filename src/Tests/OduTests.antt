-- ===== src/Tests/OduTests.antt =====
-- Two O-RUs of one host name that call home, and a notification of the first.
use sim_o1_ofhmp_interfaces.Prelude.{
  true, ℕ, String, false, none, some, ◌≡◌, refl, arith, text_ne, Option,
}
use sim_o1_ofhmp_interfaces.Prelude.Result.{Result, ok, err, exception}
use sim_o1_ofhmp_interfaces.Prelude.Table.{find}
use sim_o1_ofhmp_interfaces.Value.{name, str, dict, end, entry, get}
use sim_o1_ofhmp_interfaces.Ves.{Post}
use sim_o1_ofhmp_interfaces.Ves.Update.{update}
use sim_o1_ofhmp_interfaces.Ves.Notification.{wrapper, wrapped, update-notification}
use sim_o1_ofhmp_interfaces.Odu.{Active, is_in}
use sim_o1_ofhmp_interfaces.Odu.Handler.{
  submitted, registered, looping, leaving, raising, heard, turn, Notice,
}
use sim_o1_ofhmp_interfaces.Odu.Threads.{
  System, Reaches, here, later, accepted, ran, connected, prepared, turned, left, accept, run,
  initial,
}
use sim_o1_ofhmp_interfaces.Odu.Stretch.{entry_in}
use sim_o1_ofhmp_interfaces.Odu.Listed.{sessions_listed, leave-drops_other}
use sim_o1_ofhmp_interfaces.Odu.Collected.{turn-collected}
use sim_o1_ofhmp_interfaces.Odu.Response.{get_xml_string_from_response}
use sim_o1_ofhmp_interfaces.Tests.VesTests.{config, has_url, host, start}

abbrev active : String → Active
active address = record { address = address; hostname = "ru" }

abbrev answer : Result (Option (Option (Option String)))
answer = ok (some (some (some "ru")))

abbrev first_call : System
first_call = accept "a" (initial start)

abbrev both : System
both = accept "b" first_call

abbrev entered : System
entered = run 1 (submitted "a") (connected answer) both

abbrev both_entered : System
both_entered = run 2 (submitted "b") (connected answer) entered

abbrev synced : System
synced = run 1 (registered (active "a")) (prepared (ok tt) (ok tt)) both_entered

abbrev both_synced : System
both_synced = run 2 (registered (active "b")) (prepared (ok tt) (ok tt)) synced

abbrev lost : System
lost = run 1 (looping (active "a")) (turned config (raising exception)) both_synced

lost-Reaches : Reaches (initial start) lost
unfolding accept run initial find
lost-Reaches =
    later
      (later
        (later
          (later
            (later (later (later here (accepted "a" refl)) (accepted "b" refl))
              (ran 1 (submitted "a") (connected answer) refl refl))
            (ran 2 (submitted "b") (connected answer) refl refl))
          (ran 1 (registered (active "a")) (prepared (ok tt) (ok tt)) refl refl))
        (ran 2 (registered (active "b")) (prepared (ok tt) (ok tt)) refl refl))
      (ran 1 (looping (active "a")) (turned config (raising exception)) refl refl)

sessions_listed_example :
    ((k : ℕ) → find k lost.state.active ≡ entry_in k lost.handlers)
    × ((x : String)
        → is_in x lost.state.instances ≡ true
        → (k : ℕ) × (a : Active) × (find k lost.state.active ≡ some a) × (a.hostname ≡ x))
    × (find lost.session_id lost.handlers ≡ none)
sessions_listed_example = sessions_listed start lost lost-Reaches

leave-drops_other_example :
    (find 2 (run 1 (leaving (some (active "a"))) (left (ok tt)) lost).state.active
      ≡ some (active "b"))
    × (is_in "ru" (run 1 (leaving (some (active "a"))) (left (ok tt)) lost).state.instances ≡ false)
unfolding accept run initial find
leave-drops_other_example =
    leave-drops_other start lost lost-Reaches 1 2 (active "a") (active "b") (λ e. omega arith) refl
      refl refl

abbrev notice : Notice
notice = record {
  event_time = some (str "2025-01-01T00:00:00Z");
  contents = entry (name "ietf-hardware:hardware-state-change") (dict end) end;
  schema = "ietf-hardware";
  notif_name = "hardware-state-change";
  namespace = "urn:ietf:params:xml:ns:yang:ietf-hardware";
}

abbrev refusing : Post → Result ℕ
refusing p = err exception

turn-collected_example :
    (turn config 1 (active "a") (heard host refusing (ok tt) (ok (some notice))) synced.state).0
    ≡ leaving (some (active "a"))
unfolding accept run initial get find
turn-collected_example =
    turn-collected config host refusing 1 (active "a") notice (str "2025-01-01T00:00:00Z")
      synced.state refl refl refl has_url (λ e. cc) (ok tt)

update-notification_example :
    ((update config host (wrapper config host (str "x") "urn:n" "m" "n" start (some "ru"))).0
      ≡ ok tt)
    × ((update config host
          (wrapper config host (str "x") "urn:n" "m" "n" start (some "ru"))).1.message.contents
        ≡ wrapped host start.seq_id (str "x") "urn:n" "m" "n" (some "ru"))
update-notification_example =
    update-notification config host (str "x") "urn:n" "m" "n" start (some "ru")
      (text_ne "urn:n" "" refl)

-- An answer without its marks, and the answer to a request for operational data.
unwrapped :
    get_xml_string_from_response
      "<data xmlns=\"urn:ietf:params:xml:ns:netconf:base:1.0\"><a/></data>"
    ≡ "<a/>"
unfolding get_xml_string_from_response
unwrapped = refl
