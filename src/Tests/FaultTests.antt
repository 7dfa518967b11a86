-- ===== src/Tests/FaultTests.antt =====
-- The feature with one alarm that is raised and cleared.
use sim_o1_ofhmp_interfaces.Prelude.{
  ℕ, ◌≤◌, ◌<◌, Option, String, List, [], ◌∷◌, ◌++◌, Bool, true, false, none, some, ◌≡◌, refl, ap,
  ◌∙◌, arith, length,
}
use sim_o1_ofhmp_interfaces.Prelude.Result.{Result, ok, err, key_error, attribute_error}
use sim_o1_ofhmp_interfaces.Prelude.Dict.{lookup, insert}
use sim_o1_ofhmp_interfaces.Datetime.{Datetime, utc, NotAfter, ensure_aware}
use sim_o1_ofhmp_interfaces.Fault.Alarm.{
  Alarm, cleared, major, new, combined_id, to_ietf_alarm_notif,
}
use sim_o1_ofhmp_interfaces.Fault.Manager.{Fault, Notif, Step, init, send_notification}
use sim_o1_ofhmp_interfaces.Fault.Control.{Settings, text, start, load_alarms, launch}
use sim_o1_ofhmp_interfaces.Fault.Task.{
  next, running, failed, System, Reaches, here, later, asked_start, ran, initial, round, thread_of,
  started, perform,
}
use sim_o1_ofhmp_interfaces.Fault.Threads.{
  count_running, count_failed, one_task, start_after_failure,
}
use sim_o1_ofhmp_interfaces.Fault.Counters.{
  Call, call_raise, call_clear, calls, Balanced, calls-Balanced,
}
use sim_o1_ofhmp_interfaces.Fault.Change.{Reaches-last_changed}
use sim_o1_ofhmp_interfaces.Fault.Replay.{told, shown, current}
use sim_o1_ofhmp_interfaces.Fault.Replay.Performed.{perform-told}
use sim_o1_ofhmp_interfaces.Fault.Replay.FirstCleared.{perform-first_cleared}
use sim_o1_ofhmp_interfaces.Fault.Receive.{time_of}
use sim_o1_ofhmp_interfaces.Fault.Schedule.{
  none_yet as no_round, one_more, Loops, Rounds-once, round_robin, upwards,
}
use sim_o1_ofhmp_interfaces.Fault.Schedule.Course.{Course, none_yet, requested, took, Course-loop}

-- A parser that reads every text as the same naive time.
abbrev pub parse : String → Result Datetime
parse s = ok (record { clock = 7; zone = none })

abbrev pub now : Datetime
now = record { clock = 5; zone = some utc }

abbrev notif : String → Notif
notif severity = record {
  resource = some "fan";
  alarm_type_id = some "hot";
  alarm_type_qualifier = some "";
  time = none;
  perceived_severity = some severity;
  is_cleared = none;
  alarm_text = some "too hot";
}

abbrev steps : List Step
steps =
    record { alarm = some (notif "major"); delay = some 1 }
    ∷ record { alarm = some (notif "cleared"); delay = none }
    ∷ []

abbrev pub settings : Option Bool → Settings
settings loop = record {
  alarms = some steps;
  config = some (record { loop = loop; config = none });
}

abbrev asked : Option Bool → System
asked loop = record {
  fault = (start (some (settings loop)) none (init true false now)).1;
  threads = [] ++ started (start (some (settings loop)) none (init true false now)).0;
}

was_asked : (loop : Option Bool) → Reaches parse (initial true false now) (asked loop)
was_asked loop = later here (asked_start (some (settings loop)) none refl)

one_task_example :
    (count_running (asked none).threads ≤ 1)
    × ((asked none).fault.stopped ≡ true → count_running (asked none).threads ≡ 0)
one_task_example = one_task parse true false now (asked none) (was_asked none)

-- Each next round of the thread.
abbrev advanced : ℕ → System → System
advanced k s = record {
  fault = (round parse false now k s.fault).1;
  threads = thread_of (round parse false now k s.fault).0 ∷ [];
}

abbrev dead : System
dead = advanced 2 (advanced 1 (advanced 0 (asked none)))

lives :
    ((asked none).threads ≡ running 0 ∷ [])
    × ((advanced 0 (asked none)).threads ≡ running 1 ∷ [])
    × ((advanced 1 (advanced 0 (asked none))).threads ≡ running 2 ∷ [])
unfolding start load_alarms launch init round lookup insert send_notification to_ietf_alarm_notif
lives = (refl, refl, refl)

dies : (dead.threads ≡ failed key_error ∷ []) × (dead.fault.disabled ≡ false)
unfolding start load_alarms launch init round lookup insert send_notification to_ietf_alarm_notif
dies = (refl, refl)

dies_here : Reaches parse (initial true false now) dead
dies_here =
    later
      (later (later (was_asked none) (ran [] [] 0 false now (lives.0) refl))
        (ran [] [] 1 false now (lives.1) refl))
      (ran [] [] 2 false now (lives.2) refl)

has_failed : 0 < count_failed dead.threads
has_failed = rw (dies.0) (omega arith)

start_after_failure_example :
    (count_running dead.threads ≡ 0)
    × (start (some (settings (some true))) none dead.fault
        ≡ (record { code = 500; message = text "feature is already running" }, dead.fault))
start_after_failure_example =
    start_after_failure parse true false now dead (some (settings (some true))) none dies_here
      has_failed (dies.1)

-- The feature with and without the loop, and what three rounds make of it.
abbrev going : Bool → Fault
going b = (asked (some b)).fault

abbrev after_one : Bool → Fault
after_one b = (round parse false now 0 (going b)).1

abbrev after_two : Bool → Fault
after_two b = (round parse false now 1 (after_one b)).1

abbrev after_three : Fault
after_three = (round parse false now 2 (after_two true)).1

looping : (b : Bool) → Loops b (going b)
unfolding start load_alarms launch init
looping b = (record { loop = some b; config = none }, refl, refl)

two_steps : (b : Bool) → length (going b).alarm_steps ≡ 2
unfolding start load_alarms launch init
two_steps b = refl

first_rounds :
    (b : Bool)
    → (round parse false now 0 (going b) ≡ (next 1, after_one b))
      × (round parse false now 1 (after_one b) ≡ (next 2, after_two b))
unfolding start load_alarms launch init round lookup insert send_notification to_ietf_alarm_notif
first_rounds b = (refl, refl)

third_round : round parse false now 2 (after_two true) ≡ (next 1, after_three)
unfolding start load_alarms launch init round lookup insert send_notification to_ietf_alarm_notif
third_round = refl

-- Between the first two rounds there are requests to start with another configuration, and to clear.
begins : (asked (some true)).threads ≡ running 0 ∷ []
unfolding start load_alarms launch init
begins = refl

abbrev mid : System
mid = record { fault = after_one true; threads = running 1 ∷ [] }

abbrev other : Settings
other = record { alarms = some []; config = none }

abbrev asked_again : System
asked_again = record {
  fault = (start (some other) none mid.fault).1;
  threads = mid.threads ++ started (start (some other) none mid.fault).0;
}

still : (asked_again.threads ≡ running 1 ∷ []) × (asked_again.fault ≡ after_one true)
unfolding start load_alarms launch init round lookup insert send_notification to_ietf_alarm_notif
still = (refl, refl)

course : Course parse (asked (some true)) (0 ∷ 1 ∷ 0 ∷ [])
course = took [] [] 0 false now 0 (after_one true) (1 ∷ 0 ∷ []) begins ((first_rounds true).0) (
    requested asked_again (asked_start (some other) none refl) tt (
      took [] [] 1 false now 1 (after_two true) (0 ∷ []) (still.0)
        (ap (round parse false now 1) (still.1) ∙ (first_rounds true).1)
        (took [] [] 2 false now 0 after_three [] refl third_round none_yet)))

Course-loop_example : 0 ∷ 1 ∷ 0 ∷ [] ≡ round_robin (length (going true).alarm_steps) 0 3
Course-loop_example =
    Course-loop parse true false now (asked (some true)) [] [] 0 (0 ∷ 1 ∷ 0 ∷ [])
      (was_asked (some true)) begins (looping true) (rw (two_steps true) (omega arith))
      (omega arith) course

Rounds-once_example : (0 ∷ 1 ∷ [] ≡ upwards 0 2) × (2 ≤ length (going false).alarm_steps)
Rounds-once_example = Rounds-once parse 0 (going false) (0 ∷ 1 ∷ []) (looping false) (omega arith) (
    one_more false now 0 (after_one false) (after_one false) (1 ∷ []) ((first_rounds false).0) refl
      refl
      (one_more false now 1 (after_two false) (after_two false) [] ((first_rounds false).1) refl
        refl no_round))

Reaches-last_changed_example : NotAfter now dead.fault.last_changed
unfolding init
Reaches-last_changed_example = Reaches-last_changed parse (initial true false now) dead dies_here

-- The alarm is there, and was told as major.
known :
    ((after_one true).ietf_alarms ≡ true)
    × ((after_one true).o_ran_fm ≡ false)
    × ((current (new "fan" "hot" "") (after_one true)).perceived_severity ≡ some major)
    × ((current (new "fan" "hot" "") (after_one true)).resource ≡ "fan")
    × ((current (new "fan" "hot" "") (after_one true)).alarm_type_id ≡ "hot")
    × ((current (new "fan" "hot" "") (after_one true)).alarm_type_qualifier ≡ "")
unfolding start load_alarms launch init round lookup insert send_notification to_ietf_alarm_notif
known = (refl, refl, refl, refl, refl, refl)

abbrev told_cleared : Step
told_cleared = record {
  alarm = some (told "fan" "hot" "" none cleared "cool again");
  delay = some 4;
}

perform-told_example :
    ((perform parse told_cleared now (after_one true)).0 ≡ ok tt)
    × ((perform parse told_cleared now (after_one true)).1.sent
        ≡ (after_one true).sent
          ++ shown "fan" "hot" "" cleared (ensure_aware now) "cool again" ∷ [])
unfolding time_of start load_alarms launch init round lookup insert send_notification
    to_ietf_alarm_notif
perform-told_example =
    perform-told parse now "fan" "hot" "" none cleared "cool again" now (after_one true) (some 4)
      refl refl refl (major, refl) refl refl refl

perform-first_cleared_example :
    ((perform parse told_cleared now (going true)).0 ≡ err attribute_error)
    × ((perform parse told_cleared now (going true)).1.sent ≡ (going true).sent)
    × (lookup (combined_id "fan" "hot" "") (perform parse told_cleared now (going true)).1.alarms
        ≡ some (record (new "fan" "hot" "") {
          time_created = some now;
          last_raised = some now;
          is_cleared = some false;
        }))
unfolding time_of start load_alarms launch init lookup
perform-first_cleared_example =
    perform-first_cleared parse now "fan" "hot" "" none "cool again" now (going true) (some 4) refl
      refl refl

-- An alarm that was raised once, and what is called on it.
abbrev hot : Alarm
hot = record (new "fan" "hot" "") { is_cleared = some false; times_raised = 1 }

abbrev on_hot : List Call
on_hot =
    call_clear now
    ∷ call_clear now
    ∷ call_raise (some cleared) now
    ∷ call_raise (some major) now
    ∷ []

calls-Balanced_example : (b : Bool) × Balanced hot false (calls on_hot hot) b
calls-Balanced_example = calls-Balanced on_hot hot false refl

counted : ((calls on_hot hot).times_raised ≡ 2) × ((calls on_hot hot).times_cleared ≡ 1)
unfolding calls
counted = (refl, refl)
