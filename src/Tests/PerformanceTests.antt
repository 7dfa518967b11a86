-- ===== src/Tests/PerformanceTests.antt =====
-- Two points, logged each minute.
use sim_o1_ofhmp_interfaces.Prelude.{
  ℕ, Bool, List, map, length, arith, true, false, none, some, [], ◌∷◌, ◌≡◌, refl,
}
use sim_o1_ofhmp_interfaces.Prelude.Result.{
  Result, ok, err, attribute_error, index_error, request_error,
}
use sim_o1_ofhmp_interfaces.Ves.Events.{fresh}
use sim_o1_ofhmp_interfaces.DictFactory.{assign}
use sim_o1_ofhmp_interfaces.Value.{put}
use sim_o1_ofhmp_interfaces.Performance.{
  Settings, Performance, load_data, start as start_measuring, numbered,
}
use sim_o1_ofhmp_interfaces.Performance.Task.{Texts, World, Task, performance_management_task}
use sim_o1_ofhmp_interfaces.Performance.Index.{Cycled}
use sim_o1_ofhmp_interfaces.Performance.Cycle.{dues, performance_management_task-Cycled}
use sim_o1_ofhmp_interfaces.Tests.VesTests.{config, host, start}
use sim_o1_ofhmp_interfaces.Performance.Loaded.{IsLoaded, load_data-IsLoaded, start_given}

abbrev before : Performance
before = record {
  disabled = false;
  stopped = true;
  stop_event = false;
  log_period = none;
  repetition_period = none;
  points = none;
  values = none;
  roll_after = "+1440";
  points_id = none;
}

abbrev file : Settings
file = record {
  config = some (record {
    log_period = some 60;
    repetition_period = some 900;
    points = some ("rx" ∷ "tx" ∷ []);
  });
  values = some ((("rx", "1") ∷ ("tx", "2") ∷ []) ∷ (("tx", "4") ∷ ("rx", "3") ∷ []) ∷ []);
}

loads : (load_data none (some file) before).0 ≡ ok tt
unfolding load_data
loads = refl

load_data-IsLoaded_example : IsLoaded (load_data none (some file) before).1
load_data-IsLoaded_example = load_data-IsLoaded none (some file) before loads

start_given_example :
    (load_data (some file) none before ≡ (err attribute_error, before))
    × (start_measuring (some file) none before
        ≡ (record before { stopped = false; stop_event = false }, true))
start_given_example = start_given file none before refl refl refl

ids : numbered 1 ("rx" ∷ "tx" ∷ []) [] ≡ ("rx", "1") ∷ ("tx", "2") ∷ []
unfolding numbered
ids = refl

abbrev texts : Texts
texts = record {
  strftime = λ format time. "t";
  timestamp = λ time. "2026-01-01T00:00:00.000Z";
  content = λ p hostname v a b. ok 100;
}

abbrev at_second : ℕ → ℕ → Bool → World
at_second n status stopping = record {
  stopping = stopping;
  now = n;
  end_time = n;
  written = n;
  next_start = n;
  host = host;
  collector = λ p. ok status;
}

-- Three periods, two answers that are refused, a turn in between, and an end that the last turn is
-- behind.
abbrev turns : List World
turns =
    at_second 60 200 false
    ∷ at_second 61 200 false
    ∷ at_second 120 503 false
    ∷ at_second 180 503 false
    ∷ at_second 200 200 true
    ∷ at_second 240 200 false
    ∷ []

abbrev task : Task
task = record {
  performance = (load_data none (some file) before).1;
  start_time = 0;
  current_value_index = none;
  ves = start;
  files = [];
}

abbrev ended : Result (Unit {0}) × Task
ended = performance_management_task texts config turns task

performance_management_task-Cycled_example :
    (ended.0 ≡ ok tt)
    × (length ended.1.files ≡ dues 60 turns)
    × Cycled
        ((("rx", "1") ∷ ("tx", "2") ∷ []) ∷ (("tx", "4") ∷ ("rx", "3") ∷ []) ∷ [])
        ended.1.files
unfolding load_data
performance_management_task-Cycled_example =
    performance_management_task-Cycled texts config
      ((("rx", "1") ∷ ("tx", "2") ∷ []) ∷ (("tx", "4") ∷ ("rx", "3") ∷ []) ∷ []) 59 900 turns task
      refl (ground arith) refl refl (λ h v a b. (100, refl))
      (
        λ p. (200, refl),
        (
          λ p. (200, refl),
          (λ p. (503, refl), (λ p. (503, refl), (λ p. (200, refl), (λ p. (200, refl), tt)))),
        ),
      )
      refl refl

three : dues 60 turns ≡ 3
unfolding dues
three = refl

taken :
    map (λ r. r.values) ended.1.files
    ≡ (("rx", "1") ∷ ("tx", "2") ∷ [])
      ∷ (("tx", "4") ∷ ("rx", "3") ∷ [])
      ∷ (("rx", "1") ∷ ("tx", "2") ∷ [])
      ∷ []
unfolding performance_management_task load_data fresh assign put
taken = refl

-- A file whose list of values is empty is accepted, and the first report raises.
abbrev no_values : Settings
no_values = record { config = file.config; values = some [] }

accepted : (load_data none (some no_values) before).0 ≡ ok tt
unfolding load_data
accepted = refl

ends :
    (performance_management_task texts config turns
      (record task { performance = (load_data none (some no_values) before).1 })).0
    ≡ err index_error
unfolding performance_management_task load_data fresh assign put
ends = refl

-- A collector that cannot be reached ends the task at the first report.
unreachable :
    (performance_management_task texts config
      (record (at_second 60 200 false) { collector = λ p. err request_error } ∷ turns)
      task).0
    ≡ err request_error
unfolding performance_management_task load_data fresh assign put
unreachable = refl
