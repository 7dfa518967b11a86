-- ===== src/Performance/Task.antt =====
-- `performance_management_task` and `generate_report`. The text of a report, which fills in
-- `self.template` with regular expressions, and `strftime` are given; so is the world of each turn of
-- the loop, in seconds. The periods for which the loop sleeps are left out.
use sim_o1_ofhmp_interfaces.Prelude.{
  ℕ, ◌+◌, String, ◌<>◌, Bool, Option, none, some, List, [], ◌∷◌, length, get_elem?, leb,
  if◌then◌else◌,
}
use sim_o1_ofhmp_interfaces.Prelude.Result.{Result, ok, err, index_error, attribute_error}
use sim_o1_ofhmp_interfaces.Prelude.Exec.{Exec, pure, lift, gets, modify, ◌>>=◌, ◌>>◌}
use sim_o1_ofhmp_interfaces.Prelude.Dict.{Dict}
use sim_o1_ofhmp_interfaces.DictFactory.{or_raise}
use sim_o1_ofhmp_interfaces.Config.Reload.{Config}
use sim_o1_ofhmp_interfaces.Ves.{file_ready, Host, Session, Post}
use sim_o1_ofhmp_interfaces.Ves.Execute.{execute}
use sim_o1_ofhmp_interfaces.Ves.Updated.{with_new}
use sim_o1_ofhmp_interfaces.Performance.{Performance, divides, attr}

-- A file of /ftp, with what its text is made from.
pub record Report : Type 0 where
  pub path : String
  pub values : Dict String
  pub start_time : ℕ
  pub end_time : ℕ

-- The local variables of the task, the attributes that it reads, and what it does to others. An index
-- of none is the -1 that the task begins with. The reports that were written stand in `files`, the
-- newest first; those that `cleanup_reports` deletes later stay in it.
pub record Task : Type 0 where
  pub performance : Performance
  pub start_time : ℕ
  pub current_value_index : Option ℕ
  pub ves : Session
  pub files : List Report

-- How times are written, and how many characters the text of a report has, or what raises on the way.
pub record Texts : Type 0 where
  pub strftime : String → ℕ → String
  pub timestamp : ℕ → String
  pub content : Performance → String → Dict String → ℕ → ℕ → Result ℕ

-- What one turn meets.
pub record World : Type 0 where
  pub stopping : Bool
  pub now : ℕ
  pub end_time : ℕ
  pub written : ℕ
  pub next_start : ℕ
  pub host : Host
  pub collector : Post → Result ℕ

-- One more, and back to 0 at the end.
unfoldable pub next_index : Option ℕ → ℕ → ℕ
next_index none n = 0
next_index (some i) n = if leb n (i + 1) then 0 else i + 1

unfoldable pub report_path : Texts → String → ℕ → ℕ → String
report_path t hostname start_time end_time =
    "/ftp"
    <> ("/"
        <> ("A"
            <> (t.strftime "%Y%m%d.%H%M" start_time
                <> ("+0000-"
                    <> (t.strftime "%H%M" end_time <> ("+0000_1_" <> (hostname <> ".xml")))))))

-- `open` with "w" empties the file before its text is made; here a report whose text raises is left
-- out.
unfoldable pub generate_report : Texts → World → Dict String → Exec Task (String × ℕ × String)
unfolding report_path or_raise
generate_report t w values s =
    (do
      size ← lift (t.content s.performance w.host.hostname values s.start_time w.end_time)
      modify (λ u. record u {
        files =
            record {
              path = report_path t w.host.hostname s.start_time w.end_time;
              values = values;
              start_time = s.start_time;
              end_time = w.end_time;
            }
            ∷ u.files;
      })
      repetition ← lift (or_raise attribute_error s.performance.repetition_period)
      pure (
        report_path t w.host.hostname s.start_time w.end_time,
        size,
        t.timestamp (w.written + repetition),
      ))
      s

-- `self.ves.execute(file_ready)`
unfoldable pub send_file_ready : Config → World → String × ℕ × String → Exec Task Bool
unfolding execute
send_file_ready c w (path, size, expiry) s =
    let r : Result Bool × Session =
      execute c w.host w.collector (with_new (file_ready path size expiry) s.ves) in
    (r.0, record s { ves = r.1 })

-- What is done when a period is over.
unfoldable pub report : Texts → Config → World → Exec Task (Unit {0})
unfolding generate_report send_file_ready or_raise next_index
report t c w = do
  i ← gets (λ s. s.current_value_index)
  l ← λ s. lift (or_raise attribute_error s.performance.values) s
  modify (λ s. record s { current_value_index = some (next_index i (length l)) })
  values ← lift (or_raise index_error (get_elem? l (next_index i (length l))))
  made ← generate_report t w values
  modify (λ s. record s { start_time = w.next_start })
  sent ← send_file_ready c w made
  pure tt

unfoldable pub is_due : World → Performance → Result Bool
is_due w p = elim (attr p.log_period) [ err e ↦ err e | ok l ↦ divides l w.now ]

unfoldable pub one_turn : Texts → Config → World → Exec Task (Unit {0})
unfolding report is_due
one_turn t c w = do
  due ← λ s. lift (is_due w s.performance) s
  if due then report t c w else pure tt

-- The loop through the worlds that its turns meet. After the last of them it is still running.
unfoldable pub performance_management_task : Texts → Config → List World → Exec Task (Unit {0})
unfolding one_turn
performance_management_task t c [] = pure tt
performance_management_task t c (w ∷ l) =
    let rest = performance_management_task t c l in
    if w.stopping then pure tt else (one_turn t c w >> rest)
