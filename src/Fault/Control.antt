-- ===== src/Fault/Control.antt =====
-- `load_active_alarms`, `load_alarms`, `start`, `stop` and the REST replies of fault_management.py.
use sim_o1_ofhmp_interfaces.Prelude.{
  ℕ, ◌+◌, String, true, false, Option, none, some, List, [], ◌∷◌, nat_beq, if◌then◌else◌,
}
use sim_o1_ofhmp_interfaces.Prelude.Result.{Error, Result, ok, err, name_error, exception}
use sim_o1_ofhmp_interfaces.Prelude.Exec.{Exec, pure, raise, lift, modify, ◌>>=◌, ◌>>◌}
use sim_o1_ofhmp_interfaces.Datetime.{Datetime}
use sim_o1_ofhmp_interfaces.Fault.Manager.{Fault, Step, AlarmConfig}
use sim_o1_ofhmp_interfaces.Fault.Receive.{item, AlarmData, from_ietf_alarm}

-- The configuration, from the request or from the file; a missing key is `none`.
pub record Settings : Type 0 where
  pub alarms : Option (List Step)
  pub config : Option AlarmConfig

unfoldable pub total_delay : List Step → ℕ
total_delay [] = 0
total_delay (step ∷ l) =
    let rest = total_delay l in elim step.delay [ none ↦ rest | some d ↦ d + rest ]

-- With no key "loop" the source writes the key "config" into the configuration.
unfoldable pub default_loop : AlarmConfig → AlarmConfig
default_loop c = elim c.loop [ none ↦ record c { config = some true } | some b ↦ c ]

-- `alarm_data`, or else what the file of the feature holds, if there is one.
unfoldable pub settings_of : Option Settings → Option Settings → Result Settings
settings_of (some settings) file = ok settings
settings_of none none = err exception
settings_of none (some settings) = ok settings

unfoldable pub load_alarms : Option Settings → Option Settings → Exec Fault (Unit {0})
unfolding settings_of total_delay default_loop
load_alarms given file = do
  settings ← lift (settings_of given file)
  steps ← lift (item settings.alarms)
  if nat_beq (total_delay steps) 0 then raise exception else do
    config ← lift (item settings.config)
    modify (λ s. record s { alarm_config = some (default_loop config); alarm_steps = steps })

-- A reply: its status, and a text or the traceback of what was raised.
pub data Message : Type 0 where
  text : String → Message
  traceback : Error → Message

pub record Reply : Type 0 where
  pub code : ℕ
  pub message : Message

unfoldable pub launch : Result (Unit {0}) → Fault → Reply × Fault
launch (err e) s = (record { code = 500; message = traceback e }, s)
launch (ok _) s =
    (record { code = 200; message = text "ok" }, record s { fault_stop = false; stopped = false })

-- `start`; with the code 200 a thread has been started.
unfoldable pub start : Option Settings → Option Settings → Fault → Reply × Fault
unfolding load_alarms launch
start given file s =
    if s.disabled
    then (record { code = 500; message = text "feature is disabled; check log" }, s)
    else if s.stopped
    then launch (load_alarms given file s).0 (load_alarms given file s).1
    else (record { code = 500; message = text "feature is already running" }, s)

unfoldable pub stop : Fault → Reply × Fault
stop s =
    if s.stopped
    then (record { code = 500; message = text "feature is already stopped" }, s)
    else (record { code = 200; message = text "ok" }, record s { fault_stop = true })

-- What the datastore holds under "alarm-list", if it is there with both of its keys.
pub record ActiveAlarms : Type 0 where
  pub last_changed : String
  pub alarm : List AlarmData

unfoldable pub after_ietf : Exec Fault (Unit {0})
after_ietf s = if s.o_ran_fm then (err name_error, s) else (ok tt, s)

module _ (parse : String → Result Datetime) where
  unfoldable pub receive_all : List AlarmData → Datetime → Exec Fault (Unit {0})
  unfolding from_ietf_alarm
  receive_all [] now = pure tt
  receive_all (a ∷ l) now = do from_ietf_alarm parse a now; receive_all l now

  unfoldable pub load_list : Option ActiveAlarms → Datetime → Exec Fault (Unit {0})
  unfolding receive_all
  load_list none now = pure tt
  load_list (some active) now = do
    t ← lift (parse active.last_changed)
    modify (λ s. record s { last_changed = t })
    receive_all active.alarm now

  -- With o-ran-fm the source names a variable that is not there, which raises; here the error is
  -- the one of an unknown name.
  unfoldable pub load_active_alarms : Option ActiveAlarms → Datetime → Exec Fault (Unit {0})
  unfolding load_list after_ietf
  load_active_alarms active now s =
      if s.ietf_alarms then (do load_list active now; after_ietf) s else after_ietf s
