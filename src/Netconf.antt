-- ===== src/Netconf.antt =====
-- base/src/core/netconf.py: `Netconf`, the client of sysrepo. The calls that it makes on the two
-- sessions are kept as a list; whether a call raises is a function of the calls before it.
pub mod Calls
pub mod Files
use text.Mathlib.Text.{starts_with}
use sim_o1_ofhmp_interfaces.Prelude.{
  String, ◌<>◌, Bool, true, false, List, [], ◌∷◌, ◌++◌, ◌==◌, string_eq, if◌then◌else◌,
}
use sim_o1_ofhmp_interfaces.Prelude.Result.{Error, Result, ok, err, type_error, attribute_error}
use sim_o1_ofhmp_interfaces.Prelude.Exec.{Exec, pure, raise, lift, ◌>>=◌, ◌>>◌}
use sim_o1_ofhmp_interfaces.Value.{
  Key, name, Value, null, bool, num, str, list, dict, Items, nil, cons, Entries, end, entry,
}
use sim_o1_ofhmp_interfaces.Server.{Datastore}

-- A call on the session of a datastore.
pub data Call : Type 0 where
  set_item : (xpath text : String) → Call
  edit_batch : (edit : Value) (module_name default_operation : String) → Call
  edit_batch_ly : (edit : Value) → Call
  apply_changes : Call

abbrev pub Trace : Type 0
Trace = List (Datastore × Call)

abbrev pub Sysrepo : Type 0
Sysrepo = Trace → Datastore → Call → Result (Unit {0})

unfoldable pub make : Sysrepo → Datastore → Call → Exec Trace (Unit {0})
make sysrepo datastore call s = (sysrepo s datastore call, s ++ (datastore, call) ∷ [])

-- `s[1:]` and `s[:-1]`
abbrev pub rest : String → String
rest String.[] = ""
rest (String.◌∷◌ c s) = s

unfoldable pub ends_with_slash : String → Bool
ends_with_slash String.[] = false
ends_with_slash (String.◌∷◌ c String.[]) = String.◌∷◌ c "" == "/"
ends_with_slash (String.◌∷◌ c (String.◌∷◌ d s)) = ends_with_slash (String.◌∷◌ d s)

unfoldable pub without_last : String → String
without_last String.[] = ""
without_last (String.◌∷◌ c String.[]) = ""
without_last (String.◌∷◌ c (String.◌∷◌ d s)) = String.◌∷◌ c (without_last (String.◌∷◌ d s))

abbrev pub is_marked : String → Bool
is_marked operation = starts_with operation "!"

abbrev pub unmarked : String → String
unmarked operation = if is_marked operation then rest operation else operation

abbrev pub without_end : String → String
unfolding ends_with_slash without_last
without_end xpath = if ends_with_slash xpath then without_last xpath else xpath

abbrev pub without_start : String → String
without_start xpath = if starts_with xpath "/" then rest xpath else xpath

-- The edit of one module or one item; data of another type are passed over.
unfoldable pub stage : Sysrepo → Datastore → String → Value → String → Exec Trace (Unit {0})
unfolding make without_end
stage sysrepo datastore xpath (str text) operation =
    make sysrepo datastore (set_item (without_end xpath) text)
stage sysrepo datastore xpath (dict d) operation =
    make sysrepo datastore
      (edit_batch (dict d) (without_start (without_end xpath)) (unmarked operation))
stage sysrepo datastore xpath v operation = pure tt

-- The end of `set_data`.
unfoldable pub finish : Sysrepo → Datastore → String → Exec Trace (Unit {0})
unfolding make
finish sysrepo datastore operation s =
    if is_marked operation then (ok tt, s) else make sysrepo datastore apply_changes s

-- `for module in data`, where the data is no dictionary: a text or a list that holds something is asked
-- for it as a key.
unfoldable pub no_modules : Value → Exec Trace (Unit {0})
no_modules (str String.[]) = pure tt
no_modules (list nil) = pure tt
no_modules v = raise type_error

unfoldable mutual
  unfolding stage finish no_modules

  -- `set_data`; an xpath that is None stands as the empty text.
  pub set_data : Sysrepo → Datastore → String → Value → String → Exec Trace (Unit {0})
  set_data sysrepo datastore xpath (dict d) operation = do
    (if xpath == ""
        then set_modules sysrepo datastore d operation
        else stage sysrepo datastore xpath (dict d) operation)
    finish sysrepo datastore operation
  set_data sysrepo datastore xpath v operation = do
    (if xpath == "" then no_modules v else stage sysrepo datastore xpath v operation)
    finish sysrepo datastore operation

  pub set_modules : Sysrepo → Datastore → Entries → String → Exec Trace (Unit {0})
  set_modules sysrepo datastore end operation = pure tt
  set_modules sysrepo datastore (entry (name k) v d) operation = do
    set_data sysrepo datastore k v ("!" <> operation)
    set_modules sysrepo datastore d operation
  set_modules sysrepo datastore (entry k v d) operation = raise attribute_error

-- `set_data_from_path`, on a session of its own, with what opening and parsing the file come to.
unfoldable pub set_data_from_path :
    Sysrepo
    → Datastore
    → (opened : Result (Unit {0})) → (parsed : Result Value) → Exec Trace (Unit {0})
unfolding make
set_data_from_path sysrepo datastore opened parsed = do
  lift opened
  edit ← lift parsed
  make sysrepo datastore (edit_batch_ly edit)
  make sysrepo datastore apply_changes
