-- ===== src/Core.antt =====
-- base/src/core/core.py: how `startup` loads the files of /data. What opening and parsing a file come
-- to is an argument.
pub mod Places
pub mod Loaded
use sim_o1_ofhmp_interfaces.Prelude.{
  String, Bool, true, false, List, [], ◌∷◌, ◌==◌, string_eq, if◌then◌else◌,
}
use sim_o1_ofhmp_interfaces.Prelude.Result.{Error, Result, ok, err, value_error, libyang_error}
use sim_o1_ofhmp_interfaces.Prelude.Exec.{Exec, pure, lift, ◌>>=◌}
use sim_o1_ofhmp_interfaces.Value.{Value}
use sim_o1_ofhmp_interfaces.Server.{Datastore, running, operational}
use sim_o1_ofhmp_interfaces.Netconf.{Sysrepo, Trace, set_data_from_path}
use sim_o1_ofhmp_interfaces.Netconf.Files.{File, get_datastore_files}

-- What the files hold.
pub record Data : Type 0 where
  pub opened : File → Result (Unit {0})
  pub parsed : File → Result Value

-- `Datastore(name)`
unfoldable pub datastore_of : String → Result Datastore
datastore_of x =
    if x == "running"
    then ok running
    else if x == "operational"
    then ok operational
    else err value_error

unfoldable pub load_file : Sysrepo → Data → File → Exec Trace (Unit {0})
unfolding datastore_of set_data_from_path
load_file sysrepo data_dir f = do
  datastore ← lift (datastore_of f.datastore)
  set_data_from_path sysrepo datastore (data_dir.opened f) (data_dir.parsed f)

-- `except LibyangError`: the loop goes on.
unfoldable pub unless_refused : Result (Unit {0}) → Exec Trace (Unit {0}) → Exec Trace (Unit {0})
unless_refused (ok x) rest = rest
unless_refused (err libyang_error) rest = rest
unless_refused (err e) rest = λ s. (err e, s)

unfoldable pub load_files : Sysrepo → Data → List File → Exec Trace (Unit {0})
unfolding load_file unless_refused
load_files sysrepo data_dir [] = pure tt
load_files sysrepo data_dir (f ∷ l) = λ s.
    unless_refused (load_file sysrepo data_dir f s).0 (load_files sysrepo data_dir l)
      (load_file sysrepo data_dir f s).1

-- The part of `startup` from `Path("/data").exists()` on, where the directory lists these names.
unfoldable pub populate : Sysrepo → Data → Bool → List String → Exec Trace (Unit {0})
unfolding load_files get_datastore_files
populate sysrepo data_dir exists listing =
    if exists
    then load_files sysrepo data_dir (get_datastore_files "/data" ("json" ∷ "xml" ∷ []) listing)
    else pure tt
