-- ===== src/Odu.antt =====
-- o-du-o1/src/main.py: the extension of an O-DU, which O-RUs call home to. Each call is a session
-- with a number, kept in the dictionary `active_sessions` while its handler runs.
pub mod Handler
pub mod Threads
pub mod Covered
pub mod Calls
pub mod Stretch
pub mod Listed
pub mod Collected
pub mod Element
pub mod Response
use sim_o1_ofhmp_interfaces.Prelude.{
  String, Bool, true, false, List, [], ◌∷◌, ◌==◌, string_eq, if◌then◌else◌,
}
use sim_o1_ofhmp_interfaces.Prelude.Table.{Table}
use sim_o1_ofhmp_interfaces.Ves.{Session}

-- An entry of `active_sessions`. The NETCONF manager is what answers the calls of the session.
pub record Active : Type 0 where
  pub address : String
  pub hostname : String

-- What the handlers share: the dictionary, the instances below `aggregated-o-ru` in the running
-- datastore, and the one `Ves` object.
pub record State : Type 0 where
  pub active : Table Active
  pub instances : List String
  pub ves : Session

abbrev pub is_in : String → List String → Bool
is_in x [] = false
is_in x (y ∷ l) = if y == x then true else is_in x l

-- A merge creates the list entry of a key, or keeps the one that is there.
unfoldable pub merged : String → List String → List String
merged x l = if is_in x l then l else x ∷ l

-- `delete_item` takes the list entry of a key away, and does nothing where there is none.
unfoldable pub without : String → List String → List String
without x [] = []
without x (y ∷ l) = let rest = without x l in if y == x then rest else y ∷ rest
