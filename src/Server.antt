-- ===== src/Server.antt =====
-- base/src/core/netconf_server.py and the features that write templates to the datastore
-- (base/src/feature/ietf_system.py, netconf_acm.py, ietf_keystore_truststore.py). What is written is
-- kept as a list; what `CryptoUtils` gives is an argument.
pub mod Layouts
pub mod Endpoints
pub mod Features
pub mod Written
use sim_o1_ofhmp_interfaces.Prelude.{String, List, [], ◌∷◌, ◌++◌}
use sim_o1_ofhmp_interfaces.Prelude.Result.{Result, ok, err}
use sim_o1_ofhmp_interfaces.Prelude.Exec.{Exec}
use sim_o1_ofhmp_interfaces.Value.{
  Key, name, Value, dict, list, Items, nil, cons, Entries, end, entry,
}
use sim_o1_ofhmp_interfaces.DictFactory.Registry.{Templates}

pub data Datastore : Type 0 where
  running operational : Datastore

-- A call of `Netconf.set_data`, or of `replace_config` on a session.
pub record Write : Type 0 where
  pub datastore : Datastore
  pub xpath : String
  pub contents : Value
  pub operation : String

pub record Device : Type 0 where
  pub templates : Templates
  pub writes : List Write

abbrev pub set_data : Datastore → String → Value → String → Exec Device (Unit {0})
set_data datastore xpath contents operation s = (
  ok tt,
  record s {
    writes =
        s.writes
        ++ record {
          datastore = datastore;
          xpath = xpath;
          contents = contents;
          operation = operation;
        }
          ∷ [];
  },
)

-- Nested dictionaries and lists.
abbrev pub fields : List (String × Value) → Value
fields l = dict (go l)
  where
    go : List (String × Value) → Entries
    go [] = end
    go ((k, v) ∷ l) = entry (name k) v (go l)

abbrev pub items : List Value → Value
items l = list (go l)
  where
    go : List Value → Items
    go [] = nil
    go (v ∷ l) = cons v (go l)

-- A path of names.
abbrev pub names : List String → List Key
names [] = []
names (k ∷ l) = name k ∷ names l
