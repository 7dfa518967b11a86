-- ===== src/Tests/NetconfTests.antt =====
-- A template of two modules, and a directory with five files.
use mathlib.Core.List.{Permᴰ}
use mathlib.Core.List.Permᴰ
use sim_o1_ofhmp_interfaces.Prelude.{
  String, true, not, List, [], ◌∷◌, ◌++◌, map, ◌≡◌, refl, text_ne, All, string_eq,
}
use sim_o1_ofhmp_interfaces.Prelude.Result.{ok, err, exception}
use sim_o1_ofhmp_interfaces.Value.{name, str, dict, end, entry}
use sim_o1_ofhmp_interfaces.Server.{running}
use sim_o1_ofhmp_interfaces.Netconf.{ends_with_slash, Sysrepo, apply_changes, set_data}
use sim_o1_ofhmp_interfaces.Netconf.Calls.{Modules, entries, in_turn, edits_of, set_data-in_turn}
use sim_o1_ofhmp_interfaces.Netconf.Files.{
  str_le, File, results, is_top_condition, get_datastore_files, match_file, sorted,
}
use sim_o1_ofhmp_interfaces.Netconf.Files.Ordered.{IsOrdered, get_datastore_files-IsOrdered}

abbrev modules : Modules
modules =
    ("ietf-system", entry (name "system") (str "x") end)
    ∷ ("nacm", entry (name "a") (str "y") end)
    ∷ []

-- The second edit is refused.
abbrev refusing : Sysrepo
refusing ((d, c) ∷ s) datastore call = err exception
refusing [] datastore call = ok tt

set_data-in_turn_example :
    set_data refusing running "" (dict (entries modules)) "merge" []
    ≡ in_turn refusing (edits_of running "merge" modules ++ (running, apply_changes) ∷ []) []
unfolding ends_with_slash
set_data-in_turn_example =
    set_data-in_turn refusing running modules "merge" []
      ((text_ne "ietf-system" "" refl, refl, refl), ((text_ne "nacm" "" refl, refl, refl), tt)) refl

abbrev listing : List String
listing =
    "z-running.json" ∷ "readme.txt" ∷ "2-ietf-yang-schema-mount-operational.xml"
    ∷ "10-a-b-running.json" ∷ "3--running.xml" ∷ []

get_datastore_files-IsOrdered_example :
    (get_datastore_files "/data" ("json" ∷ "xml" ∷ []) listing
      ≡ get_datastore_files "/data" ("json" ∷ "xml" ∷ []) listing)
    × Permᴰ
        (get_datastore_files "/data" ("json" ∷ "xml" ∷ []) listing)
        (results "/data" ("json" ∷ "xml" ∷ []) listing)
    × (top rest : List File) × (get_datastore_files "/data" ("json" ∷ "xml" ∷ []) listing
        ≡ top ++ rest)
    × All (λ f. is_top_condition f ≡ true) top
    × All (λ f. not (is_top_condition f) ≡ true) rest
    × IsOrdered top
    × IsOrdered rest
get_datastore_files-IsOrdered_example =
    get_datastore_files-IsOrdered "/data" ("json" ∷ "xml" ∷ []) listing listing (Permᴰ.refl listing)

module_names :
    map (λ f. f.module_name) (get_datastore_files "/data" ("json" ∷ "xml" ∷ []) listing)
    ≡ "ietf-yang-schema-mount" ∷ "a-b" ∷ "3-" ∷ "z" ∷ []
unfolding get_datastore_files results sorted match_file str_le
module_names = refl
