-- ===== src/Tests/CoreTests.antt =====
-- A directory of three files, the second of which libyang refuses.
use sim_o1_ofhmp_interfaces.Prelude.{
  String, Bool, true, false, List, [], ◌∷◌, ◌≡◌, refl, ◌⊎◌, inl, inr, ◌==◌, string_eq,
}
use sim_o1_ofhmp_interfaces.Prelude.Result.{Result, ok, err, libyang_error, exception}
use sim_o1_ofhmp_interfaces.Value.{Value, str}
use sim_o1_ofhmp_interfaces.Server.{running, operational}
use sim_o1_ofhmp_interfaces.Netconf.{Sysrepo, edit_batch_ly, apply_changes}
use sim_o1_ofhmp_interfaces.Netconf.Files.{
  File, get_datastore_files, results, sorted, match_file, str_le,
}
use sim_o1_ofhmp_interfaces.Core.{Data, populate}
use sim_o1_ofhmp_interfaces.Core.Loaded.{loads, populate-eq}

abbrev names : List String
names = "3-nacm-running.json" ∷ "2-broken-running.json" ∷ "1-ietf-hardware-operational.xml" ∷ []

abbrev content : File → Bool → Result Value
content f true = err libyang_error
content f false = ok (str f.module_name)

abbrev directory : Data
directory = record { opened = λ f. ok tt; parsed = λ f. content f (f.module_name == "broken") }

abbrev accepting : Sysrepo
accepting s datastore call = ok tt

parses_by :
    (f : File) (b : Bool) → ((v : Value) × (content f b ≡ ok v)) ⊎ (content f b ≡ err libyang_error)
parses_by f true = inr refl
parses_by f false = inl (str f.module_name, refl)

populate-eq_example :
    populate accepting directory true names []
    ≡ (ok tt, loads directory (get_datastore_files "/data" ("json" ∷ "xml" ∷ []) names))
populate-eq_example =
    populate-eq accepting directory names [] (λ f. refl)
      (λ f. parses_by f (f.module_name == "broken")) (λ t d c. refl)

two_loaded : populate accepting directory true names [] ≡ (
  ok tt,
  (operational, edit_batch_ly (str "ietf-hardware"))
      ∷ (operational, apply_changes)
      ∷ (running, edit_batch_ly (str "nacm"))
      ∷ (running, apply_changes)
      ∷ [],
)
unfolding populate get_datastore_files results sorted match_file str_le
two_loaded = refl

-- What sysrepo raises itself ends the start.
refusing : Sysrepo
refusing s datastore call = err exception

ended :
    populate refusing directory true names []
    ≡ (err exception, (operational, edit_batch_ly (str "ietf-hardware")) ∷ [])
unfolding populate get_datastore_files results sorted match_file str_le refusing
ended = refl
