-- ===== src/Core/Loaded.antt =====
-- What reaches sysrepo from the files of the directory.
use mathlib.Core.List.{append_assoc}
use sim_o1_ofhmp_interfaces.Prelude.{
  String, true, List, [], ◌∷◌, ◌++◌, ◌≡◌, refl, ap, ◌∙◌, sym, All, ◌⊎◌, inl, inr, ◌==◌, string_eq,
  if◌then◌else◌,
}
use sim_o1_ofhmp_interfaces.Prelude.Result.{Result, ok, err, libyang_error}
use sim_o1_ofhmp_interfaces.Prelude.Exec.{continue}
use sim_o1_ofhmp_interfaces.Value.{Value}
use sim_o1_ofhmp_interfaces.Server.{Datastore, running, operational}
use sim_o1_ofhmp_interfaces.Netconf.{
  Sysrepo, Trace, Call, edit_batch_ly, apply_changes, make, set_data_from_path,
}
use sim_o1_ofhmp_interfaces.Netconf.Files.{File, get_datastore_files}
use sim_o1_ofhmp_interfaces.Core.{
  Data, datastore_of, load_file, load_files, unless_refused, populate,
}
use sim_o1_ofhmp_interfaces.Core.Places.{HasPlace, get_datastore_files-HasPlace}

abbrev pub place_of : File → Datastore
place_of f = if f.datastore == "running" then running else operational

-- The calls for one file: its edit and the application, or none if it is refused.
abbrev pub calls_of : Datastore → Result Value → Trace
calls_of datastore (err e) = []
calls_of datastore (ok v) = (datastore, edit_batch_ly v) ∷ (datastore, apply_changes) ∷ []

abbrev pub loads : Data → List File → Trace
loads data_dir [] = []
loads data_dir (f ∷ l) = calls_of (place_of f) (data_dir.parsed f) ++ loads data_dir l

append_nil : (k : Trace) → k ++ [] ≡ k
append_nil [] = refl
append_nil (x ∷ k) = ap (λ t. x ∷ t) (append_nil k)

-- A file is parsed, or libyang refuses it.
abbrev pub Parses : Data → File → Type 0
Parses data_dir f =
    ((v : Value) × (data_dir.parsed f ≡ ok v)) ⊎ (data_dir.parsed f ≡ err libyang_error)

module _ (sysrepo : Sysrepo) (data_dir : Data) (opens : (f : File) → data_dir.opened f ≡ ok tt)
    (parses : (f : File) → Parses data_dir f)
    (accepts : (s : Trace) (d : Datastore) (c : Call) → sysrepo s d c ≡ ok tt) where
  make-ok : (d : Datastore) (c : Call) (s : Trace) → make sysrepo d c s ≡ (ok tt, s ++ (d, c) ∷ [])
  unfolding make
  make-ok d c s = ap (λ r. (r, s ++ (d, c) ∷ [])) (accepts s d c)

  parsed_written :
      (d : Datastore) (v : Value) (s : Trace)
      → set_data_from_path sysrepo d (ok tt) (ok v) s ≡ (ok tt, s ++ calls_of d (ok v))
  unfolding set_data_from_path
  parsed_written d v s =
      ap (λ q. continue q.0 (λ x. make sysrepo d apply_changes) q.1) (make-ok d (edit_batch_ly v) s)
      ∙ make-ok d apply_changes (s ++ (d, edit_batch_ly v) ∷ [])
      ∙ ap (λ t. (ok tt, t)) (append_assoc s ((d, edit_batch_ly v) ∷ []) ((d, apply_changes) ∷ []))

  refused_written :
      (d : Datastore) (s : Trace)
      → set_data_from_path sysrepo d (ok tt) (err libyang_error) s ≡ (err libyang_error, s)
  unfolding set_data_from_path
  refused_written d s = refl

  datastore_of-eq : (f : File) → HasPlace f → datastore_of f.datastore ≡ ok (place_of f)
  unfolding datastore_of
  datastore_of-eq f (inl e) = rw e refl
  datastore_of-eq f (inr e) = rw e refl

  load_file-eq :
      (f : File) (s : Trace)
      → HasPlace f
      → load_file sysrepo data_dir f s
        ≡ set_data_from_path sysrepo (place_of f) (ok tt) (data_dir.parsed f) s
  unfolding load_file
  load_file-eq f s h =
      ap
        (λ r.
          continue r (λ d. set_data_from_path sysrepo d (data_dir.opened f) (data_dir.parsed f)) s)
        (datastore_of-eq f h)
      ∙ ap (λ o. set_data_from_path sysrepo (place_of f) o (data_dir.parsed f) s) (opens f)

  load_files-eq :
      (l : List File) (s : Trace)
      → All HasPlace l
      → load_files sysrepo data_dir l s ≡ (ok tt, s ++ loads data_dir l)
  unfolding load_files unless_refused
  load_files-eq [] s h = ap (λ t. (ok tt, t)) (sym (append_nil s))
  load_files-eq (f ∷ l) s (h, hs) = elim (parses f) [
    | inl (v, e) ↦
        ap (λ q. unless_refused q.0 (load_files sysrepo data_dir l) q.1)
          (load_file-eq f s h
            ∙ ap (λ r. set_data_from_path sysrepo (place_of f) (ok tt) r s) e
            ∙ parsed_written (place_of f) v s)
        ∙ load_files-eq l (s ++ calls_of (place_of f) (ok v)) hs
        ∙ ap (λ t. (ok tt, t))
            (append_assoc s (calls_of (place_of f) (ok v)) (loads data_dir l)
              ∙ ap (λ r. s ++ (calls_of (place_of f) r ++ loads data_dir l)) (sym e))
    | inr e ↦
        ap (λ q. unless_refused q.0 (load_files sysrepo data_dir l) q.1)
          (load_file-eq f s h
            ∙ ap (λ r. set_data_from_path sysrepo (place_of f) (ok tt) r s) e
            ∙ refused_written (place_of f) s)
        ∙ load_files-eq l s hs
        ∙ ap (λ r. (ok tt, s ++ (calls_of (place_of f) r ++ loads data_dir l))) (sym e)
  ]

-- If /data exists, its files can be opened, each is parsed or refused by libyang, and sysrepo takes what is
-- written: a file that is refused keeps no other from being loaded. The calls are, for each file of
-- `get_datastore_files` in its order that is parsed, its edit and its application in the datastore that
-- its name says, and nothing is raised.
pub populate-eq :
    (sysrepo : Sysrepo) (data_dir : Data) (listing : List String) (s : Trace)
    → ((f : File) → data_dir.opened f ≡ ok tt)
    → ((f : File) → Parses data_dir f)
    → ((t : Trace) (d : Datastore) (c : Call) → sysrepo t d c ≡ ok tt)
    → populate sysrepo data_dir true listing s
      ≡ (ok tt, s ++ loads data_dir (get_datastore_files "/data" ("json" ∷ "xml" ∷ []) listing))
unfolding populate
populate-eq sysrepo data_dir listing s opens parses accepts =
    load_files-eq sysrepo data_dir opens parses accepts
      (get_datastore_files "/data" ("json" ∷ "xml" ∷ []) listing) s
      (get_datastore_files-HasPlace "/data" ("json" ∷ "xml" ∷ []) listing)
