-- ===== src/Core/Places.antt =====
-- Each file that `get_datastore_files` gives is for one of the two datastores.
use sim_o1_ofhmp_interfaces.Prelude.{
  String, Bool, not, Option, none, some, List, [], ◌∷◌, ◌++◌, ◌≡◌, refl, arith, All, ◌⊎◌, inl, inr,
  Bool-cases,
}
use sim_o1_ofhmp_interfaces.Netconf.Files.{
  File, match_one, match_extensions, match_file, results, is_top_condition, filter,
  get_datastore_files, sorted,
}

abbrev pub HasPlace : File → Type 0
HasPlace f = (f.datastore ≡ "running") ⊎ (f.datastore ≡ "operational")

match_one-datastore :
    (directory x datastore extension : String) (f : File)
    → match_one directory x datastore extension ≡ some f
    → f.datastore ≡ datastore
unfolding match_one
match_one-datastore directory x datastore extension f h = ground arith

match_extensions-datastore :
    (directory x datastore : String) (l : List String) (f : File)
    → match_extensions directory x datastore l ≡ some f
    → f.datastore ≡ datastore
unfolding match_extensions
match_extensions-datastore directory x datastore [] f h = cc
match_extensions-datastore directory x datastore (e ∷ l) f h = ground (
  arith,
  match_one-datastore directory x datastore e f,
  match_extensions-datastore directory x datastore l f,
)

match_file-HasPlace :
    (directory : String) (extensions : List String) (x : String) (f : File)
    → match_file directory extensions x ≡ some f
    → HasPlace f
unfolding match_file
match_file-HasPlace directory extensions x f h = ground (
  arith,
  match_extensions-datastore directory x "running" extensions f,
  match_extensions-datastore directory x "operational" extensions f,
)

module _ (directory : String) (extensions : List String) where
  results-HasPlace : (l : List String) → All HasPlace (results directory extensions l)
  unfolding results
  results-HasPlace [] = tt
  results-HasPlace (x ∷ l) =
      by_match (match_file directory extensions x) (match_file-HasPlace directory extensions x)
        (results directory extensions l) (results-HasPlace l)
    where
      by_match :
          (o : Option File)
          → ((f : File) → o ≡ some f → HasPlace f)
          → (rest : List File) → All HasPlace rest
          → All HasPlace (elim o [ none ↦ rest | some f ↦ f ∷ rest ])
      by_match none h rest k = k
      by_match (some f) h rest k = (h f refl, k)

  filter-HasPlace : (p : File → Bool) (l : List File) → All HasPlace l → All HasPlace (filter p l)
  filter-HasPlace p [] h = tt
  filter-HasPlace p (f ∷ l) (h, k) = elim (Bool-cases (p f)) [
    | inl e ↦ rw e (h, filter-HasPlace p l k)
    | inr e ↦ rw e (filter-HasPlace p l k)
  ]

  append-HasPlace : (k l : List File) → All HasPlace k → All HasPlace l → All HasPlace (k ++ l)
  append-HasPlace [] l h g = g
  append-HasPlace (f ∷ k) l (h, t) g = (h, append-HasPlace k l t g)

  pub get_datastore_files-HasPlace :
      (listing : List String) → All HasPlace (get_datastore_files directory extensions listing)
  unfolding get_datastore_files
  get_datastore_files-HasPlace listing =
      let l : List File = results directory extensions (sorted listing) in
      let h : All HasPlace l = results-HasPlace (sorted listing) in
      append-HasPlace (filter is_top_condition l) (filter (λ f. not (is_top_condition f)) l)
        (filter-HasPlace is_top_condition l h) (filter-HasPlace (λ f. not (is_top_condition f)) l h)
