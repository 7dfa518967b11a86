-- ===== src/Netconf/Files/Ordered.antt =====
-- What `get_datastore_files` gives, whatever the order in which the directory lists its names.
use Prim.Native.String.append
use mathlib.Core.Path.{ap₂}
use mathlib.Core.List.{Permᴰ}
use mathlib.Core.List.Permᴰ
use sim_o1_ofhmp_interfaces.Prelude.{
  String, ◌<>◌, Bool, true, false, not, Option, none, some, List, [], ◌∷◌, ◌++◌, ◌≡◌, refl, sym, ap,
  ◌∙◌, arith, All, ◌⊎◌, inl, inr, subst, if◌then◌else◌, string_eq, Bool-cases,
}
use sim_o1_ofhmp_interfaces.Netconf.Files.{
  str_le, sorted, File, match_one, match_extensions, match_file, results, is_top_condition, filter,
  get_datastore_files,
}
use sim_o1_ofhmp_interfaces.Netconf.Files.Order.{
  sorted-Permᴰ, sorted-keeps, IsSorted, sorted-IsSorted,
}

module _ (directory : String) (extensions : List String) where
  abbrev path : String → String
  path x = directory <> ("/" <> x)

  match_one-filename :
      (x datastore extension : String) (f : File)
      → match_one directory x datastore extension ≡ some f
      → f.filename ≡ path x
  unfolding match_one
  match_one-filename x datastore extension f h = ground arith

  match_extensions-filename :
      (x datastore : String) (l : List String) (f : File)
      → match_extensions directory x datastore l ≡ some f
      → f.filename ≡ path x
  unfolding match_extensions
  match_extensions-filename x datastore [] f h = cc
  match_extensions-filename x datastore (e ∷ l) f h =
      ground (arith, match_one-filename x datastore e f, match_extensions-filename x datastore l f)

  match_file-filename :
      (x : String) (f : File) → match_file directory extensions x ≡ some f → f.filename ≡ path x
  unfolding match_file
  match_file-filename x f h = ground (
    arith,
    match_extensions-filename x "running" extensions f,
    match_extensions-filename x "operational" extensions f,
  )

str_le-append : (p x y : String) → str_le (p <> x) (p <> y) ≡ str_le x y
unfolding str_le
str_le-append String.[] x y = ap₂ str_le (append.nil x) (append.nil y)
str_le-append (String.◌∷◌ c p) x y =
    ap₂ str_le (append.cons c p x) (append.cons c p y) ∙ ground (arith, str_le-append p x y)

-- The names of the files, each at most every later one.
abbrev pub IsOrdered : List File → Type 0
IsOrdered [] = Unit {0}
IsOrdered (f ∷ l) = All (λ g. str_le f.filename g.filename ≡ true) l × IsOrdered l

module _ (directory : String) (extensions : List String) where
  results-All :
      (x : String) (l : List String)
      → All (λ y. str_le x y ≡ true) l
      → All
          (λ f. str_le (path directory extensions x) f.filename ≡ true)
          (results directory extensions l)
  unfolding results
  results-All x [] h = tt
  results-All x (y ∷ l) (h, hs) =
      by_match (match_file directory extensions y) refl (results-All x l hs)
    where
      by_match :
          (o : Option File)
          → match_file directory extensions y ≡ o
          → All
              (λ f. str_le (path directory extensions x) f.filename ≡ true)
              (results directory extensions l)
          → All
              (λ f. str_le (path directory extensions x) f.filename ≡ true)
              (elim o [
                | none ↦ results directory extensions l
                | some f ↦ f ∷ results directory extensions l
              ])
      by_match none e rest = rest
      by_match (some f) e rest = (
        subst (λ w. str_le (path directory extensions x) w ≡ true)
            (sym (match_file-filename directory extensions y f e))
            (str_le-append directory ("/" <> x) ("/" <> y) ∙ str_le-append "/" x y ∙ h),
        rest,
      )

  results-IsOrdered : (l : List String) → IsSorted l → IsOrdered (results directory extensions l)
  unfolding results
  results-IsOrdered [] h = tt
  results-IsOrdered (x ∷ l) (h, hs) =
      by_match (match_file directory extensions x) refl (results-All x l h) (results-IsOrdered l hs)
    where
      by_match :
          (o : Option File)
          → match_file directory extensions x ≡ o
          → All
              (λ f. str_le (path directory extensions x) f.filename ≡ true)
              (results directory extensions l)
          → IsOrdered (results directory extensions l)
          → IsOrdered (elim o [
            | none ↦ results directory extensions l
            | some f ↦ f ∷ results directory extensions l
          ])
      by_match none e above rest = rest
      by_match (some f) e above rest = (
        subst (λ w. All (λ g. str_le w g.filename ≡ true) (results directory extensions l))
            (sym (match_file-filename directory extensions x f e)) above,
        rest,
      )

  with_match : Option File → List File → List File
  with_match o l = elim o [ none ↦ l | some f ↦ f ∷ l ]

  with_match-Permᴰ :
      (o : Option File) (l m : List File) → Permᴰ l m → Permᴰ (with_match o l) (with_match o m)
  unfolding with_match
  with_match-Permᴰ none l m p = p
  with_match-Permᴰ (some f) l m p = Permᴰ.cons refl p

  with_match-swap :
      (o p : Option File) (l : List File)
      → Permᴰ (with_match o (with_match p l)) (with_match p (with_match o l))
  unfolding with_match
  with_match-swap none p l = Permᴰ.refl (with_match p l)
  with_match-swap (some f) none l = Permᴰ.refl (f ∷ l)
  with_match-swap (some f) (some g) l = Permᴰ.swap refl refl

  results-Permᴰ :
      (l m : List String)
      → Permᴰ l m
      → Permᴰ (results directory extensions l) (results directory extensions m)
  unfolding results with_match
  results-Permᴰ _ _ Permᴰ.nil = Permᴰ.nil
  results-Permᴰ _ _ (Permᴰ.cons {a} {b} {l₁} {l₂} e p) =
      subst
        (λ x. Permᴰ (results directory extensions (a ∷ l₁)) (results directory extensions (x ∷ l₂)))
        e (with_match-Permᴰ (match_file directory extensions a) _ _ (results-Permᴰ l₁ l₂ p))
  results-Permᴰ _ _ (Permᴰ.swap {a} {b} {a'} {b'} {l} e f) =
      subst
        (λ x.
          Permᴰ (results directory extensions (a ∷ b ∷ l))
            (results directory extensions (x ∷ b' ∷ l)))
        f
        (subst
          (λ x.
            Permᴰ (results directory extensions (a ∷ b ∷ l))
              (results directory extensions (b ∷ x ∷ l)))
          e
          (with_match-swap (match_file directory extensions a) (match_file directory extensions b)
            (results directory extensions l)))
  results-Permᴰ _ _ (Permᴰ.trans {l₁} {l₂} {l₃} p q) =
      Permᴰ.trans (results-Permᴰ l₁ l₂ p) (results-Permᴰ l₂ l₃ q)

module _ (p : File → Bool) where
  filter-All : (l : List File) → All (λ f. p f ≡ true) (filter p l)
  filter-All [] = tt
  filter-All (f ∷ l) = by_test (Bool-cases (p f)) (filter-All l)
    where
      by_test :
          (p f ≡ true) ⊎ (p f ≡ false)
          → All (λ g. p g ≡ true) (filter p l)
          → All (λ g. p g ≡ true) (if p f then f ∷ filter p l else filter p l)
      by_test (inl e) rest = rw e (e, rest)
      by_test (inr e) rest = rw e rest

  filter-keeps_All : (Q : File → Type 0) (l : List File) → All Q l → All Q (filter p l)
  filter-keeps_All Q [] h = tt
  filter-keeps_All Q (f ∷ l) (h, hs) = by_test (p f) (filter-keeps_All Q l hs)
    where
      by_test : (b : Bool) → All Q (filter p l) → All Q (if b then f ∷ filter p l else filter p l)
      by_test true rest = (h, rest)
      by_test false rest = rest

  filter-IsOrdered : (l : List File) → IsOrdered l → IsOrdered (filter p l)
  filter-IsOrdered [] h = tt
  filter-IsOrdered (f ∷ l) (h, hs) =
      by_test (p f) (filter-keeps_All (λ g. str_le f.filename g.filename ≡ true) l h)
        (filter-IsOrdered l hs)
    where
      by_test :
          (b : Bool)
          → All (λ g. str_le f.filename g.filename ≡ true) (filter p l)
          → IsOrdered (filter p l)
          → IsOrdered (if b then f ∷ filter p l else filter p l)
      by_test true above rest = (above, rest)
      by_test false above rest = rest

  filter-split : (l : List File) → Permᴰ (filter p l ++ filter (λ f. not (p f)) l) l
  filter-split [] = Permᴰ.nil
  filter-split (f ∷ l) = by_test (p f) (filter-split l)
    where
      by_test :
          (b : Bool)
          → Permᴰ (filter p l ++ filter (λ f. not (p f)) l) l
          → Permᴰ
              ((if b then f ∷ filter p l else filter p l)
                ++ (if not b then f ∷ filter (λ f. not (p f)) l else filter (λ f. not (p f)) l))
              (f ∷ l)
      by_test true rest = Permᴰ.cons refl rest
      by_test false rest =
          Permᴰ.trans (Permᴰ.middle f (filter p l) (filter (λ f. not (p f)) l))
            (Permᴰ.cons refl rest)

-- The listing of a directory decides by what it holds and not by its order. The list that
-- `get_datastore_files` gives has the files of the names that match, each as often as it is listed:
-- first those of the module ietf-yang-schema-mount, then all others, each part in the order of
-- the file names.
pub get_datastore_files-IsOrdered :
    (directory : String) (extensions listing other : List String)
    → Permᴰ listing other
    → (get_datastore_files directory extensions listing
        ≡ get_datastore_files directory extensions other)
      × Permᴰ
          (get_datastore_files directory extensions listing)
          (results directory extensions listing)
      × (top rest : List File) × (get_datastore_files directory extensions listing ≡ top ++ rest)
      × All (λ f. is_top_condition f ≡ true) top
      × All (λ f. not (is_top_condition f) ≡ true) rest
      × IsOrdered top
      × IsOrdered rest
unfolding get_datastore_files
get_datastore_files-IsOrdered directory extensions listing other p =
    let l : List File = results directory extensions (sorted listing) in
    let ordered : IsOrdered l =
      results-IsOrdered directory extensions (sorted listing) (sorted-IsSorted listing) in
    (
      ap
          (λ names.
            filter is_top_condition (results directory extensions names)
            ++ filter (λ f. not (is_top_condition f)) (results directory extensions names))
          (sorted-Permᴰ listing other p),
      Permᴰ.trans (filter-split is_top_condition l)
          (results-Permᴰ directory extensions (sorted listing) listing (sorted-keeps listing)),
      filter is_top_condition l,
      filter (λ f. not (is_top_condition f)) l,
      refl,
      filter-All is_top_condition l,
      filter-All (λ f. not (is_top_condition f)) l,
      filter-IsOrdered is_top_condition l ordered,
      filter-IsOrdered (λ f. not (is_top_condition f)) l ordered,
    )
