-- ===== src/Netconf/Files.antt =====
-- `get_datastore_files`. The names that the directory lists are an argument; they hold no line break.
-- The extensions are those of the filter, none of them with a dash or a sign of the language of
-- patterns, so that at most one of the endings can be that of a name.
pub mod Order
pub mod Ordered
use Prim.Native.Char.{Char, code}
use Prim.Native.Nat.{Ordering, compare}
use sim_o1_ofhmp_interfaces.Prelude.{
  ℕ, String, ◌<>◌, Bool, true, false, not, ◌&&◌, ◌||◌, Option, none, some, List, [], ◌∷◌, ◌++◌, leb,
  ◌==◌, string_eq, if◌then◌else◌,
}

-- Python's order of texts, by code points.
unfoldable pub str_le : String → String → Bool
str_le String.[] t = true
str_le (String.◌∷◌ c s) String.[] = false
str_le (String.◌∷◌ c s) (String.◌∷◌ d t) = elim (compare (code c) (code d)) [
  | Ordering.lt ↦ true
  | Ordering.eq ↦ str_le s t
  | Ordering.gt ↦ false
]

unfoldable pub insert : String → List String → List String
insert x [] = x ∷ []
insert x (y ∷ l) = let rest = insert x l in if str_le x y then x ∷ y ∷ l else y ∷ rest

-- `sorted(…)`
unfoldable pub sorted : List String → List String
unfolding insert
sorted [] = []
sorted (x ∷ l) = insert x (sorted l)

-- What a text has before an ending, if it has that ending.
unfoldable pub before : String → String → Option String
before ending String.[] = if ending == "" then some "" else none
before ending (String.◌∷◌ c s) =
    let rest = before ending s in
    if String.◌∷◌ c s == ending
    then some ""
    else elim rest [ none ↦ none | some t ↦ some (String.◌∷◌ c t) ]

abbrev is_digit : Char → Bool
is_digit c = leb 48 (code c) && leb (code c) 57

abbrev is_dash : Char → Bool
is_dash c = String.◌∷◌ c "" == "-"

-- What follows digits and a dash. `started` says that there was a digit.
unfoldable pub unnumbered : Bool → String → Option String
unnumbered started String.[] = none
unnumbered started (String.◌∷◌ c s) =
    let rest = unnumbered true s in
    if is_digit c then rest else if started && is_dash c then some s else none

-- `^(?:(\d+)-)?(.+)`: the number is left out if something follows it.
unfoldable pub module_of : String → Option String
unfolding unnumbered
module_of String.[] = none
module_of (String.◌∷◌ c s) = elim (unnumbered false (String.◌∷◌ c s)) [
  | none ↦ some (String.◌∷◌ c s)
  | some String.[] ↦ some (String.◌∷◌ c s)
  | some (String.◌∷◌ d t) ↦ some (String.◌∷◌ d t)
]

pub record File : Type 0 where
  pub filename : String
  pub module_name : String
  pub datastore : String
  pub extension : String

-- The name against one datastore and one extension.
unfoldable pub match_one : String → String → String → String → Option File
unfolding before module_of
match_one directory filename datastore extension =
    elim (before ("-" <> (datastore <> ("." <> extension))) filename) [
      | none ↦ none
      | some stem ↦ elim (module_of stem) [
        | none ↦ none
        | some m ↦ some (record {
          filename = directory <> ("/" <> filename);
          module_name = m;
          datastore = datastore;
          extension = extension;
        })
      ]
    ]

abbrev pub or_else : Option File → Option File → Option File
or_else none o = o
or_else (some f) o = some f

unfoldable pub match_extensions : String → String → String → List String → Option File
unfolding match_one
match_extensions directory filename datastore [] = none
match_extensions directory filename datastore (extension ∷ l) =
    or_else (match_one directory filename datastore extension)
      (match_extensions directory filename datastore l)

-- `pattern.match(filename)`
unfoldable pub match_file : String → List String → String → Option File
unfolding match_extensions
match_file directory extensions filename =
    or_else (match_extensions directory filename "running" extensions)
      (match_extensions directory filename "operational" extensions)

-- The loop over the names.
unfoldable pub results : String → List String → List String → List File
unfolding match_file
results directory extensions [] = []
results directory extensions (x ∷ l) = elim (match_file directory extensions x) [
  | none ↦ results directory extensions l
  | some f ↦ f ∷ results directory extensions l
]

abbrev pub is_top_condition : File → Bool
is_top_condition f = f.module_name == "ietf-yang-schema-mount"

abbrev pub filter : (File → Bool) → List File → List File
filter p [] = []
filter p (f ∷ l) = if p f then f ∷ filter p l else filter p l

unfoldable pub get_datastore_files : String → List String → List String → List File
unfolding results sorted
get_datastore_files directory extensions listing =
    let l : List File = results directory extensions (sorted listing) in
    filter is_top_condition l ++ filter (λ f. not (is_top_condition f)) l
