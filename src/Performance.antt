-- ===== src/Performance.antt =====
-- base/src/performance_management/performance_management.py: the configuration of the measurements,
-- `load_data` and `start`. An attribute that the class only annotates is `none` until it is written.
pub mod Loaded
pub mod Task
pub mod Index
pub mod Turn
pub mod Cycle
use sim_o1_ofhmp_interfaces.Prelude.{
  ℕ, zero, suc, ◌+◌, ◌/◌, ◌%◌, String, ◌<>◌, Bool, true, false, ◌&&◌, Option, none, some, List, [],
  ◌∷◌, nat_beq, if◌then◌else◌,
}
use sim_o1_ofhmp_interfaces.Prelude.Result.{
  Error, Result, ok, err, key_error, attribute_error, zero_division_error, exception, ◌>>=◌, ◌>>◌,
}
use sim_o1_ofhmp_interfaces.Prelude.Dict.{Dict, lookup, insert}
use sim_o1_ofhmp_interfaces.Text.{of_nat}

-- index.json: "config" with its three keys, and "values", a dictionary by points for each report.
pub record Periods : Type 0 where
  pub log_period : Option ℕ
  pub repetition_period : Option ℕ
  pub points : Option (List String)

pub record Settings : Type 0 where
  pub config : Option Periods
  pub values : Option (List (Dict String))

pub record Performance : Type 0 where
  pub disabled : Bool
  pub stopped : Bool
  pub stop_event : Bool
  pub log_period : Option ℕ
  pub repetition_period : Option ℕ
  pub points : Option (List String)
  pub values : Option (List (Dict String))
  pub roll_after : String
  pub points_id : Option (Dict String)

abbrev found : {A : Type 0} → Option A → Result A
found none = err key_error
found (some a) = ok a

abbrev pub attr : {A : Type 0} → Option A → Result A
attr none = err attribute_error
attr (some a) = ok a

-- `a % b == 0`
abbrev pub divides : ℕ → ℕ → Result Bool
divides b a = if nat_beq b 0 then err zero_division_error else ok (nat_beq (a % b) 0)

-- Reading the file. It writes the attributes one by one; an error leaves those that were written.
unfoldable pub read_config :
    Periods → Option (List (Dict String)) → Performance → Result (Unit {0}) × Performance
read_config c values s = elim c.log_period [
  | none ↦ (err key_error, s)
  | some l ↦ elim c.repetition_period [
    | none ↦ (err key_error, record s { log_period = some l })
    | some r ↦ elim c.points [
      | none ↦ (err key_error, record s { log_period = some l; repetition_period = some r })
      | some p ↦ elim values [
        | none ↦ (
          err key_error,
          record s { log_period = some l; repetition_period = some r; points = some p },
        )
        | some v ↦ (
          ok tt,
          record s {
            log_period = some l;
            repetition_period = some r;
            points = some p;
            values = some v;
          },
        )
      ]
    ]
  ]
]

-- The file is read only if no configuration is given, and one that is given is not looked at.
unfoldable pub read_file :
    Option Settings → Option Settings → Performance → Result (Unit {0}) × Performance
unfolding read_config
read_file (some given) file s = (ok tt, s)
read_file none none s = (err exception, s)
read_file none (some f) s = elim f.config [
  | none ↦ (err key_error, s)
  | some c ↦ read_config c f.values s
]

unfoldable pub has_points : List String → Dict String → Bool
unfolding lookup
has_points [] v = true
has_points (p ∷ l) v =
    let rest = has_points l v in elim (lookup p v) [ none ↦ false | some _ ↦ rest ]

unfoldable pub all_have : List String → List (Dict String) → Bool
unfolding has_points
all_have p [] = true
all_have p (v ∷ l) = let rest = all_have p l in if has_points p v then rest else false

-- `points_id`, counted from 1.
unfoldable pub numbered : ℕ → List String → Dict String → Dict String
unfolding insert of_nat
numbered counter [] d = d
numbered counter (p ∷ l) d = numbered (counter + 1) l (insert p (of_nat counter) d)

unfoldable pub require : Result Bool → Result (Unit {0})
require (err e) = err e
require (ok true) = ok tt
require (ok false) = err exception

-- The checks of the periods, and what is left when the points are checked.
unfoldable pub check_periods : Option ℕ → Option ℕ → Result ℕ
unfolding require
check_periods repetition log = do
  r ← attr repetition
  require (divides 60 r)
  l ← attr log
  require (divides l r)
  ok r

-- The points are looked up first when there is a value to look at.
unfoldable pub check_values : Option (List String) → List (Dict String) → Result (Unit {0})
unfolding require all_have
check_values points [] = ok tt
check_values points (v ∷ l) = do p ← attr points; require (ok (all_have p (v ∷ l)))

unfoldable pub number_points : Performance → Result (Unit {0}) × Performance
unfolding numbered
number_points s = elim s.points [
  | none ↦ (err attribute_error, record s { points_id = some [] })
  | some p ↦ (ok tt, record s { points_id = some (numbered 1 p []) })
]

unfoldable pub checked : Performance → Result (Unit {0}) × Performance
unfolding check_periods check_values number_points
checked s = elim (check_periods s.repetition_period s.log_period) [
  | err e ↦ (err e, s)
  | ok r ↦
      let s' = record s { roll_after = "+" <> of_nat (r / 60) } in
      elim (attr s.values >>= λ v. check_values s.points v) [
        | err e ↦ (err e, s')
        | ok _ ↦ number_points s'
      ]
]

unfoldable pub load_data :
    Option Settings → Option Settings → Performance → Result (Unit {0}) × Performance
unfolding read_file checked
load_data given file s = elim (read_file given file s).0 [
  | err e ↦ (err e, (read_file given file s).1)
  | ok _ ↦ checked (read_file given file s).1
]

-- `start`; the second part says whether a thread was started.
unfoldable pub start : Option Settings → Option Settings → Performance → Performance × Bool
unfolding load_data
start given file s =
    if s.disabled
    then (s, false)
    else if s.stopped
    then (record (load_data given file s).1 { stopped = false; stop_event = false }, true)
    else (s, false)
