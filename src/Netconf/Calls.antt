-- ===== src/Netconf/Calls.antt =====
-- The calls that `set_data` makes for a whole template: the edits of its modules in turn, then one
-- `apply_changes`.
use Prim.Native.String.append
use text.Mathlib.Text.{starts_with}
use text.Mathlib.TextPositions.{starts_with-append}
use sim_o1_ofhmp_interfaces.Prelude.{
  String, ◌<>◌, true, false, List, [], ◌∷◌, ◌++◌, ◌≡◌, ◌≢◌, refl, sym, ap, ◌∙◌, All, ne_text,
  string_eq, if◌then◌else◌,
}
use sim_o1_ofhmp_interfaces.Prelude.Result.{Result, ok, err}
use sim_o1_ofhmp_interfaces.Prelude.Exec.{Exec, pure, continue, ◌>>◌}
use sim_o1_ofhmp_interfaces.Value.{name, dict, Entries, end, entry}
use sim_o1_ofhmp_interfaces.Server.{Datastore}
use sim_o1_ofhmp_interfaces.Netconf.{
  Call, edit_batch, apply_changes, Trace, Sysrepo, make, ends_with_slash, is_marked, unmarked, rest,
  without_last, without_start, stage, finish, set_data, set_modules,
}

-- A module of a template, and its data.
abbrev pub Modules : Type 0
Modules = List (String × Entries)

abbrev pub entries : Modules → Entries
entries [] = end
entries ((k, d) ∷ l) = entry (name k) (dict d) (entries l)

-- What the names of YANG modules are: not empty, and without a slash at either end.
abbrev pub IsModule : String → Type 0
IsModule k = (k ≢ "") × (ends_with_slash k ≡ false) × (starts_with k "/" ≡ false)

-- The reference: calls one after another, until one raises.
unfoldable pub in_turn : Sysrepo → List (Datastore × Call) → Exec Trace (Unit {0})
in_turn sysrepo [] = pure tt
in_turn sysrepo ((datastore, call) ∷ l) = do make sysrepo datastore call; in_turn sysrepo l

abbrev pub edits_of : Datastore → String → Modules → List (Datastore × Call)
edits_of datastore operation [] = []
edits_of datastore operation ((k, d) ∷ l) =
    (datastore, edit_batch (dict d) k operation) ∷ edits_of datastore operation l

marked : (operation : String) → is_marked ("!" <> operation) ≡ true
marked operation = starts_with-append "!" operation

unmarked-marked : (operation : String) → unmarked ("!" <> operation) ≡ operation
unmarked-marked operation =
    ap (λ b. if b then rest ("!" <> operation) else "!" <> operation) (marked operation)
    ∙ ap rest (append.cons _ "" operation)
    ∙ append.nil operation

-- Python's `m; pass`
then_pass : (m : Exec Trace (Unit {0})) (s : Trace) → (m >> pure tt) s ≡ m s
then_pass m s = by_result (m s).0 (m s).1
  where
    by_result : (r : Result (Unit {0})) (t : Trace) → continue r (λ x u. (ok tt, u)) t ≡ (r, t)
    by_result (err e) t = refl
    by_result (ok x) t = refl

both :
    (m n f g : Exec Trace (Unit {0})) (s : Trace)
    → m s ≡ n s
    → ((t : Trace) → f t ≡ g t)
    → (m >> f) s ≡ (n >> g) s
both m n f g s e h = ap (λ r. continue r.0 (λ _. f) r.1) e ∙ by_result (n s).0 (n s).1
  where
    by_result : (r : Result (Unit {0})) (t : Trace) → continue r (λ _. f) t ≡ continue r (λ _. g) t
    by_result (err x) t = refl
    by_result (ok x) t = h t

module _ (sysrepo : Sysrepo) (datastore : Datastore) where
  stage-module :
      (k : String) (d : Entries) (operation : String)
      → IsModule k
      → stage sysrepo datastore k (dict d) operation
        ≡ make sysrepo datastore (edit_batch (dict d) k (unmarked operation))
  unfolding stage
  stage-module k d operation (some_name, no_end, no_start) =
      ap (λ x. make sysrepo datastore (edit_batch (dict d) x (unmarked operation)))
        (ap without_start (ap (λ b. if b then without_last k else k) no_end)
          ∙ ap (λ b. if b then rest k else k) no_start)

  finish-marked : (operation : String) → finish sysrepo datastore ("!" <> operation) ≡ pure tt
  unfolding finish
  finish-marked operation =
      ap (λ b s. if b then (ok tt, s) else make sysrepo datastore apply_changes s)
        (marked operation)

  finish-plain :
      (operation : String)
      → is_marked operation ≡ false
      → finish sysrepo datastore operation ≡ make sysrepo datastore apply_changes
  unfolding finish
  finish-plain operation plain =
      ap (λ b s. if b then (ok tt, s) else make sysrepo datastore apply_changes s) plain

  set_data-module :
      (k : String) (d : Entries) (operation : String)
      → IsModule k
      → set_data sysrepo datastore k (dict d) operation ≡ (
          make sysrepo datastore (edit_batch (dict d) k (unmarked operation))
          >> finish sysrepo datastore operation)
  unfolding set_data
  set_data-module k d operation h =
      ap
        (λ b.
          (if b
            then set_modules sysrepo datastore d operation
            else stage sysrepo datastore k (dict d) operation)
          >> finish sysrepo datastore operation)
        (ne_text k "" h.0)
      ∙ ap (λ m. m >> finish sysrepo datastore operation) (stage-module k d operation h)

  -- One module of many: its edit, and nothing applied.
  set_data-marked :
      (k : String) (d : Entries) (operation : String) (s : Trace)
      → IsModule k
      → set_data sysrepo datastore k (dict d) ("!" <> operation) s
        ≡ make sysrepo datastore (edit_batch (dict d) k operation) s
  set_data-marked k d operation s h =
      ap (λ m. m s) (set_data-module k d ("!" <> operation) h)
      ∙ ap
          (λ m.
            (make sysrepo datastore (edit_batch (dict d) k (unmarked ("!" <> operation))) >> m) s)
          (finish-marked operation)
      ∙ then_pass (make sysrepo datastore (edit_batch (dict d) k (unmarked ("!" <> operation)))) s
      ∙ ap (λ o. make sysrepo datastore (edit_batch (dict d) k o) s) (unmarked-marked operation)

  set_modules-edits :
      (l : Modules) (operation : String) (s : Trace)
      → All (λ m. IsModule m.0) l
      → set_modules sysrepo datastore (entries l) operation s
        ≡ in_turn sysrepo (edits_of datastore operation l) s
  unfolding set_data in_turn
  set_modules-edits [] operation s h = refl
  set_modules-edits ((k, d) ∷ l) operation s (h, hs) =
      both (set_data sysrepo datastore k (dict d) ("!" <> operation))
        (make sysrepo datastore (edit_batch (dict d) k operation))
        (set_modules sysrepo datastore (entries l) operation)
        (in_turn sysrepo (edits_of datastore operation l)) s (set_data-marked k d operation s h)
        λ t. set_modules-edits l operation t hs

  in_turn-append :
      (l m : List (Datastore × Call)) (s : Trace)
      → in_turn sysrepo (l ++ m) s ≡ (in_turn sysrepo l >> in_turn sysrepo m) s
  unfolding in_turn
  in_turn-append [] m s = refl
  in_turn-append ((other, call) ∷ l) m s =
      by_result (make sysrepo other call s).0 (make sysrepo other call s).1 (in_turn-append l m)
    where
      by_result :
          (r : Result (Unit {0})) (t : Trace)
          → ((u : Trace) → in_turn sysrepo (l ++ m) u ≡ (in_turn sysrepo l >> in_turn sysrepo m) u)
          → continue r (λ _. in_turn sysrepo (l ++ m)) t
            ≡ continue
                (continue r (λ _. in_turn sysrepo l) t).0
                (λ _. in_turn sysrepo m)
                (continue r (λ _. in_turn sysrepo l) t).1
      by_result (err e) t h = refl
      by_result (ok x) t h = h t

  -- Whatever sysrepo answers to which call: for a template with the data of modules, `set_data` without
  -- an xpath makes the calls of the reference, one after another until one raises. These are the edit
  -- of each module in the order of the template, with the operation that is asked for, and then one
  -- call that applies them all. So nothing is applied unless every edit was taken.
  pub set_data-in_turn :
      (l : Modules) (operation : String) (s : Trace)
      → All (λ m. IsModule m.0) l
      → is_marked operation ≡ false
      → set_data sysrepo datastore "" (dict (entries l)) operation s
        ≡ in_turn sysrepo (edits_of datastore operation l ++ (datastore, apply_changes) ∷ []) s
  unfolding set_data in_turn
  set_data-in_turn l operation s h plain =
      both (set_modules sysrepo datastore (entries l) operation)
        (in_turn sysrepo (edits_of datastore operation l)) (finish sysrepo datastore operation)
        (in_turn sysrepo ((datastore, apply_changes) ∷ [])) s (set_modules-edits l operation s h)
        (λ t.
          ap (λ m. m t) (finish-plain operation plain)
          ∙ sym (then_pass (make sysrepo datastore apply_changes) t))
      ∙ sym (in_turn-append (edits_of datastore operation l) ((datastore, apply_changes) ∷ []) s)
