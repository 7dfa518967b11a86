-- ===== src/Hardware/Named.antt =====
-- What holds of the components once they are named.
use sim_o1_ofhmp_interfaces.Prelude.{
  String, true, Option, none, some, string_eq, ◌≡◌, refl, ap, ◌∙◌, arith, Option-cases, inl, inr,
  Bool-cases,
}
use sim_o1_ofhmp_interfaces.Prelude.Result.{Result, ok, err}
use sim_o1_ofhmp_interfaces.Value.{
  name, Key, key_eq, Value, null, bool, num, str, list, dict, Items, nil, cons, Entries, end, entry,
  get, put,
}
use sim_o1_ofhmp_interfaces.Value.Fields.{get-put}
use sim_o1_ofhmp_interfaces.Hardware.{
  Library, alias_of, identified, put_uris, uri_of, uris_with, update_fields, update_component,
  update_components, first,
}

-- Writing what is there changes nothing.
pub put_same : (d : Entries) (k : Key) (v : Value) → get d k ≡ some v → put d k v ≡ d
unfolding get put
put_same end k v h = absurd (ground arith)
put_same (entry j w d) k v h = elim (Bool-cases (key_eq j k)) [
  | inl e ↦ rw e (ground (arith, e))
  | inr e ↦ rw e (ap (entry j w) (put_same d k v (ground (arith, e))))
]

-- A component that has its alias, its asset-id and its address.
pub record IsNamed (lib : Library) (hostname : String) (d : Entries) : Type 0 where
  pub own : Value
  pub uris : Items
  pub name_is : get d (name "name") ≡ some own
  pub alias_is : get d (name "alias") ≡ some (str (alias_of lib hostname own))
  pub asset_is : get d (name "asset-id") ≡ some (lib.uuid5 (alias_of lib hostname own))
  pub uris_are : get d (name "uri") ≡ some (list uris)
  pub listed : lib.has uris (uri_of lib hostname own) ≡ true

abbrev pub Named : Library → String → Value → Type 0
Named lib hostname v = (d : Entries) × (v ≡ dict d) × IsNamed lib hostname d

unfoldable pub AllNamed : Library → String → Items → Type 0
AllNamed lib hostname nil = Unit
AllNamed lib hostname (cons x xs) = Named lib hostname x × AllNamed lib hostname xs

module _ (lib : Library) (hostname : String)
    (has_added : (l : Items) (u : String) → lib.has (lib.added l u) u ≡ true) where
  identified_again :
      (d : Entries) (i : IsNamed lib hostname d) → identified lib hostname i.own d ≡ d
  unfolding identified
  identified_again d i =
      ap (λ e. put e (name "asset-id") (lib.uuid5 (alias_of lib hostname i.own)))
        (put_same d (name "alias") _ i.alias_is)
      ∙ put_same d (name "asset-id") _ i.asset_is

  listed_again :
      (u : String) (l : Items) → lib.has l u ≡ true → uris_with lib u (some (list l)) ≡ ok l
  unfolding uris_with
  listed_again u l h = rw h refl

  fields_again :
      (d : Entries) (i : IsNamed lib hostname d) → update_fields lib hostname i.own d ≡ ok (dict d)
  unfolding update_fields
  fields_again d i =
      let u : String = uri_of lib hostname i.own in
      ap (λ e. put_uris e (uris_with lib u (get e (name "uri")))) (identified_again d i)
      ∙ ap (λ o. put_uris d (uris_with lib u o)) i.uris_are
      ∙ ap (put_uris d) (listed_again u i.uris i.listed)
      ∙ ap (λ e. ok (dict e)) (put_same d (name "uri") _ i.uris_are)

  IsNamed-same :
      (d : Entries) → IsNamed lib hostname d → update_component lib hostname (dict d) ≡ ok (dict d)
  unfolding update_component
  IsNamed-same d i = ground (arith, i.name_is, fields_again d i)

  uris_with-listed :
      (u : String) (o : Option Value) (l : Items) → uris_with lib u o ≡ ok l → lib.has l u ≡ true
  unfolding uris_with
  uris_with-listed u none l h = ground (arith, has_added lib.empty u)
  uris_with-listed u (some (list xs)) l h = ground (arith, has_added xs u)
  uris_with-listed u (some (dict d)) l h = cc
  uris_with-listed u (some (str s)) l h = cc
  uris_with-listed u (some (num n)) l h = cc
  uris_with-listed u (some (bool b)) l h = cc
  uris_with-listed u (some null) l h = cc

  put-IsNamed :
      (n : Value) (d : Entries) (uris : Items)
      → get d (name "name") ≡ some n
      → lib.has uris (uri_of lib hostname n) ≡ true
      → IsNamed lib hostname (put (identified lib hostname n d) (name "uri") (list uris))
  unfolding identified
  put-IsNamed n d uris h listed = record {
    own = n;
    uris = uris;
    name_is = simp get-put h;
    alias_is = simp get-put;
    asset_is = simp get-put;
    uris_are = simp get-put;
    listed = listed;
  }

  fields-IsNamed :
      (n : Value) (d : Entries) (v : Value)
      → get d (name "name") ≡ some n
      → update_fields lib hostname n d ≡ ok v
      → (e : Entries) × (v ≡ dict e) × IsNamed lib hostname e
  unfolding update_fields
  fields-IsNamed n d v h up =
      by_uris
        (uris_with lib (uri_of lib hostname n) (get (identified lib hostname n d) (name "uri")))
        (uris_with-listed _ _) up
    where
      by_uris :
          (r : Result Items)
          → ((l : Items) → r ≡ ok l → lib.has l (uri_of lib hostname n) ≡ true)
          → ◌≡◌ {A = Result Value} (put_uris (identified lib hostname n d) r) (ok v)
          → (e : Entries) × (v ≡ dict e) × IsNamed lib hostname e
      by_uris (err e) g x = cc
      by_uris (ok l) g x = (
        put (identified lib hostname n d) (name "uri") (list l),
        cc,
        put-IsNamed n d l h (g l refl),
      )

  Named-same : (y : Value) → Named lib hostname y → update_component lib hostname y ≡ ok y
  Named-same y (e, is, i) = rw is (IsNamed-same e i)

  component-Named : (x y : Value) → update_component lib hostname x ≡ ok y → Named lib hostname y
  unfolding update_component
  component-Named (dict d) y h = elim (Option-cases (get d (name "name"))) [
    | inl e ↦ absurd (ground (arith, e))
    | inr (n, e) ↦ fields-IsNamed n d y e (ground (arith, e))
  ]
  component-Named (list xs) y h = cc
  component-Named (str s) y h = cc
  component-Named (num n) y h = cc
  component-Named (bool b) y h = cc
  component-Named null y h = cc

  -- The loop over the components, and the same loop once more.
  pub components-Named :
      (xs : Items)
      → (update_components lib hostname xs).0 ≡ ok tt
      → let ys : Items = (update_components lib hostname xs).1 in
        AllNamed lib hostname ys × (update_components lib hostname ys ≡ (ok tt, ys))
  unfolding update_components AllNamed
  components-Named nil h = (tt, refl)
  components-Named (cons x xs) h =
      by_first (update_component lib hostname x) (component-Named x) (components-Named xs) h
    where
      rest : Result (Unit {0}) × Items
      rest = update_components lib hostname xs

      by_first :
          (r : Result Value)
          → ((y : Value) → r ≡ ok y → Named lib hostname y)
          → (rest.0 ≡ ok tt
              → AllNamed lib hostname rest.1
                × (update_components lib hostname rest.1 ≡ (ok tt, rest.1)))
          → (first x xs r rest).0 ≡ ok tt
          → AllNamed lib hostname (first x xs r rest).1
            × (update_components lib hostname (first x xs r rest).1
                ≡ (ok tt, (first x xs r rest).1))
      by_first (err e) g f z = cc
      by_first (ok y) g f z =
          let (named, again) = f z in
          (
            (g y refl, named),
            ap (λ r. first y rest.1 r (update_components lib hostname rest.1))
                  (Named-same y (g y refl))
                ∙ ap (first y rest.1 (ok y)) again,
          )
