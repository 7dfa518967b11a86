-- ===== src/Hardware/Again.antt =====
-- A check of the hardware, and the check of what it wrote.
use sim_o1_ofhmp_interfaces.Prelude.{String, some, ◌≡◌, ap, ◌∙◌, true}
use sim_o1_ofhmp_interfaces.Prelude.Result.{Result, key_error, ok}
use sim_o1_ofhmp_interfaces.Value.{Key, name, Value, list, dict, Items, Entries, get, put}
use sim_o1_ofhmp_interfaces.Value.Fields.{get-put}
use sim_o1_ofhmp_interfaces.DictFactory.{or_raise, replace}
use sim_o1_ofhmp_interfaces.Ves.{subscript}
use sim_o1_ofhmp_interfaces.Netconf.{Sysrepo, Trace}
use sim_o1_ofhmp_interfaces.Hardware.{
  Library, within_hardware, write_unless, update_list, update_components, update_hardware,
  pass_over, check_ietf_hardware, write_hardware,
}
use sim_o1_ofhmp_interfaces.Hardware.Named.{AllNamed, components-Named, put_same}

subscript-get : (d : Entries) (k : Key) (v : Value) → get d k ≡ some v → subscript (dict d) k ≡ ok v
unfolding subscript or_raise
subscript-get d k v h = ap (or_raise key_error) h

-- The hardware with these components.
abbrev pub with_components : Entries → Entries → Items → Value
with_components a b xs = dict (put a (name "hardware") (dict (put b (name "component") (list xs))))

module _ (lib : Library) (hostname : String) (a b : Entries) (xs : Items)
    (hardware_is : get a (name "hardware") ≡ some (dict b))
    (components_are : get b (name "component") ≡ some (list xs)) where
  update_hardware-eq :
      let r : Result (Unit {0}) × Items = update_components lib hostname xs in
      update_hardware lib hostname (dict a) ≡ (r.0, with_components a b r.1)
  unfolding update_hardware within_hardware update_list replace
  update_hardware-eq =
      ap (within_hardware lib hostname (dict a)) (subscript-get a (name "hardware") _ hardware_is)
      ∙ ap
          (λ o. (
            (update_list lib hostname (dict b) o).0,
            replace (dict a) (name "hardware") (update_list lib hostname (dict b) o).1,
          ))
          (subscript-get b (name "component") _ components_are)

  check_ietf_hardware-eq :
      (sysrepo : Sysrepo) (s : Trace)
      → (update_components lib hostname xs).0 ≡ ok tt
      → check_ietf_hardware lib hostname sysrepo (ok (dict a)) s
        ≡ write_hardware sysrepo (with_components a b (update_components lib hostname xs).1) s
  unfolding check_ietf_hardware pass_over write_unless
  check_ietf_hardware-eq sysrepo s e =
      ap (λ r. write_unless sysrepo (pass_over r.0) r.1 s) update_hardware-eq
      ∙ ap
          (λ x.
            write_unless sysrepo (pass_over x)
              (with_components a b (update_components lib hostname xs).1) s)
          e

-- If a text that is added to a KeyedList is in its map afterwards, the hardware holds a list of components,
-- and the loop over them raises nothing: a check gives each its alias, asset-id and address and writes
-- them to both datastores, and the check of what was written writes the same again.
pub check_ietf_hardware_again :
    (lib : Library) (hostname : String) (sysrepo : Sysrepo) (a b : Entries) (xs : Items)
    (s t : Trace)
    → ((l : Items) (u : String) → lib.has (lib.added l u) u ≡ true)
    → get a (name "hardware") ≡ some (dict b)
    → get b (name "component") ≡ some (list xs)
    → (update_components lib hostname xs).0 ≡ ok tt
    → let ys : Items = (update_components lib hostname xs).1 in
      AllNamed lib hostname ys
      × (check_ietf_hardware lib hostname sysrepo (ok (dict a)) s
          ≡ write_hardware sysrepo (with_components a b ys) s)
      × (check_ietf_hardware lib hostname sysrepo (ok (with_components a b ys)) t
          ≡ write_hardware sysrepo (with_components a b ys) t)
check_ietf_hardware_again lib hostname sysrepo a b xs s t has_added h k e =
    let ys : Items = (update_components lib hostname xs).1 in
    let (named, again) = components-Named lib hostname has_added xs e in
    let b' : Entries = put b (name "component") (list ys) in
    let a' : Entries = put a (name "hardware") (dict b') in
    let h' : get a' (name "hardware") ≡ some (dict b') = simp get-put in
    let k' : get b' (name "component") ≡ some (list ys) = simp get-put in
    let same : with_components a' b' ys ≡ with_components a b ys =
      ap (λ d. dict (put a' (name "hardware") (dict d)))
        (put_same b' (name "component") (list ys) k')
      ∙ ap dict (put_same a' (name "hardware") (dict b') h') in
    (
      named,
      check_ietf_hardware-eq lib hostname a b xs h k sysrepo s e,
      check_ietf_hardware-eq lib hostname a' b' ys h' k' sysrepo t (ap (λ r. r.0) again)
          ∙ ap (λ r. write_hardware sysrepo (with_components a' b' r.1) t) again
          ∙ ap (λ v. write_hardware sysrepo v t) same,
    )
