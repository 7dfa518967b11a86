-- ===== src/Tests/HardwareTests.antt =====
-- Two components, the second with an address of its own.
use sim_o1_ofhmp_interfaces.Prelude.{
  String, Bool, true, false, ◌<>◌, [], ◌≡◌, refl, ◌==◌, string_eq, if◌then◌else◌, eq_refl,
}
use sim_o1_ofhmp_interfaces.Prelude.Result.{ok, err, key_error}
use sim_o1_ofhmp_interfaces.Value.{
  name, Value, str, list, dict, Items, nil, cons, Entries, end, entry,
}
use sim_o1_ofhmp_interfaces.Netconf.{Sysrepo}
use sim_o1_ofhmp_interfaces.Hardware.{
  Library, update_components, check_ietf_hardware, write_hardware,
}
use sim_o1_ofhmp_interfaces.Hardware.Named.{AllNamed}
use sim_o1_ofhmp_interfaces.Hardware.Again.{with_components, check_ietf_hardware_again}

abbrev has : Items → String → Bool
has nil u = false
has (cons (str x) xs) u = let rest = has xs u in if x == u then true else rest
has (cons x xs) u = has xs u

abbrev shown : Value → String
shown (str s) = s
shown v = ""

abbrev lib : Library
lib = record {
  show = shown;
  uuid5 = λ u. str ("uuid of " <> u);
  has = has;
  added = λ l u. cons (str u) l;
  empty = nil;
}

has_added : (l : Items) (u : String) → has (cons (str u) l) u ≡ true
has_added l u = rw (eq_refl u) refl

abbrev components : Items
components = cons (dict (entry (name "name") (str "ru") end)) (
    cons
      (dict (
        entry (name "name") (str "fan")
          (entry (name "uri") (list (cons (str "https://fan") nil)) end)))
      nil)

abbrev shelf : Entries
shelf = entry (name "component") (list components) end

abbrev hardware : Entries
hardware = entry (name "hardware") (dict shelf) end

abbrev sysrepo : Sysrepo
sysrepo trace datastore call = ok tt

abbrev named : Items
named = (update_components lib "odu" components).1

check_ietf_hardware_again_example :
    AllNamed lib "odu" named
    × (check_ietf_hardware lib "odu" sysrepo (ok (dict hardware)) []
        ≡ write_hardware sysrepo (with_components hardware shelf named) [])
    × (check_ietf_hardware lib "odu" sysrepo (ok (with_components hardware shelf named)) []
        ≡ write_hardware sysrepo (with_components hardware shelf named) [])
unfolding update_components
check_ietf_hardware_again_example =
    check_ietf_hardware_again lib "odu" sysrepo hardware shelf components [] [] has_added refl refl
      refl

-- The first component of a list whose second has no name.
part :
    update_components lib "odu"
      (cons (dict (entry (name "name") (str "ru") end)) (cons (dict end) nil))
    ≡ (
      err key_error,
      cons
          (dict (
            entry (name "name") (str "ru") (
              entry (name "alias") (str "odu-ru") (
                entry (name "asset-id") (str "uuid of odu-ru") (
                  entry
                    (name "uri")
                    (list (
                      cons
                        (str "https://odu.dcn/restconf/data/ietf-hardware:hardware/component/ru")
                        nil))
                    end)))))
          (cons (dict end) nil),
    )
unfolding update_components
part = refl
