-- ===== src/Hardware.antt =====
-- base/src/core/ietf_hardware.py: `check_ietf_hardware`, which names the components of the hardware.
-- The dictionaries are changed in place; here the changed object is put back where it was. An
-- exception that the method does not catch leaves nothing of them.
pub mod Named
pub mod Again
use sim_o1_ofhmp_interfaces.Prelude.{
  String, ◌<>◌, Bool, true, false, Option, none, some, [], ◌∷◌, ◌==◌, string_eq, if◌then◌else◌,
}
use sim_o1_ofhmp_interfaces.Prelude.Result.{
  Error, Result, ok, err, key_error, type_error, attribute_error, ◌>>=◌,
}
use sim_o1_ofhmp_interfaces.Prelude.Exec.{Exec, pure, raise, ◌>>◌}
use sim_o1_ofhmp_interfaces.Value.{
  name, Value, str, list, dict, Items, nil, cons, Entries, get, put,
}
use sim_o1_ofhmp_interfaces.DictFactory.{replace}
use sim_o1_ofhmp_interfaces.Ves.{subscript}
use sim_o1_ofhmp_interfaces.Server.{Datastore, running, operational}
use sim_o1_ofhmp_interfaces.Netconf.{Sysrepo, Trace, make, edit_batch, apply_changes}

-- How a value is shown in a text, the UUIDs of texts, and the KeyedList of libyang: whether it has a
-- text in its map, the list with one more, and the empty one.
pub record Library : Type 0 where
  pub show : Value → String
  pub uuid5 : String → Value
  pub has : Items → String → Bool
  pub added : Items → String → Items
  pub empty : Items

unfoldable pub alias_of : Library → String → Value → String
alias_of lib hostname n = hostname <> ("-" <> lib.show n)

unfoldable pub uri_of : Library → String → Value → String
uri_of lib hostname n =
    "https://"
    <> (hostname <> (".dcn/restconf/data/ietf-hardware:hardware/component/" <> lib.show n))

-- `component['uri']` afterwards.
unfoldable pub uris_with : Library → String → Option Value → Result Items
uris_with lib uri none = ok (lib.added lib.empty uri)
uris_with lib uri (some (list uris)) = ok (if lib.has uris uri then uris else lib.added uris uri)
uris_with lib uri (some v) = err attribute_error

-- The alias and the asset-id of a component with this name.
unfoldable pub identified : Library → String → Value → Entries → Entries
unfolding alias_of put
identified lib hostname n d =
    put (put d (name "alias") (str (alias_of lib hostname n))) (name "asset-id")
      (lib.uuid5 (alias_of lib hostname n))

abbrev pub put_uris : Entries → Result Items → Result Value
unfolding put
put_uris d (err e) = err e
put_uris d (ok uris) = ok (dict (put d (name "uri") (list uris)))

unfoldable pub update_fields : Library → String → Value → Entries → Result Value
unfolding uris_with uri_of identified get
update_fields lib hostname n d =
    put_uris (identified lib hostname n d)
      (uris_with lib (uri_of lib hostname n) (get (identified lib hostname n d) (name "uri")))

unfoldable pub update_component : Library → String → Value → Result Value
unfolding update_fields get
update_component lib hostname (dict d) = elim (get d (name "name")) [
  | none ↦ err key_error
  | some n ↦ update_fields lib hostname n d
]
update_component lib hostname v = err type_error

-- A component that raises ends the loop; those before it stay changed.
abbrev pub first :
    Value → Items → Result Value → Result (Unit {0}) × Items → Result (Unit {0}) × Items
first x xs (err e) rest = (err e, cons x xs)
first x xs (ok y) rest = (rest.0, cons y rest.1)

unfoldable pub update_components : Library → String → Items → Result (Unit {0}) × Items
unfolding update_component
update_components lib hostname nil = (ok tt, nil)
update_components lib hostname (cons x xs) =
    let rest : Result (Unit {0}) × Items = update_components lib hostname xs in
    first x xs (update_component lib hostname x) rest

-- `components['component']`, if it is a list.
unfoldable pub update_list : Library → String → Value → Result Value → Result (Unit {0}) × Value
unfolding update_components replace
update_list lib hostname h (err e) = (err e, h)
update_list lib hostname h (ok (list xs)) =
    let r : Result (Unit {0}) × Items = update_components lib hostname xs in
    (r.0, replace h (name "component") (list r.1))
update_list lib hostname h (ok v) = (ok tt, h)

-- `components['hardware']` and what is below it.
unfoldable pub within_hardware : Library → String → Value → Result Value → Result (Unit {0}) × Value
unfolding update_list subscript replace
within_hardware lib hostname v (err e) = (err e, v)
within_hardware lib hostname v (ok h) =
    let r : Result (Unit {0}) × Value =
      update_list lib hostname h (subscript h (name "component")) in
    (r.0, replace v (name "hardware") r.1)

unfoldable pub update_hardware : Library → String → Value → Result (Unit {0}) × Value
unfolding within_hardware subscript
update_hardware lib hostname v = within_hardware lib hostname v (subscript v (name "hardware"))

-- `except KeyError` and `except TypeError`
unfoldable pub pass_over : Result (Unit {0}) → Result (Unit {0})
pass_over (ok x) = ok x
pass_over (err key_error) = ok tt
pass_over (err type_error) = ok tt
pass_over (err e) = err e

-- What is sent to sysrepo, without a default operation.
unfoldable pub write_hardware : Sysrepo → Value → Exec Trace (Unit {0})
unfolding make
write_hardware sysrepo v = do
  make sysrepo running (edit_batch v "ietf-hardware" "")
  make sysrepo running apply_changes
  make sysrepo operational (edit_batch v "ietf-hardware" "")
  make sysrepo operational apply_changes

unfoldable pub write_unless : Sysrepo → Result (Unit {0}) → Value → Exec Trace (Unit {0})
unfolding write_hardware
write_unless sysrepo (err e) v = raise e
write_unless sysrepo (ok x) v = write_hardware sysrepo v

unfoldable pub check_ietf_hardware :
    Library → String → Sysrepo → Result Value → Exec Trace (Unit {0})
unfolding update_hardware pass_over write_unless
check_ietf_hardware lib hostname sysrepo (err e) = raise e
check_ietf_hardware lib hostname sysrepo (ok v) =
    let r : Result (Unit {0}) × Value = update_hardware lib hostname v in
    write_unless sysrepo (pass_over r.0) r.1
