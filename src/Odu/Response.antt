-- ===== src/Odu/Response.antt =====
-- The texts around an answer of an O-RU, and `o_ran_aggregation_base_oper_data_cb`. The answers are
-- bytes; the marks that are removed are ASCII, so they are removed from the text that the bytes decode
-- to. What the O-RUs answer is given, and so is an exception in the place of an answer.
pub mod Unwrapped
use Prim.Native.String.append
use text.Mathlib.Text.{starts_with}
use sim_o1_ofhmp_interfaces.Prelude.{
  ℕ, zero, suc, ◌-◌, String, ◌<>◌, Option, none, some, Bool, true, false, List, [], ◌∷◌, ◌≡◌, refl,
  ap, ◌∙◌, sym, arith, if◌then◌else◌, string_eq, ◌==◌,
}
use sim_o1_ofhmp_interfaces.Prelude.Result.{Result, ok, err, ◌>>=◌}
use sim_o1_ofhmp_interfaces.Prelude.Table.{Table}
use sim_o1_ofhmp_interfaces.Odu.{Active}

abbrev size : String → ℕ
size String.[] = 0
size (String.◌∷◌ c s) = suc (size s)

-- `replace(t, b'')` of a mark that is not empty, from the left; the first characters are passed over.
unfoldable removed : String → String → ℕ → String
removed t String.[] n = ""
removed t (String.◌∷◌ c s) (suc n) = removed t s n
removed t (String.◌∷◌ c s) zero =
    let hit : Bool = starts_with (String.◌∷◌ c s) t in
    let rest : String = removed t s (if hit then size t - 1 else 0) in
    if hit then rest else String.◌∷◌ c rest

abbrev pub opening : String
opening = "<data xmlns=\"urn:ietf:params:xml:ns:netconf:base:1.0\">"

abbrev pub closing : String
closing = "</data>"

-- `get_xml_string_from_response`, and `get_timestamp_from_xml_notification`, which is the same.
unfoldable pub get_xml_string_from_response : String → String
unfolding removed
get_xml_string_from_response input = removed closing (removed opening input 0) 0

-- No place of the text, followed by the other, begins with the mark.
abbrev pub Clean : String → String → String → Type 0
Clean t String.[] y = Unit {0}
Clean t (String.◌∷◌ c s) y = (starts_with (String.◌∷◌ c (s <> y)) t ≡ false) × Clean t s y

-- One O-RU in the answer to a request for operational data.
abbrev pub aggregation_instance : Active → String → String
unfolding get_xml_string_from_response
aggregation_instance a answer =
    "<aggregation><ru-instance>"
    <> (a.hostname
        <> ("</ru-instance><ietf-hardware-model xmlns=\"urn:o-ran:agg-ietf-hardware:1.0\">"
            <> (get_xml_string_from_response answer <> "</ietf-hardware-model></aggregation>")))

-- The loop over the sessions.
unfoldable pub aggregate : (ℕ → Result String) → Table Active → String → Result String
aggregate get [] text = ok text
aggregate get ((k, a) ∷ t) text = do
  answer ← get k
  aggregate get t (text <> aggregation_instance a answer)

-- `o_ran_aggregation_base_oper_data_cb`, up to the parser of libyang.
unfoldable pub o_ran_aggregation_base_oper_data_cb :
    (ℕ → Result String) → Table Active → Result (Option String)
unfolding aggregate
o_ran_aggregation_base_oper_data_cb get [] = ok none
o_ran_aggregation_base_oper_data_cb get (e ∷ t) = do
  text ← aggregate get (e ∷ t) "<aggregated-o-ru xmlns=\"urn:o-ran:agg-base:1.0\">\n"
  ok (some (text <> "</aggregated-o-ru>"))
