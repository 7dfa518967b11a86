-- ===== src/DictFactory/Registry.antt =====
-- `DictFactory.templates`, `add_template` and `get_template`. A template class stands for the
-- dictionary that `create_dict` builds.
use sim_o1_ofhmp_interfaces.Prelude.{
  String, List, [], ◌∷◌, Option, none, some, ◌≡◌, arith, eq_iff, ◌==◌, string_eq, if◌then◌else◌,
}
use sim_o1_ofhmp_interfaces.Prelude.Result.{Result, ok, err, value_error}
use sim_o1_ofhmp_interfaces.Value.{Value}

abbrev pub Templates : Type 0
Templates = List (String × Value)

-- `DictFactory.templates.get(template_type)`
unfoldable pub find : Templates → String → Option Value
find [] t = none
find ((u, v) ∷ m) t = if u == t then some v else find m t

-- The first registration of a type stays.
unfoldable pub add_template : Templates → String → Value → Templates
unfolding find
add_template m t v = elim (find m t) [ some old ↦ m | none ↦ (t, v) ∷ m ]

unfoldable pub get_template : Templates → String → Result Value
unfolding find
get_template m t = elim (find m t) [ none ↦ err value_error | some v ↦ ok v ]

-- Registering a type that is known changes nothing; registering a new one makes it the answer for
-- that type. In both cases the answers for all other types stay.
pub get_template-add_template :
    (m : Templates) (t u : String) (v : Value)
    → get_template (add_template m t v) u
      ≡ elim (get_template m u) [ ok w ↦ ok w | err e ↦ if t == u then ok v else err e ]
unfolding add_template get_template
get_template-add_template m t u v = ground (arith, eq_iff t u)
