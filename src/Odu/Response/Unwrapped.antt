-- ===== src/Odu/Response/Unwrapped.antt =====
-- What is left of an answer without its marks, and how the answers of the sessions are put together.
use Prim.Native.String.append
use Prim.Native.Char.{Char}
use text.Mathlib.Text.{starts_with}
use text.Mathlib.TextPositions.{starts_with-append}
use text.Mathlib.TextLemmas.{append-nil, append_assoc}
use sim_o1_ofhmp_interfaces.Prelude.{
  ℕ, suc, ◌-◌, String, ◌<>◌, Option, none, some, List, [], ◌∷◌, ◌≡◌, refl, ap, ◌∙◌, sym, arith,
  if◌then◌else◌, string_eq,
}
use sim_o1_ofhmp_interfaces.Prelude.Result.{Result, ok, err, ◌>>=◌}
use sim_o1_ofhmp_interfaces.Prelude.Table.{Table}
use sim_o1_ofhmp_interfaces.Odu.{Active}
use sim_o1_ofhmp_interfaces.Odu.Response.{
  size, removed, opening, closing, get_xml_string_from_response, Clean, aggregation_instance,
  aggregate, o_ran_aggregation_base_oper_data_cb,
}

removed-skip : (t u s : String) → removed t (u <> s) (size u) ≡ removed t s 0
unfolding removed
removed-skip t String.[] s = ap (λ w. removed t w 0) (append.nil s)
removed-skip t (String.◌∷◌ c u) s =
    ap (λ w. removed t w (suc (size u))) (append.cons c u s) ∙ removed-skip t u s

removed-Clean : (t x y : String) → Clean t x y → removed t (x <> y) 0 ≡ x <> removed t y 0
unfolding removed
removed-Clean t String.[] y h =
    ap (λ w. removed t w 0) (append.nil y) ∙ sym (append.nil (removed t y 0))
removed-Clean t (String.◌∷◌ c x) y (miss, h) =
    ap (λ w. removed t w 0) (append.cons c x y)
    ∙ passed
    ∙ ap (λ w. String.◌∷◌ c w) (removed-Clean t x y h)
    ∙ sym (append.cons c x (removed t y 0))
  where
    passed : removed t (String.◌∷◌ c (x <> y)) 0 ≡ String.◌∷◌ c (removed t (x <> y) 0)
    passed =
        ap
          (λ hit.
            let rest : String = removed t (x <> y) (if hit then size t - 1 else 0) in
            if hit then rest else String.◌∷◌ c rest)
          miss

removed-hit :
    (c : Char) (t r : String)
    → removed (String.◌∷◌ c t) (String.◌∷◌ c t <> r) 0 ≡ removed (String.◌∷◌ c t) r 0
unfolding removed
removed-hit c t r =
    let mark : String = String.◌∷◌ c t in
    ap (λ w. removed mark w 0) (append.cons c t r)
    ∙ ap
        (λ hit.
          let rest : String = removed mark (t <> r) (if hit then size mark - 1 else 0) in
          if hit then rest else String.◌∷◌ c rest)
        (ap (λ w. starts_with w mark) (sym (append.cons c t r)) ∙ starts_with-append mark r)
    ∙ ap (λ n. removed mark (t <> r) n) (omega arith)
    ∙ removed-skip mark t r

-- Whatever text stands between the two marks of an answer, where no place of it begins with one of
-- them, `get_xml_string_from_response` gives that text.
pub get_xml_string_from_response-wrapped :
    (x : String)
    → Clean opening x closing
    → Clean closing x closing
    → get_xml_string_from_response (opening <> (x <> closing)) ≡ x
unfolding get_xml_string_from_response removed
get_xml_string_from_response-wrapped x h k =
    ap (λ w. removed closing w 0)
      (removed-hit _ _ (x <> closing) ∙ removed-Clean opening x closing h)
    ∙ removed-Clean closing x closing k
    ∙ append-nil x

-- The parts of the sessions, as far as every session answers.
abbrev pub parts : (ℕ → Result String) → Table Active → Result (List String)
parts get [] = ok []
parts get ((k, a) ∷ t) = do
  answer ← get k
  rest ← parts get t
  ok (aggregation_instance a answer ∷ rest)

abbrev pub concat : List String → String
concat [] = ""
concat (x ∷ l) = x <> concat l

abbrev pub joined : (ℕ → Result String) → Table Active → Result (Option String)
joined get [] = ok none
joined get (e ∷ t) = parts get (e ∷ t) >>= λ l. ok (
    some (
      "<aggregated-o-ru xmlns=\"urn:o-ran:agg-base:1.0\">\n" <> (concat l <> "</aggregated-o-ru>")))

module _ (get : ℕ → Result String) where
  aggregate-parts :
      (t : Table Active) (text : String)
      → aggregate get t text ≡ (parts get t >>= λ l. ok (text <> concat l))
  unfolding aggregate
  aggregate-parts [] text = ap ok (sym (append-nil text))
  aggregate-parts ((k, a) ∷ t) text =
      by_answer (get k) λ x. aggregate-parts t (text <> aggregation_instance a x)
    where
      by_rest :
          (x : String) (r : Result (List String))
          → (r >>= λ l. ok ((text <> x) <> concat l))
            ≡ ((r >>= λ l. ok (x ∷ l)) >>= λ l. ok (text <> concat l))
      by_rest x (err e) = refl
      by_rest x (ok l) = ap ok (append_assoc text x (concat l))

      by_answer :
          (r : Result String)
          → ((x : String)
              → aggregate get t (text <> aggregation_instance a x)
                ≡ (parts get t >>= λ l. ok ((text <> aggregation_instance a x) <> concat l)))
          → (r >>= λ x. aggregate get t (text <> aggregation_instance a x)) ≡ (
              (r >>= λ x. parts get t >>= λ l. ok (aggregation_instance a x ∷ l)) >>= λ l.
              ok (text <> concat l))
      by_answer (err e) step = refl
      by_answer (ok x) step = step x ∙ by_rest (aggregation_instance a x) (parts get t)

  -- Without a session the request for operational data gives nothing. Else it gives one text, with one
  -- part for each session in the order of the dictionary, if every session answers; the first session
  -- that raises makes the whole request raise.
  pub o_ran_aggregation_base_oper_data_cb-parts :
      (t : Table Active) → o_ran_aggregation_base_oper_data_cb get t ≡ joined get t
  unfolding o_ran_aggregation_base_oper_data_cb
  o_ran_aggregation_base_oper_data_cb-parts [] = refl
  o_ran_aggregation_base_oper_data_cb-parts (e ∷ t) =
      ap (λ r. r >>= λ text. ok (some (text <> "</aggregated-o-ru>"))) (aggregate-parts (e ∷ t) _)
      ∙ by_parts (parts get (e ∷ t))
    where
      by_parts :
          (r : Result (List String))
          → ((r >>= λ l. ok ("<aggregated-o-ru xmlns=\"urn:o-ran:agg-base:1.0\">\n" <> concat l))
              >>= λ text. ok (some (text <> "</aggregated-o-ru>")))
            ≡ (r >>= λ l. ok (
                some (
                  "<aggregated-o-ru xmlns=\"urn:o-ran:agg-base:1.0\">\n"
                  <> (concat l <> "</aggregated-o-ru>"))))
      by_parts (err e) = refl
      by_parts (ok l) = ap (λ w. ok (some w)) (append_assoc _ (concat l) _)
