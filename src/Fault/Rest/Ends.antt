-- ===== src/Fault/Rest/Ends.antt =====
-- What the end of a URL is.
use Prim.Native.Char.{Char}
use Prim.Native.String.append
use sim_o1_ofhmp_interfaces.Prelude.{
  String, ◌<>◌, Bool, true, false, ◌≡◌, ◌≢◌, refl, arith, ap, ◌∙◌, sym, eq_iff, eq_refl, string_eq,
  ◌==◌, Bool-cases, inl, inr,
}
use sim_o1_ofhmp_interfaces.Fault.Rest.{ends_with}

-- The last character, as a text.
abbrev last : String → String
last String.[] = ""
last (String.◌∷◌ c String.[]) = String.◌∷◌ c ""
last (String.◌∷◌ c (String.◌∷◌ d s)) = last (String.◌∷◌ d s)

abbrev is_empty : String → Bool
is_empty String.[] = true
is_empty (String.◌∷◌ c s) = false

empty_apart : (c : Char) (e : String) → String.◌∷◌ c e ≢ ""
empty_apart c e h = cc

ends_with_self : (e : String) → ends_with e e ≡ true
unfolding ends_with
ends_with_self String.[] = eq_refl ""
ends_with_self (String.◌∷◌ c s) = rw (eq_refl (String.◌∷◌ c s)) refl

ends_with-cons :
    (c : Char) (s e : String) → ends_with s e ≡ true → ends_with (String.◌∷◌ c s) e ≡ true
unfolding ends_with
ends_with-cons c s e h = ground (arith, h)

pub ends_with-append : (p e : String) → ends_with (p <> e) e ≡ true
ends_with-append String.[] e = ap (λ s. ends_with s e) (append.nil e) ∙ ends_with_self e
ends_with-append (String.◌∷◌ c p) e =
    ap (λ s. ends_with s e) (append.cons c p e) ∙ ends_with-cons c (p <> e) e (ends_with-append p e)

-- A text that is not empty ends with its last character.
last-append :
    (p : String) (c : Char) (e : String) → last (p <> String.◌∷◌ c e) ≡ last (String.◌∷◌ c e)
last-append String.[] c e = ap last (append.nil (String.◌∷◌ c e))
last-append (String.◌∷◌ x String.[]) c e =
    ap last (append.cons x "" (String.◌∷◌ c e) ∙ ap (String.◌∷◌ x) (append.nil (String.◌∷◌ c e)))
last-append (String.◌∷◌ x (String.◌∷◌ y q)) c e =
    ap last (
      append.cons x (String.◌∷◌ y q) (String.◌∷◌ c e)
      ∙ ap (String.◌∷◌ x) (append.cons y q (String.◌∷◌ c e)))
    ∙ ap last (sym (append.cons y q (String.◌∷◌ c e)))
    ∙ last-append (String.◌∷◌ y q) c e

nothing_ends : (c : Char) (e : String) → ends_with "" (String.◌∷◌ c e) ≡ false
unfolding ends_with
nothing_ends c e = elim (Bool-cases (String.◌∷◌ c e == "")) [
  | inl h ↦ absurd (empty_apart c e ((eq_iff (String.◌∷◌ c e) "").0 h))
  | inr h ↦ h
]

ends_with-last :
    (s : String) (c : Char) (e : String)
    → ends_with s (String.◌∷◌ c e) ≡ true
    → last s ≡ last (String.◌∷◌ c e)
unfolding ends_with
ends_with-last String.[] c e h = cc (nothing_ends c e)
ends_with-last (String.◌∷◌ x String.[]) c e h =
    elim (Bool-cases (String.◌∷◌ x "" == String.◌∷◌ c e)) [
      | inl same ↦ ap last ((eq_iff (String.◌∷◌ x "") (String.◌∷◌ c e)).0 same)
      | inr other ↦ absurd (ground (arith, other, nothing_ends c e))
    ]
ends_with-last (String.◌∷◌ x (String.◌∷◌ d t)) c e h =
    elim (Bool-cases (String.◌∷◌ x (String.◌∷◌ d t) == String.◌∷◌ c e)) [
      | inl same ↦ ap last ((eq_iff (String.◌∷◌ x (String.◌∷◌ d t)) (String.◌∷◌ c e)).0 same)
      | inr other ↦ ends_with-last (String.◌∷◌ d t) c e (ground (arith, other, h))
    ]

-- A text with another last character does not end so.
ends_with-other :
    (s : String) (c : Char) (e : String)
    → last s ≢ last (String.◌∷◌ c e)
    → ends_with s (String.◌∷◌ c e) ≡ false
ends_with-other s c e h = elim (Bool-cases (ends_with s (String.◌∷◌ c e))) [
  | inl same ↦ absurd (h (ends_with-last s c e same))
  | inr other ↦ other
]

-- Of two endings with different last characters, a text that has the one does not have the other.
pub ends_with-apart :
    (p d e : String)
    → is_empty d ≡ false
    → is_empty e ≡ false
    → last d ≢ last e
    → ends_with (p <> d) e ≡ false
ends_with-apart p String.[] e f g h = cc
ends_with-apart p (String.◌∷◌ c d) String.[] f g h = cc
ends_with-apart p (String.◌∷◌ c d) (String.◌∷◌ b e) f g h =
    ends_with-other (p <> String.◌∷◌ c d) b e (λ x. h (sym (last-append p c d) ∙ x))
