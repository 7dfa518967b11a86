-- ===== src/Crypto/Pem/Lines.antt =====
-- The text of a key or certificate in PEM, line by line, and what is left of it without its markers.
use Prim.Native.String.append
use mathlib.Core.List.{append_assoc}
use sim_o1_ofhmp_interfaces.Prelude.{
  suc, ◌-◌, String, ◌<>◌, false, List, [], ◌∷◌, ◌++◌, length, length-append, take, drop,
  take-append_self, ◌≡◌, refl, ap, ◌∙◌, arith, All, ◌==◌, string_eq, if◌then◌else◌,
}
use sim_o1_ofhmp_interfaces.Text.{join}
use sim_o1_ofhmp_interfaces.Crypto.Pem.{split, to_first, inner, no_markers}

-- No character of the text is the separator.
abbrev pub IsFree : String → String → Type 0
IsFree sep String.[] = Unit {0}
IsFree sep (String.◌∷◌ c s) = ((String.◌∷◌ c "" == sep) ≡ false) × IsFree sep s

-- Lines, each with its line break.
abbrev pub unlines : List String → String
unlines [] = ""
unlines (s ∷ l) = s <> ("\n" <> unlines l)

split-line : (s r : String) → IsFree "\n" s → split "\n" (s <> ("\n" <> r)) ≡ s ∷ split "\n" r
unfolding split
split-line String.[] r h =
    ap (split "\n")
      (append.nil ("\n" <> r) ∙ append.cons "\n" "" r ∙ ap (String.◌∷◌ "\n") (append.nil r))
split-line (String.◌∷◌ c s) r (h, hs) =
    let after : String = s <> ("\n" <> r) in
    ap (split "\n") (append.cons c s ("\n" <> r))
    ∙ ap (λ b. if b then "" ∷ split "\n" after else to_first (String.◌∷◌ c "") (split "\n" after)) h
    ∙ ap (to_first (String.◌∷◌ c "")) (split-line s r hs)
    ∙ ap (λ w. w ∷ split "\n" r) (append.cons c "" s ∙ ap (String.◌∷◌ c) (append.nil s))

split-unlines : (l : List String) → All (IsFree "\n") l → split "\n" (unlines l) ≡ l ++ "" ∷ []
unfolding split
split-unlines [] h = refl
split-unlines (s ∷ l) (h, hs) = split-line s (unlines l) h ∙ ap (λ m. s ∷ m) (split-unlines l hs)

inner-lines :
    (header footer : String) (l : List String) → inner (header ∷ (l ++ footer ∷ []) ++ "" ∷ []) ≡ l
inner-lines header footer l =
    ap (λ n. drop 1 (take n (header ∷ (l ++ footer ∷ []) ++ "" ∷ []))) counted
    ∙ ap (take (length l)) (append_assoc l (footer ∷ []) ("" ∷ []))
    ∙ take-append_self l (footer ∷ "" ∷ [])
  where
    counted : length (header ∷ (l ++ footer ∷ []) ++ "" ∷ []) - 2 ≡ suc (length l)
    counted =
        omega (arith, length-append (l ++ footer ∷ []) ("" ∷ []), length-append l (footer ∷ []))

-- Of the text of a key or certificate, whose lines end with a line break and hold none, the lines
-- between the first and the last are left, joined by line breaks.
pub no_markers-unlines :
    (header footer : String) (l : List String)
    → All (IsFree "\n") (header ∷ l ++ footer ∷ [])
    → no_markers (unlines (header ∷ l ++ footer ∷ [])) ≡ join "\n" l
unfolding no_markers
no_markers-unlines header footer l h =
    ap (λ m. join "\n" (inner m)) (split-unlines (header ∷ l ++ footer ∷ []) h)
    ∙ ap (join "\n") (inner-lines header footer l)
