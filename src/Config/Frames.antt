-- ===== src/Config/Frames.antt =====
-- The bytes of option 43 as a sequence of sub-options, each its type, its length and its value, and
-- what the parser makes of such a sequence.
use mathlib.Core.List.{append_assoc}
use native.Mathlib.Nat.{zero-add, add-zero, suc-add, le_refl}
use sim_o1_ofhmp_interfaces.Prelude.{
  ℕ, zero, suc, ◌+◌, ◌≤◌, ◌<◌, Bool, true, false, List, [], ◌∷◌, ◌++◌, ltb, length, take, drop,
  length-append, length-drop, length-take, take-append-drop, take-append_self, drop-append_self,
  ◌≡◌, refl, ap, arith, inl, inr, Bool-cases, if◌then◌else◌, ◌∙◌, sym,
}
use sim_o1_ofhmp_interfaces.Config.Option43.{Dhcp, byte, apply_option, option_loop, parse_option_43}

pub record Frame : Type 0 where
  pub type : ℕ
  pub value : List ℕ

unfoldable pub encode : List Frame → List ℕ
encode [] = []
encode (f ∷ fs) = f.type ∷ length f.value ∷ (f.value ++ encode fs)

unfoldable pub apply_frames : List Frame → Dhcp → Dhcp
apply_frames [] s = s
apply_frames (f ∷ fs) s = apply_frames fs (apply_option f.type (length f.value) f.value s)

-- Bytes that begin no whole sub-option.
abbrev pub IsTruncated : List ℕ → Type 0
IsTruncated [] = Unit
IsTruncated (t ∷ []) = Unit
IsTruncated (t ∷ n ∷ xs) = length xs < n

-- The loop on the bytes that are left.
scan : ℕ → List ℕ → Dhcp → Dhcp
scan zero xs s = s
scan (suc fuel) [] s = s
scan (suc fuel) (t ∷ []) s = s
scan (suc fuel) (t ∷ n ∷ xs) s =
    let rest = scan fuel (drop n xs) (apply_option t n (take n xs) s) in
    if ltb (length xs) n then s else rest

drop-nil : (k : ℕ) → drop {A = ℕ} k [] ≡ []
drop-nil zero = refl
drop-nil (suc k) = refl

drop-add : (i k : ℕ) (xs : List ℕ) → drop (i + k) xs ≡ drop k (drop i xs)
drop-add zero k xs = rw zero-add refl
drop-add (suc i) k [] = drop-nil (suc i + k) ∙ sym (drop-nil k)
drop-add (suc i) k (x ∷ xs) = rw suc-add (drop-add i k xs)

byte-drop : (i k : ℕ) (xs : List ℕ) → byte xs (i + k) ≡ byte (drop i xs) k
byte-drop zero k xs = rw zero-add refl
byte-drop (suc i) k [] = refl
byte-drop (suc i) k (x ∷ xs) = rw suc-add (byte-drop i k xs)

guards {ℓ} :
    {A : Type ℓ} (a b c d : Bool) (x y : A)
    → a ≡ true
    → b ≡ false
    → c ≡ d
    → (if a then (if b then x else if c then x else y) else x) ≡ (if d then x else y)
guards true false c d x y p q r = rw r refl
guards true true c d x y p q r = cc
guards false b c d x y p q r = cc

-- One round at an index, by what is left from there.
round-nil :
    (fuel : ℕ) (raw : List ℕ) (i : ℕ) (s : Dhcp)
    → length raw ≤ i
    → option_loop (suc fuel) raw i s ≡ s
unfolding option_loop
round-nil fuel raw i s h = ground arith

round-one :
    (fuel : ℕ) (raw : List ℕ) (i : ℕ) (s : Dhcp)
    → length raw ≡ i + 1
    → option_loop (suc fuel) raw i s ≡ s
unfolding option_loop
round-one fuel raw i s h = ground arith

round-cons :
    (fuel : ℕ) (raw : List ℕ) (i : ℕ) (s : Dhcp) (t n : ℕ) (xs : List ℕ)
    → length raw ≡ i + 2 + length xs
    → byte raw i ≡ t
    → byte raw (i + 1) ≡ n
    → drop (i + 2) raw ≡ xs
    → option_loop (suc fuel) raw i s ≡ (
        if ltb (length xs) n
        then s
        else option_loop fuel raw (i + 2 + n) (apply_option t n (take n xs) s))
unfolding option_loop
round-cons fuel raw i s t n xs len bt bn e =
    rw (bt, bn, e, option_loop)
      (guards (ltb i (length raw)) (ltb (length raw) (i + 2)) (ltb (length raw) (i + 2 + n)) _ s _
        (ground arith) (ground arith) (ground arith))

-- One round, where the rest of the loop is known.
round-scan :
    (fuel : ℕ) (raw : List ℕ) (i : ℕ) (s : Dhcp)
    → ((j : ℕ) (s' : Dhcp) → option_loop fuel raw j s' ≡ scan fuel (drop j raw) s')
    → (ys : List ℕ) → drop i raw ≡ ys
    → option_loop (suc fuel) raw i s ≡ scan (suc fuel) ys s
unfolding scan
round-scan fuel raw i s rest [] e =
    round-nil fuel raw i s (omega (arith, ap length e, length-drop i raw))
round-scan fuel raw i s rest (t ∷ []) e =
    round-one fuel raw i s (omega (arith, ap length e, length-drop i raw))
round-scan fuel raw i s rest (t ∷ n ∷ xs) e =
    round-cons fuel raw i s t n xs (omega (arith, ap length e, length-drop i raw))
      (ap (byte raw) (sym (add-zero i)) ∙ byte-drop i 0 raw ∙ ap (λ l. byte l 0) e)
      (byte-drop i 1 raw ∙ ap (λ l. byte l 1) e) left
    ∙ ap (λ r. if ltb (length xs) n then s else r)
        (rest (i + 2 + n) next ∙ ap (λ l. scan fuel l next) further)
  where
    next : Dhcp
    next = apply_option t n (take n xs) s

    left : drop (i + 2) raw ≡ xs
    left = drop-add i 2 raw ∙ ap (drop 2) e

    further : drop (i + 2 + n) raw ≡ drop n xs
    further = drop-add (i + 2) n raw ∙ ap (drop n) left

option_loop-scan :
    (fuel : ℕ) (raw : List ℕ) (i : ℕ) (s : Dhcp)
    → option_loop fuel raw i s ≡ scan fuel (drop i raw) s
unfolding scan option_loop
option_loop-scan zero raw i s = refl
option_loop-scan (suc fuel) raw i s =
    round-scan fuel raw i s (option_loop-scan fuel raw) (drop i raw) refl

scan-cons :
    (fuel t : ℕ) (v xs : List ℕ) (s : Dhcp)
    → scan (suc fuel) (t ∷ length v ∷ (v ++ xs)) s ≡ scan fuel xs (apply_option t (length v) v s)
unfolding scan
scan-cons fuel t v xs s =
    rw (take-append_self v xs, drop-append_self v xs)
      (guards true false (ltb (length (v ++ xs)) (length v)) false s _ refl refl
        (ground (arith, length-append v xs)))

scan-encode :
    (fuel : ℕ) (fs : List Frame) (rest : List ℕ) (s : Dhcp)
    → length (encode fs ++ rest) ≤ fuel
    → IsTruncated rest
    → scan fuel (encode fs ++ rest) s ≡ apply_frames fs s
unfolding scan encode apply_frames
scan-encode zero [] rest s h ends = refl
scan-encode (suc fuel) [] [] s h ends = refl
scan-encode (suc fuel) [] (t ∷ []) s h ends = refl
scan-encode (suc fuel) [] (t ∷ n ∷ xs) s h ends = ground arith
scan-encode zero (f ∷ fs) rest s h ends = absurd (omega arith)
scan-encode (suc fuel) (f ∷ fs) rest s h ends =
    ap (λ xs. scan (suc fuel) (f.type ∷ length f.value ∷ xs) s) assoc
    ∙ scan-cons fuel f.type f.value (encode fs ++ rest) s
    ∙ scan-encode fuel fs rest _
        (omega (arith, ap length assoc, length-append f.value (encode fs ++ rest))) ends
  where
    assoc : (f.value ++ encode fs) ++ rest ≡ f.value ++ (encode fs ++ rest)
    assoc = append_assoc f.value (encode fs) rest

-- The parser does with whole sub-options, followed by bytes that begin none, what the branches do
-- with the sub-options one after another.
pub parse_option_43-encode :
    (fs : List Frame) (rest : List ℕ) (s : Dhcp)
    → IsTruncated rest
    → parse_option_43 (encode fs ++ rest) s ≡ apply_frames fs s
unfolding parse_option_43
parse_option_43-encode fs rest s ends =
    option_loop-scan _ (encode fs ++ rest) 0 s ∙ scan-encode _ fs rest s (le_refl _) ends

-- A sub-option that fits, and what was found behind it.
whole :
    (t n : ℕ) (xs ys rest : List ℕ)
    → n ≤ length xs
    → drop n xs ≡ ys ++ rest
    → ◌≡◌ {A = List ℕ} (t ∷ n ∷ xs) (t ∷ length (take n xs) ∷ ((take n xs ++ ys) ++ rest))
whole t n xs ys rest fits e =
    ap (λ m. t ∷ m ∷ xs) (omega (arith, length-take n xs))
    ∙ ap (λ l. t ∷ length (take n xs) ∷ l)
        (sym (
          append_assoc (take n xs) ys rest
          ∙ ap (λ l. take n xs ++ l) (sym e)
          ∙ take-append-drop n xs))

-- All bytes are whole sub-options and then bytes that begin none.
split_frames :
    (fuel : ℕ) (raw : List ℕ)
    → length raw ≤ fuel
    → (fs : List Frame) × (rest : List ℕ) × (raw ≡ encode fs ++ rest) × IsTruncated rest
unfolding encode
split_frames fuel [] h = ([], [], refl, tt)
split_frames fuel (t ∷ []) h = ([], t ∷ [], refl, tt)
split_frames zero (t ∷ n ∷ xs) h = absurd (omega arith)
split_frames (suc fuel) (t ∷ n ∷ xs) h = elim (Bool-cases (ltb (length xs) n)) [
  | inl short ↦ ([], t ∷ n ∷ xs, refl, ground arith)
  | inr fits ↦
      let (fs, rest, e, ends) = split_frames fuel (drop n xs) (omega (arith, length-drop n xs)) in
      (
        record { type = t; value = take n xs } ∷ fs,
        rest,
        whole t n xs (encode fs) rest (ground arith) e,
        ends,
      )
]
