-- ===== src/Text/Int.antt =====
-- Python's `int(s)` on a text, over its code points: white space round it, a sign, and decimal digits
-- with single underscores between them. Digits and spaces outside ASCII are left out.
use sim_o1_ofhmp_interfaces.Prelude.{
  ℕ, zero, suc, ◌+◌, ◌-◌, ◌*◌, String, Bool, true, false, ◌&&◌, ◌||◌, Option, none, some, List, [],
  ◌∷◌, ◌≡◌, refl, leb, nat_beq, if◌then◌else◌,
}
use sim_o1_ofhmp_interfaces.Text.{codes}

-- `negsuc n` is -(n + 1).
pub data ℤ : Type 0 where
  pos : ℕ → ℤ
  negsuc : ℕ → ℤ

negated : ℕ → ℤ
negated zero = pos 0
negated (suc n) = negsuc n

is_digit : ℕ → Bool
is_digit c = leb b'0' c && leb c b'9'

is_space : ℕ → Bool
is_space c = nat_beq c b' ' || leb 9 c && leb c 13 || leb 28 c && leb c 31

all_spaces : List ℕ → Bool
unfolding is_space
all_spaces [] = true
all_spaces (c ∷ s) = is_space c && all_spaces s

-- The rest of the number after a digit (`true`) or after an underscore (`false`).
number : Bool → ℕ → List ℕ → Option ℕ
unfolding is_digit all_spaces
number true n [] = some n
number false n [] = none
number after_digit n (c ∷ s) =
    let digit = number true (n * 10 + (c - b'0')) s in
    let underscore = number false n s in
    if is_digit c
    then digit
    else if nat_beq c b'_'
    then (if after_digit then underscore else none)
    else if after_digit && all_spaces (c ∷ s)
    then some n
    else none

signed : List ℕ → Option ℤ
unfolding number negated
signed [] = none
signed (c ∷ s) =
    if nat_beq c b'-'
    then elim (number false 0 s) [ none ↦ none | some n ↦ some (negated n) ]
    else if nat_beq c b'+'
    then elim (number false 0 s) [ none ↦ none | some n ↦ some (pos n) ]
    else elim (number false 0 (c ∷ s)) [ none ↦ none | some n ↦ some (pos n) ]

strip : List ℕ → List ℕ
unfolding is_space
strip [] = []
strip (c ∷ s) = let rest = strip s in if is_space c then rest else c ∷ s

-- `none` is the ValueError.
unfoldable pub int : String → Option ℤ
unfolding signed strip
int s = signed (strip (codes s))

int_runs :
    (int " -1_0\n" ≡ some (negsuc 9)) × (int "1__0" ≡ none) × (int "_1" ≡ none) × (int "" ≡ none)
unfolding int
int_runs = (refl, refl, refl, refl)
