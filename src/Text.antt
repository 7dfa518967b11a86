-- ===== src/Text.antt =====
-- What the program uses of Python's texts: `str(n)`, `int(s)`, `s.lower()`, `sep.join(l)`, the ASCII
-- decoding of bytes. A text is a native `String`, and is walked as the list of its code points.
pub mod Int
use Prim.Native.Char.{code}
use Prim.Native.String.{slice}
use sim_o1_ofhmp_interfaces.Prelude.{
  ℕ, zero, suc, ◌+◌, ◌-◌, ◌*◌, ◌/◌, ◌%◌, String, ◌<>◌, Bool, true, false, ◌&&◌, ◌||◌, Option, none,
  some, List, [], ◌∷◌, ◌++◌, map, ◌≡◌, refl, ltb, leb, nat_beq, if◌then◌else◌,
}

-- The code points of a text.
abbrev pub codes : String → List ℕ
codes String.[] = []
codes (String.◌∷◌ c s) = code c ∷ codes s

abbrev pub codes_eq : List ℕ → List ℕ → Bool
codes_eq [] [] = true
codes_eq (a ∷ s) (b ∷ t) = nat_beq a b && codes_eq s t
codes_eq _ _ = false

abbrev ascii : String
ascii =
    "\0\u{1}\u{2}\u{3}\u{4}\u{5}\u{6}\u{7}\u{8}\t\n\u{b}\u{c}\r\u{e}\u{f}\u{10}\u{11}\u{12}\u{13}\u{14}\u{15}\u{16}\u{17}\u{18}\u{19}\u{1a}\u{1b}\u{1c}\u{1d}\u{1e}\u{1f} !\"#$%&'()*+,-./0123456789:;<=>?@ABCDEFGHIJKLMNOPQRSTUVWXYZ[\\]^_`abcdefghijklmnopqrstuvwxyz{|}~\u{7f}"

-- The text of one ASCII character.
unfoldable pub chr : ℕ → String
chr n = slice ascii n (n + 1)

-- `bytes.decode("ascii")`; `none` is the UnicodeDecodeError.
unfoldable pub decode_ascii : List ℕ → Option String
unfolding chr
decode_ascii [] = some ""
decode_ascii (b ∷ s) =
    let rest = decode_ascii s in
    if ltb b 128 then elim rest [ none ↦ none | some t ↦ some (chr b <> t) ] else none

-- `str(n)`: the fuel `suc n` is more than the number of digits.
unfoldable pub digits : ℕ → ℕ → String
unfolding chr
digits zero n = ""
digits (suc fuel) n =
    let front = digits fuel (n / 10) in
    if ltb n 10 then chr (48 + n) else front <> chr (48 + n % 10)

unfoldable pub of_nat : ℕ → String
unfolding digits
of_nat n = digits (suc n) n

-- `sep.join(l)`
unfoldable pub join : String → List String → String
join sep [] = ""
join sep (s ∷ []) = s
join sep (s ∷ t ∷ l) = s <> (sep <> join sep (t ∷ l))

abbrev lower_code : ℕ → ℕ
lower_code c = if leb 65 c && leb c 90 then c + 32 else c

-- `s.lower()`, on the code points. Letters outside ASCII are left: none of them is lowered to a
-- letter of the texts that the program compares with.
unfoldable pub lower : String → List ℕ
lower s = map lower_code (codes s)

chr_table : chr 65 ≡ "A"
unfolding chr
chr_table = refl

of_nat_runs : of_nat 6513 ≡ "6513"
unfolding of_nat
of_nat_runs = refl
