-- ===== src/Crypto/Pem.antt =====
-- What `CryptoUtils` makes of the texts of keys and certificates, and of a fingerprint.
pub mod Lines
use sim_o1_ofhmp_interfaces.Prelude.{
  ℕ, zero, suc, ◌+◌, ◌-◌, ◌/◌, ◌%◌, String, ◌<>◌, Bool, true, false, Option, none, some, List, [],
  ◌∷◌, length, get_elem?, take, drop, map, ◌==◌, string_eq, if◌then◌else◌,
}
use sim_o1_ofhmp_interfaces.Prelude.Result.{Result, ok, err, index_error}
use sim_o1_ofhmp_interfaces.Text.{join}
use sim_o1_ofhmp_interfaces.DictFactory.{or_raise}

abbrev pub to_first : String → List String → List String
to_first c [] = c ∷ []
to_first c (s ∷ l) = (c <> s) ∷ l

-- `s.split(sep)`, for a separator of one character
unfoldable pub split : String → String → List String
split sep String.[] = "" ∷ []
split sep (String.◌∷◌ c s) =
    let rest = split sep s in
    if String.◌∷◌ c "" == sep then "" ∷ rest else to_first (String.◌∷◌ c "") rest

-- `l[1:-2]`
abbrev pub inner : List String → List String
inner l = drop 1 (take (length l - 2) l)

-- `"\n".join(crypto_string.split("\n")[1:-2])`
unfoldable pub no_markers : String → String
unfolding split join
no_markers crypto_string = join "\n" (inner (split "\n" crypto_string))

-- `get_public_key_ssh_format`
unfoldable pub get_public_key_ssh_format : String → Result String
unfolding split or_raise
get_public_key_ssh_format public_key_ssh =
    or_raise index_error (get_elem? (split " " public_key_ssh) 1)

-- `get_certificate_base64_encoding` of one of the certificates.
unfoldable pub certificate_text : Bool → String → String
unfolding no_markers
certificate_text with_markers crypto_string =
    if with_markers then crypto_string else no_markers crypto_string

abbrev pub hex_digits : List String
hex_digits =
    "0" ∷ "1" ∷ "2" ∷ "3" ∷ "4" ∷ "5" ∷ "6" ∷ "7" ∷ "8" ∷ "9" ∷ "A" ∷ "B" ∷ "C" ∷ "D" ∷ "E" ∷ "F"
    ∷ []

abbrev hex_digit : ℕ → String
hex_digit n = elim (get_elem? hex_digits n) [ none ↦ "" | some s ↦ s ]

-- `f"{byte:02X}"`, of a byte
abbrev pub hex_byte : ℕ → String
hex_byte b = hex_digit (b / 16) <> hex_digit (b % 16)

-- `get_certificate_fingerprint`, of the bytes that the certificate's `fingerprint` gives.
unfoldable pub get_certificate_fingerprint : List ℕ → String
unfolding join
get_certificate_fingerprint fingerprint_bytes = join ":" (map hex_byte (2 ∷ fingerprint_bytes))
