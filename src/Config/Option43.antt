-- ===== src/Config/Option43.antt =====
-- `parse_option_43` of `Config`: the type, length and value triples of DHCP option 43.
use sim_o1_ofhmp_interfaces.Prelude.{
  ℕ, zero, suc, ◌+◌, String, Bool, true, false, Option, none, some, List, map, ltb, nat_beq, length,
  get_elem?, take, drop, if◌then◌else◌,
}
use sim_o1_ofhmp_interfaces.Text.{of_nat, join, decode_ascii}

-- The fields of `Config` that the parser writes.
pub record Dhcp : Type 0 where
  pub sdnr_controller_ip : Option String
  pub sdnr_fqdn : Option String
  pub sdnr_callhome_tls : Bool
  pub ves_ip : Option String
  pub ves_fqdn : Option String

-- `".".join(str(b) for b in opt_value)`
unfoldable pub dotted : List ℕ → String
unfolding join of_nat
dotted value = join "." (map of_nat value)

abbrev pub byte : List ℕ → ℕ → ℕ
byte raw i = elim (get_elem? raw i) [ none ↦ 0 | some b ↦ b ]

-- The flag of sub-option 0x86, by its only byte; other values leave it.
callhome : ℕ → Dhcp → Dhcp
callhome flag s =
    if nat_beq flag 0
    then record s { sdnr_callhome_tls = false }
    else if nat_beq flag 1
    then record s { sdnr_callhome_tls = true }
    else s

-- The branches on the sub-option's type.
unfoldable pub apply_option : ℕ → ℕ → List ℕ → Dhcp → Dhcp
unfolding dotted callhome decode_ascii
apply_option opt_type opt_len value s =
    if nat_beq opt_type 0x81
    then record s { sdnr_controller_ip = if nat_beq opt_len 4 then some (dotted value) else none }
    else if nat_beq opt_type 0x83
    then record s { ves_ip = if nat_beq opt_len 4 then some (dotted value) else none }
    else if nat_beq opt_type 0x82
    then record s { sdnr_fqdn = decode_ascii value }
    else if nat_beq opt_type 0x84
    then record s { ves_fqdn = decode_ascii value }
    else if nat_beq opt_type 0x86
    then (if nat_beq opt_len 1 then callhome (byte value 0) s else s)
    else s

-- The loop over `index`. A sub-option that does not fit into the bytes ends it.
unfoldable pub option_loop : ℕ → List ℕ → ℕ → Dhcp → Dhcp
option_loop zero raw index s = s
option_loop (suc fuel) raw index s =
    let opt_type = byte raw index in
    let opt_len = byte raw (index + 1) in
    let value = take opt_len (drop (index + 2) raw) in
    let rest = option_loop fuel raw (index + 2 + opt_len) (apply_option opt_type opt_len value s) in
    if ltb index (length raw)
    then (if ltb (length raw) (index + 2)
        then s
        else if ltb (length raw) (index + 2 + opt_len)
        then s
        else rest)
    else s

-- Each round reads two bytes at least, so as many rounds as bytes are enough.
unfoldable pub parse_option_43 : List ℕ → Dhcp → Dhcp
unfolding option_loop
parse_option_43 raw s = option_loop (length raw) raw 0 s
