-- ===== src/Config/Packets.antt =====
-- `handle_packet`, `print_dhcp_options` and `dhcp_get_config` of `Config`: which of the packets that
-- the sniffer hands over reach `parse_option_43`. A packet is what scapy shows of it: the options of
-- its DHCP layer, if it has one, where option 43 holds bytes.
use sim_o1_ofhmp_interfaces.Prelude.{
  ℕ, String, Bool, true, false, Option, none, some, List, [], ◌∷◌, nat_beq, ◌==◌, string_eq,
  if◌then◌else◌,
}
use sim_o1_ofhmp_interfaces.Config.Option43.{Dhcp, parse_option_43}

-- The value of the option "message-type": scapy gives a number or a word.
pub data MessageType : Type 0 where
  code : ℕ → MessageType
  word : String → MessageType

-- A tuple of the options, by its name, or what is no tuple, such as "end".
pub data DhcpOption : Type 0 where
  message_type : MessageType → DhcpOption
  vendor_specific : List ℕ → DhcpOption
  other : String → DhcpOption
  mark : String → DhcpOption

pub record Packet : Type 0 where
  pub options : Option (List DhcpOption)

unfoldable pub print_dhcp_options : List DhcpOption → Dhcp → Dhcp
print_dhcp_options [] s = s
print_dhcp_options (vendor_specific raw ∷ l) s = print_dhcp_options l (parse_option_43 raw s)
print_dhcp_options (_ ∷ l) s = print_dhcp_options l s

-- `opt[1] in [2, "offer"]`
abbrev pub is_offer : MessageType → Bool
is_offer (code n) = nat_beq n 2
is_offer (word w) = w == "offer"

-- The loop over the options that looks for the message type.
unfoldable pub detect : List DhcpOption → List DhcpOption → Dhcp → Bool × Dhcp
unfolding print_dhcp_options
detect [] all s = (false, s)
detect (message_type m ∷ l) all s =
    let rest = detect l all s in if is_offer m then (true, print_dhcp_options all s) else rest
detect (_ ∷ l) all s = detect l all s

unfoldable pub handle_packet : Packet → Dhcp → Bool × Dhcp
unfolding detect
handle_packet pkt s = elim pkt.options [ none ↦ (false, s) | some opts ↦ detect opts opts s ]

sniff : List Packet → Dhcp → Dhcp
unfolding handle_packet
sniff [] s = s
sniff (p ∷ l) s = sniff l (handle_packet p s).1

-- One sniffer for each interface but the loopback, with the packets that it captures.
unfoldable pub dhcp_get_config : List (String × List Packet) → Dhcp → Dhcp
unfolding sniff
dhcp_get_config [] s = s
dhcp_get_config ((iface, packets) ∷ l) s =
    dhcp_get_config l (if iface == "lo" then s else sniff packets s)
