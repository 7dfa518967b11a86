-- ===== src/Tests/ConfigTests.antt =====
-- The DHCP options and the environment.
use sim_o1_ofhmp_interfaces.Prelude.{
  ℕ, String, List, [], ◌∷◌, map, ◌↔◌, ◌++◌, true, false, none, some, ◌≡◌, refl, arith,
  if◌then◌else◌, ◌==◌, string_eq, text_ne, ◌≢◌,
}
use sim_o1_ofhmp_interfaces.Text.{decode_ascii}
use sim_o1_ofhmp_interfaces.Text.Int.{pos, int}
use sim_o1_ofhmp_interfaces.Config.Option43.{parse_option_43, apply_option}
use sim_o1_ofhmp_interfaces.Config.Frames.{
  Frame, encode, apply_frames, IsTruncated, parse_option_43-encode,
}
use sim_o1_ofhmp_interfaces.Config.Packets.{Packet, word, handle_packet, dhcp_get_config}
use sim_o1_ofhmp_interfaces.Config.Offers.{
  Piece, piece_type, piece_vendor, piece_other, piece_mark, option_of, frames_of, SaysOffer,
  handle_packet-eq,
}
use sim_o1_ofhmp_interfaces.Config.Reload.{Environ, reload, no_dhcp, get_envvar_bool}
use sim_o1_ofhmp_interfaces.Config.Collector.{collector_fqdn, offer, ves_url-reload}

-- The name of the collector, "ves", its address, and the flag of the call home.
abbrev frames : List Frame
frames =
    record { type = 0x83; value = 10 ∷ 0 ∷ 0 ∷ 7 ∷ [] }
    ∷ record { type = 0x86; value = 1 ∷ [] }
    ∷ record { type = 0x84; value = 118 ∷ 101 ∷ 115 ∷ [] }
    ∷ []

-- A sub-option that ends too early.
abbrev cut : List ℕ
cut = 0x82 ∷ 3 ∷ 118 ∷ []

abbrev env : Environ
env v =
    if v == "VES_URL"
    then some "https://ves/x"
    else if v == "ENDPOINT_COUNT"
    then some "3"
    else none

on_wire : encode frames ≡ 131 ∷ 4 ∷ 10 ∷ 0 ∷ 0 ∷ 7 ∷ 134 ∷ 1 ∷ 1 ∷ 132 ∷ 3 ∷ 118 ∷ 101 ∷ 115 ∷ []
unfolding encode
on_wire = refl

parsed :
    parse_option_43 (131 ∷ 4 ∷ 10 ∷ 0 ∷ 0 ∷ 7 ∷ 134 ∷ 1 ∷ 1 ∷ 130 ∷ 3 ∷ 118 ∷ []) no_dhcp ≡ record {
      sdnr_controller_ip = none;
      sdnr_fqdn = none;
      sdnr_callhome_tls = true;
      ves_ip = some "10.0.0.7";
      ves_fqdn = none;
    }
unfolding parse_option_43 apply_option
parsed = refl

truncated : IsTruncated cut
truncated = omega arith

eth0 : ◌≢◌ {A = String} "eth0" "lo"
eth0 = text_ne "eth0" "lo" refl

parse_option_43-encode_example :
    parse_option_43 (encode frames ++ cut) no_dhcp ≡ apply_frames frames no_dhcp
parse_option_43-encode_example = parse_option_43-encode frames cut no_dhcp truncated

abbrev pieces : List Piece
pieces =
    piece_vendor frames cut
    ∷ piece_other "lease_time"
    ∷ piece_type (word "offer")
    ∷ piece_mark "end"
    ∷ []

abbrev packet : Packet
packet = record { options = some (map option_of pieces) }

handle_packet-eq_example :
    (((handle_packet packet no_dhcp).0 ≡ true) ↔ SaysOffer (map option_of pieces))
    × ((handle_packet packet no_dhcp).1 ≡ (
        if (handle_packet packet no_dhcp).0
        then apply_frames (frames_of pieces) no_dhcp
        else no_dhcp))
handle_packet-eq_example = handle_packet-eq pieces no_dhcp (truncated, (tt, (tt, (tt, tt))))

is_taken : (handle_packet packet no_dhcp).0 ≡ true
unfolding handle_packet
is_taken = refl

ves_url-reload_example :
    (reload env (("eth0", offer (encode frames ++ cut) ∷ []) ∷ [])).ves_url
    ≡ "https://ves/eventListener/v7"
unfolding collector_fqdn decode_ascii
ves_url-reload_example = ves_url-reload env "eth0" frames cut eth0 truncated

environment :
    ((reload env []).ves_url ≡ "https://ves/x")
    × ((reload env []).endpoint_count ≡ pos 3)
    × ((reload env []).ssh_listen_endpoint ≡ true)
    × ((reload env []).tls_listen_endpoint ≡ false)
unfolding reload get_envvar_bool dhcp_get_config int
environment = (refl, refl, refl, refl)
