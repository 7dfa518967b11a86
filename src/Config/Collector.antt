-- ===== src/Config/Collector.antt =====
-- From the bytes of an offer to the address of the event collector.
use mathlib.Core.Path.{ap₂}
use sim_o1_ofhmp_interfaces.Prelude.{
  ℕ, String, ◌<>◌, Option, none, some, List, [], ◌∷◌, ◌++◌, ◌≡◌, ◌≢◌, refl, arith, ◌∙◌, ap, length,
  string_eq, ne_text, nat_beq, if◌then◌else◌,
}
use sim_o1_ofhmp_interfaces.Text.{decode_ascii}
use sim_o1_ofhmp_interfaces.Config.Option43.{Dhcp, parse_option_43, apply_option, dotted}
use sim_o1_ofhmp_interfaces.Config.Frames.{
  Frame, encode, apply_frames, parse_option_43-encode, IsTruncated,
}
use sim_o1_ofhmp_interfaces.Config.Packets.{
  Packet, code, vendor_specific, message_type, dhcp_get_config,
}
use sim_o1_ofhmp_interfaces.Config.Reload.{Environ, reload, no_dhcp, get_or, ves_url_of}

-- What the last frame of each type for the collector says, over what was known before.
unfoldable pub collector_fqdn : List Frame → Option String → Option String
collector_fqdn [] old = old
collector_fqdn (f ∷ fs) old =
    collector_fqdn fs (if nat_beq f.type 0x84 then decode_ascii f.value else old)

unfoldable pub collector_ip : List Frame → Option String → Option String
collector_ip [] old = old
collector_ip (f ∷ fs) old = collector_ip fs (
    if nat_beq f.type 0x83
    then (if nat_beq (length f.value) 4 then some (dotted f.value) else none)
    else old)

apply_option-fqdn :
    (t n : ℕ) (v : List ℕ) (s : Dhcp)
    → (apply_option t n v s).ves_fqdn ≡ (if nat_beq t 0x84 then decode_ascii v else s.ves_fqdn)
unfolding apply_option
apply_option-fqdn t n v s = ground arith

apply_option-ip :
    (t n : ℕ) (v : List ℕ) (s : Dhcp)
    → (apply_option t n v s).ves_ip
      ≡ (if nat_beq t 0x83 then (if nat_beq n 4 then some (dotted v) else none) else s.ves_ip)
unfolding apply_option
apply_option-ip t n v s = ground arith

apply_frames-ves :
    (fs : List Frame) (s : Dhcp)
    → ((apply_frames fs s).ves_fqdn ≡ collector_fqdn fs s.ves_fqdn)
      × ((apply_frames fs s).ves_ip ≡ collector_ip fs s.ves_ip)
unfolding apply_frames collector_fqdn collector_ip
apply_frames-ves [] s = (refl, refl)
apply_frames-ves (f ∷ fs) s =
    let (fqdn, ip) = apply_frames-ves fs (apply_option f.type (length f.value) f.value s) in
    (
      fqdn ∙ ap (collector_fqdn fs) (apply_option-fqdn f.type (length f.value) f.value s),
      ip ∙ ap (collector_ip fs) (apply_option-ip f.type (length f.value) f.value s),
    )

-- The address by what an offer says, and by the environment where it says nothing.
abbrev pub url_of : Environ → Option String → Option String → String
url_of env (some fqdn) ip = "https://" <> (fqdn <> "/eventListener/v7")
url_of env none (some ip) = "https://" <> (ip <> "/eventListener/v7")
url_of env none none = get_or env "VES_URL" ""

url_of-eq : (env : Environ) (d : Dhcp) → ves_url_of env d ≡ url_of env d.ves_fqdn d.ves_ip
unfolding ves_url_of
url_of-eq env d = ground arith

-- The packet of an offer with the bytes of one option 43.
abbrev pub offer : List ℕ → Packet
offer raw = record { options = some (message_type (code 2) ∷ vendor_specific raw ∷ []) }

sniffed :
    (iface : String) (raw : List ℕ)
    → iface ≢ "lo"
    → dhcp_get_config ((iface, offer raw ∷ []) ∷ []) no_dhcp ≡ parse_option_43 raw no_dhcp
unfolding dhcp_get_config
sniffed iface raw h = rw (ne_text iface "lo" h) refl

-- After one offer, on any interface but the loopback, whose option 43 holds the sub-options and then
-- bytes that begin none, the event collector is reached at the name of the last sub-option 0x84, if
-- its bytes are ASCII; without such a name at the address of the last sub-option 0x83, if it has
-- four bytes; and else at what the environment says.
pub ves_url-reload :
    (env : Environ) (iface : String) (fs : List Frame) (rest : List ℕ)
    → iface ≢ "lo"
    → IsTruncated rest
    → (reload env ((iface, offer (encode fs ++ rest) ∷ []) ∷ [])).ves_url
      ≡ url_of env (collector_fqdn fs none) (collector_ip fs none)
unfolding reload
ves_url-reload env iface fs rest h ends =
    url_of-eq env (dhcp_get_config ((iface, offer (encode fs ++ rest) ∷ []) ∷ []) no_dhcp)
    ∙ ap (λ (d : Dhcp). url_of env d.ves_fqdn d.ves_ip)
        (sniffed iface (encode fs ++ rest) h ∙ parse_option_43-encode fs rest no_dhcp ends)
    ∙ ap₂ (url_of env) (apply_frames-ves fs no_dhcp).0 (apply_frames-ves fs no_dhcp).1
