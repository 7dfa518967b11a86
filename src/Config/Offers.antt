-- ===== src/Config/Offers.antt =====
-- Which packets the sniffer takes for offers, and what it takes from them: a whole packet against the
-- list of its options, where an option 43 is a sequence of sub-options.
use mathlib.Core.List.{map}
use sim_o1_ofhmp_interfaces.Prelude.{
  ℕ, String, Bool, true, some, List, [], ◌∷◌, ◌++◌, string_eq, eq_iff, if◌then◌else◌, ◌≡◌, ◌↔◌, ◌⊎◌,
  refl, arith, ap, ◌∙◌, sym, inl, inr, Bool-cases, All,
}
use sim_o1_ofhmp_interfaces.Config.Option43.{Dhcp}
use sim_o1_ofhmp_interfaces.Config.Frames.{
  Frame, encode, apply_frames, parse_option_43-encode, IsTruncated,
}
use sim_o1_ofhmp_interfaces.Config.Packets.{
  MessageType, code, word, DhcpOption, message_type, vendor_specific, other, mark,
  print_dhcp_options, is_offer, detect, handle_packet,
}

-- An option as its sender means it: option 43 with its sub-options and bytes that begin none.
pub data Piece : Type 0 where
  piece_type : MessageType → Piece
  piece_vendor : (fs : List Frame) (rest : List ℕ) → Piece
  piece_other : String → Piece
  piece_mark : String → Piece

abbrev pub option_of : Piece → DhcpOption
option_of (piece_type m) = message_type m
option_of (piece_vendor fs rest) = vendor_specific (encode fs ++ rest)
option_of (piece_other n) = other n
option_of (piece_mark n) = mark n

abbrev pub IsWhole : Piece → Type 0
IsWhole (piece_vendor fs rest) = IsTruncated rest
IsWhole _ = Unit

-- The sub-options of a packet, in order.
unfoldable pub frames_of : List Piece → List Frame
frames_of [] = []
frames_of (piece_vendor fs rest ∷ l) = fs ++ frames_of l
frames_of (_ ∷ l) = frames_of l

-- One of the message types is 2 or "offer".
abbrev pub SaysOffer : List DhcpOption → Type 0
SaysOffer l =
    (before after : List DhcpOption) × (m : MessageType) × (l ≡ before ++ (message_type m ∷ after))
    × ((m ≡ code 2) ⊎ (m ≡ word "offer"))

offer_type : (m : MessageType) → is_offer m ≡ true → (m ≡ code 2) ⊎ (m ≡ word "offer")
offer_type (code n) h = inl (ap code (ground arith))
offer_type (word w) h = inr (ap word ((eq_iff w "offer").0 h))

type_offer : (m : MessageType) → (m ≡ code 2) ⊎ (m ≡ word "offer") → is_offer m ≡ true
type_offer m (inl e) = ap is_offer e
type_offer m (inr e) = ap is_offer e

says_later : (o : DhcpOption) (l : List DhcpOption) → SaysOffer l → SaysOffer (o ∷ l)
says_later o l (before, after, m, e, h) = (o ∷ before, after, m, ap (λ k. o ∷ k) e, h)

detected : (l all : List DhcpOption) (s : Dhcp) → (detect l all s).0 ≡ true → SaysOffer l
unfolding detect
detected [] all s h = cc
detected (message_type m ∷ l) all s h = elim (Bool-cases (is_offer m)) [
  | inl e ↦ ([], l, m, refl, offer_type m e)
  | inr e ↦ says_later (message_type m) l (detected l all s (ground (arith, e)))
]
detected (vendor_specific raw ∷ l) all s h = says_later _ l (detected l all s h)
detected (other n ∷ l) all s h = says_later _ l (detected l all s h)
detected (mark n ∷ l) all s h = says_later _ l (detected l all s h)

seen :
    (before after all : List DhcpOption) (m : MessageType) (s : Dhcp)
    → is_offer m ≡ true
    → (detect (before ++ (message_type m ∷ after)) all s).0 ≡ true
unfolding detect
seen [] after all m s h = rw h refl
seen (message_type k ∷ l) after all m s h = elim (Bool-cases (is_offer k)) [
  | inl e ↦ rw e refl
  | inr e ↦ rw e (seen l after all m s h)
]
seen (vendor_specific raw ∷ l) after all m s h = seen l after all m s h
seen (other n ∷ l) after all m s h = seen l after all m s h
seen (mark n ∷ l) after all m s h = seen l after all m s h

detect-says : (l all : List DhcpOption) (s : Dhcp) → SaysOffer l → (detect l all s).0 ≡ true
detect-says l all s (before, after, m, e, h) =
    ap (λ k. (detect k all s).0) e ∙ seen before after all m s (type_offer m h)

detect-state :
    (l all : List DhcpOption) (s : Dhcp)
    → (detect l all s).1 ≡ (if (detect l all s).0 then print_dhcp_options all s else s)
unfolding detect
detect-state [] all s = refl
detect-state (message_type m ∷ l) all s = elim (Bool-cases (is_offer m)) [
  | inl e ↦ rw e refl
  | inr e ↦ rw e (detect-state l all s)
]
detect-state (vendor_specific raw ∷ l) all s = detect-state l all s
detect-state (other n ∷ l) all s = detect-state l all s
detect-state (mark n ∷ l) all s = detect-state l all s

apply_frames-append :
    (fs gs : List Frame) (s : Dhcp)
    → apply_frames (fs ++ gs) s ≡ apply_frames gs (apply_frames fs s)
unfolding apply_frames
apply_frames-append [] gs s = refl
apply_frames-append (f ∷ fs) gs s = apply_frames-append fs gs _

printed :
    (l : List Piece) (s : Dhcp)
    → All IsWhole l
    → print_dhcp_options (map option_of l) s ≡ apply_frames (frames_of l) s
unfolding print_dhcp_options frames_of apply_frames
printed [] s h = refl
printed (piece_type m ∷ l) s (h, hs) = printed l s hs
printed (piece_vendor fs rest ∷ l) s (h, hs) =
    ap (print_dhcp_options (map option_of l)) (parse_option_43-encode fs rest s h)
    ∙ printed l (apply_frames fs s) hs
    ∙ sym (apply_frames-append fs (frames_of l) s)
printed (piece_other n ∷ l) s (h, hs) = printed l s hs
printed (piece_mark n ∷ l) s (h, hs) = printed l s hs

-- A packet with a DHCP layer whose options 43 hold sub-options and then bytes that begin none: it is
-- taken for an offer exactly if one of its message types is 2 or "offer", wherever that stands. Then all
-- sub-options of all of its options 43 are applied, in order; otherwise nothing changes.
pub handle_packet-eq :
    (l : List Piece) (s : Dhcp)
    → All IsWhole l
    → let r : Bool × Dhcp = handle_packet (record { options = some (map option_of l) }) s in
      ((r.0 ≡ true) ↔ SaysOffer (map option_of l))
      × (r.1 ≡ (if r.0 then apply_frames (frames_of l) s else s))
unfolding handle_packet
handle_packet-eq l s whole =
    let options : List DhcpOption = map option_of l in
    (
      (detected options options s, detect-says options options s),
      detect-state options options s
          ∙ ap (λ t. if (detect options options s).0 then t else s) (printed l s whole),
    )
