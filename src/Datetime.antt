-- ===== src/Datetime.antt =====
-- base/src/util/datetime.py. A `datetime` is its wall clock and, if it is aware, the offset of its
-- zone; parsing and printing text are `dateutil`'s and `isoformat`'s.
pub mod Duration
use sim_o1_ofhmp_interfaces.Prelude.{
  ℕ, ◌+◌, ◌≤◌, ◌<◌, Bool, true, false, Option, none, some, ltb, if◌then◌else◌, ◌≡◌, refl, arith,
}
use sim_o1_ofhmp_interfaces.Prelude.Result.{Result, ok, err, type_error}

-- A zone lies `east` or `west` of UTC by so many microseconds; one of the two is 0.
pub record Zone : Type 0 where
  pub east : ℕ
  pub west : ℕ

-- The wall clock counts microseconds from a fixed day long ago.
pub record Datetime : Type 0 where
  pub clock : ℕ
  pub zone : Option Zone

abbrev pub utc : Zone
utc = record { east = 0; west = 0 }

unfoldable pub ensure_aware : Datetime → Datetime
ensure_aware dt = elim dt.zone [ none ↦ record dt { zone = some utc } | some z ↦ dt ]

abbrev pub zone_of : Datetime → Zone
zone_of dt = elim dt.zone [ none ↦ utc | some z ↦ z ]

-- `a > b` of two aware datetimes compares the instants.
unfoldable pub is_after : Datetime → Datetime → Bool
is_after a b =
    ltb (b.clock + (zone_of b).west + (zone_of a).east)
      (a.clock + (zone_of a).west + (zone_of b).east)

-- The instant of `a` is not later than that of `b`; a naive datetime counts as UTC.
abbrev pub NotAfter : Datetime → Datetime → Type 0
NotAfter a b =
    a.clock + (zone_of a).west + (zone_of b).east ≤ b.clock + (zone_of b).west + (zone_of a).east

pub NotAfter-refl : (a : Datetime) → NotAfter a a
NotAfter-refl a = omega arith

pub NotAfter-trans : (a b c : Datetime) → NotAfter a b → NotAfter b c → NotAfter a c
NotAfter-trans a b c h k = omega arith

pub zone_of-ensure_aware : (a : Datetime) → zone_of (ensure_aware a) ≡ zone_of a
unfolding ensure_aware
zone_of-ensure_aware a = ground arith

pub clock-ensure_aware : (a : Datetime) → (ensure_aware a).clock ≡ a.clock
unfolding ensure_aware
clock-ensure_aware a = ground arith
