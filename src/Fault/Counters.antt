-- ===== src/Fault/Counters.antt =====
-- The counters of an alarm under `alarm_raise` and `alarm_clear`.
use sim_o1_ofhmp_interfaces.Prelude.{
  ℕ, ◌+◌, Bool, true, false, Option, none, some, List, [], ◌∷◌, ◌≡◌, refl, arith, if◌then◌else◌,
}
use sim_o1_ofhmp_interfaces.Datetime.{Datetime}
use sim_o1_ofhmp_interfaces.Fault.Alarm.{
  Alarm, PerceivedSeverity, cleared, indeterminate, warning, minor, major, critical, raise_fields,
  clear_fields,
}

-- A call of one of the methods; what an exception leaves behind is kept.
pub data Call : Type 0 where
  call_raise : Option PerceivedSeverity → Datetime → Call
  call_clear : Datetime → Call

unfoldable pub call : Call → Alarm → Alarm
unfolding raise_fields clear_fields
call (call_raise severity now) a = (raise_fields severity now a).1
call (call_clear now) a = (clear_fields now a).1

unfoldable pub calls : List Call → Alarm → Alarm
unfolding call
calls [] a = a
calls (c ∷ l) a = calls l (call c a)

abbrev one_if : Bool → ℕ
one_if b = if b then 1 else 0

-- `b` is the alarm's flag, and the counters differ by it as they did at the start.
abbrev pub Balanced : Alarm → Bool → Alarm → Bool → Type 0
Balanced a b a' b' =
    (a'.is_cleared ≡ some b')
    × (a'.times_raised + one_if b' + (a.times_cleared)
        ≡ a.times_raised + one_if b + a'.times_cleared)

call-Balanced :
    (c : Call) (a : Alarm) (b : Bool)
    → a.is_cleared ≡ some b
    → (b' : Bool) × Balanced a b (call c a) b'
unfolding call
call-Balanced (call_raise none now) a true h = (false, (ground arith, ground arith))
call-Balanced (call_raise (some cleared) now) a true h = (true, (ground arith, ground arith))
call-Balanced (call_raise (some indeterminate) now) a true h = (false, (ground arith, ground arith))
call-Balanced (call_raise (some warning) now) a true h = (false, (ground arith, ground arith))
call-Balanced (call_raise (some minor) now) a true h = (false, (ground arith, ground arith))
call-Balanced (call_raise (some major) now) a true h = (false, (ground arith, ground arith))
call-Balanced (call_raise (some critical) now) a true h = (false, (ground arith, ground arith))
call-Balanced (call_raise s now) a false h = (false, (ground arith, ground arith))
call-Balanced (call_clear now) a true h = (true, (ground arith, ground arith))
call-Balanced (call_clear now) a false h = (true, (ground arith, ground arith))

-- Whatever calls of `alarm_raise` and `alarm_clear` an alarm gets, in whatever order, repeated ones
-- and raises that are refused included: the number of times it was raised is ahead of the number of
-- times it was cleared by one more than at the start if it is raised now and was cleared then, by one
-- less in the opposite case, and by the same otherwise.
pub calls-Balanced :
    (l : List Call) (a : Alarm) (b : Bool)
    → a.is_cleared ≡ some b
    → (b' : Bool) × Balanced a b (calls l a) b'
unfolding calls
calls-Balanced [] a b h = (b, (h, refl))
calls-Balanced (c ∷ l) a b h =
    let (b1, (e, f)) = call-Balanced c a b h in
    let (b2, (g, k)) = calls-Balanced l (call c a) b1 e in (b2, (g, omega (arith, f, k)))
