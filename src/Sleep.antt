-- ===== src/Sleep.antt =====
-- `sa_sleep` of base/src/util/threading.py, with the readings of the clock and of the events that its
-- rounds make. Times are milliseconds.
use sim_o1_ofhmp_interfaces.Prelude.{
  ℕ, zero, suc, ◌+◌, ◌*◌, ◌-◌, ◌≤◌, ◌<◌, Bool, true, false, ◌||◌, List, [], ◌∷◌, ltb, length,
  if◌then◌else◌, ◌≡◌, refl, arith, ap, All, ◌++◌, Bool-cases, ◌⊎◌, inl, inr,
}

-- One round: the time at the test of the loop, the two events, and the time before the sleep.
pub record Reading : Type 0 where
  pub at_test : ℕ
  pub stop_event : Bool
  pub extra_event : Bool
  pub at_sleep : ℕ

-- How the call ends: at the end of the interval, by an event, by the ValueError of a negative sleep,
-- or not within the readings.
pub data Ending : Type 0 where
  slept stopped raised unfinished : Ending

-- `min(1, end_time - time.time())`, where it is not negative.
abbrev pub nap : ℕ → ℕ → ℕ
nap end_time now = if ltb (end_time - now) 1000 then end_time - now else 1000

-- The test on the events; the second one only if there is an extra event.
abbrev pub is_set : Bool → Reading → Bool
is_set has_extra r = if has_extra then r.stop_event || r.extra_event else r.stop_event

unfoldable pub sa_sleep : Bool → ℕ → List Reading → Ending
sa_sleep has_extra end_time [] = unfinished
sa_sleep has_extra end_time (r ∷ l) =
    let rest = sa_sleep has_extra end_time l in
    if ltb r.at_test end_time
    then (if is_set has_extra r then stopped else if ltb end_time r.at_sleep then raised else rest)
    else slept

-- The clock never goes back, and sleeping takes its time at least.
abbrev pub IsSteady : ℕ → ℕ → List Reading → Type 0
IsSteady end_time now [] = Unit
IsSteady end_time now (r ∷ l) =
    (now ≤ r.at_test)
    × (r.at_test ≤ r.at_sleep)
    × IsSteady end_time (r.at_sleep + nap end_time r.at_sleep) l

-- The events of a round that the call heeds: the common one, and the extra one if it is given.
abbrev pub IsHeeded : Bool → Reading → Type 0
IsHeeded has_extra r = (r.stop_event ≡ true) ⊎ ((has_extra ≡ true) × (r.extra_event ≡ true))

-- A round after which the call goes on: the end has not come and no event is there.
pub record GoesOn (has_extra : Bool) (end_time : ℕ) (r : Reading) : Type 0 where
  pub early : r.at_test < end_time
  pub no_stop : r.stop_event ≡ false
  pub no_extra : has_extra ≡ true → r.extra_event ≡ false
  pub sleeps : r.at_sleep ≤ end_time

-- What the round that ends the call is like.
abbrev pub Ends : Bool → ℕ → Reading → Ending → Type 0
Ends has_extra end_time r slept = end_time ≤ r.at_test
Ends has_extra end_time r stopped = (r.at_test < end_time) × IsHeeded has_extra r
Ends has_extra end_time r raised =
    (r.at_test < end_time)
    × (r.stop_event ≡ false)
    × (has_extra ≡ true → r.extra_event ≡ false)
    × (end_time < r.at_sleep)
Ends has_extra end_time r unfinished = ⊥

-- The rounds up to the end, and the one that ends the call.
abbrev pub Ended : Bool → ℕ → List Reading → Ending → Type 0
Ended has_extra end_time l e =
    (before : List Reading) × (r : Reading) × (after : List Reading) × (l ≡ before ++ (r ∷ after))
    × All (GoesOn has_extra end_time) before
    × Ends has_extra end_time r e

nap-covers :
    (end_time now t n : ℕ)
    → now ≤ t
    → end_time ≤ now + 1000 * suc n
    → end_time ≤ t + nap end_time t + 1000 * n
nap-covers end_time now t n a h = ground arith

is_set-IsHeeded :
    (has_extra : Bool) (r : Reading) → is_set has_extra r ≡ true → IsHeeded has_extra r
is_set-IsHeeded has_extra r h = ground arith

unset_stop : (has_extra : Bool) (r : Reading) → is_set has_extra r ≡ false → r.stop_event ≡ false
unset_stop has_extra r h = ground arith

unset_extra :
    (has_extra : Bool) (r : Reading)
    → is_set has_extra r ≡ false
    → has_extra ≡ true
    → r.extra_event ≡ false
unset_extra has_extra r h e = ground arith

goes_on :
    (has_extra : Bool) (end_time : ℕ) (r : Reading) (l : List Reading) (e : Ending)
    → GoesOn has_extra end_time r
    → Ended has_extra end_time l e
    → Ended has_extra end_time (r ∷ l) e
goes_on has_extra end_time r l e on (before, last, after, is, all, ends) =
    (r ∷ before, last, after, ap (λ k. r ∷ k) is, (on, all), ends)

round-Ended :
    (has_extra : Bool) (end_time : ℕ) (r : Reading) (l : List Reading)
    → (r.at_test < end_time → Ended has_extra end_time l (sa_sleep has_extra end_time l))
    → Ended has_extra end_time (r ∷ l) (sa_sleep has_extra end_time (r ∷ l))
unfolding sa_sleep
round-Ended has_extra end_time r l rest = elim (Bool-cases (ltb r.at_test end_time)) [
  | inr late ↦ rw late ([], r, l, refl, tt, ground (arith, late))
  | inl early ↦ elim (Bool-cases (is_set has_extra r)) [
    | inl set ↦
        rw (early, set)
          ([], r, l, refl, tt, (ground (arith, early), is_set-IsHeeded has_extra r set))
    | inr unset ↦ elim (Bool-cases (ltb end_time r.at_sleep)) [
      | inl past ↦
          rw (early, unset, past)
            (
              [],
              r,
              l,
              refl,
              tt,
              (
                ground (arith, early),
                unset_stop has_extra r unset,
                unset_extra has_extra r unset,
                ground (arith, past),
              ),
            )
      | inr calm ↦
          rw (early, unset, calm)
            (goes_on has_extra end_time r l (sa_sleep has_extra end_time l)
              (record {
                early = ground (arith, early);
                no_stop = unset_stop has_extra r unset;
                no_extra = unset_extra has_extra r unset;
                sleeps = ground (arith, calm);
              })
              (rest (ground (arith, early))))
    ]
  ]
]

-- With a clock that never goes back and sleeps that take their time, from the time `now` on, the call
-- ends within `n` naps of a second, if they cover the interval, and one test more. It ends at the first
-- round that finds the interval over, an event that the call heeds, or the end come between the test
-- and the sleep, and as this round says; only in the last case does it raise.
pub sa_sleep-Ended :
    (n : ℕ) (has_extra : Bool) (end_time now : ℕ) (l : List Reading)
    → length l ≡ n + 1
    → end_time ≤ now + 1000 * n
    → IsSteady end_time now l
    → Ended has_extra end_time l (sa_sleep has_extra end_time l)
sa_sleep-Ended n has_extra end_time now [] len h steady = absurd (omega arith)
sa_sleep-Ended zero has_extra end_time now (r ∷ l) len h (a, b, d) =
    round-Ended has_extra end_time r l (λ early. absurd (omega (arith, early, h, a)))
sa_sleep-Ended (suc n) has_extra end_time now (r ∷ l) len h (a, b, d) =
    round-Ended has_extra end_time r l (λ early.
      sa_sleep-Ended n has_extra end_time (r.at_sleep + nap end_time r.at_sleep) l (omega arith)
        (nap-covers end_time now r.at_sleep n (omega (arith, a, b)) h) d)
