-- ===== src/Tests/SleepTests.antt =====
-- A sleep of a second and a half.
use sim_o1_ofhmp_interfaces.Prelude.{ℕ, false, List, [], ◌∷◌, ◌≡◌, refl, arith, true}
use sim_o1_ofhmp_interfaces.Sleep.{
  Reading, slept, raised, sa_sleep, IsSteady, Ended, sa_sleep-Ended,
}

abbrev calm : ℕ → ℕ → Reading
calm t u = record { at_test = t; stop_event = false; extra_event = false; at_sleep = u }

abbrev readings : List Reading
readings = calm 100 101 ∷ calm 1102 1103 ∷ calm 1601 1601 ∷ []

steady : IsSteady 1600 100 readings
steady = (omega arith, omega arith, (omega arith, omega arith, (omega arith, omega arith, tt)))

sa_sleep-Ended_example : Ended true 1600 readings (sa_sleep true 1600 readings)
sa_sleep-Ended_example = sa_sleep-Ended 2 true 1600 100 readings refl (omega arith) steady

-- It sleeps to the end.
to_the_end : sa_sleep true 1600 readings ≡ slept
unfolding sa_sleep
to_the_end = refl

-- The clock passes the end between the test and the sleep.
race : sa_sleep false 1600 (calm 1599 1601 ∷ []) ≡ raised
unfolding sa_sleep
race = refl
