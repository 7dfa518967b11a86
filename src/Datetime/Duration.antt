-- ===== src/Datetime/Duration.antt =====
-- `seconds_to_duration` of base/src/util/datetime.py: ISO 8601 durations.
use sim_o1_ofhmp_interfaces.Prelude.{ℕ, ◌/◌, ◌%◌, String, ◌<>◌, ◌||◌, ltb, if◌then◌else◌, ◌≡◌, refl}
use sim_o1_ofhmp_interfaces.Text.{of_nat}

-- A number with its unit, left out if it is 0.
part : ℕ → String → String
unfolding of_nat
part n unit = if ltb 0 n then of_nat n <> unit else ""

unfoldable pub seconds_to_duration : ℕ → String
unfolding part
seconds_to_duration seconds =
    let days = seconds / 86400 in
    let left = seconds % 86400 in
    let hours = left / 3600 in
    let left' = left % 3600 in
    let minutes = left' / 60 in
    let rest = left' % 60 in
    "P"
    <> (part days "D"
        <> (if ltb 0 hours || ltb 0 minutes || ltb 0 rest
            then "T" <> (part hours "H" <> (part minutes "M" <> part rest "S"))
            else ""))

duration_runs :
    (seconds_to_duration 900 ≡ "PT15M")
    × (seconds_to_duration 90061 ≡ "P1DT1H1M1S")
    × (seconds_to_duration 0 ≡ "P")
unfolding seconds_to_duration
duration_runs = (refl, refl, refl)
