-- ===== src/Time/Text.antt =====
-- `time_hmst::to_str`, of src/dynd/types/time_util.cpp: the shortest ISO 8601 text.
use libdynd.Common.{ℕ, zero, suc, ◌+◌, ◌/◌, ◌%◌, ◌&&◌, [], ◌∷◌, ◌++◌, ◌==◌, if◌then◌else◌}
use libdynd.Common.Int.{ℤ, pos_part}
use libdynd.Parse.{Bytes}
use libdynd.Time.{is_valid}

-- '0' + n / 10, '0' + n % 10
unfoldable pub two_digits : ℕ → Bytes
two_digits n = (b'0' + n / 10) ∷ (b'0' + n % 10) ∷ []

-- The loop over the digits of a second's fraction: `while (tick != 0)`, with fuel for the seven
-- digits that the divisor 1000000 leaves room for.
unfoldable pub tick_digits : ℕ → ℕ → ℕ → Bytes
tick_digits zero divisor tick = []
tick_digits (suc fuel) divisor tick =
    let rest = tick_digits fuel (divisor / 10) (tick % divisor) in
    if tick == 0 then [] else (b'0' + tick / divisor) ∷ rest

-- The text of a valid time, from its fields as natural numbers.
unfoldable pub fields_to_str : ℕ → ℕ → ℕ → ℕ → Bytes
fields_to_str hour minute second tick =
    two_digits hour
    ++ (b':'
        ∷ (two_digits minute
            ++ (if (second == 0) && (tick == 0)
                then []
                else b':'
                  ∷ (two_digits second
                      ++ (if tick == 0 then [] else b'.' ∷ tick_digits 7 1000000 tick)))))

unfoldable pub to_str : ℤ → ℤ → ℤ → ℤ → Bytes
to_str hour minute second tick =
    if is_valid hour minute second tick
    then fields_to_str (pos_part hour) (pos_part minute) (pos_part second) (pos_part tick)
    else []
