-- ===== src/Clock.antt =====
-- ffos/ota/src/utils/TimeUtils.cpp: GetTimeMicroSec, for the seconds and microseconds of the clock.
use code_snippet.Common.{ℕ, ◌+◌, ◌*◌, ◌/◌, ◌≤◌, ◌≡◌, arith}

unfoldable get_time_micro_sec : ℕ → ℕ → ℕ
get_time_micro_sec sec usec = sec * 1000 + usec / 1000

-- The number counts milliseconds since the epoch.
get_time_micro_sec_lem :
    (sec usec : ℕ) → get_time_micro_sec sec usec ≡ (sec * 1000000 + usec) / 1000
unfolding get_time_micro_sec
get_time_micro_sec_lem sec usec = omega arith

-- A later time of the clock has no smaller number.
get_time_micro_sec-le :
    (sec usec sec' usec' : ℕ)
    → sec * 1000000 + usec ≤ sec' * 1000000 + usec'
    → get_time_micro_sec sec usec ≤ get_time_micro_sec sec' usec'
get_time_micro_sec-le sec usec sec' usec' h =
    omega (arith, get_time_micro_sec_lem sec usec, get_time_micro_sec_lem sec' usec')
