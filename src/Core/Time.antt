-- ===== src/Core/Time.antt =====
-- Instants and durations of Python's `datetime`, as microseconds since the year 1.
use trelgream_self_userbot.Prelude.{ℕ, ◌+◌, ◌*◌, ltb, if◌then◌else◌}
use trelgream_self_userbot.Core.Errors.{overflow_error}
use trelgream_self_userbot.Core.Exec.{Result, ok, err}

abbrev pub second : ℕ
second = 1000000

abbrev pub hour : ℕ
hour = 3600 * second

abbrev pub day : ℕ
day = 86400 * second

-- one past `datetime.max`
abbrev pub end_of_time : ℕ
end_of_time = 3652059 * day

-- `time + timedelta(…)`, for a duration that is not negative
unfoldable pub later : ℕ → ℕ → Result ℕ
later time duration =
    if ltb (time + duration) end_of_time then ok (time + duration) else err overflow_error
