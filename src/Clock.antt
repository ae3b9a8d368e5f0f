-- ===== src/Clock.antt =====
-- The server's clock: daemon/mc_time.cc. Times are whole seconds; `rel_time_t` is a uint32, and the
-- times of the system are not negative.
use memcached.Common.{
  ℕ, ◌+◌, ◌-◌, ◌*◌, ◌%◌, ◌^◌, Bool, false, ◌||◌, ltb, leb, ◌!=◌, if◌then◌else◌, Option, none, some,
}

abbrev pub check_interval : ℕ
check_interval = 60

abbrev pub maximum_relative_time : ℕ
maximum_relative_time = 60 * 60 * 24 * 30

-- The static variables; `previous_time` is none until it is valid.
pub record Clock : Type 0 where
  pub uptime : ℕ
  pub epoch : ℕ
  pub monotonic_start : ℕ
  pub check_system_time : ℕ
  pub previous_time : Option ℕ

-- mc_time_init_epoch, before the first tick, from what the two clocks of the system say.
unfoldable pub init_epoch : ℕ → ℕ → Clock
init_epoch monotonic system = record {
  uptime = 0;
  epoch = system;
  monotonic_start = monotonic;
  check_system_time = 0;
  previous_time = none;
}

unfoldable pub convert_to_real_time : Clock → ℕ → ℕ
convert_to_real_time c t =
    if ltb maximum_relative_time t
    then (if leb t c.epoch then 1 else (t - c.epoch) % 2 ^ 32)
    else if t != 0
    then (t + c.uptime) % 2 ^ 32
    else 0

unfoldable pub convert_to_abs_time : Clock → ℕ → ℕ
convert_to_abs_time c rel_time = c.epoch + rel_time

-- `labs(timeofday.tv_sec - previous_time.tv_sec)`
abbrev pub difference : ℕ → ℕ → ℕ
difference a b = if ltb a b then b - a else a - b

-- The system's clock is not 59 to 61 seconds away from where it was when it was last looked at.
unfoldable pub changed : Option ℕ → ℕ → Bool
changed none system = false
changed (some previous) system =
    ltb (check_interval + 1) (difference system previous)
    || ltb (difference system previous) (check_interval - 1)

-- mc_time_clock_tick
unfoldable pub clock_tick : ℕ → ℕ → Clock → Clock
unfolding changed
clock_tick monotonic system c =
    let uptime = (monotonic - c.monotonic_start) % 2 ^ 32 in
    if leb c.check_system_time uptime
    then record c {
      uptime = uptime;
      epoch = if changed c.previous_time system then system - uptime else c.epoch;
      check_system_time = c.check_system_time + check_interval;
      previous_time = some system;
    }
    else record c { uptime = uptime }
