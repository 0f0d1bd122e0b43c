-- ===== src/Pnet/Uptime.antt =====
-- `pnal_get_system_uptime_10ms` of include/pnal_config.h, on the time that the clock shows.
use pnet_driver_test.Prelude.{ℕ, ◌+◌, ◌-◌, ◌*◌, ◌/◌, ◌%◌, ◌^◌, ◌≤◌, ◌<◌, ◌≡◌, arith}
use pnet_driver_test.Realtime.Latency.{Timespec}

-- The sum is a `long`, of 64 bits, and the cast keeps the low 32.
unfoldable pub pnal_get_system_uptime_10ms : Timespec → ℕ
pnal_get_system_uptime_10ms ts = (ts.tv_sec * 100 + ts.tv_nsec / 10000000) % 2 ^ 32

-- the time in nanoseconds
abbrev pub nanoseconds : Timespec → ℕ
nanoseconds ts = ts.tv_sec * 1000000000 + ts.tv_nsec

-- The uptime counts units of 10 ms and wraps around after 2 ^ 32 of them; for two times that are fewer
-- units apart, the difference of their uptimes modulo 2 ^ 32 is still the number of units between them.
pub pnal_get_system_uptime_10ms_lem :
    (first second : Timespec)
    → nanoseconds first ≤ nanoseconds second
    → nanoseconds second / 10000000 - nanoseconds first / 10000000 < 2 ^ 32
    → (pnal_get_system_uptime_10ms second + 2 ^ 32 - pnal_get_system_uptime_10ms first) % 2 ^ 32
      ≡ nanoseconds second / 10000000 - nanoseconds first / 10000000
unfolding pnal_get_system_uptime_10ms
pnal_get_system_uptime_10ms_lem first second h k = omega arith
