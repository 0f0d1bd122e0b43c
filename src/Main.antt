-- ===== src/Main.antt =====
-- src/main.c: the production loop with its watchdog and its recovery. One iteration of
-- `while (g_running)` is a function of the clock that it reads; a run of the loop has one clock
-- value for each iteration until a signal clears `g_running`. Messages are left out.
pub mod Live
pub mod Recovery
pub mod Outage
pub mod Retry
pub mod Watchdog
pub mod Startup
pub mod Program
pub mod Terminal
use pnet_driver_test.Prelude.{
  ℕ, ◌+◌, ◌-◌, ◌*◌, ◌%◌, ◌^◌, ℤ, pos, negsuc, ltbℤ, is_zero, Bool, true, false, not, ◌&&◌, Option,
  none, some, List, [], ◌∷◌, ◌++◌, ltb, leb, if◌then◌else◌,
}
use pnet_driver_test.Pnet.{Stack}
use pnet_driver_test.Device.{DeviceCfg, Device, zero_device, held}
use pnet_driver_test.Device.Start.{io_device_init, io_device_start}
use pnet_driver_test.Device.Calls.{io_device_tick, io_device_stop, io_device_cleanup}

abbrev pub max_consecutive_errors : ℕ
max_consecutive_errors = 5

-- microseconds
abbrev pub recovery_backoff_base : ℕ
recovery_backoff_base = 1000000

abbrev pub recovery_backoff_max : ℕ
recovery_backoff_max = 30000000

-- 0 is no limit
abbrev pub max_recovery_attempts : ℕ
max_recovery_attempts = 0

abbrev pub watchdog_ping_ms : ℕ
watchdog_ping_ms = 15000

-- the local variables of `main` that the loop changes. The two counters are `int`s: they grow by
-- one in an iteration at most, and to run over one it takes 2 ^ 31 failures in a row.
pub record Loop (Net : Type 0) : Type 0 where
  pub device : Device Net
  pub consecutive_errors : ℕ
  pub recovery_attempts : ℕ
  pub backoff_us : ℕ  -- useconds_t
  pub last_watchdog_ms : ℕ  -- unsigned long

-- what the loop does outside its variables: `usleep`, and `sd_notify`
pub data Effect : Type 0 where
  slept : ℕ → Effect
  watchdog : Effect
  recovering : ℕ → Effect
  status_running : Effect

-- `backoff_us *= 2`, and the cap
unfoldable pub next_backoff : ℕ → ℕ
next_backoff us =
    let doubled = us * 2 % 2 ^ 32 in
    if ltb recovery_backoff_max doubled then recovery_backoff_max else doubled

module _ {Net : Type 0} where
  -- after the restart in a recovery
  unfoldable pub restarted : Loop Net → ℤ × Device Net → Loop Net × List Effect
  restarted l (ret, dev) =
      if is_zero ret
      then (record l { device = dev; consecutive_errors = 0 }, status_running ∷ [])
      else (record l { device = dev }, [])

  unfoldable pub tick_done : Loop Net → Loop Net
  tick_done l = record l {
    consecutive_errors = 0;
    recovery_attempts = 0;
    backoff_us = recovery_backoff_base;
  }

  -- the end of an iteration: the watchdog's ping and the sleep
  unfoldable pub ping : DeviceCfg → ℕ → Loop Net → Loop Net × List Effect
  ping cfg now_ms l =
      if leb watchdog_ping_ms ((now_ms + 2 ^ 64 - l.last_watchdog_ms) % 2 ^ 64)
      then (record l { last_watchdog_ms = now_ms }, watchdog ∷ slept cfg.tick_us ∷ [])
      else (l, slept cfg.tick_us ∷ [])

  unfoldable pub finish :
      DeviceCfg → ℕ → Bool × Loop Net × List Effect → Bool × Loop Net × List Effect
  finish cfg now_ms (false, l, es) = (false, l, es)
  finish cfg now_ms (true, l, es) = let (l', fs) = ping cfg now_ms l in (true, l', es ++ fs)

  -- the loop, over the clock values of its iterations
  unfoldable pub continue_with :
      (Loop Net → Bool × Loop Net × List Effect)
      → Bool × Loop Net × List Effect
      → Bool × Loop Net × List Effect
  continue_with rest (false, l, es) = (false, l, es)
  continue_with rest (true, l, es) = let (going, l', fs) = rest l in (going, l', es ++ fs)

  -- the variables as the loop finds them
  abbrev pub fresh_loop : Device Net → Loop Net
  fresh_loop dev = record {
    device = dev;
    consecutive_errors = 0;
    recovery_attempts = 0;
    backoff_us = recovery_backoff_base;
    last_watchdog_ms = 0;
  }

module _ (stack : Stack) where
  open stack use {Net}

  -- after `io_device_start`, whose result and device these are
  unfoldable pub after_start : ℤ × Device Net → ℤ × Device Net
  after_start (ret, dev) =
      if ltbℤ ret (pos 0) then (negsuc 0, held dev (io_device_cleanup (some dev))) else (pos 0, dev)

  unfoldable pub start_device : Device Net → ℤ × Device Net
  start_device dev =
      let (ret, d) = io_device_start stack (some dev) in after_start (ret, held dev d)

  -- The first statement zeroes `*dev`: what it was does not matter.
  unfoldable pub device_init_and_start : Device Net → DeviceCfg → ℤ × Device Net
  unfolding start_device after_start
  device_init_and_start dev cfg =
      let (ret, d) = io_device_init (some (zero_device Net)) (some cfg) in
      let dev' = held (zero_device Net) d in
      if ltbℤ ret (pos 0) then (negsuc 0, dev') else start_device dev'

  unfoldable pub device_stop_and_cleanup : Device Net → Device Net
  device_stop_and_cleanup dev =
      let (ret, d) = io_device_stop stack (some dev) in
      let dev' = held dev d in held dev' (io_device_cleanup (some dev'))

  unfoldable pub recover : DeviceCfg → Loop Net → Loop Net × List Effect
  unfolding restarted
  recover cfg l =
      let stopped = device_stop_and_cleanup l.device in
      let waited = record l { device = stopped; backoff_us = next_backoff l.backoff_us } in
      let (l', effects) = restarted waited (device_init_and_start stopped cfg) in
      (l', recovering l.recovery_attempts ∷ slept l.backoff_us ∷ effects)

  -- The first component is whether the loop goes on; `false` is the `break`.
  unfoldable pub try_recovery : DeviceCfg → Loop Net → Bool × Loop Net × List Effect
  try_recovery cfg l =
      let tried = record l { recovery_attempts = l.recovery_attempts + 1 } in
      if ltb 0 max_recovery_attempts && ltb max_recovery_attempts tried.recovery_attempts
      then (false, tried, [])
      else let (l', effects) = recover cfg tried in (true, l', effects)

  unfoldable pub tick_failed : DeviceCfg → Loop Net → Bool × Loop Net × List Effect
  tick_failed cfg l =
      let counted = record l {
        device = record l.device { error_count = (l.device.error_count + 1) % 2 ^ 64 };
        consecutive_errors = l.consecutive_errors + 1;
      } in
      if ltb 0 max_consecutive_errors && leb max_consecutive_errors counted.consecutive_errors
      then try_recovery cfg counted
      else (true, counted, [])

  -- `l` has the device as the tick left it, and `rc` is its result
  unfoldable pub after_tick : DeviceCfg → ℤ → Loop Net → Bool × Loop Net × List Effect
  unfolding tick_failed tick_done
  after_tick cfg rc l = if is_zero rc then (true, tick_done l, []) else tick_failed cfg l

  unfoldable pub iteration : DeviceCfg → ℕ → Loop Net → Bool × Loop Net × List Effect
  unfolding after_tick finish
  iteration cfg now_ms l =
      let (rc, d) = io_device_tick stack (some l.device) in
      finish cfg now_ms (after_tick cfg rc (record l { device = held l.device d }))

  unfoldable pub run_loop : DeviceCfg → List ℕ → Loop Net → Bool × Loop Net × List Effect
  unfolding continue_with
  run_loop cfg [] l = (true, l, [])
  run_loop cfg (now_ms ∷ clock) l = continue_with (run_loop cfg clock) (iteration cfg now_ms l)
