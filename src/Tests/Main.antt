-- ===== src/Tests/Main.antt =====
-- The production loop: over the stack that accepts everything, and over one that cannot start.
use pnet_driver_test.Prelude.{
  ℕ, ◌+◌, ◌%◌, ◌^◌, ◌≡◌, refl, inl, pos, negsuc, true, none, List, [], ◌∷◌, arith, All,
}
use pnet_driver_test.Pnet.{Stack}
use pnet_driver_test.Device.{Device, zero_device}
use pnet_driver_test.Device.Lifecycle.{IsLive}
use pnet_driver_test.Main.{
  Loop, Effect, slept, recovering, device_init_and_start, recover, run_loop, fresh_loop,
  recovery_backoff_base,
}
use pnet_driver_test.Main.Live.{IsCalm, run_loop-IsLive}
use pnet_driver_test.Main.Recovery.{IsBackoff, RecoveryEnds, recover_lem, start_result}
use pnet_driver_test.Main.Retry.{schedule, FifthEnds, FailingEnds, run_loop-fifth, run_loop_failing}
use pnet_driver_test.Main.Watchdog.{run_loop-Pinged}
use pnet_driver_test.Main.Watchdog.Pings.{Pinged}
use pnet_driver_test.Tests.Device.{busy, cfg, ready}

-- a stack that cannot be started
abbrev dead : Stack
dead = record busy { init = λ c. none }

abbrev zeroed : Loop (Unit {0})
zeroed = fresh_loop (zero_device (Unit {0}))

device_init_and_start-busy :
    device_init_and_start busy (zero_device (Unit {0})) cfg ≡ (pos 0, ready)
unfolding device_init_and_start pnet_driver_test.Device.Start.io_device_init
    pnet_driver_test.Device.Start.io_device_start pnet_driver_test.Main.start_device
    pnet_driver_test.Main.after_start pnet_driver_test.Device.Start.start_in
    pnet_driver_test.Device.Start.after_init pnet_driver_test.Device.Start.after_plug
    pnet_driver_test.Device.Start.plug_all_modules
device_init_and_start-busy = refl

start_result-dead : start_result dead cfg ≡ negsuc 0
unfolding device_init_and_start pnet_driver_test.Device.Start.io_device_init
    pnet_driver_test.Device.Start.io_device_start pnet_driver_test.Main.start_device
    pnet_driver_test.Main.after_start pnet_driver_test.Device.Start.start_in
    pnet_driver_test.Device.Start.after_init
start_result-dead = refl

abbrev clock : List ℕ
clock = 20000 ∷ 20001 ∷ 40000 ∷ []

run_loop-IsLive_example :
    let (going, l, effects) = run_loop busy cfg clock (fresh_loop ready) in
    (going ≡ true)
    × IsLive l.device
    × (l.device.cycle_count % 2 ^ 64 ≡ (0 + 3) % 2 ^ 64)
    × (l.device.error_count ≡ 0)
    × (l.consecutive_errors ≡ 0)
    × (l.recovery_attempts ≡ 0)
    × All (IsCalm cfg) effects
run_loop-IsLive_example = run_loop-IsLive busy cfg clock {dev = ready} device_init_and_start-busy

recover_lem_example : RecoveryEnds busy cfg zeroed (recover busy cfg zeroed)
recover_lem_example = recover_lem busy cfg zeroed (omega arith)

run_loop-fifth_example :
    FifthEnds busy cfg zeroed (run_loop busy cfg (1 ∷ 2 ∷ 3 ∷ 4 ∷ 5 ∷ []) zeroed)
run_loop-fifth_example =
    run_loop-fifth busy cfg (1 ∷ 2 ∷ 3 ∷ 4 ∷ 5 ∷ []) zeroed (inl refl) (omega arith) (omega arith)
      refl

abbrev failed : Loop (Unit {0})
failed = record zeroed { consecutive_errors = 4 }

run_loop_failing_example : FailingEnds dead 3 failed (run_loop dead cfg clock failed)
run_loop_failing_example =
    run_loop_failing dead cfg clock failed start_result-dead (inl refl) (omega arith) (omega arith)

waits : schedule 7 1 recovery_backoff_base ≡ (
    (1, 1000000)
    ∷ (2, 2000000)
    ∷ (3, 4000000)
    ∷ (4, 8000000)
    ∷ (5, 16000000)
    ∷ (6, 30000000)
    ∷ (7, 30000000)
    ∷ [])
waits = refl

run_loop-Pinged_example :
    let (going, l', es) = run_loop dead cfg clock failed in
    (going ≡ true) × IsBackoff l'.backoff_us × Pinged cfg clock failed.last_watchdog_ms es
run_loop-Pinged_example = run_loop-Pinged dead cfg clock failed (omega arith) (omega arith)
