-- ===== src/Main/Watchdog.antt =====
-- What every run of the loop keeps, whatever the device does: it goes on, its backoff stays in
-- bounds, and the watchdog is pinged in time.
pub mod Pings
use pnet_driver_test.Prelude.{
  ℕ, ◌+◌, ◌-◌, ◌%◌, ◌^◌, ◌≤◌, ◌<◌, ◌≡◌, inl, inr, refl, ℤ, is_zero, Bool, true, false, some, List,
  [], ◌∷◌, ◌++◌, ◌⊎◌, ◌∙◌, sym, ap, All, append_assoc, arith, Bool-cases, leb, ltb, leb→gt, leb→le,
  ltb→lt, ltb→ge,
}
use pnet_driver_test.Pnet.{Stack}
use pnet_driver_test.Device.{DeviceCfg, held}
use pnet_driver_test.Device.Calls.{io_device_tick}
use pnet_driver_test.Main.{
  Loop, Effect, watchdog, slept, watchdog_ping_ms, iteration, after_tick, tick_done, tick_failed,
  finish, ping, run_loop, continue_with, recover,
}
use pnet_driver_test.Main.Recovery.{
  IsBackoff, recover_lem, counted, tick_failed_early, tick_failed_late, RecoveryEnds,
}
use pnet_driver_test.Main.Watchdog.Pings.{
  IsQuiet, GoesOn, PingedAt, Pinged, Reached, Sorted, Ends, ping-PingedAt, PingedAt-append, earlier,
}

module _ (stack : Stack) where
  open stack use {Net}

  late-GoesOn :
      (cfg : DeviceCfg) (l' : Loop Net) (out : Loop Net × List Effect)
      → IsBackoff l'.backoff_us
      → RecoveryEnds stack cfg l' out
      → GoesOn l'.last_watchdog_ms (true, out.0, out.1)
  late-GoesOn cfg l' (l, es) h ((attempts, backoff, time), inl (r, live, c, n, e)) =
      (refl, omega arith, time, rw e (tt, (tt, (tt, tt))))
  late-GoesOn cfg l' (l, es) h ((attempts, backoff, time), inr (r, z, n, e)) =
      (refl, omega arith, time, rw e (tt, (tt, tt)))

  tick_failed-GoesOn :
      (cfg : DeviceCfg) (l : Loop Net)
      → IsBackoff l.backoff_us
      → GoesOn l.last_watchdog_ms (tick_failed stack cfg l)
  tick_failed-GoesOn cfg l h = elim (Bool-cases (ltb (l.consecutive_errors + 1) 5)) [
    | inl early ↦
        rw (tick_failed_early stack cfg l (ltb→lt (l.consecutive_errors + 1) 5 early))
          (refl, h, refl, tt)
    | inr late ↦
        let tried = record (counted stack l) { recovery_attempts = l.recovery_attempts + 1 } in
        rw (tick_failed_late stack cfg l (ltb→ge (l.consecutive_errors + 1) 5 late))
          (late-GoesOn cfg tried (recover stack cfg tried) h (recover_lem stack cfg tried h))
  ]

  after_tick-GoesOn :
      (cfg : DeviceCfg) (rc : ℤ) (l : Loop Net)
      → IsBackoff l.backoff_us
      → GoesOn l.last_watchdog_ms (after_tick stack cfg rc l)
  unfolding after_tick tick_done
  after_tick-GoesOn cfg rc l h = elim (Bool-cases (is_zero rc)) [
    | inl ok ↦ rw ok (refl, omega arith, refl, tt)
    | inr failed ↦ rw failed (tick_failed-GoesOn cfg l h)
  ]

  -- what an iteration has reached that began with `t` as the time of the last ping
  abbrev IterationEnds : DeviceCfg → ℕ → ℕ → Bool × Loop Net × List Effect → Type 0
  IterationEnds cfg t now_ms (going, l', es) =
      (going ≡ true)
      × IsBackoff l'.backoff_us
      × (l'.last_watchdog_ms ≤ now_ms)
      × PingedAt cfg t now_ms (Ends l') es

  ping_time :
      (cfg : DeviceCfg) (now_ms : ℕ) (l : Loop Net)
      → l.last_watchdog_ms ≤ now_ms
      → (ping cfg now_ms l).0.last_watchdog_ms ≤ now_ms
  unfolding ping
  ping_time cfg now_ms l h = ground arith

  finish-IterationEnds :
      (cfg : DeviceCfg) (now_ms t : ℕ) (out : Bool × Loop Net × List Effect)
      → GoesOn t out
      → t ≤ now_ms
      → now_ms < 2 ^ 64
      → IterationEnds cfg t now_ms (finish cfg now_ms out)
  unfolding finish
  finish-IterationEnds cfg now_ms t (false, l, es) (going, h, time, quiet) before bound = cc
  finish-IterationEnds cfg now_ms t (true, l, es) (going, h, time, quiet) before bound =
      let (pinged, same) = ping-PingedAt cfg now_ms l es (omega arith) bound quiet in
      let (l', fs) = ping cfg now_ms l in
      (refl, rw same h, ping_time cfg now_ms l (omega arith), rw (sym time) pinged)

  iteration-IterationEnds :
      (cfg : DeviceCfg) (now_ms : ℕ) (l : Loop Net)
      → IsBackoff l.backoff_us
      → l.last_watchdog_ms ≤ now_ms
      → now_ms < 2 ^ 64
      → IterationEnds cfg l.last_watchdog_ms now_ms (iteration stack cfg now_ms l)
  unfolding iteration
  iteration-IterationEnds cfg now_ms l h before bound =
      let (rc, d) = io_device_tick stack (some l.device) in
      let ticked = record l { device = held l.device d } in
      finish-IterationEnds cfg now_ms l.last_watchdog_ms (after_tick stack cfg rc ticked)
        (after_tick-GoesOn cfg rc ticked h) before bound

  continue_with-Reached :
      (cfg : DeviceCfg) (t now_ms : ℕ) (Rest : ℕ → List Effect → Type 0)
      (rest : Loop Net → Bool × Loop Net × List Effect) (out : Bool × Loop Net × List Effect)
      → ((l' : Loop Net)
          → IsBackoff l'.backoff_us
          → l'.last_watchdog_ms ≤ now_ms
          → Reached Rest l'.last_watchdog_ms (rest l'))
      → IterationEnds cfg t now_ms out
      → Reached (λ u es. PingedAt cfg u now_ms Rest es) t (continue_with rest out)
  unfolding continue_with
  continue_with-Reached cfg t now_ms Rest rest (false, l', es) on (going, h, time, pinged) = cc
  continue_with-Reached cfg t now_ms Rest rest (true, l', es) on (going, h, time, pinged) =
      let (on_going, on_backoff, on_rest) = on l' h time in
      (on_going, on_backoff, PingedAt-append cfg t now_ms l' Rest es (rest l').2 pinged on_rest)

  -- However the ticks end, the loop goes on: started with a backoff in bounds, it never leaves by
  -- itself, and the backoff stays between 1 s and 30 s. If the clock does not go back and stays below
  -- 2 ^ 64 ms, each iteration ends with the sleep of a tick and pings the watchdog, once and right
  -- before that sleep, exactly if the last ping was 15 s ago or more; before the first ping, the time
  -- counts from the value that the variable for it has at the start.
  pub run_loop-Pinged :
      (cfg : DeviceCfg) (clock : List ℕ) (l : Loop Net)
      → IsBackoff l.backoff_us
      → Sorted l.last_watchdog_ms clock
      → let (going, l', es) = run_loop stack cfg clock l in
        (going ≡ true) × IsBackoff l'.backoff_us × Pinged cfg clock l.last_watchdog_ms es
  unfolding run_loop
  run_loop-Pinged cfg [] l h sorted = (refl, h, refl)
  run_loop-Pinged cfg (now_ms ∷ clock) l h (before, bound, sorted) =
      continue_with-Reached cfg l.last_watchdog_ms now_ms (Pinged cfg clock)
        (run_loop stack cfg clock) (iteration stack cfg now_ms l)
        (λ l' h' time.
          run_loop-Pinged cfg clock l' h' (earlier clock now_ms l'.last_watchdog_ms time sorted))
        (iteration-IterationEnds cfg now_ms l h before bound)
