-- ===== src/Main/Recovery.antt =====
-- The recovery: what it does to the device, its backoff, and when the loop enters it.
use pnet_driver_test.Prelude.{
  ℕ, ◌+◌, ◌-◌, ◌*◌, ◌%◌, ◌^◌, ◌≤◌, ◌<◌, ◌≡◌, ◌∙◌, ◌⊎◌, inl, inr, refl, sym, ℤ, pos, negsuc, true,
  none, some, List, [], ◌∷◌, arith, Bool-cases, leb, gt→leb, le→leb, min,
}
use pnet_driver_test.Pnet.{Stack}
use pnet_driver_test.Device.{DeviceCfg, Device, error, zero_device}
use pnet_driver_test.Device.Calls.{io_device_tick, tick_handle}
use pnet_driver_test.Device.Lifecycle.{IsLive}
use pnet_driver_test.Main.{
  Loop, Effect, slept, recovering, status_running, recovery_backoff_base, recovery_backoff_max,
  max_consecutive_errors, next_backoff, device_init_and_start, device_stop_and_cleanup, restarted,
  recover, try_recovery, tick_failed, iteration, after_tick, finish, ping, watchdog_ping_ms,
}
use pnet_driver_test.Main.Live.{device_init_and_start_lem}

-- from one second to thirty
abbrev pub IsBackoff : ℕ → Type 0
IsBackoff us = (recovery_backoff_base ≤ us) × (us ≤ recovery_backoff_max)

-- The wait doubles up to the cap; the 32-bit product does not overflow.
next_backoff_lem : (us : ℕ) → IsBackoff us → next_backoff us ≡ min (us * 2) recovery_backoff_max
unfolding next_backoff
next_backoff_lem us h = ground arith

-- the variables but for the device and the watchdog's time
abbrev pub Counts : ℕ → ℕ → ℕ → {Net : Type 0} → Loop Net → Type 0
Counts errors attempts backoff l =
    (l.consecutive_errors ≡ errors) × (l.recovery_attempts ≡ attempts) × (l.backoff_us ≡ backoff)

pub ping-Counts :
    {Net : Type 0} (cfg : DeviceCfg) (now_ms : ℕ) (l : Loop Net)
    → let l' = (ping cfg now_ms l).0 in
      Counts l.consecutive_errors l.recovery_attempts l.backoff_us l' × (l'.device ≡ l.device)
unfolding ping
ping-Counts cfg now_ms l =
    elim (Bool-cases (leb watchdog_ping_ms ((now_ms + 2 ^ 64 - l.last_watchdog_ms) % 2 ^ 64))) [
      | inl due ↦ rw due ((refl, refl, refl), refl)
      | inr early ↦ rw early ((refl, refl, refl), refl)
    ]

module _ (stack : Stack) where
  open stack use {Net}

  -- whether the device starts, which does not depend on what it was
  abbrev pub start_result : DeviceCfg → ℤ
  start_result cfg = (device_init_and_start stack (zero_device Net) cfg).0

  start_result_lem :
      (dev : Device Net) (cfg : DeviceCfg)
      → (device_init_and_start stack dev cfg).0 ≡ start_result cfg
  unfolding device_init_and_start
  start_result_lem dev cfg = refl

  -- how a recovery can end
  abbrev pub RecoveryEnds : DeviceCfg → Loop Net → Loop Net × List Effect → Type 0
  RecoveryEnds cfg l (l', es) =
      ((l'.recovery_attempts ≡ l.recovery_attempts)
        × (l'.backoff_us ≡ min (l.backoff_us * 2) recovery_backoff_max)
        × (l'.last_watchdog_ms ≡ l.last_watchdog_ms))
      × (((start_result cfg ≡ pos 0)
            × IsLive l'.device
            × (l'.device.config ≡ cfg)
            × (l'.consecutive_errors ≡ 0)
            × (es ≡ recovering l.recovery_attempts ∷ slept l.backoff_us ∷ status_running ∷ []))
          ⊎ ((start_result cfg ≡ negsuc 0)
              × (l'.device ≡ zero_device Net)
              × (l'.consecutive_errors ≡ l.consecutive_errors)
              × (es ≡ recovering l.recovery_attempts ∷ slept l.backoff_us ∷ [])))

  -- With a backoff from 1 s to 30 s, a recovery waits for it, doubles it up to 30 s for the next,
  -- and starts the device afresh: if that succeeds the device is live with its configuration and
  -- the errors in a row are forgotten, and if not the device is zeroed and they are kept.
  pub recover_lem :
      (cfg : DeviceCfg) (l : Loop Net)
      → IsBackoff l.backoff_us
      → RecoveryEnds cfg l (recover stack cfg l)
  unfolding recover restarted
  recover_lem cfg l h =
      let stopped = device_stop_and_cleanup stack l.device in
      let doubled = next_backoff_lem l.backoff_us h in
      let same = sym (start_result_lem stopped cfg) in
      elim (device_init_and_start_lem stack stopped cfg) [
        | inl (r, live, s, c) ↦
            let started = same ∙ r in
            rw r ((refl, doubled, refl), inl (started, live, c, refl, refl))
        | inr (r, z) ↦
            let failed = same ∙ r in rw r ((refl, doubled, refl), inr (failed, z, refl, refl))
      ]

  -- a device that a tick refuses: without a handle, or in the error state
  abbrev pub IsDown : Device Net → Type 0
  IsDown dev = (dev.pnet_handle ≡ none) ⊎ (dev.state ≡ error)

  tick-IsDown :
      (dev : Device Net) → IsDown dev → io_device_tick stack (some dev) ≡ (negsuc 0, some dev)
  unfolding io_device_tick tick_handle
  tick-IsDown dev h = ground arith

  -- a failed tick counted
  abbrev pub counted : Loop Net → Loop Net
  counted l = record l {
    device = record l.device { error_count = (l.device.error_count + 1) % 2 ^ 64 };
    consecutive_errors = l.consecutive_errors + 1;
  }

  pub iteration-IsDown :
      (cfg : DeviceCfg) (now_ms : ℕ) (l : Loop Net)
      → IsDown l.device
      → iteration stack cfg now_ms l ≡ finish cfg now_ms (tick_failed stack cfg l)
  unfolding iteration after_tick
  iteration-IsDown cfg now_ms l h = rw (tick-IsDown l.device h) refl

  pub tick_failed_early :
      (cfg : DeviceCfg) (l : Loop Net)
      → l.consecutive_errors + 1 < max_consecutive_errors
      → tick_failed stack cfg l ≡ (true, counted l, [])
  unfolding tick_failed
  tick_failed_early cfg l h = rw (gt→leb 5 (l.consecutive_errors + 1) h) refl

  pub tick_failed_late :
      (cfg : DeviceCfg) (l : Loop Net)
      → max_consecutive_errors ≤ l.consecutive_errors + 1
      → tick_failed stack cfg l ≡ (
          let (l', es) =
            recover stack cfg
              (record (counted l) { recovery_attempts = l.recovery_attempts + 1 }) in
          (true, l', es))
  unfolding tick_failed try_recovery
  tick_failed_late cfg l h = rw (le→leb 5 (l.consecutive_errors + 1) h) refl
