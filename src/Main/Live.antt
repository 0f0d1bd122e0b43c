-- ===== src/Main/Live.antt =====
-- The loop from a device that was started: every tick succeeds.
use pnet_driver_test.Prelude.{
  ℕ, suc, ◌+◌, ◌-◌, ◌%◌, ◌^◌, ◌≡◌, ◌∙◌, ◌⊎◌, inl, inr, refl, ap, ℤ, pos, negsuc, Bool, true, false,
  some, List, [], ◌∷◌, arith, length, All, All-append, Bool-cases, leb,
}
use pnet_driver_test.Pnet.{Stack}
use pnet_driver_test.Device.{DeviceCfg, Device, initialized, connected, zero_device, held}
use pnet_driver_test.Device.Start.{io_device_init}
use pnet_driver_test.Device.Calls.{io_device_cleanup}
use pnet_driver_test.Device.Lifecycle.{IsLive, Started, io_device_start_lem, io_device_tick-IsLive}
use pnet_driver_test.Main.{
  Loop, Effect, slept, watchdog, recovery_backoff_base, after_start, start_device,
  device_init_and_start, iteration, after_tick, tick_done, finish, ping, watchdog_ping_ms, run_loop,
  continue_with, fresh_loop,
}

-- no error so far, and none to come
pub record IsSteady {Net : Type 0} (l : Loop Net) : Type 0 where
  pub live : IsLive l.device
  pub errors : l.consecutive_errors ≡ 0
  pub attempts : l.recovery_attempts ≡ 0
  pub backoff : l.backoff_us ≡ recovery_backoff_base

-- a ping, or the sleep between two ticks
abbrev pub IsCalm : DeviceCfg → Effect → Type 0
IsCalm cfg (slept us) = us ≡ cfg.tick_us
IsCalm cfg watchdog = Unit
IsCalm cfg _ = ⊥

ping-IsSteady :
    {Net : Type 0} (cfg : DeviceCfg) (now_ms : ℕ) {l : Loop Net}
    → IsSteady l
    → let (l', es) = ping cfg now_ms l in IsSteady l' × (l'.device ≡ l.device) × All (IsCalm cfg) es
unfolding ping
ping-IsSteady cfg now_ms {l} s =
    elim (Bool-cases (leb watchdog_ping_ms ((now_ms + 2 ^ 64 - l.last_watchdog_ms) % 2 ^ 64))) [
      | inl due ↦ rw due (
        record { live = s.live; errors = s.errors; attempts = s.attempts; backoff = s.backoff },
        refl,
        (tt, (refl, tt)),
      )
      | inr early ↦ rw early (s, refl, (refl, tt))
    ]

module _ (stack : Stack) where
  open stack use {Net}

  -- what `n` iterations keep, and what they do
  abbrev pub IsCalmStep : DeviceCfg → ℕ → Loop Net → Bool × Loop Net × List Effect → Type 0
  IsCalmStep cfg n l (going, l', es) =
      (going ≡ true)
      × IsSteady l'
      × (l'.device.cycle_count % 2 ^ 64 ≡ (l.device.cycle_count + n) % 2 ^ 64)
      × (l'.device.config ≡ l.device.config)
      × (l'.device.error_count ≡ l.device.error_count)
      × All (IsCalm cfg) es

  iteration-IsSteady :
      (cfg : DeviceCfg) (now_ms : ℕ) {l : Loop Net}
      → IsSteady l
      → IsCalmStep cfg 1 l (iteration stack cfg now_ms l)
  unfolding iteration after_tick tick_done finish
  iteration-IsSteady cfg now_ms {l} s =
      let (dev', e, live, cycles, config, errors) = io_device_tick-IsLive stack s.live in
      let done = tick_done (record l { device = dev' }) in
      let (steady, same, calm) =
        ping-IsSteady cfg now_ms {l = done}
          (record { live = live; errors = refl; attempts = refl; backoff = refl }) in
      rw e (
        refl,
        steady,
        omega (arith, ap (λ d. d.cycle_count) same ∙ cycles),
        ap (λ d. d.config) same ∙ config,
        ap (λ d. d.error_count) same ∙ errors,
        calm,
      )

  continue_with-IsCalmStep :
      (cfg : DeviceCfg) (n : ℕ) (l : Loop Net) (rest : Loop Net → Bool × Loop Net × List Effect)
      (out : Bool × Loop Net × List Effect)
      → ((l' : Loop Net) → IsSteady l' → IsCalmStep cfg n l' (rest l'))
      → IsCalmStep cfg 1 l out
      → IsCalmStep cfg (suc n) l (continue_with rest out)
  unfolding continue_with
  continue_with-IsCalmStep cfg n l rest (false, l', es) on (going, s, c, k, e, calm) = cc
  continue_with-IsCalmStep cfg n l rest (true, l', es) on
        (going, steady, cycles, config, errors, calm) =
      let (going', steady', cycles', config', errors', calm') = on l' steady in
      (
        going',
        steady',
        omega arith,
        config' ∙ config,
        errors' ∙ errors,
        All-append (IsCalm cfg) es _ calm calm',
      )

  run_loop-IsSteady :
      (cfg : DeviceCfg) (clock : List ℕ) {l : Loop Net}
      → IsSteady l
      → IsCalmStep cfg (length clock) l (run_loop stack cfg clock l)
  unfolding run_loop
  run_loop-IsSteady cfg [] s = (refl, s, omega arith, refl, refl, tt)
  run_loop-IsSteady cfg (now_ms ∷ clock) {l} s =
      continue_with-IsCalmStep cfg (length clock) l (run_loop stack cfg clock)
        (iteration stack cfg now_ms l) (λ l' s'. run_loop-IsSteady cfg clock s')
        (iteration-IsSteady cfg now_ms s)

  -- how `device_init_and_start` can end
  abbrev pub InitEnds : DeviceCfg → ℤ × Device Net → Type 0
  InitEnds cfg (ret, dev) =
      ((ret ≡ pos 0) × IsLive dev × (dev.state ≡ connected) × (dev.config ≡ cfg))
      ⊎ ((ret ≡ negsuc 0) × (dev ≡ zero_device Net))

  after_start-InitEnds :
      (dev : Device Net) (out : ℤ × Device Net)
      → Started stack dev initialized out
      → InitEnds dev.config (after_start stack out)
  unfolding after_start io_device_cleanup
  after_start-InitEnds dev (ret, d) (inl (r, i, live, s, c)) = rw r (inl (refl, live, s, c))
  after_start-InitEnds dev (ret, d) (inr (inl (r, i, s, b))) = rw r (inr (refl, refl))
  after_start-InitEnds dev (ret, d) (inr (inr (r, i, s))) = absurd (i refl)

  -- `device_init_and_start` returns 0 and leaves a live, connected device with its configuration, or
  -- returns -1 and leaves it zeroed, whatever the device was before.
  pub device_init_and_start_lem :
      (dev : Device Net) (cfg : DeviceCfg) → InitEnds cfg (device_init_and_start stack dev cfg)
  unfolding device_init_and_start start_device io_device_init
  device_init_and_start_lem dev cfg =
      let ready = held (zero_device Net) (io_device_init (some (zero_device Net)) (some cfg)).1 in
      let (out, started, how) =
        io_device_start_lem stack {dev = ready} (refl, refl, omega arith, omega arith) in
      rw started (after_start-InitEnds ready out how)

  -- Once the device was started, for as long as the loop runs: every tick succeeds, the device stays
  -- live, no error is counted, and the loop only sleeps between two ticks and pings the watchdog. The
  -- recovery is never entered.
  pub run_loop-IsLive :
      (cfg : DeviceCfg) (clock : List ℕ) {dev : Device Net}
      → (device_init_and_start stack (zero_device Net) cfg) ≡ (pos 0, dev)
      → let (going, l, effects) = run_loop stack cfg clock (fresh_loop dev) in
        (going ≡ true)
        × IsLive l.device
        × (l.device.cycle_count % 2 ^ 64 ≡ (dev.cycle_count + length clock) % 2 ^ 64)
        × (l.device.error_count ≡ dev.error_count)
        × (l.consecutive_errors ≡ 0)
        × (l.recovery_attempts ≡ 0)
        × All (IsCalm cfg) effects
  run_loop-IsLive cfg clock {dev} started =
      let live : IsLive dev = elim (device_init_and_start_lem (zero_device Net) cfg) [
        | inl (r, live, s, c) ↦ rw started at live
        | inr (r, z) ↦ cc
      ] in
      let (going, steady, cycles, config, errors, calm) =
        run_loop-IsSteady cfg clock {l = fresh_loop dev}
          (record { live = live; errors = refl; attempts = refl; backoff = refl }) in
      (going, steady.live, cycles, errors, steady.errors, steady.attempts, calm)
