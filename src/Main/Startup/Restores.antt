-- ===== src/Main/Startup/Restores.antt =====
-- How the program ends, whatever fails on the way.
use pnet_driver_test.Prelude.{
  ℕ, ◌≡◌, ◌⊎◌, inl, inr, refl, ap, ℤ, pos, ltbℤ, Bool, true, false, Option, none, some, List, [],
  Bool-cases, if◌then◌else◌,
}
use pnet_driver_test.Text.Bytes.{Bytes}
use pnet_driver_test.Pnet.{Stack}
use pnet_driver_test.Device.{Device, zero_device, held}
use pnet_driver_test.Device.Calls.{io_device_stop, io_device_cleanup, stop_handle}
use pnet_driver_test.Net.Interface.{Kernel}
use pnet_driver_test.Realtime.Setup.{Os, Globals, rt_setup_restore, restore_in}
use pnet_driver_test.Config.{AppConfig}
use pnet_driver_test.Config.Validate.{IsUsable, app_config_validate_iff}
use pnet_driver_test.Main.{device_stop_and_cleanup, run_loop, fresh_loop}
use pnet_driver_test.Main.Live.{InitEnds, device_init_and_start_lem}
use pnet_driver_test.Main.Startup.{
  exit_success, exit_failure, apply_network, apply_security, apply_realtime, setup_after_init,
  cleanup_rt, Ended, shut_down, run_device, after_realtime, failing, after_security, after_network,
  after_config,
}

module _ (stack : Stack) where
  open stack use {Net}

  -- The shutdown leaves the device zeroed, whether it could be stopped or not.
  device_stop_and_cleanup_lem :
      (dev : Device Net) → device_stop_and_cleanup stack dev ≡ zero_device Net
  unfolding device_stop_and_cleanup io_device_stop stop_handle io_device_cleanup
  device_stop_and_cleanup_lem dev = by_handle dev.pnet_handle
    where
      by_handle :
          (h : Option Net)
          → held
              (held dev (stop_handle stack dev h).1)
              (io_device_cleanup (some (held dev (stop_handle stack dev h).1)))
            ≡ zero_device Net
      by_handle none = refl
      by_handle (some net) = refl

  run_device_lem :
      (cfg : AppConfig) (clock : List ℕ) (out : ℤ × Device Net)
      → InitEnds stack cfg.device out
      → (run_device stack cfg clock out).0 ≡ zero_device Net
  unfolding run_device shut_down
  run_device_lem cfg clock (ret, dev) (inl (r, live, state, config)) =
      rw r (device_stop_and_cleanup_lem (run_loop stack cfg.device clock (fresh_loop dev)).1.device)
  run_device_lem cfg clock (ret, dev) (inr (r, zeroed)) = rw r zeroed

-- The restoration leaves the module uninitialized, whatever it was.
rt_setup_restore-initialized :
    (os : Os) (g : Globals) (k : os.State) → (rt_setup_restore os g k).0.initialized ≡ false
unfolding rt_setup_restore
rt_setup_restore-initialized os g k = by_state g.initialized refl
  where
    by_state :
        (b : Bool)
        → g.initialized ≡ b
        → (if◌then◌else◌ {A = Globals × os.State} b
            (record g { initialized = false }, restore_in os g k)
            (g, k)).0.initialized
          ≡ false
    by_state true e = refl
    by_state false e = e

restored_globals :
    (os : Os) (cfg : AppConfig) (g : Globals) (k : os.State)
    → g.initialized ≡ false
    → let (r, g', k') = apply_realtime os cfg g k in
      (cleanup_rt os cfg (g', k')).0.initialized ≡ false
unfolding apply_realtime cleanup_rt
restored_globals os cfg g k off = by_flag cfg.realtime_enabled
  where
    by_flag :
        (b : Bool)
        → let (r, g', k') =
            if◌then◌else◌ {A = ℤ × Globals × os.State} b
              (setup_after_init os
                (pnet_driver_test.Realtime.Setup.rt_setup_init g (some cfg.realtime))
                k)
              (pos 0, g, k) in
          (if◌then◌else◌ {A = Globals × os.State} b
            (rt_setup_restore os g' k')
            (g', k')).0.initialized
          ≡ false
    by_flag true = rt_setup_restore-initialized os _ _
    by_flag false = off

module _ (stack : Stack) (kernel : Kernel) (os : Os) (system : Bytes → ℤ) where
  open stack use {Net}

  -- how the program can end: before there is a device, or after a shutdown
  abbrev pub Ends : AppConfig → Ended stack kernel os system → Type 0
  Ends cfg e =
      (e.globals.initialized ≡ false)
      × (((e.code ≡ exit_failure) × (e.device ≡ none) × (e.effects ≡ []))
          ⊎ ((e.code ≡ exit_success) × (e.device ≡ some (zero_device Net)) × IsUsable cfg))

  after_security_lem :
      (cfg : AppConfig) (clock : List ℕ) (n : kernel.State) (g : Globals) (k : os.State)
      (out : ℤ × List Bytes)
      → g.initialized ≡ false
      → IsUsable cfg
      → Ends cfg (after_security stack kernel os system cfg clock n g k out)
  unfolding after_security after_realtime
  after_security_lem cfg clock n g k (ret, commands) off usable =
      elim (Bool-cases (ltbℤ ret (pos 0))) [
        | inl failed ↦ rw failed (off, inl (refl, refl, refl))
        | inr done ↦ rw done (
          restored_globals os cfg g k off,
          inr (
            refl,
            ap some (
                run_device_lem stack cfg clock _
                  (device_init_and_start_lem stack (zero_device Net) cfg.device)),
            usable,
          ),
        )
      ]

  after_network_lem :
      (cfg : AppConfig) (clock : List ℕ) (g : Globals) (k : os.State) (out : ℤ × kernel.State)
      → g.initialized ≡ false
      → IsUsable cfg
      → Ends cfg (after_network stack kernel os system cfg clock g k out)
  unfolding after_network
  after_network_lem cfg clock g k (ret, n) off usable = elim (Bool-cases (ltbℤ ret (pos 0))) [
    | inl failed ↦ rw failed (off, inl (refl, refl, refl))
    | inr done ↦ rw done (after_security_lem cfg clock n g k (apply_security system cfg) off usable)
  ]

  -- With any configuration, and whatever calls fail: the program returns EXIT_FAILURE before there
  -- is a device, or it returns EXIT_SUCCESS, and then the configuration was usable and the device
  -- has been stopped and zeroed. Either way the real-time setup is not left behind: its module,
  -- uninitialized at the start, is so at the end.
  pub after_config_lem :
      (cfg : AppConfig) (handlers : Bool) (clock : List ℕ) (n : kernel.State) (g : Globals)
      (k : os.State)
      → g.initialized ≡ false
      → Ends cfg (after_config stack kernel os system cfg handlers clock n g k)
  unfolding after_config
  after_config_lem cfg handlers clock n g k off =
      let (iff, either_one) = app_config_validate_iff cfg in
      elim either_one [
        | inl valid ↦ rw valid (by_handlers handlers (iff.0 valid))
        | inr invalid ↦ rw invalid (off, inl (refl, refl, refl))
      ]
    where
      by_handlers :
          (b : Bool)
          → IsUsable cfg
          → Ends cfg (
              if b
              then after_network stack kernel os system cfg clock g k (apply_network kernel cfg n)
              else failing stack kernel os system n g k [])
      by_handlers true usable =
          after_network_lem cfg clock g k (apply_network kernel cfg n) off usable
      by_handlers false usable = (off, inl (refl, refl, refl))
