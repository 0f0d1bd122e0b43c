-- ===== src/Device/Real/Runs.antt =====
-- Sequences of calls on a device in the two builds.
use pnet_driver_test.Prelude.{
  ◌≡◌, refl, ap, ◌∙◌, ℤ, Option, none, some, List, [], ◌∷◌, arith, is_zero, All, ltb, Bool, true,
  false, if◌then◌else◌, ℕ,
}
use pnet_driver_test.Pnet.{abort, startup, prmend, applrdy, data_exchange}
use pnet_driver_test.Pnet.Real.{RealIndication, RealStack}
use pnet_driver_test.Device.{State, idle, initialized, connected, running, error, Device, held}
use pnet_driver_test.Device.Start.{io_device_init, io_device_start}
use pnet_driver_test.Device.Calls.{
  io_device_tick, io_device_stop, io_device_cleanup, io_device_update_input, io_device_read_output,
  cache_output, is_error, Read,
}
use pnet_driver_test.Device.Run.{
  Call, init, start, tick, stop, cleanup, update_input, read_output, perform, perform_all,
}
use pnet_driver_test.Device.Real.{
  real_after_plug, real_plug_all_modules, real_after_init, real_start, real_tick, real_stop,
  real_update, real_read, real_perform, real_perform_all,
}
use pnet_driver_test.Device.Real.Callbacks.{real_state_ind_cb, real_callback, real_callbacks}
use pnet_driver_test.Device.Real.Same.{
  NameFits, IsExact, as_stack, real_start-same, real_tick-same, real_stop-same, real_update-same,
  real_read-same,
}

module _ {Net : Type 0} where
  config-real_callback :
      (i : RealIndication) (dev : Device Net) → (real_callback dev i).0.config ≡ dev.config
  unfolding real_callback real_state_ind_cb
  config-real_callback (RealIndication.state_ind arep startup) dev = refl
  config-real_callback (RealIndication.state_ind arep data_exchange) dev = refl
  config-real_callback (RealIndication.state_ind arep abort) dev = refl
  config-real_callback (RealIndication.state_ind arep prmend) dev = refl
  config-real_callback (RealIndication.state_ind arep applrdy) dev = refl
  config-real_callback _ dev = refl

  config-real_callbacks :
      (is : List RealIndication) (dev : Device Net) → (real_callbacks dev is).config ≡ dev.config
  unfolding real_callbacks
  config-real_callbacks [] dev = refl
  config-real_callbacks (i ∷ is) dev =
      config-real_callbacks is (real_callback dev i).0 ∙ config-real_callback i dev

module _ (real : RealStack) where
  open real use {Net}

  -- one of two ends of a call, both of which keep the configuration
  config-if :
      {A : Type 0} (b : Bool) (dev x y : Device Net) (r s : A)
      → x.config ≡ dev.config
      → y.config ≡ dev.config
      → (if◌then◌else◌ {A = A × Device Net} b (r, x) (s, y)).1.config ≡ dev.config
  config-if true dev x y r s hx hy = hx
  config-if false dev x y r s hx hy = hy

  config-real_after_init :
      (dev : Device Net) (o : Option Net) → (real_after_init real dev o).1.config ≡ dev.config
  unfolding real_after_init real_after_plug
  config-real_after_init dev none = refl
  config-real_after_init dev (some net) =
      config-if (is_zero (real_plug_all_modules real net).1) dev _ _ _ _ refl refl

  config-real_start : (s : State) (dev : Device Net) → (real_start real s dev).1.config ≡ dev.config
  unfolding real_start
  config-real_start initialized dev = config-real_after_init dev _
  config-real_start idle dev = refl
  config-real_start connected dev = refl
  config-real_start running dev = refl
  config-real_start error dev = refl

  config-real_tick :
      (dev : Device Net) (h : Option Net) → (real_tick real dev h).1.config ≡ dev.config
  unfolding real_tick
  config-real_tick dev none = refl
  config-real_tick dev (some net) =
      config-if (is_error dev.state) dev dev _ _ _ refl
        (config-real_callbacks (real.periodic net).1 _)

  config-real_update :
      (dev : Device Net) (h : Option Net) (bytes : List ℕ) (len : ℕ)
      → (real_update real dev h bytes len).1.config ≡ dev.config
  unfolding real_update
  config-real_update dev none bytes len = refl
  config-real_update dev (some net) bytes len = config-if (ltb 256 len) dev _ _ _ _ refl refl

  config-real_read :
      (dev : Device Net) (h : Option Net) (len : ℕ)
      → (real_read real dev h len).1.config ≡ dev.config
  unfolding real_read cache_output
  config-real_read dev none len = refl
  config-real_read dev (some net) len =
      config-if (is_zero (real.output_get net 0 1 2 false len).1.ret) dev _ _ _ _ refl refl

  -- a device that was stopped, or was not
  stopped-NameFits :
      (dev : Device Net) (h : Option Net)
      → NameFits dev.config
      → NameFits (held dev (real_stop real dev h).1).config
  unfolding real_stop io_device_cleanup
  stopped-NameFits dev none f = f
  stopped-NameFits dev (some net) f = omega arith

  real_perform-NameFits :
      (c : Call) (dev : Device Net)
      → IsExact c
      → NameFits dev.config
      → NameFits (real_perform real dev c).1.config
  unfolding real_perform io_device_init io_device_cleanup
  real_perform-NameFits (init cfg) dev exact f = exact
  real_perform-NameFits start dev exact f = rw (config-real_start dev.state dev) f
  real_perform-NameFits tick dev exact f = rw (config-real_tick dev dev.pnet_handle) f
  real_perform-NameFits stop dev exact f = stopped-NameFits dev dev.pnet_handle f
  real_perform-NameFits cleanup dev exact f = omega arith
  real_perform-NameFits (update_input bytes len) dev exact f =
      rw (config-real_update dev dev.pnet_handle bytes len) f
  real_perform-NameFits (read_output len) dev exact f =
      rw (config-real_read dev dev.pnet_handle len) f

  real_perform-perform :
      (c : Call) (dev : Device Net)
      → IsExact c
      → NameFits dev.config
      → real_perform real dev c ≡ perform (as_stack real) dev c
  unfolding real_perform perform io_device_start io_device_tick io_device_stop
      io_device_update_input io_device_read_output
  real_perform-perform (init cfg) dev exact f = refl
  real_perform-perform start dev exact f = real_start-same real dev.state dev f
  real_perform-perform tick dev exact f = real_tick-same real dev dev.pnet_handle
  real_perform-perform stop dev exact f =
      ap (λ (p : ℤ × Option (Device Net)). (p.0, held dev p.1))
        (real_stop-same real dev dev.pnet_handle)
  real_perform-perform cleanup dev exact f = refl
  real_perform-perform (update_input bytes len) dev exact f =
      real_update-same real dev dev.pnet_handle bytes len exact
  real_perform-perform (read_output len) dev exact f =
      ap (λ (p : Read × Device Net). (p.0.ret, p.1)) (real_read-same real dev dev.pnet_handle len)

  -- The build for the real p-net stack does to a device what the default build does, on the same stack
  -- seen through the default build's API: any sequence of calls leaves the same device, if the names
  -- of interfaces fit their 16 bytes and each update hands over as many bytes as it says.
  pub real_perform_all-perform_all :
      (cs : List Call) (dev : Device Net)
      → All IsExact cs
      → NameFits dev.config
      → real_perform_all real dev cs ≡ perform_all (as_stack real) dev cs
  unfolding real_perform_all perform_all
  real_perform_all-perform_all [] dev exact f = refl
  real_perform_all-perform_all (c ∷ cs) dev (exact, more) f =
      real_perform_all-perform_all cs (real_perform real dev c).1 more
        (real_perform-NameFits c dev exact f)
      ∙ ap (λ (p : ℤ × Device Net). perform_all (as_stack real) p.1 cs)
          (real_perform-perform c dev exact f)
