-- ===== src/Device/Plugging.antt =====
-- When a start succeeds, and what it has then plugged.
use pnet_driver_test.Prelude.{
  ◌≡◌, ◌≢◌, ◌⊎◌, inl, inr, refl, ℤ, pos, negsuc, is_zero, true, false, Option, none, some, List, [],
  ◌∷◌, Bool-cases,
}
use pnet_driver_test.Pnet.{Stack}
use pnet_driver_test.Device.{State, idle, initialized, connected, running, error, Device}
use pnet_driver_test.Device.Start.{
  io_device_start, start_in, after_init, after_plug, plug_all_modules, unless_failed, stack_config,
  dap_submodule, input_submodule, output_submodule,
}

module _ (stack : Stack) where
  open stack use {Net, init, plug_module, plug_submodule}

  abbrev Plug : Type 0
  Plug = Net → Net × ℤ

  -- the device's modules and submodules, in the order of their slots
  abbrev pub device_plugs : List Plug
  device_plugs =
      (λ net. plug_module net 0 0 1)
      ∷ (λ net. plug_submodule net (dap_submodule 0 1))
      ∷ (λ net. plug_submodule net (dap_submodule 0x8000 0x8000))
      ∷ (λ net. plug_submodule net (dap_submodule 0x8001 0x8001))
      ∷ (λ net. plug_module net 0 1 0x30)
      ∷ (λ net. plug_submodule net input_submodule)
      ∷ (λ net. plug_submodule net output_submodule)
      ∷ []

  -- every call succeeds, and leads from `net` to `net'`
  abbrev pub AllPlug : List Plug → Net → Net → Type 0
  AllPlug [] net net' = net' ≡ net
  AllPlug (plug ∷ plugs) net net' = (is_zero (plug net).1 ≡ true) × AllPlug plugs (plug net).0 net'

  -- some call fails, those before it succeed, and it leaves `net'`
  abbrev pub OneFails : List Plug → Net → Net → Type 0
  OneFails [] net net' = ⊥
  OneFails (plug ∷ plugs) net net' =
      ((is_zero (plug net).1 ≡ false) × (net' ≡ (plug net).0))
      ⊎ ((is_zero (plug net).1 ≡ true) × OneFails plugs (plug net).0 net')

  plug_each : List Plug → Net → Net × ℤ
  plug_each [] net = (net, pos 0)
  plug_each (plug ∷ plugs) net = unless_failed stack (plug net) (plug_each plugs)

  plug_all_modules-plug_each : (net : Net) → plug_all_modules stack net ≡ plug_each device_plugs net
  unfolding plug_all_modules plug_each unless_failed
  plug_all_modules-plug_each net = refl

  -- how plugging ends
  abbrev Plugged : List Plug → Net → Net × ℤ → Type 0
  Plugged plugs net (net', ret) =
      ((is_zero ret ≡ true) × AllPlug plugs net net')
      ⊎ ((is_zero ret ≡ false) × OneFails plugs net net')

  plug_each-Plugged : (plugs : List Plug) (net : Net) → Plugged plugs net (plug_each plugs net)
  unfolding plug_each unless_failed
  plug_each-Plugged [] net = inl (refl, refl)
  plug_each-Plugged (plug ∷ plugs) net = elim (Bool-cases (is_zero (plug net).1)) [
    | inl ok ↦ rw ok (elim (plug_each-Plugged plugs (plug net).0) [
      | inl (r, all) ↦ inl (r, (refl, all))
      | inr (r, fails) ↦ inr (r, inr (refl, fails))
    ])
    | inr failed ↦ rw failed (inr (failed, inl (refl, refl)))
  ]

  plug_all_modules-Plugged : (net : Net) → Plugged device_plugs net (plug_all_modules stack net)
  plug_all_modules-Plugged net =
      rw (plug_all_modules-plug_each net) (plug_each-Plugged device_plugs net)

  -- how a start of an initialized device can end
  abbrev pub StartEnds : Device Net → ℤ × Device Net → Type 0
  StartEnds dev (ret, dev') =
      ((init (stack_config dev.config) ≡ none)
        × (ret ≡ negsuc 0)
        × (dev' ≡ record dev { pnet_handle = none; state = error }))
      ⊎ ((net : Net) × (net' : Net) × (init (stack_config dev.config) ≡ some net)
          × (((AllPlug device_plugs net net')
                × (ret ≡ pos 0)
                × (dev' ≡ record dev { pnet_handle = some net'; state = connected }))
              ⊎ ((OneFails device_plugs net net')
                  × (ret ≡ negsuc 0)
                  × (dev' ≡ record dev { pnet_handle = some net'; state = error }))))

  after_init-StartEnds :
      (dev : Device Net) (o : Option Net)
      → init (stack_config dev.config) ≡ o
      → StartEnds dev (after_init stack dev o)
  unfolding after_init after_plug
  after_init-StartEnds dev none e = inl (e, refl, refl)
  after_init-StartEnds dev (some net) e =
      let (net', ret) = plug_all_modules stack net in
      elim (plug_all_modules-Plugged net) [
        | inl (r, all) ↦ rw r (inr (net, net', e, inl (all, refl, refl)))
        | inr (r, fails) ↦ rw r (inr (net, net', e, inr (fails, refl, refl)))
      ]

  start_in-StartEnds :
      (s : State) (dev : Device Net) → s ≡ initialized → StartEnds dev (start_in stack s dev)
  unfolding start_in
  start_in-StartEnds initialized dev e = after_init-StartEnds dev _ refl
  start_in-StartEnds idle dev e = absurd (cc e)
  start_in-StartEnds connected dev e = absurd (cc e)
  start_in-StartEnds running dev e = absurd (cc e)
  start_in-StartEnds error dev e = absurd (cc e)

  start_in_refused :
      (s : State) (dev : Device Net) → s ≢ initialized → start_in stack s dev ≡ (negsuc 0, dev)
  unfolding start_in
  start_in_refused initialized dev h = absurd (h refl)
  start_in_refused idle dev h = refl
  start_in_refused connected dev h = refl
  start_in_refused running dev h = refl
  start_in_refused error dev h = refl

  -- A start from the initialized state initializes the stack with the device's configuration and
  -- then plugs its modules and submodules in the order of their slots, up to the first that fails.
  -- It returns 0 and leaves the device connected exactly if the stack gives a handle and all seven
  -- calls succeed; otherwise it returns -1 and leaves the device in the error state, with the handle
  -- if there is one. All else of the device is as before. From any other state a start returns -1
  -- and changes nothing.
  pub io_device_start-StartEnds :
      (dev : Device Net)
      → (out : ℤ × Device Net) × (io_device_start stack (some dev) ≡ (out.0, some out.1))
        × (dev.state ≡ initialized → StartEnds dev out)
        × (dev.state ≢ initialized → out ≡ (negsuc 0, dev))
  unfolding io_device_start
  io_device_start-StartEnds dev = (
    start_in stack dev.state dev,
    refl,
    start_in-StartEnds dev.state dev,
    start_in_refused dev.state dev,
  )
