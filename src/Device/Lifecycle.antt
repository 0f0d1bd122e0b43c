-- ===== src/Device/Lifecycle.antt =====
-- The device over its life: what its states mean, and that a started device stays started.
use pnet_driver_test.Prelude.{
  ◌+◌, ◌%◌, ◌^◌, ◌≤◌, ◌≡◌, ap, ◌∙◌, ◌⊎◌, ◌≢◌, inl, inr, refl, ℤ, pos, negsuc, Option, none, some,
  List, [], ◌∷◌, arith, is_zero, length, Bool-cases,
}
use pnet_driver_test.Pnet.{Stack, Indication, state_ind, abort, startup, data_exchange}
use pnet_driver_test.Device.{
  State, idle, initialized, connected, running, error, Device, zero_device, app_callback,
  app_callbacks,
}
use pnet_driver_test.Device.Start.{
  io_device_start, start_in, after_init, after_plug, plug_all_modules, stack_config,
}
use pnet_driver_test.Device.Calls.{io_device_tick, tick_handle}

-- A state goes with a handle: none before the start, one while the device is live.
abbrev pub HandleFits : {Net : Type 0} → State → Option Net → Type 0
HandleFits idle (some net) = ⊥
HandleFits initialized (some net) = ⊥
HandleFits connected none = ⊥
HandleFits running none = ⊥
HandleFits _ _ = Unit

abbrev pub HasBuffers : {Net : Type 0} → Device Net → Type 0
HasBuffers dev =
    (length dev.input_data ≡ 256)
    × (length dev.output_data ≡ 256)
    × (dev.input_size ≤ 256)
    × (dev.output_size ≤ 256)

pub record IsWell {Net : Type 0} (dev : Device Net) : Type 0 where
  pub buffers : HasBuffers dev
  pub handle : HandleFits dev.state dev.pnet_handle

-- connected or running, with a handle
pub record IsLive {Net : Type 0} (dev : Device Net) : Type 0 where
  pub buffers : HasBuffers dev
  pub held : (net : Net) × (dev.pnet_handle ≡ some net)
  pub state : (dev.state ≡ connected) ⊎ (dev.state ≡ running)

HandleFits-live :
    {Net : Type 0} (s : State) (h : Option Net)
    → (net : Net) × (h ≡ some net)
    → (s ≡ connected) ⊎ (s ≡ running)
    → HandleFits s h
HandleFits-live connected (some net) h e = tt
HandleFits-live running (some net) h e = tt
HandleFits-live error (some net) h e = tt
HandleFits-live s none h e = cc (h.1)
HandleFits-live idle (some net) h e = ground arith
HandleFits-live initialized (some net) h e = ground arith

pub IsLive-IsWell : {Net : Type 0} {dev : Device Net} → IsLive dev → IsWell dev
IsLive-IsWell {Net} {dev} v = record {
  buffers = v.buffers;
  handle = HandleFits-live dev.state dev.pnet_handle v.held v.state;
}

pub zero_device-IsWell : (Net : Type 0) → IsWell (zero_device Net)
zero_device-IsWell Net = record { buffers = (refl, refl, omega arith, omega arith); handle = tt }

app_callback-IsLive :
    {Net : Type 0} (i : Indication) {dev : Device Net} → IsLive dev → IsLive (app_callback dev i).0
unfolding app_callback
app_callback-IsLive (state_ind arep abort) v = record {
  buffers = v.buffers;
  held = v.held;
  state = inl refl;
}
app_callback-IsLive (state_ind arep data_exchange) v = record {
  buffers = v.buffers;
  held = v.held;
  state = inr refl;
}
app_callback-IsLive (state_ind arep startup) v = record {
  buffers = v.buffers;
  held = v.held;
  state = v.state;
}
app_callback-IsLive (state_ind arep _) v = v
app_callback-IsLive _ v = v

app_callback_keep :
    {Net : Type 0} (i : Indication) (dev : Device Net)
    → let dev' = (app_callback dev i).0 in
      (dev'.cycle_count ≡ dev.cycle_count)
      × (dev'.error_count ≡ dev.error_count)
      × (dev'.config ≡ dev.config)
unfolding app_callback
app_callback_keep (state_ind arep abort) dev = (refl, refl, refl)
app_callback_keep (state_ind arep _) dev = (refl, refl, refl)
app_callback_keep _ dev = (refl, refl, refl)

app_callbacks-IsLive :
    {Net : Type 0} (is : List Indication) {dev : Device Net}
    → IsLive dev
    → IsLive (app_callbacks dev is)
unfolding app_callbacks
app_callbacks-IsLive [] v = v
app_callbacks-IsLive (i ∷ is) v = app_callbacks-IsLive is (app_callback-IsLive i v)

app_callbacks_keep :
    {Net : Type 0} (is : List Indication) (dev : Device Net)
    → let dev' = app_callbacks dev is in
      (dev'.cycle_count ≡ dev.cycle_count)
      × (dev'.error_count ≡ dev.error_count)
      × (dev'.config ≡ dev.config)
unfolding app_callbacks
app_callbacks_keep [] dev = (refl, refl, refl)
app_callbacks_keep (i ∷ is) dev =
    let (a, b, c) = app_callbacks_keep is (app_callback dev i).0 in
    let (a', b', c') = app_callback_keep i dev in (a ∙ a', b ∙ b', c ∙ c')

module _ (stack : Stack) where
  open stack use {Net, init, periodic, output_get}

  -- how a start from state `s` can end
  abbrev pub Started : Device Net → State → ℤ × Device Net → Type 0
  Started dev s (ret, dev') =
      ((ret ≡ pos 0)
        × (s ≡ initialized)
        × IsLive dev'
        × (dev'.state ≡ connected)
        × (dev'.config ≡ dev.config))
      ⊎ ((ret ≡ negsuc 0) × (s ≡ initialized) × (dev'.state ≡ error) × HasBuffers dev')
      ⊎ ((ret ≡ negsuc 0) × (s ≢ initialized) × (dev' ≡ dev))

  after_plug-Started :
      {dev : Device Net} (out : Net × ℤ)
      → HasBuffers dev
      → Started dev initialized (after_plug stack dev out)
  unfolding after_plug
  after_plug-Started (net, ret) v = elim (Bool-cases (is_zero ret)) [
    | inl plugged ↦
        rw plugged (
          inl
            (refl, refl, record { buffers = v; held = (net, refl); state = inl refl }, refl, refl))
    | inr failed ↦ rw failed (inr (inl (refl, refl, refl, v)))
  ]

  after_init-Started :
      {dev : Device Net} (o : Option Net)
      → HasBuffers dev
      → Started dev initialized (after_init stack dev o)
  unfolding after_init
  after_init-Started none v = inr (inl (refl, refl, refl, v))
  after_init-Started (some net) v = after_plug-Started (plug_all_modules stack net) v

  start_in-Started :
      {dev : Device Net} (s : State) → HasBuffers dev → Started dev s (start_in stack s dev)
  unfolding start_in
  start_in-Started {dev} initialized v = after_init-Started (init (stack_config dev.config)) v
  start_in-Started _ v = inr (inr (refl, (λ e. cc), refl))

  -- A start of a device with its buffers, from the initialized state, returns 0 and leaves the
  -- device connected, with a handle, or returns -1 and leaves it in the error state; from any other
  -- state it returns -1 and changes nothing.
  pub io_device_start_lem :
      {dev : Device Net}
      → HasBuffers dev
      → (out : ℤ × Device Net) × (io_device_start stack (some dev) ≡ (out.0, some out.1))
        × Started dev dev.state out
  unfolding io_device_start
  io_device_start_lem {dev} v = (start_in stack dev.state dev, refl, start_in-Started dev.state v)

  -- A tick of a live device returns 0, leaves it live, and counts the cycle modulo 2 ^ 64.
  pub io_device_tick-IsLive :
      {dev : Device Net}
      → IsLive dev
      → (dev' : Device Net) × (io_device_tick stack (some dev) ≡ (pos 0, some dev'))
        × IsLive dev'
        × (dev'.cycle_count ≡ (dev.cycle_count + 1) % 2 ^ 64)
        × (dev'.config ≡ dev.config)
        × (dev'.error_count ≡ dev.error_count)
  unfolding io_device_tick tick_handle
  io_device_tick-IsLive {dev} v =
      let (net, held) = v.held in
      let (net', is) = periodic net in
      let dev' = app_callbacks (record dev { pnet_handle = some net' }) is in
      let live : IsLive dev' =
        app_callbacks-IsLive is
          (record { buffers = v.buffers; held = (net', refl); state = v.state }) in
      let (cycles, errors, config) =
        app_callbacks_keep is (record dev { pnet_handle = some net' }) in
      (
        record dev' { cycle_count = (dev'.cycle_count + 1) % 2 ^ 64 },
        ground arith,
        record { buffers = live.buffers; held = live.held; state = live.state },
        ap (λ n. (n + 1) % 2 ^ 64) cycles,
        config,
        errors,
      )
