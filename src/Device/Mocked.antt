-- ===== src/Device/Mocked.antt =====
-- The device over the stack of tests/mock/pnet_api_mock.c, as the default build links it.
use pnet_driver_test.Prelude.{some, ◌≡◌, refl, pos, true, List, [], ◌∷◌, ◌++◌, map, replicate}
use pnet_driver_test.Pnet.{PnetCfg, Submodule}
use pnet_driver_test.Pnet.Mock.{
  MockSubmodule, MockNet, zero_submodule, mock_stack, pnet_init, pnet_plug_module,
  pnet_plug_submodule,
}
use pnet_driver_test.Device.{initialized, connected, Device}
use pnet_driver_test.Device.Start.{
  io_device_start, start_in, after_init, after_plug, stack_config, plug_all_modules, unless_failed,
  dap_submodule, input_submodule, output_submodule,
}

abbrev pub as_plugged : Submodule → MockSubmodule
as_plugged sub = record zero_submodule {
  plug = sub;
  input_iops = 0x80;
  output_iops = 0x80;
  plugged = true;
}

-- the five submodules of the device, in the order of their slots
abbrev pub device_submodules : List Submodule
device_submodules =
    dap_submodule 0 1
    ∷ dap_submodule 0x8000 0x8000
    ∷ dap_submodule 0x8001 0x8001
    ∷ input_submodule
    ∷ output_submodule
    ∷ []

-- the mock after the start
abbrev pub plugged_net : PnetCfg → MockNet
plugged_net cfg = record {
  cfg = cfg;
  initialized = true;
  primary = true;
  next_arep = 1;
  tick_count = 0;
  submodules = map as_plugged device_submodules ++ replicate 27 zero_submodule;
  submodule_count = 5;
}

-- the mock as `pnet_init` leaves it
abbrev pub fresh_net : PnetCfg → MockNet
fresh_net cfg = record {
  cfg = cfg;
  initialized = true;
  primary = true;
  next_arep = 1;
  tick_count = 0;
  submodules = replicate 32 zero_submodule;
  submodule_count = 0;
}

plug_all_modules_mock :
    (cfg : PnetCfg) → plug_all_modules (mock_stack true) (fresh_net cfg) ≡ (plugged_net cfg, pos 0)
unfolding plug_all_modules unless_failed pnet_plug_module pnet_plug_submodule
plug_all_modules_mock cfg = refl

-- A device started over the mock, from the initialized state.
abbrev pub started : Device MockNet → Device MockNet
started dev = record dev {
  pnet_handle = some (plugged_net (stack_config dev.config));
  state = connected;
}

-- Over the mock, an initialized device starts, whatever its configuration: the call returns 0, the
-- device is connected, and the mock holds the five submodules of the device, plugged, in the order
-- of their slots.
pub io_device_start_mock :
    (dev : Device MockNet)
    → dev.state ≡ initialized
    → io_device_start (mock_stack true) (some dev) ≡ (pos 0, some (started dev))
unfolding io_device_start start_in after_init after_plug pnet_init
io_device_start_mock dev e = rw (e, start_in) (rw (plug_all_modules_mock (stack_config dev.config)))
