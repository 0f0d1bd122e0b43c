-- ===== src/Tests/Device.antt =====
-- The device, over the mock and over a stack that always has data.
use pnet_driver_test.Prelude.{
  ◌≡◌, ◌≢◌, negsuc, refl, inl, ℤ, pos, some, List, [], ◌∷◌, arith, length-replicate, replicate,
}
use pnet_driver_test.Text.Bytes.{codes}
use pnet_driver_test.Pnet.{Stack, state_ind, data_exchange}
use pnet_driver_test.Device.{DeviceCfg, zero_cfg, initialized, connected, Device, zero_device, held}
use pnet_driver_test.Pnet.Mock.{MockNet, pnet_plug_submodule, pnet_input_set_data_and_iops}
use pnet_driver_test.Pnet.Mock.Pull.{pnet_pull_submodule}
use pnet_driver_test.Device.Start.{io_device_start, stack_config, input_submodule}
use pnet_driver_test.Device.Mocked.{fresh_net, started}
use pnet_driver_test.Device.Lifecycle.{IsWell, IsLive, zero_device-IsWell}
use pnet_driver_test.Device.Plugging.{StartEnds, io_device_start-StartEnds}
use pnet_driver_test.Device.Run.{
  Call, init, start, tick, stop, update_input, read_output, perform_all,
}
use pnet_driver_test.Device.Invariant.{RespectsBuffer, perform_all-IsWell}

-- a stack that accepts everything, hands over as many bytes as it is asked for, and has reached
-- data exchange at every tick
abbrev pub busy : Stack
busy = record {
  Net = Unit {0};
  init = λ cfg. some tt;
  plug_module = λ net api slot ident. (net, pos 0);
  plug_submodule = λ net sub. (net, pos 0);
  periodic = λ net. (net, state_ind 1 data_exchange ∷ []);
  factory_reset = λ net. (net, pos 0);
  input_set = λ net api slot subslot bytes iops. (net, pos 0);
  output_get = λ net api slot subslot len.
      (net, record { ret = pos 0; data_len = len; bytes = replicate len 7 });
}

busy-RespectsBuffer : RespectsBuffer busy
busy-RespectsBuffer net len read = (omega arith, length-replicate len 7)

abbrev pub cfg : DeviceCfg
cfg = record zero_cfg {
  interface_name = codes "eth0";
  station_name = codes "iodevice1";
  tick_us = 1000;
}

abbrev fresh : (Net : Type 0) → Device Net
fresh Net = record (zero_device Net) {
  config = cfg;
  state = initialized;
  input_size = 1;
  output_size = 1;
}

abbrev pub ready : Device (Unit {0})
ready = record (fresh (Unit {0})) { state = connected; pnet_handle = some tt }

ready-IsLive : IsLive ready
ready-IsLive = record {
  buffers = (refl, refl, omega arith, omega arith);
  held = (tt, refl);
  state = inl refl;
}

io_device_start-StartEnds_example :
    (out : ℤ × Device (Unit {0})) × (io_device_start busy (some (fresh (Unit {0})))
      ≡ (out.0, some out.1))
    × (initialized ≡ initialized → StartEnds busy (fresh (Unit {0})) out)
    × (initialized ≢ initialized → out ≡ (negsuc 0, fresh (Unit {0})))
io_device_start-StartEnds_example = io_device_start-StartEnds busy (fresh (Unit {0}))

abbrev on_mock : Device MockNet
on_mock = started (zero_device MockNet)

abbrev session : List Call
session = init cfg ∷ start ∷ tick ∷ update_input (5 ∷ []) 1 ∷ read_output 256 ∷ stop ∷ tick ∷ []

perform_all-IsWell_example : IsWell (perform_all busy (zero_device (Unit {0})) session)
perform_all-IsWell_example =
    perform_all-IsWell busy {dev = zero_device (Unit {0})} session busy-RespectsBuffer (omega arith)
      (zero_device-IsWell (Unit {0}))

-- the input submodule plugged and pulled, and both once more
abbrev pulled_twice : MockNet
pulled_twice =
    let plugged = (pnet_plug_submodule (fresh_net (stack_config cfg)) input_submodule).0 in
    let pulled = (pnet_pull_submodule plugged 0 1 1).0 in
    (pnet_pull_submodule (pnet_plug_submodule pulled input_submodule).0 0 1 1).0

-- The second pull meets the entry that the first one left, so the second submodule is still plugged.
still_plugged : (pnet_input_set_data_and_iops pulled_twice 0 1 1 (7 ∷ []) 0x80).1 ≡ pos 0
unfolding pnet_plug_submodule pnet_pull_submodule pnet_input_set_data_and_iops
still_plugged = refl
