-- ===== src/Device/Start.antt =====
-- `io_device_init`, `io_device_start` and `plug_all_modules`.
use pnet_driver_test.Prelude.{
  ℕ, ◌/◌, ◌%◌, ℤ, pos, negsuc, false, Option, none, some, is_zero, if◌then◌else◌,
}
use pnet_driver_test.Text.Bytes.{codes}
use pnet_driver_test.Pnet.{no_io, input_only, output_only, DeviceId, PnetCfg, Submodule, Stack}
use pnet_driver_test.Device.{
  DeviceCfg, State, initialized, connected, error, Device, zero_buffer, safe_strncpy,
}

module _ {Net : Type 0} where
  init_device : Device Net → DeviceCfg → Device Net
  init_device dev cfg = record dev {
    config = cfg;
    state = initialized;
    pnet_handle = none;
    active_arep = 0;
    cycle_count = 0;
    error_count = 0;
    input_size = 1;
    output_size = 1;
    input_data = zero_buffer;
    output_data = zero_buffer;
  }

  -- A pointer argument is an `Option`, `none` for NULL; the device is what stands there afterwards.
  unfoldable pub io_device_init : Option (Device Net) → Option DeviceCfg → ℤ × Option (Device Net)
  unfolding init_device
  io_device_init none cfg = (negsuc 0, none)
  io_device_init (some dev) none = (negsuc 0, some dev)
  io_device_init (some dev) (some cfg) = (pos 0, some (init_device dev cfg))

-- `(uint8_t)(id >> 8)` and `(uint8_t)(id & 0xFF)`
unfoldable pub device_identity : DeviceCfg → DeviceId
device_identity cfg = record {
  vendor_id_high = cfg.vendor_id / 256 % 256;
  vendor_id_low = cfg.vendor_id % 256;
  device_id_high = cfg.device_id / 256 % 256;
  device_id_low = cfg.device_id % 256;
}

-- the structure that `io_device_start` fills (the branch of the mock API)
unfoldable pub stack_config : DeviceCfg → PnetCfg
unfolding device_identity safe_strncpy
stack_config cfg = record {
  tick_us = cfg.tick_us;
  im_0_data = record {
    im_vendor_id_hi = (device_identity cfg).vendor_id_high;
    im_vendor_id_lo = (device_identity cfg).vendor_id_low;
    im_order_id = safe_strncpy (codes "PNET-IO-DEVICE") 21;
    im_serial_number = safe_strncpy (codes "00001") 17;
    im_hardware_revision = 1;
    im_sw_revision_prefix = b'V';
    im_sw_revision_functional_enhancement = 0;
    im_sw_revision_bug_fix = 1;
    im_sw_revision_internal_change = 0;
    im_revision_counter = 0;
    im_profile_id = 0;
    im_profile_specific_type = 0;
    im_version_major = 1;
    im_version_minor = 0;
    im_supported = 2;
  };
  device_id = device_identity cfg;
  oem_device_id = device_identity cfg;
  station_name = safe_strncpy cfg.station_name 241;
  product_name = safe_strncpy cfg.product_name 26;
  min_device_interval = 32;
  pnal_cfg = record {
    if_name = safe_strncpy cfg.interface_name 16;
    use_dhcp = false;
    ip_addr = cfg.ip_addr;
    netmask = cfg.netmask;
    gateway = cfg.gateway;
  };
  send_hello = cfg.send_hello;
  num_physical_ports = 1;
  use_qualified_diagnosis = false;
  netif_name = safe_strncpy cfg.interface_name 16;
  eth_addr = cfg.mac_addr;
  file_directory = safe_strncpy cfg.file_directory 240;
}

-- the arguments of the calls of `pnet_plug_submodule`
abbrev pub dap_submodule : ℕ → ℕ → Submodule
dap_submodule subslot ident = record {
  api = 0;
  slot = 0;
  subslot = subslot;
  module_ident = 1;
  submodule_ident = ident;
  direction = no_io;
  length_input = 0;
  length_output = 0;
}

abbrev pub input_submodule : Submodule
input_submodule = record {
  api = 0;
  slot = 1;
  subslot = 1;
  module_ident = 0x30;
  submodule_ident = 0x31;
  direction = input_only;
  length_input = 1;
  length_output = 0;
}

abbrev pub output_submodule : Submodule
output_submodule = record {
  api = 0;
  slot = 1;
  subslot = 2;
  module_ident = 0x30;
  submodule_ident = 0x32;
  direction = output_only;
  length_input = 0;
  length_output = 1;
}

module _ (stack : Stack) where
  open stack use {Net, init, plug_module, plug_submodule}

  -- `if (ret != 0) return ret;`, and on to the next call
  unfoldable pub unless_failed : Net × ℤ → (Net → Net × ℤ) → Net × ℤ
  unless_failed (net, ret) next = if is_zero ret then next net else (net, ret)

  unfoldable pub plug_all_modules : Net → Net × ℤ
  unfolding unless_failed
  plug_all_modules net = unless_failed (plug_module net 0 0 1) λ net.
      unless_failed (plug_submodule net (dap_submodule 0 1)) λ net.
        unless_failed (plug_submodule net (dap_submodule 0x8000 0x8000)) λ net.
          unless_failed (plug_submodule net (dap_submodule 0x8001 0x8001)) λ net.
            unless_failed (plug_module net 0 1 0x30) λ net.
              unless_failed (plug_submodule net input_submodule)
                λ net. unless_failed (plug_submodule net output_submodule) λ net. (net, pos 0)

  -- after `pnet_init`; `plugged` is what `plug_all_modules` came to
  unfoldable pub after_plug : Device Net → Net × ℤ → ℤ × Device Net
  after_plug dev (net, ret) =
      if is_zero ret
      then (pos 0, record dev { pnet_handle = some net; state = connected })
      else (negsuc 0, record dev { pnet_handle = some net; state = error })

  unfoldable pub after_init : Device Net → Option Net → ℤ × Device Net
  after_init dev none = (negsuc 0, record dev { pnet_handle = none; state = error })
  after_init dev (some net) = after_plug dev (plug_all_modules net)

  unfoldable pub start_in : State → Device Net → ℤ × Device Net
  start_in initialized dev = after_init dev (init (stack_config dev.config))
  start_in _ dev = (negsuc 0, dev)

  unfoldable pub io_device_start : Option (Device Net) → ℤ × Option (Device Net)
  io_device_start none = (negsuc 0, none)
  io_device_start (some dev) = let (ret, dev') = start_in dev.state dev in (ret, some dev')
