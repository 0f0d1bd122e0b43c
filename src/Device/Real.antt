-- ===== src/Device/Real.antt =====
-- The branches of src/app/io_device.c for USE_REAL_PNET: the configuration, and the calls, over any
-- stack with the real API.
pub mod Callbacks
pub mod Same
pub mod Runs
pub mod Kept
use pnet_driver_test.Prelude.{
  ℕ, ◌+◌, ◌/◌, ◌%◌, ◌^◌, ℤ, pos, negsuc, true, false, Option, none, some, List, [], ◌∷◌, is_zero,
  ltb, if◌then◌else◌,
}
use pnet_driver_test.Address.{octet}
use pnet_driver_test.Text.Bytes.{codes}
use pnet_driver_test.Pnet.{DeviceId}
use pnet_driver_test.Pnet.Real.{IpAddr, RealCfg, RealStack}
use pnet_driver_test.Device.{
  DeviceCfg, State, initialized, connected, error, Device, held, safe_strncpy,
}
use pnet_driver_test.Device.Start.{io_device_init, dap_submodule, input_submodule, output_submodule}
use pnet_driver_test.Device.Calls.{
  memcpy, ioxs_good, io_device_cleanup, is_error, Read, no_read, cache_output,
}
use pnet_driver_test.Device.Run.{Call, init, start, tick, stop, cleanup, update_input, read_output}
use pnet_driver_test.Device.Real.Callbacks.{real_callbacks}

-- `(uint8_t)((ip >> 24) & 0xFF)` and on
abbrev pub ip_octets : ℕ → IpAddr
ip_octets ip = record { a = octet ip 24; b = octet ip 16; c = octet ip 8; d = octet ip 0 }

-- the identity in the fields whose names end in _hi and _lo
abbrev pub real_identity : DeviceCfg → DeviceId
real_identity cfg = record {
  vendor_id_high = cfg.vendor_id / 256 % 256;
  vendor_id_low = cfg.vendor_id % 256;
  device_id_high = cfg.device_id / 256 % 256;
  device_id_low = cfg.device_id % 256;
}

-- The structure that `io_device_start` fills. The pointer to the interface's name is read by the
-- stack while the device keeps it.
unfoldable pub real_config : DeviceCfg → RealCfg
unfolding safe_strncpy
real_config cfg = record {
  tick_us = cfg.tick_us;
  im_0_data = record {
    im_vendor_id_hi = (real_identity cfg).vendor_id_high;
    im_vendor_id_lo = (real_identity cfg).vendor_id_low;
    im_order_id = safe_strncpy (codes "PNET-IO-DEVICE") 21;
    im_serial_number = safe_strncpy (codes "00001") 17;
    im_hardware_revision = 1;
    im_sw_revision_prefix = b'V';
    im_sw_revision_functional_enhancement = 0;
    im_sw_revision_bug_fix = 1;
    im_sw_revision_internal_change = 0;
    im_revision_counter = 0;
    im_profile_id = 0;
    im_profile_specific_type = 0;
    im_version_major = 1;
    im_version_minor = 0;
    im_supported = 2;
  };
  device_id = real_identity cfg;
  oem_device_id = real_identity cfg;
  station_name = safe_strncpy cfg.station_name 241;
  product_name = safe_strncpy cfg.product_name 26;
  min_device_interval = 32;
  pnal_cfg = record {
    if_name = safe_strncpy cfg.interface_name 16;
    use_dhcp = false;
    ip_addr = cfg.ip_addr;
    netmask = cfg.netmask;
    gateway = cfg.gateway;
  };
  send_hello = cfg.send_hello;
  num_physical_ports = 1;
  use_qualified_diagnosis = false;
  if_cfg = record {
    main_netif_name = cfg.interface_name;
    ip_addr = ip_octets cfg.ip_addr;
    ip_mask = ip_octets cfg.netmask;
    ip_gateway = ip_octets cfg.gateway;
    dhcp_enable = false;
  };
  file_directory = safe_strncpy cfg.file_directory 240;
}

module _ (real : RealStack) where
  open real use {Net, plug_module, plug_submodule, periodic, factory_reset, input_set, output_get}

  -- `if (ret != 0) return ret;`, and on to the next call
  unfoldable pub real_unless_failed : Net × ℤ → (Net → Net × ℤ) → Net × ℤ
  real_unless_failed (net, ret) next = if is_zero ret then next net else (net, ret)

  unfoldable pub real_plug_all_modules : Net → Net × ℤ
  unfolding real_unless_failed
  real_plug_all_modules net = real_unless_failed (plug_module net 0 0 1) λ net.
      real_unless_failed (plug_submodule net (dap_submodule 0 1)) λ net.
        real_unless_failed (plug_submodule net (dap_submodule 0x8000 0x8000)) λ net.
          real_unless_failed (plug_submodule net (dap_submodule 0x8001 0x8001)) λ net.
            real_unless_failed (plug_module net 0 1 0x30) λ net.
              real_unless_failed (plug_submodule net input_submodule)
                λ net. real_unless_failed (plug_submodule net output_submodule) λ net. (net, pos 0)

  unfoldable pub real_after_plug : Device Net → Net × ℤ → ℤ × Device Net
  real_after_plug dev (net, ret) =
      if is_zero ret
      then (pos 0, record dev { pnet_handle = some net; state = connected })
      else (negsuc 0, record dev { pnet_handle = some net; state = error })

  unfoldable pub real_after_init : Device Net → Option Net → ℤ × Device Net
  unfolding real_after_plug real_plug_all_modules
  real_after_init dev none = (negsuc 0, record dev { pnet_handle = none; state = error })
  real_after_init dev (some net) = real_after_plug dev (real_plug_all_modules net)

  unfoldable pub real_start : State → Device Net → ℤ × Device Net
  unfolding real_after_init
  real_start initialized dev = real_after_init dev (real.init (real_config dev.config))
  real_start _ dev = (negsuc 0, dev)

  unfoldable pub real_tick : Device Net → Option Net → ℤ × Device Net
  real_tick dev none = (negsuc 0, dev)
  real_tick dev (some net) =
      if is_error dev.state
      then (negsuc 0, dev)
      else let (net', indications) = periodic net in
        let dev' = real_callbacks (record dev { pnet_handle = some net' }) indications in
        (pos 0, record dev' { cycle_count = (dev'.cycle_count + 1) % 2 ^ 64 })

  unfoldable pub real_stop : Device Net → Option Net → ℤ × Option (Device Net)
  real_stop dev none = (negsuc 0, some dev)
  real_stop dev (some net) =
      let (net', ret) = factory_reset net in
      (pos 0, io_device_cleanup (some (record dev { pnet_handle = some net' })))

  unfoldable pub real_update : Device Net → Option Net → List ℕ → ℕ → ℤ × Device Net
  real_update dev none bytes len = (negsuc 0, dev)
  real_update dev (some net) bytes len =
      if ltb 256 len
      then (negsuc 0, dev)
      else let (net', ret) = input_set net 0 1 1 bytes len ioxs_good in
        (
          ret,
          record dev {
            pnet_handle = some net';
            input_data = memcpy dev.input_data bytes len;
            input_size = len;
          },
        )

  unfoldable pub real_read : Device Net → Option Net → ℕ → Read × Device Net
  real_read dev none len = (no_read len, dev)
  real_read dev (some net) len =
      let (net', out) = output_get net 0 1 2 false len in
      cache_output (record dev { pnet_handle = some net' }) len out

  -- one call of the interface, on a device that is not NULL
  unfoldable pub real_perform : Device Net → Call → ℤ × Device Net
  unfolding real_start real_tick real_stop real_update real_read
  real_perform dev (init cfg) = let (r, d) = io_device_init (some dev) (some cfg) in (r, held dev d)
  real_perform dev start = real_start dev.state dev
  real_perform dev tick = real_tick dev dev.pnet_handle
  real_perform dev stop = let (r, d) = real_stop dev dev.pnet_handle in (r, held dev d)
  real_perform dev cleanup = (pos 0, held dev (io_device_cleanup (some dev)))
  real_perform dev (update_input bytes len) = real_update dev dev.pnet_handle bytes len
  real_perform dev (read_output len) = let (r, d) = real_read dev dev.pnet_handle len in (r.ret, d)

  unfoldable pub real_perform_all : Device Net → List Call → Device Net
  real_perform_all dev [] = dev
  real_perform_all dev (c ∷ cs) = real_perform_all (real_perform dev c).1 cs
