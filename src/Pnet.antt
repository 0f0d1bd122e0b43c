-- ===== src/Pnet.antt =====
-- The p-net stack as src/app/io_device.c calls it, in the default build (USE_REAL_PNET off). The
-- program reaches it only through these calls, so the device takes them as a parameter; the stack
-- of tests/mock/pnet_api_mock.c, which that build links, is one value of it (Mock).
pub mod Mock
pub mod Real
pub mod Uptime
use pnet_driver_test.Prelude.{ℕ, ℤ, Bool, Option, List}
use pnet_driver_test.Text.Bytes.{Bytes}

pub data Event : Type 0 where
  abort startup prmend applrdy data_exchange : Event

pub data Direction : Type 0 where
  no_io input_only output_only input_output : Direction

-- `pnet_cfg_device_id_t`, each field a uint8_t
pub record DeviceId : Type 0 where
  pub vendor_id_high : ℕ
  pub vendor_id_low : ℕ
  pub device_id_high : ℕ
  pub device_id_low : ℕ

-- `pnet_im_0_t`
pub record Im0 : Type 0 where
  pub im_vendor_id_hi : ℕ
  pub im_vendor_id_lo : ℕ
  pub im_order_id : Bytes
  pub im_serial_number : Bytes
  pub im_hardware_revision : ℕ
  pub im_sw_revision_prefix : ℕ
  pub im_sw_revision_functional_enhancement : ℕ
  pub im_sw_revision_bug_fix : ℕ
  pub im_sw_revision_internal_change : ℕ
  pub im_revision_counter : ℕ
  pub im_profile_id : ℕ
  pub im_profile_specific_type : ℕ
  pub im_version_major : ℕ
  pub im_version_minor : ℕ
  pub im_supported : ℕ

-- `pnal_cfg_t`
pub record PnalCfg : Type 0 where
  pub if_name : Bytes
  pub use_dhcp : Bool
  pub ip_addr : ℕ
  pub netmask : ℕ
  pub gateway : ℕ

-- `pnet_cfg_t` without the callbacks, their argument and the records I&M1 to I&M4, which stay zero
pub record PnetCfg : Type 0 where
  pub tick_us : ℕ
  pub im_0_data : Im0
  pub device_id : DeviceId
  pub oem_device_id : DeviceId
  pub station_name : Bytes
  pub product_name : Bytes
  pub min_device_interval : ℕ
  pub pnal_cfg : PnalCfg
  pub send_hello : Bool
  pub num_physical_ports : ℕ
  pub use_qualified_diagnosis : Bool
  pub netif_name : Bytes
  pub eth_addr : List ℕ
  pub file_directory : Bytes

-- what the stack tells the application through a callback, with the arguments that it hands over
-- (but for the pointers to results and data, which no callback of the program reads or writes)
pub data Indication : Type 0 where
  state_ind : ℕ → Event → Indication
  connect_ind release_ind : ℕ → Indication
  dcontrol_ind ccontrol_cnf : ℕ → ℕ → Indication
  write_ind : ℕ → ℕ → ℕ → ℕ → ℕ → ℕ → Indication
  read_ind : ℕ → ℕ → ℕ → ℕ → ℕ → Indication
  exp_module_ind : ℕ → ℕ → ℕ → Indication
  exp_submodule_ind : ℕ → ℕ → ℕ → ℕ → ℕ → Indication
  new_data_status_ind : ℕ → ℕ → Indication
  alarm_ind : ℕ → ℕ → ℕ → ℕ → ℕ → Indication
  alarm_cnf alarm_ack_cnf : ℕ → Indication
  reset_ind : Bool → Indication
  signal_led_ind : Indication
  sm_released_ind : ℕ → ℕ → ℕ → ℕ → Indication

-- one call of `pnet_plug_submodule`
pub record Submodule : Type 0 where
  pub api : ℕ
  pub slot : ℕ
  pub subslot : ℕ
  pub module_ident : ℕ
  pub submodule_ident : ℕ
  pub direction : Direction
  pub length_input : ℕ
  pub length_output : ℕ

-- the result of `pnet_output_get_data_and_iops`: its value, and `*data_len` bytes of data
pub record Output : Type 0 where
  pub ret : ℤ
  pub data_len : ℕ
  pub bytes : List ℕ

-- The calls. `Net` is the stack behind a `pnet_t *`. Callbacks run inside `periodic` only: it hands
-- them over in order.
pub record Stack : Type 1 where
  pub Net : Type 0
  pub init : PnetCfg → Option Net
  pub plug_module : Net → ℕ → ℕ → ℕ → Net × ℤ
  pub plug_submodule : Net → Submodule → Net × ℤ
  pub periodic : Net → Net × List Indication
  pub factory_reset : Net → Net × ℤ
  pub input_set : Net → ℕ → ℕ → ℕ → List ℕ → ℕ → Net × ℤ
  pub output_get : Net → ℕ → ℕ → ℕ → ℕ → Net × Output
