-- ===== src/Pnet/Real.antt =====
-- The API of the real p-net stack as src/app/io_device.c uses it under USE_REAL_PNET. The stack is a
-- git submodule: its calls are a parameter, and its types are what the program's code shows of them.
use pnet_driver_test.Prelude.{ℕ, ℤ, Bool, Option, List}
use pnet_driver_test.Text.Bytes.{Bytes}
use pnet_driver_test.Pnet.{Event, DeviceId, Im0, PnalCfg, Submodule, Output}

-- what a callback is called with, but for the pointers that no callback reads; a pointer that one
-- tests for NULL is an option
pub data RealIndication : Type 0 where
  state_ind : ℕ → Event → RealIndication
  connect_ind release_ind ccontrol_cnf alarm_cnf : ℕ → RealIndication
  dcontrol_ind : ℕ → ℤ → RealIndication
  -- AREP, api, slot, subslot, idx, sequence number, and for a write its length
  write_ind : ℕ → ℕ → ℕ → ℕ → ℕ → ℕ → ℕ → RealIndication
  read_ind : ℕ → ℕ → ℕ → ℕ → ℕ → ℕ → RealIndication
  exp_module_ind : ℕ → ℕ → ℕ → RealIndication
  -- direction, size of the input and size of the output come last
  exp_submodule_ind : ℕ → ℕ → ℕ → ℕ → ℕ → Option (ℤ × ℕ × ℕ) → RealIndication
  new_data_status_ind : ℕ → ℕ → ℕ → ℕ → RealIndication
  -- the slot, the subslot and the type stand in the argument
  alarm_ind : ℕ → Option (ℕ × ℕ × ℕ) → ℕ → ℕ → RealIndication
  alarm_ack_cnf : ℕ → ℤ → RealIndication
  reset_ind : Bool → ℕ → RealIndication
  signal_led_ind : Bool → RealIndication
  sm_released_ind : ℕ → ℕ → ℕ → ℕ → RealIndication

-- an address by its octets, the first one first
pub record IpAddr : Type 0 where
  pub a : ℕ
  pub b : ℕ
  pub c : ℕ
  pub d : ℕ

-- `if_cfg` with its `ip_cfg`
pub record RealIfCfg : Type 0 where
  pub main_netif_name : Bytes
  pub ip_addr : IpAddr
  pub ip_mask : IpAddr
  pub ip_gateway : IpAddr
  pub dhcp_enable : Bool

-- what `io_device_start` writes into `pnet_cfg_t`, without the callbacks
pub record RealCfg : Type 0 where
  pub tick_us : ℕ
  pub im_0_data : Im0
  pub device_id : DeviceId
  pub oem_device_id : DeviceId
  pub station_name : Bytes
  pub product_name : Bytes
  pub min_device_interval : ℕ
  pub pnal_cfg : PnalCfg
  pub send_hello : Bool
  pub num_physical_ports : ℕ
  pub use_qualified_diagnosis : Bool
  pub if_cfg : RealIfCfg
  pub file_directory : Bytes

-- The calls. `input_set` takes the number of bytes too, and `output_get` a flag for new data.
pub record RealStack : Type 1 where
  pub Net : Type 0
  pub init : RealCfg → Option Net
  pub plug_module : Net → ℕ → ℕ → ℕ → Net × ℤ
  pub plug_submodule : Net → Submodule → Net × ℤ
  pub periodic : Net → Net × List RealIndication
  pub factory_reset : Net → Net × ℤ
  pub input_set : Net → ℕ → ℕ → ℕ → List ℕ → ℕ → ℕ → Net × ℤ
  pub output_get : Net → ℕ → ℕ → ℕ → Bool → ℕ → Net × Output
