-- ===== src/Device.antt =====
-- src/app/io_device.c with include/io_device.h: the device handle, the callbacks and the calls, over
-- any p-net stack. What the calls print to
-- stdout is left out, but for io_device_show.
pub mod Start
pub mod Calls
pub mod Lifecycle
pub mod Run
pub mod Real
pub mod Invariant
pub mod Mocked
pub mod Show
pub mod Plugging
use pnet_driver_test.Prelude.{
  ℕ, ◌-◌, ℤ, pos, Bool, true, false, Option, none, some, List, [], ◌∷◌, replicate, min, length,
  take,
}
use pnet_driver_test.Text.Bytes.{Bytes, codes}
use pnet_driver_test.Pnet.{
  Event, abort, startup, prmend, applrdy, data_exchange, Indication, state_ind, Stack,
}

-- `io_device_cfg_t`
pub record DeviceCfg : Type 0 where
  pub product_name : Bytes  -- char[26]
  pub station_name : Bytes  -- char[241]
  pub interface_name : Bytes  -- char[16]
  pub mac_addr : List ℕ  -- uint8_t[6]
  pub ip_addr : ℕ  -- uint32_t
  pub netmask : ℕ  -- uint32_t
  pub gateway : ℕ  -- uint32_t
  pub vendor_id : ℕ  -- uint16_t
  pub device_id : ℕ  -- uint16_t
  pub tick_us : ℕ  -- uint32_t
  pub send_hello : Bool
  pub file_directory : Bytes  -- char[240]

abbrev pub zero_cfg : DeviceCfg
zero_cfg = record {
  product_name = [];
  station_name = [];
  interface_name = [];
  mac_addr = replicate 6 0;
  ip_addr = 0;
  netmask = 0;
  gateway = 0;
  vendor_id = 0;
  device_id = 0;
  tick_us = 0;
  send_hello = false;
  file_directory = [];
}

pub data State : Type 0 where
  idle initialized connected running error : State

-- `io_device_t`, where `Net` is what `pnet_handle` points to
pub record Device (Net : Type 0) : Type 0 where
  pub config : DeviceCfg
  pub state : State
  pub pnet_handle : Option Net
  pub active_arep : ℕ  -- uint32_t
  pub cycle_count : ℕ  -- uint64_t
  pub error_count : ℕ  -- uint64_t
  pub input_data : List ℕ  -- uint8_t[256]
  pub output_data : List ℕ  -- uint8_t[256]
  pub input_size : ℕ  -- uint16_t
  pub output_size : ℕ  -- uint16_t

abbrev pub zero_buffer : List ℕ
zero_buffer = replicate 256 0

-- `memset(dev, 0, sizeof(io_device_t))`
abbrev pub zero_device : (Net : Type 0) → Device Net
zero_device Net = record {
  config = zero_cfg;
  state = idle;
  pnet_handle = none;
  active_arep = 0;
  cycle_count = 0;
  error_count = 0;
  input_data = zero_buffer;
  output_data = zero_buffer;
  input_size = 0;
  output_size = 0;
}

-- what stands behind the device pointer after a call on it
abbrev pub held : {Net : Type 0} → Device Net → Option (Device Net) → Device Net
held dev none = dev
held dev (some dev') = dev'

-- At most `dst_size - 1` bytes; nothing is written to a buffer of no size, which holds "" here.
unfoldable pub safe_strncpy : Bytes → ℕ → Bytes
safe_strncpy src dst_size = take (min (length src) (dst_size - 1)) src

unfoldable pub event_name : Event → Bytes
event_name abort = codes "ABORT"
event_name startup = codes "STARTUP"
event_name prmend = codes "PRMEND"
event_name applrdy = codes "APPLRDY"
event_name data_exchange = codes "DATA"

unfoldable pub io_device_state_str : State → Bytes
io_device_state_str idle = codes "IDLE"
io_device_state_str initialized = codes "INITIALIZED"
io_device_state_str connected = codes "CONNECTED"
io_device_state_str running = codes "RUNNING"
io_device_state_str error = codes "ERROR"

module _ {Net : Type 0} where
  unfoldable pub io_device_get_state : Option (Device Net) → State
  io_device_get_state none = error
  io_device_get_state (some dev) = dev.state

  -- The three tests of the callback in one: STARTUP stores the AREP, DATA runs, ABORT goes back.
  unfoldable pub app_state_ind_cb : Device Net → ℕ → Event → Device Net × ℤ
  app_state_ind_cb dev arep startup = (record dev { active_arep = arep }, pos 0)
  app_state_ind_cb dev arep data_exchange = (record dev { state = running }, pos 0)
  app_state_ind_cb dev arep abort = (record dev { state = connected; active_arep = 0 }, pos 0)
  app_state_ind_cb dev arep prmend = (dev, pos 0)
  app_state_ind_cb dev arep applrdy = (dev, pos 0)

  -- Every other callback prints its arguments and returns 0.
  unfoldable pub app_callback : Device Net → Indication → Device Net × ℤ
  unfolding app_state_ind_cb
  app_callback dev (state_ind arep event) = app_state_ind_cb dev arep event
  app_callback dev _ = (dev, pos 0)

  -- the callbacks of one call of the stack, in order; the stack has their results
  unfoldable pub app_callbacks : Device Net → List Indication → Device Net
  app_callbacks dev [] = dev
  app_callbacks dev (i ∷ is) = app_callbacks (app_callback dev i).0 is
