-- ===== src/Device/Calls.antt =====
-- The calls on a started device: tick, stop, cleanup and the data exchange.
use pnet_driver_test.Prelude.{
  ℕ, ◌+◌, ◌%◌, ◌^◌, ℤ, pos, negsuc, Bool, true, false, Option, none, some, List, [], ◌++◌, is_zero,
  ltb, if◌then◌else◌, take, drop,
}
use pnet_driver_test.Pnet.{Stack, Output}
use pnet_driver_test.Device.{State, error, Device, zero_device, app_callbacks}

-- PNET_IOXS_GOOD
abbrev pub ioxs_good : ℕ
ioxs_good = 0x80

-- `memcpy(dst, src, n)` into a buffer: its new bytes. A copy past the buffer's end makes it longer.
abbrev pub memcpy : List ℕ → List ℕ → ℕ → List ℕ
memcpy dst src n = take n src ++ drop n dst

unfoldable pub io_device_cleanup : {Net : Type 0} → Option (Device Net) → Option (Device Net)
io_device_cleanup none = none
io_device_cleanup {Net} (some dev) = some (zero_device Net)

abbrev pub is_error : State → Bool
is_error error = true
is_error _ = false

-- what the caller finds: the result, `*len`, and the bytes read
pub record Read : Type 0 where
  pub ret : ℤ
  pub len : ℕ
  pub bytes : List ℕ

abbrev pub no_read : ℕ → Read
no_read len = record { ret = negsuc 0; len = len; bytes = [] }

unfoldable pub cache_output : {Net : Type 0} → Device Net → ℕ → Output → Read × Device Net
cache_output dev len out =
    if is_zero out.ret
    then (
      record { ret = out.ret; len = out.data_len; bytes = out.bytes },
      record dev {
        output_data = memcpy dev.output_data out.bytes out.data_len;
        output_size = out.data_len;
      },
    )
    else (record { ret = out.ret; len = len; bytes = out.bytes }, dev)

module _ (stack : Stack) where
  open stack use {Net, periodic, factory_reset, input_set, output_get}

  unfoldable pub tick_handle : Device Net → Option Net → ℤ × Device Net
  tick_handle dev none = (negsuc 0, dev)
  tick_handle dev (some net) =
      if is_error dev.state
      then (negsuc 0, dev)
      else let (net', indications) = periodic net in
        let dev' = app_callbacks (record dev { pnet_handle = some net' }) indications in
        (pos 0, record dev' { cycle_count = (dev'.cycle_count + 1) % 2 ^ 64 })

  unfoldable pub io_device_tick : Option (Device Net) → ℤ × Option (Device Net)
  io_device_tick none = (negsuc 0, none)
  io_device_tick (some dev) = let (ret, dev') = tick_handle dev dev.pnet_handle in (ret, some dev')

  unfoldable pub stop_handle : Device Net → Option Net → ℤ × Option (Device Net)
  stop_handle dev none = (negsuc 0, some dev)
  stop_handle dev (some net) =
      let (net', ret) = factory_reset net in
      (pos 0, io_device_cleanup (some (record dev { pnet_handle = some net' })))

  -- The result of the factory reset is printed only.
  unfoldable pub io_device_stop : Option (Device Net) → ℤ × Option (Device Net)
  io_device_stop none = (negsuc 0, none)
  io_device_stop (some dev) = stop_handle dev dev.pnet_handle

  unfoldable pub update_handle : Device Net → Option Net → List ℕ → ℕ → ℤ × Device Net
  update_handle dev none bytes len = (negsuc 0, dev)
  update_handle dev (some net) bytes len =
      if ltb 256 len
      then (negsuc 0, dev)
      else let (net', ret) = input_set net 0 1 1 bytes ioxs_good in
        (
          ret,
          record dev {
            pnet_handle = some net';
            input_data = memcpy dev.input_data bytes len;
            input_size = len;
          },
        )

  -- `bytes` are those that `data` points to, `none` for NULL
  unfoldable pub io_device_update_input :
      Option (Device Net) → Option (List ℕ) → ℕ → ℤ × Option (Device Net)
  io_device_update_input none bytes len = (negsuc 0, none)
  io_device_update_input (some dev) none len = (negsuc 0, some dev)
  io_device_update_input (some dev) (some bytes) len =
      let (ret, dev') = update_handle dev dev.pnet_handle bytes len in (ret, some dev')

  unfoldable pub read_handle : Device Net → Option Net → ℕ → Read × Device Net
  read_handle dev none len = (no_read len, dev)
  read_handle dev (some net) len =
      let (net', out) = output_get net 0 1 2 len in
      cache_output (record dev { pnet_handle = some net' }) len out

  -- `buffer` is `true` for a `data` that is not NULL, and `len` is `none` for a NULL pointer
  unfoldable pub io_device_read_output :
      Option (Device Net) → Bool → Option ℕ → Read × Option (Device Net)
  io_device_read_output none buffer len = (no_read 0, none)
  io_device_read_output (some dev) buffer none = (no_read 0, some dev)
  io_device_read_output (some dev) false (some len) = (no_read len, some dev)
  io_device_read_output (some dev) true (some len) =
      let (r, dev') = read_handle dev dev.pnet_handle len in (r, some dev')
