-- ===== src/Device/Run.antt =====
-- Sequences of calls on a device.
use pnet_driver_test.Prelude.{ℕ, ℤ, pos, true, some, List, [], ◌∷◌}
use pnet_driver_test.Pnet.{Stack}
use pnet_driver_test.Device.{DeviceCfg, Device, held}
use pnet_driver_test.Device.Start.{io_device_init, io_device_start}
use pnet_driver_test.Device.Calls.{
  io_device_tick, io_device_stop, io_device_cleanup, io_device_update_input, io_device_read_output,
}

-- one call of the program's interface
pub data Call : Type 0 where
  init : DeviceCfg → Call
  start tick stop cleanup : Call
  update_input : List ℕ → ℕ → Call
  read_output : ℕ → Call

module _ (stack : Stack) where
  open stack use {Net}

  unfoldable pub perform : Device Net → Call → ℤ × Device Net
  perform dev (init cfg) = let (r, d) = io_device_init (some dev) (some cfg) in (r, held dev d)
  perform dev start = let (r, d) = io_device_start stack (some dev) in (r, held dev d)
  perform dev tick = let (r, d) = io_device_tick stack (some dev) in (r, held dev d)
  perform dev stop = let (r, d) = io_device_stop stack (some dev) in (r, held dev d)
  perform dev cleanup = (pos 0, held dev (io_device_cleanup (some dev)))
  perform dev (update_input bytes len) =
      let (r, d) = io_device_update_input stack (some dev) (some bytes) len in (r, held dev d)
  perform dev (read_output len) =
      let (r, d) = io_device_read_output stack (some dev) true (some len) in (r.ret, held dev d)

  unfoldable pub perform_all : Device Net → List Call → Device Net
  perform_all dev [] = dev
  perform_all dev (c ∷ cs) = perform_all (perform dev c).1 cs
