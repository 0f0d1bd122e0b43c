-- ===== src/Device/Real/Kept.antt =====
-- What holds of the default build's device, for the build with the real p-net stack.
use pnet_driver_test.Prelude.{List, All}
use pnet_driver_test.Pnet.Real.{RealStack}
use pnet_driver_test.Device.{Device}
use pnet_driver_test.Device.Lifecycle.{IsWell}
use pnet_driver_test.Device.Run.{Call}
use pnet_driver_test.Device.Invariant.{RespectsBuffer, IsFair, perform_all-IsWell}
use pnet_driver_test.Device.Real.{real_perform_all}
use pnet_driver_test.Device.Real.Same.{NameFits, IsExact, as_stack}
use pnet_driver_test.Device.Real.Runs.{real_perform_all-perform_all}

module _ (real : RealStack) where
  open real use {Net}

  -- A well-formed device is well-formed after any sequence of fair calls in the build with the real
  -- stack, if the stack puts no more bytes into a buffer than it is told to, the names of interfaces
  -- fit their 16 bytes and each update hands over as many bytes as it says.
  real_perform_all-IsWell :
      {dev : Device Net} (cs : List Call)
      → RespectsBuffer (as_stack real)
      → All IsFair cs
      → All IsExact cs
      → NameFits dev.config
      → IsWell dev
      → IsWell (real_perform_all real dev cs)
  real_perform_all-IsWell {dev} cs obeys fair exact fits v =
      rw (real_perform_all-perform_all real cs dev exact fits)
        (perform_all-IsWell (as_stack real) cs obeys fair v)
