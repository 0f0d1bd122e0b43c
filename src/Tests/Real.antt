-- ===== src/Tests/Real.antt =====
-- The build with the real p-net stack, on a stack that accepts everything.
use pnet_driver_test.Prelude.{◌≡◌, refl, pos, none, some, List, [], ◌∷◌, arith, replicate}
use pnet_driver_test.Pnet.{data_exchange}
use pnet_driver_test.Pnet.Real.{RealStack, state_ind, alarm_ind}
use pnet_driver_test.Device.{zero_device}
use pnet_driver_test.Device.Run.{
  Call, init, start, tick, stop, update_input, read_output, perform_all,
}
use pnet_driver_test.Device.Real.{real_perform_all}
use pnet_driver_test.Device.Real.Same.{as_stack}
use pnet_driver_test.Device.Real.Runs.{real_perform_all-perform_all}
use pnet_driver_test.Tests.Device.{cfg}

abbrev willing : RealStack
willing = record {
  Net = Unit {0};
  init = λ c. some tt;
  plug_module = λ net api slot ident. (net, pos 0);
  plug_submodule = λ net sub. (net, pos 0);
  periodic = λ net. (net, alarm_ind 1 none 4 0 ∷ state_ind 1 data_exchange ∷ []);
  factory_reset = λ net. (net, pos 0);
  input_set = λ net api slot subslot bytes len iops. (net, pos 0);
  output_get = λ net api slot subslot new_flag len.
      (net, record { ret = pos 0; data_len = len; bytes = replicate len 7 });
}

abbrev calls : List Call
calls = init cfg ∷ start ∷ tick ∷ update_input (9 ∷ []) 1 ∷ read_output 1 ∷ tick ∷ stop ∷ []

real_perform_all-perform_all_example :
    real_perform_all willing (zero_device (Unit {0})) calls
    ≡ perform_all (as_stack willing) (zero_device (Unit {0})) calls
real_perform_all-perform_all_example =
    real_perform_all-perform_all willing calls (zero_device (Unit {0}))
      (omega arith, (tt, (tt, (refl, (tt, (tt, (tt, tt))))))) (omega arith)
