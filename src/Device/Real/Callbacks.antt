-- ===== src/Device/Real/Callbacks.antt =====
-- The callbacks of src/app/io_device.c under USE_REAL_PNET, with what they print.
use pnet_driver_test.Prelude.{ℕ, ℤ, pos, Bool, true, false, Option, none, some, List, [], ◌∷◌, ◌++◌}
use pnet_driver_test.Text.Bytes.{Bytes, codes}
use pnet_driver_test.Text.Print.{u, hex, say}
use pnet_driver_test.Text.Scan.{print_int}
use pnet_driver_test.Pnet.{Event, abort, startup, prmend, applrdy, data_exchange}
use pnet_driver_test.Pnet.Real.{
  RealIndication, state_ind, connect_ind, release_ind, dcontrol_ind, ccontrol_cnf, write_ind,
  read_ind, exp_module_ind, exp_submodule_ind, new_data_status_ind, alarm_ind, alarm_cnf,
  alarm_ack_cnf, reset_ind, signal_led_ind, sm_released_ind,
}
use pnet_driver_test.Device.{connected, running, Device, event_name}

-- what a callback's argument shows, and zeros for a NULL pointer
abbrev alarm_fields : Option (ℕ × ℕ × ℕ) → ℕ × ℕ × ℕ
alarm_fields none = (0, 0, 0)
alarm_fields (some fields) = fields

abbrev zero_one : Bool → Bytes
zero_one true = codes "1"
zero_one false = codes "0"

abbrev on_off : Bool → Bytes
on_off true = codes "ON"
on_off false = codes "OFF"

unfoldable pub expected_data : Option (ℤ × ℕ × ℕ) → Bytes
expected_data none = []
expected_data (some (direction, in_size, out_size)) = say (
    codes "[IO-DEVICE]   direction="
    ∷ print_int direction
    ∷ codes ", in_size="
    ∷ u in_size
    ∷ codes ", out_size="
    ∷ u out_size
    ∷ [])

-- what the callback prints
unfoldable pub real_callback_text : RealIndication → Bytes
real_callback_text (state_ind arep event) = say (
    codes "[IO-DEVICE] State event: "
    ∷ event_name event
    ∷ codes " (AREP="
    ∷ u arep
    ∷ codes ")"
    ∷ [])
real_callback_text (connect_ind arep) =
    say (codes "[IO-DEVICE] Connect indication (AREP=" ∷ u arep ∷ codes ")" ∷ [])
real_callback_text (release_ind arep) =
    say (codes "[IO-DEVICE] Release indication (AREP=" ∷ u arep ∷ codes ")" ∷ [])
real_callback_text (dcontrol_ind arep command) = say (
    codes "[IO-DEVICE] DControl indication (AREP="
    ∷ u arep
    ∷ codes ", cmd="
    ∷ print_int command
    ∷ codes ")"
    ∷ [])
real_callback_text (ccontrol_cnf arep) =
    say (codes "[IO-DEVICE] CControl confirmation (AREP=" ∷ u arep ∷ codes ")" ∷ [])
real_callback_text (write_ind arep api slot subslot idx sequence_number write_length) = say (
    codes "[IO-DEVICE] Write indication (AREP="
    ∷ u arep
    ∷ codes ", api="
    ∷ u api
    ∷ codes ", slot="
    ∷ u slot
    ∷ codes ", subslot="
    ∷ u subslot
    ∷ codes ", idx=0x"
    ∷ hex 4 idx
    ∷ codes ", seq="
    ∷ u sequence_number
    ∷ codes ", len="
    ∷ u write_length
    ∷ codes ")"
    ∷ [])
real_callback_text (read_ind arep api slot subslot idx sequence_number) = say (
    codes "[IO-DEVICE] Read indication (AREP="
    ∷ u arep
    ∷ codes ", api="
    ∷ u api
    ∷ codes ", slot="
    ∷ u slot
    ∷ codes ", subslot="
    ∷ u subslot
    ∷ codes ", idx=0x"
    ∷ hex 4 idx
    ∷ codes ", seq="
    ∷ u sequence_number
    ∷ codes ")"
    ∷ [])
real_callback_text (exp_module_ind api slot module_ident) = say (
    codes "[IO-DEVICE] Expected module indication (api="
    ∷ u api
    ∷ codes ", slot="
    ∷ u slot
    ∷ codes ", module_ident=0x"
    ∷ hex 8 module_ident
    ∷ codes ")"
    ∷ [])
real_callback_text (exp_submodule_ind api slot subslot module_ident submodule_ident expected) =
    say (
      codes "[IO-DEVICE] Expected submodule indication (api="
      ∷ u api
      ∷ codes ", slot="
      ∷ u slot
      ∷ codes ", subslot="
      ∷ u subslot
      ∷ codes ", mod=0x"
      ∷ hex 8 module_ident
      ∷ codes ", submod=0x"
      ∷ hex 8 submodule_ident
      ∷ codes ")"
      ∷ [])
    ++ expected_data expected
real_callback_text (new_data_status_ind arep crep changes data_status) = say (
    codes "[IO-DEVICE] New data status (AREP="
    ∷ u arep
    ∷ codes ", CREP="
    ∷ u crep
    ∷ codes ", changes=0x"
    ∷ hex 2 changes
    ∷ codes ", status=0x"
    ∷ hex 2 data_status
    ∷ codes ")"
    ∷ [])
real_callback_text (alarm_ind arep argument data_len data_usi) =
    let (slot, subslot, type) = alarm_fields argument in
    say (
      codes "[IO-DEVICE] Alarm indication (AREP="
      ∷ u arep
      ∷ codes ", slot="
      ∷ u slot
      ∷ codes ", subslot="
      ∷ u subslot
      ∷ codes ", type="
      ∷ u type
      ∷ codes ", data_usi=0x"
      ∷ hex 4 data_usi
      ∷ codes ", data_len="
      ∷ u data_len
      ∷ codes ")"
      ∷ [])
real_callback_text (alarm_cnf arep) =
    say (codes "[IO-DEVICE] Alarm confirmation (AREP=" ∷ u arep ∷ codes ")" ∷ [])
real_callback_text (alarm_ack_cnf arep res) = say (
    codes "[IO-DEVICE] Alarm ACK confirmation (AREP="
    ∷ u arep
    ∷ codes ", result="
    ∷ print_int res
    ∷ codes ")"
    ∷ [])
real_callback_text (reset_ind should_reset_application reset_mode) = say (
    codes "[IO-DEVICE] Reset indication (reset_app="
    ∷ zero_one should_reset_application
    ∷ codes ", mode="
    ∷ u reset_mode
    ∷ codes ")"
    ∷ [])
real_callback_text (signal_led_ind led_state) =
    say (codes "[IO-DEVICE] Signal LED: " ∷ on_off led_state ∷ [])
real_callback_text (sm_released_ind arep api slot subslot) = say (
    codes "[IO-DEVICE] Submodule released (AREP="
    ∷ u arep
    ∷ codes ", api="
    ∷ u api
    ∷ codes ", slot="
    ∷ u slot
    ∷ codes ", subslot="
    ∷ u subslot
    ∷ codes ")"
    ∷ [])

-- The three tests of the callback in turn.
unfoldable pub real_state_ind_cb : {Net : Type 0} → Device Net → ℕ → Event → Device Net × ℤ
real_state_ind_cb dev arep startup = (record dev { active_arep = arep }, pos 0)
real_state_ind_cb dev arep data_exchange = (record dev { state = running }, pos 0)
real_state_ind_cb dev arep abort = (record dev { state = connected; active_arep = 0 }, pos 0)
real_state_ind_cb dev arep prmend = (dev, pos 0)
real_state_ind_cb dev arep applrdy = (dev, pos 0)

-- the device behind a callback, the callback's result, and what it printed
unfoldable pub real_callback : {Net : Type 0} → Device Net → RealIndication → Device Net × ℤ × Bytes
unfolding real_state_ind_cb
real_callback dev (state_ind arep event) =
    let (dev', ret) = real_state_ind_cb dev arep event in
    (dev', ret, real_callback_text (state_ind arep event))
real_callback dev i = (dev, pos 0, real_callback_text i)

-- the callbacks of one call of the stack, in order
unfoldable pub real_callbacks : {Net : Type 0} → Device Net → List RealIndication → Device Net
real_callbacks dev [] = dev
real_callbacks dev (i ∷ is) = real_callbacks (real_callback dev i).0 is
