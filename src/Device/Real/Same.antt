-- ===== src/Device/Real/Same.antt =====
-- The build with the real p-net stack and the default build: a real stack seen through the default
-- build's API, on which the default build does what the other does on the real stack.
use pnet_driver_test.Prelude.{
  ℕ, ◌+◌, ◌/◌, ◌%◌, ◌^◌, ltb, ◌<◌, ◌≡◌, refl, sym, ap, ◌∙◌, ℤ, pos, negsuc, false, Option, none,
  some, List, [], ◌∷◌, arith, length, map, min, take, take_all, if◌then◌else◌,
}
use pnet_driver_test.Pnet.{
  Event, abort, startup, prmend, applrdy, data_exchange, Indication, PnetCfg, Stack,
}
use pnet_driver_test.Pnet.Real.{RealIndication, IpAddr, RealCfg, RealStack}
use pnet_driver_test.Device.{
  DeviceCfg, State, idle, initialized, connected, running, error, Device, safe_strncpy,
  app_state_ind_cb, app_callback, app_callbacks,
}
use pnet_driver_test.Device.Start.{
  stack_config, device_identity, start_in, after_init, after_plug, plug_all_modules, unless_failed,
}
use pnet_driver_test.Device.Calls.{
  tick_handle, stop_handle, update_handle, read_handle, is_error, ioxs_good, memcpy,
}
use pnet_driver_test.Device.Run.{Call, init, update_input}
use pnet_driver_test.Device.Real.{
  real_config, real_unless_failed, real_plug_all_modules, real_after_plug, real_after_init,
  real_start, real_tick, real_stop, real_update, real_read,
}
use pnet_driver_test.Device.Real.Callbacks.{real_state_ind_cb, real_callback, real_callbacks}

-- the arguments that the default build's callbacks are called with
abbrev as_indication : RealIndication → Indication
as_indication (RealIndication.state_ind arep event) = Indication.state_ind arep event
as_indication (RealIndication.connect_ind arep) = Indication.connect_ind arep
as_indication (RealIndication.release_ind arep) = Indication.release_ind arep
as_indication (RealIndication.dcontrol_ind arep command) = Indication.dcontrol_ind arep 0
as_indication (RealIndication.ccontrol_cnf arep) = Indication.ccontrol_cnf arep 0
as_indication (RealIndication.write_ind arep api slot subslot idx seq len) =
    Indication.write_ind arep api slot subslot idx len
as_indication (RealIndication.read_ind arep api slot subslot idx seq) =
    Indication.read_ind arep api slot subslot idx
as_indication (RealIndication.exp_module_ind api slot ident) =
    Indication.exp_module_ind api slot ident
as_indication (RealIndication.exp_submodule_ind api slot subslot m s expected) =
    Indication.exp_submodule_ind api slot subslot m s
as_indication (RealIndication.new_data_status_ind arep crep changes status) =
    Indication.new_data_status_ind arep changes
as_indication (RealIndication.alarm_ind arep none len usi) = Indication.alarm_ind arep 0 0 0 len
as_indication (RealIndication.alarm_ind arep (some (slot, subslot, type)) len usi) =
    Indication.alarm_ind arep 0 slot subslot len
as_indication (RealIndication.alarm_cnf arep) = Indication.alarm_cnf arep
as_indication (RealIndication.alarm_ack_cnf arep res) = Indication.alarm_ack_cnf arep
as_indication (RealIndication.reset_ind should_reset mode) = Indication.reset_ind should_reset
as_indication (RealIndication.signal_led_ind led_state) = Indication.signal_led_ind
as_indication (RealIndication.sm_released_ind arep api slot subslot) =
    Indication.sm_released_ind arep api slot subslot

-- the octets of an address, from the highest byte down
abbrev octets : ℕ → IpAddr
octets ip = record {
  a = ip / 2 ^ 24 % 256;
  b = ip / 2 ^ 16 % 256;
  c = ip / 2 ^ 8 % 256;
  d = ip / 2 ^ 0 % 256;
}

-- the configuration of the real stack that one of the default build stands for
abbrev as_real : PnetCfg → RealCfg
as_real c = record {
  tick_us = c.tick_us;
  im_0_data = c.im_0_data;
  device_id = c.device_id;
  oem_device_id = c.oem_device_id;
  station_name = c.station_name;
  product_name = c.product_name;
  min_device_interval = c.min_device_interval;
  pnal_cfg = c.pnal_cfg;
  send_hello = c.send_hello;
  num_physical_ports = c.num_physical_ports;
  use_qualified_diagnosis = c.use_qualified_diagnosis;
  if_cfg = record {
    main_netif_name = c.netif_name;
    ip_addr = octets c.pnal_cfg.ip_addr;
    ip_mask = octets c.pnal_cfg.netmask;
    ip_gateway = octets c.pnal_cfg.gateway;
    dhcp_enable = c.pnal_cfg.use_dhcp;
  };
  file_directory = c.file_directory;
}

abbrev with_indications : {A : Type 0} → A × List RealIndication → A × List Indication
with_indications (net, is) = (net, map as_indication is)

-- a real stack as the default build calls it
abbrev pub as_stack : RealStack → Stack
as_stack real = record {
  Net = real.Net;
  init = λ c. real.init (as_real c);
  plug_module = real.plug_module;
  plug_submodule = real.plug_submodule;
  periodic = λ net. with_indications (real.periodic net);
  factory_reset = real.factory_reset;
  input_set = λ net api slot subslot bytes iops.
      real.input_set net api slot subslot bytes (length bytes) iops;
  output_get = λ net api slot subslot len. real.output_get net api slot subslot false len;
}

-- the interface's name fits its 16 bytes
abbrev pub NameFits : DeviceCfg → Type 0
NameFits cfg = length cfg.interface_name < 16

-- what the caller owes: a name that fits, and a length that is that of the data
abbrev pub IsExact : Call → Type 0
IsExact (init cfg) = NameFits cfg
IsExact (update_input bytes len) = len ≡ length bytes
IsExact _ = Unit

real_config-same : (cfg : DeviceCfg) → NameFits cfg → real_config cfg ≡ as_real (stack_config cfg)
unfolding real_config stack_config device_identity safe_strncpy
real_config-same cfg h =
    let fits : cfg.interface_name ≡ take (min (length cfg.interface_name) 15) cfg.interface_name =
      sym (take_all (min (length cfg.interface_name) 15) cfg.interface_name (omega arith)) in
    let base = real_config cfg in
    ap (λ n. record base { if_cfg = record base.if_cfg { main_netif_name = n } }) fits

module _ {Net : Type 0} where
  real_state_ind_cb-same :
      (dev : Device Net) (arep : ℕ) (event : Event)
      → real_state_ind_cb dev arep event ≡ app_state_ind_cb dev arep event
  unfolding real_state_ind_cb app_state_ind_cb
  real_state_ind_cb-same dev arep startup = refl
  real_state_ind_cb-same dev arep data_exchange = refl
  real_state_ind_cb-same dev arep abort = refl
  real_state_ind_cb-same dev arep prmend = refl
  real_state_ind_cb-same dev arep applrdy = refl

  real_callback-same :
      (dev : Device Net) (i : RealIndication)
      → (real_callback dev i).0 ≡ (app_callback dev (as_indication i)).0
  unfolding real_callback app_callback
  real_callback-same dev (RealIndication.state_ind arep event) =
      ap (λ (r : Device Net × ℤ). r.0) (real_state_ind_cb-same dev arep event)
  real_callback-same dev (RealIndication.alarm_ind arep none len usi) = refl
  real_callback-same dev (RealIndication.alarm_ind arep (some _) len usi) = refl
  real_callback-same dev _ = refl

  real_callbacks-same :
      (is : List RealIndication) (dev : Device Net)
      → real_callbacks dev is ≡ app_callbacks dev (map as_indication is)
  unfolding real_callbacks app_callbacks
  real_callbacks-same [] dev = refl
  real_callbacks-same (i ∷ is) dev =
      real_callbacks-same is (real_callback dev i).0
      ∙ ap (λ d. app_callbacks d (map as_indication is)) (real_callback-same dev i)

module _ (real : RealStack) where
  open real use {Net}

  pub real_tick-same :
      (dev : Device Net) (h : Option Net) → real_tick real dev h ≡ tick_handle (as_stack real) dev h
  unfolding real_tick tick_handle
  real_tick-same dev none = refl
  real_tick-same dev (some net) =
      let (net', is) = real.periodic net in
      let dev' : Device Net = record dev { pnet_handle = some net' } in
      ap
        (λ (d : Device Net).
          if◌then◌else◌ {A = ℤ × Device Net} (is_error dev.state) (negsuc 0, dev)
            (pos 0, record d { cycle_count = (d.cycle_count + 1) % 2 ^ 64 }))
        (real_callbacks-same is dev')

  real_after_init-same :
      (dev : Device Net) (o : Option Net)
      → real_after_init real dev o ≡ after_init (as_stack real) dev o
  unfolding real_after_init after_init real_after_plug after_plug real_plug_all_modules
      plug_all_modules real_unless_failed unless_failed
  real_after_init-same dev none = refl
  real_after_init-same dev (some net) = refl

  pub real_start-same :
      (s : State) (dev : Device Net)
      → NameFits dev.config
      → real_start real s dev ≡ start_in (as_stack real) s dev
  unfolding real_start start_in
  real_start-same initialized dev h =
      ap (λ c. real_after_init real dev (real.init c)) (real_config-same dev.config h)
      ∙ real_after_init-same dev _
  real_start-same idle dev h = refl
  real_start-same connected dev h = refl
  real_start-same running dev h = refl
  real_start-same error dev h = refl

  pub real_stop-same :
      (dev : Device Net) (h : Option Net) → real_stop real dev h ≡ stop_handle (as_stack real) dev h
  unfolding real_stop stop_handle
  real_stop-same dev none = refl
  real_stop-same dev (some net) = refl

  pub real_update-same :
      (dev : Device Net) (h : Option Net) (bytes : List ℕ) (len : ℕ)
      → len ≡ length bytes
      → real_update real dev h bytes len ≡ update_handle (as_stack real) dev h bytes len
  unfolding real_update update_handle
  real_update-same dev none bytes len e = refl
  real_update-same dev (some net) bytes len e =
      ap
        (λ n.
          let (net', ret) = real.input_set net 0 1 1 bytes n ioxs_good in
          if◌then◌else◌ {A = ℤ × Device Net} (ltb 256 len) (negsuc 0, dev)
            (
              ret,
              record dev {
                pnet_handle = some net';
                input_data = memcpy dev.input_data bytes len;
                input_size = len;
              },
            ))
        e

  pub real_read-same :
      (dev : Device Net) (h : Option Net) (len : ℕ)
      → real_read real dev h len ≡ read_handle (as_stack real) dev h len
  unfolding real_read read_handle
  real_read-same dev none len = refl
  real_read-same dev (some net) len = refl
