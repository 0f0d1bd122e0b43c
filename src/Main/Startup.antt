-- ===== src/Main/Startup.antt =====
-- The rest of `main`: the configuration, the subsystems that it is applied to in turn, the device, the
-- loop, and the shutdown. The path and the verbose flag are what getopt found.
pub mod Restores
pub mod Network
pub mod Commands
use pnet_driver_test.Prelude.{
  ℕ, ℤ, pos, negsuc, ltbℤ, Bool, true, false, Option, none, some, List, [], if◌then◌else◌,
}
use pnet_driver_test.Text.Bytes.{Bytes, strncpy}
use pnet_driver_test.Pnet.{Stack}
use pnet_driver_test.Device.{Device, zero_device}
use pnet_driver_test.Security.{Status, ok, fail}
use pnet_driver_test.Security.Apply.{sec_policy_apply}
use pnet_driver_test.Net.Interface.{Kernel, net_if_set_ip, net_if_set_netmask, net_if_set_up}
use pnet_driver_test.Realtime.Setup.{Os, Globals, rt_setup_init, rt_setup_apply, rt_setup_restore}
use pnet_driver_test.Config.{AppConfig, app_config_default}
use pnet_driver_test.Config.Load.{app_config_load}
use pnet_driver_test.Config.Validate.{app_config_validate}
use pnet_driver_test.Main.{
  Loop, Effect, device_init_and_start, device_stop_and_cleanup, run_loop, fresh_loop,
}

pub data Exit : Type 0 where
  exit_success exit_failure : Exit

-- what the configuration is if the load failed: `config_file` is the path, cut to its buffer
unfoldable pub loaded_or_default : Bytes → ℤ × Option AppConfig → AppConfig
loaded_or_default path (ret, none) = record app_config_default { config_file = strncpy 256 path }
loaded_or_default path (ret, some cfg) =
    if ltbℤ ret (pos 0) then record app_config_default { config_file = strncpy 256 path } else cfg

-- `config` is what memset left in the variable; every field of it is written
unfoldable pub main_config : (Bytes → Option Bytes) → AppConfig → Bytes → Bool → AppConfig
unfolding loaded_or_default
main_config disk config path verbose =
    let cfg = loaded_or_default path (app_config_load disk (some config) (some path)) in
    if verbose then record cfg { log_level = pos 3 } else cfg

-- `if (… < 0) return -1;`, and on to the next call
unfoldable pub and_then : {S : Type 0} → ℤ × S → (S → ℤ × S) → ℤ × S
and_then (ret, k) next = if ltbℤ ret (pos 0) then (negsuc 0, k) else next k

unfoldable pub apply_network : (kernel : Kernel) → AppConfig → kernel.State → ℤ × kernel.State
unfolding and_then
apply_network kernel cfg k =
    let iface = some cfg.device.interface_name in
    and_then (net_if_set_ip kernel k iface cfg.network.ip_addr) λ k₁.
      and_then (net_if_set_netmask kernel k₁ iface cfg.network.netmask)
        λ k₂. and_then (net_if_set_up kernel k₂ iface) λ k₃. (pos 0, k₃)

unfoldable pub status_result : Status × List Bytes → ℤ × List Bytes
status_result (ok, commands) = (pos 0, commands)
status_result (fail e, commands) = (negsuc 0, commands)

-- the result, and the commands that were run
unfoldable pub apply_security : (Bytes → ℤ) → AppConfig → ℤ × List Bytes
unfolding status_result
apply_security system cfg =
    if cfg.security_enabled
    then status_result (sec_policy_apply system (some cfg.security))
    else (pos 0, [])

module _ (os : Os) where
  unfoldable pub setup_after_init : ℤ × Globals → os.State → ℤ × Globals × os.State
  setup_after_init (ret, g) k =
      if ltbℤ ret (pos 0)
      then (negsuc 0, g, k)
      else let (ret', g', k') = rt_setup_apply os g k in
        (if ltbℤ ret' (pos 0) then negsuc 0 else pos 0, g', k')

  unfoldable pub apply_realtime : AppConfig → Globals → os.State → ℤ × Globals × os.State
  unfolding setup_after_init
  apply_realtime cfg g k =
      if cfg.realtime_enabled
      then setup_after_init (rt_setup_init g (some cfg.realtime)) k
      else (pos 0, g, k)

  -- the label `cleanup_rt`
  unfoldable pub cleanup_rt : AppConfig → Globals × os.State → Globals × os.State
  cleanup_rt cfg (g, k) = if cfg.realtime_enabled then rt_setup_restore os g k else (g, k)

module _ (stack : Stack) where
  open stack use {Net}

  -- the loop and the shutdown; `clock` has one value for each iteration
  unfoldable pub shut_down : Bool × Loop Net × List Effect → Device Net × List Effect
  shut_down (going, l, effects) = (device_stop_and_cleanup stack l.device, effects)

  unfoldable pub run_device : AppConfig → List ℕ → ℤ × Device Net → Device Net × List Effect
  unfolding shut_down
  run_device cfg clock (ret, dev) =
      if ltbℤ ret (pos 0)
      then (dev, [])
      else shut_down (run_loop stack cfg.device clock (fresh_loop dev))

module _ (stack : Stack) (kernel : Kernel) (os : Os) (system : Bytes → ℤ) where
  open stack use {Net}

  -- how the program ends
  pub record Ended : Type 0 where
    pub code : Exit
    pub device : Option (Device Net)  -- none before there is one
    pub net : kernel.State
    pub globals : Globals
    pub os_state : os.State
    pub commands : List Bytes
    pub effects : List Effect

  unfoldable pub after_realtime :
      AppConfig → List ℕ → kernel.State → List Bytes → Globals × os.State → Ended
  unfolding run_device
  after_realtime cfg clock n commands gk =
      let (dev, effects) =
        run_device stack cfg clock (device_init_and_start stack (zero_device Net) cfg.device) in
      let (g, k) = cleanup_rt os cfg gk in
      record {
        code = exit_success;
        device = some dev;
        net = n;
        globals = g;
        os_state = k;
        commands = commands;
        effects = effects;
      }

  -- an early return of EXIT_FAILURE
  abbrev pub failing : kernel.State → Globals → os.State → List Bytes → Ended
  failing n g k commands = record {
    code = exit_failure;
    device = none;
    net = n;
    globals = g;
    os_state = k;
    commands = commands;
    effects = [];
  }

  -- A failure of the real-time setup is reported only.
  unfoldable pub after_security :
      AppConfig → List ℕ → kernel.State → Globals → os.State → ℤ × List Bytes → Ended
  unfolding after_realtime
  after_security cfg clock n g k (ret, commands) =
      if ltbℤ ret (pos 0)
      then failing n g k commands
      else let (ret', g', k') = apply_realtime os cfg g k in
        after_realtime cfg clock n commands (g', k')

  unfoldable pub after_network : AppConfig → List ℕ → Globals → os.State → ℤ × kernel.State → Ended
  unfolding after_security
  after_network cfg clock g k (ret, n) =
      if ltbℤ ret (pos 0)
      then failing n g k []
      else after_security cfg clock n g k (apply_security system cfg)

  -- `handlers` is whether the two calls of sigaction succeed
  unfoldable pub after_config :
      AppConfig → Bool → List ℕ → kernel.State → Globals → os.State → Ended
  unfolding after_network
  after_config cfg handlers clock n g k =
      if ltbℤ (app_config_validate (some cfg)) (pos 0)
      then failing n g k []
      else if handlers
      then after_network cfg clock g k (apply_network kernel cfg n)
      else failing n g k []
