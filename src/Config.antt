-- ===== src/Config.antt =====
-- src/config/app_config.c with include/app_config.h: the configuration, its defaults, and one
-- `key=value` pair applied to it. Reading and writing files are in Load and Save.
pub mod Load
pub mod Save
pub mod Fits
pub mod Stored
pub mod Validate
pub mod Values
pub mod Items
pub mod Written
pub mod RoundTrip
use pnet_driver_test.Prelude.{
  ℕ, ◌%◌, ◌^◌, ℤ, pos, Bool, true, false, ◌||◌, [], replicate, if◌then◌else◌,
}
use pnet_driver_test.Text.Bytes.{Bytes, codes, same, strncpy}
use pnet_driver_test.Text.Scan.{strtoul, atoi}
use pnet_driver_test.Address.{parse_ip}
use pnet_driver_test.Device.{DeviceCfg, zero_cfg}
use pnet_driver_test.Net.{NetIfConfig, TcpTuningConfig, zero_if_config, zero_tuning}
use pnet_driver_test.Security.{Policy, empty_policy}
use pnet_driver_test.Realtime.{RtConfig, rt_config_default}

-- `app_config_t`
pub record AppConfig : Type 0 where
  pub device : DeviceCfg
  pub network : NetIfConfig
  pub tcp_tuning : TcpTuningConfig
  pub security : Policy
  pub security_enabled : Bool
  pub realtime : RtConfig
  pub realtime_enabled : Bool
  pub log_level : ℤ
  pub log_file : Bytes  -- char[256]
  pub config_file : Bytes  -- char[256]

abbrev pub default_device : DeviceCfg
default_device = record zero_cfg {
  product_name = codes "p-net IO Device";
  station_name = codes "iodevice1";
  interface_name = codes "eth0";
  ip_addr = parse_ip (codes "192.168.0.100");
  netmask = parse_ip (codes "255.255.255.0");
  gateway = parse_ip (codes "192.168.0.1");
  vendor_id = 1;
  device_id = 1;
  tick_us = 1000;
  send_hello = true;
  file_directory = codes "/tmp/pnet";
}

-- What `*cfg` held before does not matter. Every literal is shorter than its buffer.
abbrev pub app_config_default : AppConfig
app_config_default = record {
  device = default_device;
  network = record zero_if_config {
    if_name = codes "eth0";
    ip_addr = default_device.ip_addr;
    netmask = default_device.netmask;
    gateway = default_device.gateway;
    configured = true;
  };
  tcp_tuning = zero_tuning;
  security = empty_policy;
  security_enabled = true;
  realtime = rt_config_default;
  realtime_enabled = true;
  log_level = pos 2;
  log_file = codes "/var/log/pnet-manager.log";
  config_file = codes "/etc/pnet-manager/config.conf";
}

-- `strcmp(val, "true") == 0 || strcmp(val, "1") == 0`
unfoldable pub is_yes : Bytes → Bool
is_yes val = same val (codes "true") || same val (codes "1")

-- one `key=value` pair; an unknown key changes nothing
unfoldable pub apply_kv : AppConfig → Bytes → Bytes → AppConfig
apply_kv cfg key val =
    if same key (codes "product_name")
    then record cfg { device = record cfg.device { product_name = strncpy 26 val } }
    else if same key (codes "station_name")
    then record cfg { device = record cfg.device { station_name = strncpy 241 val } }
    else if same key (codes "interface")
    then record cfg {
      device = record cfg.device { interface_name = strncpy 16 val };
      network = record cfg.network { if_name = strncpy 16 val };
    }
    else if same key (codes "ip_addr")
    then record cfg {
      device = record cfg.device { ip_addr = parse_ip val };
      network = record cfg.network { ip_addr = parse_ip val };
    }
    else if same key (codes "netmask")
    then record cfg {
      device = record cfg.device { netmask = parse_ip val };
      network = record cfg.network { netmask = parse_ip val };
    }
    else if same key (codes "gateway")
    then record cfg {
      device = record cfg.device { gateway = parse_ip val };
      network = record cfg.network { gateway = parse_ip val };
    }
    else if same key (codes "vendor_id")
    then record cfg { device = record cfg.device { vendor_id = strtoul val % 2 ^ 16 } }
    else if same key (codes "device_id")
    then record cfg { device = record cfg.device { device_id = strtoul val % 2 ^ 16 } }
    else if same key (codes "tick_us")
    then record cfg { device = record cfg.device { tick_us = strtoul val % 2 ^ 32 } }
    else if same key (codes "send_hello")
    then record cfg { device = record cfg.device { send_hello = is_yes val } }
    else if same key (codes "file_directory")
    then record cfg { device = record cfg.device { file_directory = strncpy 240 val } }
    else if same key (codes "log_level")
    then record cfg { log_level = atoi val }
    else if same key (codes "log_file")
    then record cfg { log_file = strncpy 256 val }
    else if same key (codes "security_enabled")
    then record cfg { security_enabled = is_yes val }
    else if same key (codes "realtime_enabled")
    then record cfg { realtime_enabled = is_yes val }
    else if same key (codes "rt_priority")
    then record cfg { realtime = record cfg.realtime { rt_priority = atoi val } }
    else if same key (codes "rt_scheduling")
    then record cfg { realtime = record cfg.realtime { use_rt_scheduling = is_yes val } }
    else if same key (codes "lock_memory")
    then record cfg { realtime = record cfg.realtime { lock_memory = is_yes val } }
    else if same key (codes "isolate_cpu")
    then record cfg { realtime = record cfg.realtime { isolate_cpu = atoi val } }
    else cfg
