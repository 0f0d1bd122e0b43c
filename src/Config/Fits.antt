-- ===== src/Config/Fits.antt =====
-- Configurations whose fields fit their buffers and types, and that a key keeps so.
use pnet_driver_test.Prelude.{
  ℕ, ◌+◌, ◌-◌, ◌%◌, ◌^◌, ◌<◌, ℤ, IsInt32, Bool, true, false, arith, length, length-take,
  if◌then◌else◌,
}
use pnet_driver_test.Text.Bytes.{Bytes, strncpy, same, codes}
use pnet_driver_test.Text.Scan.{strtoul, atoi, to_int}
use pnet_driver_test.Address.{parse_ip}
use pnet_driver_test.Address.RoundTrip.{parse_ip-lt}
use pnet_driver_test.Device.{DeviceCfg}
use pnet_driver_test.Realtime.{RtConfig}
use pnet_driver_test.Net.{NetIfConfig}
use pnet_driver_test.Config.{AppConfig, apply_kv, is_yes}

-- a string fits its buffer with its NUL, and a word its type
abbrev pub DeviceFits : DeviceCfg → Type 0
DeviceFits d =
    (length d.product_name < 26)
    × (length d.station_name < 241)
    × (length d.interface_name < 16)
    × (length d.file_directory < 240)
    × (d.ip_addr < 2 ^ 32)
    × (d.netmask < 2 ^ 32)
    × (d.gateway < 2 ^ 32)
    × (d.vendor_id < 2 ^ 16)
    × (d.device_id < 2 ^ 16)
    × (d.tick_us < 2 ^ 32)

abbrev pub NetworkFits : NetIfConfig → Type 0
NetworkFits n =
    (length n.if_name < 16) × (n.ip_addr < 2 ^ 32) × (n.netmask < 2 ^ 32) × (n.gateway < 2 ^ 32)

pub record Fits (cfg : AppConfig) : Type 0 where
  pub device : DeviceFits cfg.device
  pub network : NetworkFits cfg.network
  pub level : IsInt32 cfg.log_level
  pub log : length cfg.log_file < 256
  pub file : length cfg.config_file < 256
  pub priority : IsInt32 cfg.realtime.rt_priority
  pub cpu : IsInt32 cfg.realtime.isolate_cpu

pub length-strncpy : (n : ℕ) (s : Bytes) → length (strncpy (n + 1) s) < n + 1
unfolding strncpy
length-strncpy n s = omega (arith, length-take (n + 1 - 1) s)

to_int-IsInt32 : (w : ℕ) → IsInt32 (to_int w)
unfolding to_int
to_int-IsInt32 w = ground arith

atoi-IsInt32 : (s : Bytes) → IsInt32 (atoi s)
unfolding atoi
atoi-IsInt32 s = to_int-IsInt32 _

-- one branch of a conditional, and the others
infix 1 on◌have◌orelse◌
pub on◌have◌orelse◌ : (b : Bool) {x y : AppConfig} → Fits x → Fits y → Fits (if b then x else y)
on true have hx orelse hy = hx
on false have hx orelse hy = hy

module _ {cfg : AppConfig} (h : Fits cfg) where
  with_device : (d : DeviceCfg) → DeviceFits d → Fits (record cfg { device = d })
  with_device d f = record {
    device = f;
    network = h.network;
    level = h.level;
    log = h.log;
    file = h.file;
    priority = h.priority;
    cpu = h.cpu;
  }

  with_both :
      (d : DeviceCfg) (n : NetIfConfig)
      → DeviceFits d
      → NetworkFits n
      → Fits (record cfg { device = d; network = n })
  with_both d n f g = record {
    device = f;
    network = g;
    level = h.level;
    log = h.log;
    file = h.file;
    priority = h.priority;
    cpu = h.cpu;
  }

  with_rest :
      (level : ℤ) (log : Bytes) (security_enabled realtime_enabled : Bool) (rt : RtConfig)
      → IsInt32 level
      → length log < 256
      → IsInt32 rt.rt_priority
      → IsInt32 rt.isolate_cpu
      → Fits (record cfg {
        log_level = level;
        log_file = log;
        security_enabled = security_enabled;
        realtime_enabled = realtime_enabled;
        realtime = rt;
      })
  with_rest level log a b rt l k p c = record {
    device = h.device;
    network = h.network;
    level = l;
    log = k;
    file = h.file;
    priority = p;
    cpu = c;
  }

pub apply_kv-Fits : {cfg : AppConfig} (key val : Bytes) → Fits cfg → Fits (apply_kv cfg key val)
unfolding apply_kv
apply_kv-Fits {cfg} key val h =
    on (same key (codes "product_name"))
    have with_device h (record cfg.device { product_name = strncpy 26 val })
        (omega (arith, h.device, length-strncpy 25 val))
    orelse on (same key (codes "station_name"))
    have with_device h (record cfg.device { station_name = strncpy 241 val })
        (omega (arith, h.device, length-strncpy 240 val))
    orelse on (same key (codes "interface"))
    have with_both h (record cfg.device { interface_name = strncpy 16 val })
        (record cfg.network { if_name = strncpy 16 val })
        (omega (arith, h.device, length-strncpy 15 val))
        (omega (arith, h.network, length-strncpy 15 val))
    orelse on (same key (codes "ip_addr"))
    have with_both h (record cfg.device { ip_addr = parse_ip val })
        (record cfg.network { ip_addr = parse_ip val }) (omega (arith, h.device, parse_ip-lt val))
        (omega (arith, h.network, parse_ip-lt val))
    orelse on (same key (codes "netmask"))
    have with_both h (record cfg.device { netmask = parse_ip val })
        (record cfg.network { netmask = parse_ip val }) (omega (arith, h.device, parse_ip-lt val))
        (omega (arith, h.network, parse_ip-lt val))
    orelse on (same key (codes "gateway"))
    have with_both h (record cfg.device { gateway = parse_ip val })
        (record cfg.network { gateway = parse_ip val }) (omega (arith, h.device, parse_ip-lt val))
        (omega (arith, h.network, parse_ip-lt val))
    orelse on (same key (codes "vendor_id"))
    have with_device h (record cfg.device { vendor_id = strtoul val % 2 ^ 16 })
        (omega (arith, h.device))
    orelse on (same key (codes "device_id"))
    have with_device h (record cfg.device { device_id = strtoul val % 2 ^ 16 })
        (omega (arith, h.device))
    orelse on (same key (codes "tick_us"))
    have with_device h (record cfg.device { tick_us = strtoul val % 2 ^ 32 })
        (omega (arith, h.device))
    orelse on (same key (codes "send_hello"))
    have with_device h (record cfg.device { send_hello = is_yes val }) h.device
    orelse on (same key (codes "file_directory"))
    have with_device h (record cfg.device { file_directory = strncpy 240 val })
        (omega (arith, h.device, length-strncpy 239 val))
    orelse on (same key (codes "log_level"))
    have with_rest h (atoi val) cfg.log_file cfg.security_enabled cfg.realtime_enabled cfg.realtime
        (atoi-IsInt32 val) h.log h.priority h.cpu
    orelse on (same key (codes "log_file"))
    have with_rest h cfg.log_level (strncpy 256 val) cfg.security_enabled cfg.realtime_enabled
        cfg.realtime h.level (length-strncpy 255 val) h.priority h.cpu
    orelse on (same key (codes "security_enabled"))
    have with_rest h cfg.log_level cfg.log_file (is_yes val) cfg.realtime_enabled cfg.realtime
        h.level h.log h.priority h.cpu
    orelse on (same key (codes "realtime_enabled"))
    have with_rest h cfg.log_level cfg.log_file cfg.security_enabled (is_yes val) cfg.realtime
        h.level h.log h.priority h.cpu
    orelse on (same key (codes "rt_priority"))
    have with_rest h cfg.log_level cfg.log_file cfg.security_enabled cfg.realtime_enabled
        (record cfg.realtime { rt_priority = atoi val }) h.level h.log (atoi-IsInt32 val) h.cpu
    orelse on (same key (codes "rt_scheduling"))
    have with_rest h cfg.log_level cfg.log_file cfg.security_enabled cfg.realtime_enabled
        (record cfg.realtime { use_rt_scheduling = is_yes val }) h.level h.log h.priority h.cpu
    orelse on (same key (codes "lock_memory"))
    have with_rest h cfg.log_level cfg.log_file cfg.security_enabled cfg.realtime_enabled
        (record cfg.realtime { lock_memory = is_yes val }) h.level h.log h.priority h.cpu
    orelse on (same key (codes "isolate_cpu"))
    have with_rest h cfg.log_level cfg.log_file cfg.security_enabled cfg.realtime_enabled
        (record cfg.realtime { isolate_cpu = atoi val }) h.level h.log h.priority (atoi-IsInt32 val)
    orelse h
