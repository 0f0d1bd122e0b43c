-- ===== src/Config/RoundTrip.antt =====
-- `app_config_load` on what `app_config_save` wrote.
use pnet_driver_test.Prelude.{
  ℕ, ◌%◌, ◌^◌, ◌<◌, ◌≡◌, refl, ap, ◌∙◌, pos, Bool, true, false, Option, none, some, List, [], ◌∷◌,
  ◌++◌, arith, replicate, if◌then◌else◌,
}
use pnet_driver_test.Text.Bytes.{same_iff, Bytes, same, strncpy, strncpy_id, unlines}
use pnet_driver_test.Text.Numeral.{print_base}
use pnet_driver_test.Text.Scan.{strtoul, strtoul-print_base, strtoul-hex, atoi-print_int}
use pnet_driver_test.Address.RoundTrip.{parse_ip-format_ip}
use pnet_driver_test.Config.{AppConfig, app_config_default, apply_kv, is_yes}
use pnet_driver_test.Config.Load.{load_text, apply_lines, app_config_load, file_lines}
use pnet_driver_test.Config.Save.{config_lines, yes_no, hex4, app_config_save, setting}
use pnet_driver_test.Config.Items.{Item, apply_item, apply_items, apply_lines-unlines}
use pnet_driver_test.Config.Written.{
  IsSaveable, device_items, log_items, security_items, realtime_items, items, config_lines-items,
  items-IsItem,
}

-- what a load finds of a configuration that was saved: all that has a key; the rest is the default
abbrev pub restored : Bytes → AppConfig → AppConfig
restored path cfg = record app_config_default {
  device = record cfg.device { mac_addr = replicate 6 0 };
  network = record app_config_default.network {
    if_name = cfg.device.interface_name;
    ip_addr = cfg.device.ip_addr;
    netmask = cfg.device.netmask;
    gateway = cfg.device.gateway;
  };
  security_enabled = cfg.security_enabled;
  realtime = record cfg.realtime { disable_cpu_freq = true; disable_irq_balance = true };
  realtime_enabled = cfg.realtime_enabled;
  log_level = cfg.log_level;
  log_file = cfg.log_file;
  config_file = strncpy 256 path;
}

apply_items-append :
    (c : AppConfig) (xs ys : List Item)
    → apply_items c (xs ++ ys) ≡ apply_items (apply_items c xs) ys
unfolding apply_items
apply_items-append c [] ys = refl
apply_items-append c (i ∷ xs) ys = apply_items-append (apply_item c i) xs ys

is_yes-yes_no : (b : Bool) → is_yes (yes_no b) ≡ b
unfolding is_yes yes_no same
is_yes-yes_no true = refl
is_yes-yes_no false = refl

strtoul-hex4 : (n : ℕ) → n < 2 ^ 16 → strtoul (hex4 n) % 2 ^ 16 ≡ n
unfolding hex4
strtoul-hex4 n h = omega (arith, strtoul-hex n h)

strtoul-decimal : (n : ℕ) → n < 2 ^ 32 → strtoul (print_base 10 n) % 2 ^ 32 ≡ n
strtoul-decimal n h = omega (arith, strtoul-print_base n (omega arith))

-- what each part of the file sets
abbrev with_device : AppConfig → AppConfig → AppConfig
with_device cfg c = record c {
  device = record cfg.device { mac_addr = c.device.mac_addr };
  network = record c.network {
    if_name = cfg.device.interface_name;
    ip_addr = cfg.device.ip_addr;
    netmask = cfg.device.netmask;
    gateway = cfg.device.gateway;
  };
}

abbrev with_log : AppConfig → AppConfig → AppConfig
with_log cfg c = record c { log_level = cfg.log_level; log_file = cfg.log_file }

abbrev with_security : AppConfig → AppConfig → AppConfig
with_security cfg c = record c { security_enabled = cfg.security_enabled }

abbrev with_realtime : AppConfig → AppConfig → AppConfig
with_realtime cfg c = record c {
  realtime_enabled = cfg.realtime_enabled;
  realtime = record c.realtime {
    rt_priority = cfg.realtime.rt_priority;
    use_rt_scheduling = cfg.realtime.use_rt_scheduling;
    lock_memory = cfg.realtime.lock_memory;
    isolate_cpu = cfg.realtime.isolate_cpu;
  };
}

module _ (c cfg : AppConfig) (s : IsSaveable cfg) where
  device_restored : apply_items c (device_items cfg) ≡ with_device cfg c
  unfolding apply_items apply_item apply_kv device_items same
  device_restored = rw (
    strncpy_id 26 cfg.device.product_name s.product.fits,
    strncpy_id 241 cfg.device.station_name s.station.fits,
    strncpy_id 16 cfg.device.interface_name s.interface.fits,
    strncpy_id 240 cfg.device.file_directory s.directory.fits,
    parse_ip-format_ip cfg.device.ip_addr s.ip,
    parse_ip-format_ip cfg.device.netmask s.mask,
    parse_ip-format_ip cfg.device.gateway s.router,
    strtoul-hex4 cfg.device.vendor_id s.vendor,
    strtoul-hex4 cfg.device.device_id s.ident,
    strtoul-decimal cfg.device.tick_us s.tick,
    is_yes-yes_no cfg.device.send_hello,
  )

  log_restored : apply_items c (log_items cfg) ≡ with_log cfg c
  unfolding apply_items apply_item apply_kv log_items same
  log_restored = rw (atoi-print_int cfg.log_level s.level, strncpy_id 256 cfg.log_file s.log.fits)

  security_restored : apply_items c (security_items cfg) ≡ with_security cfg c
  unfolding apply_items apply_item apply_kv security_items same
  security_restored = rw (is_yes-yes_no cfg.security_enabled)

  realtime_restored : apply_items c (realtime_items cfg) ≡ with_realtime cfg c
  unfolding apply_items apply_item apply_kv realtime_items same
  realtime_restored = rw (
    is_yes-yes_no cfg.realtime_enabled,
    atoi-print_int cfg.realtime.rt_priority s.priority,
    is_yes-yes_no cfg.realtime.use_rt_scheduling,
    is_yes-yes_no cfg.realtime.lock_memory,
    atoi-print_int cfg.realtime.isolate_cpu s.cpu,
  )

items_restored :
    (c cfg : AppConfig)
    → IsSaveable cfg
    → apply_items c (items cfg)
      ≡ with_realtime cfg (with_security cfg (with_log cfg (with_device cfg c)))
unfolding items
items_restored c cfg s =
    apply_items-append c (device_items cfg) _
    ∙ ap (λ d. apply_items d (log_items cfg ++ (security_items cfg ++ realtime_items cfg)))
        (device_restored c cfg s)
    ∙ apply_items-append (with_device cfg c) (log_items cfg) _
    ∙ ap (λ d. apply_items d (security_items cfg ++ realtime_items cfg))
        (log_restored (with_device cfg c) cfg s)
    ∙ apply_items-append (with_log cfg (with_device cfg c)) (security_items cfg) _
    ∙ ap (λ d. apply_items d (realtime_items cfg))
        (security_restored (with_log cfg (with_device cfg c)) cfg s)
    ∙ realtime_restored (with_security cfg (with_log cfg (with_device cfg c))) cfg s

-- the disk after a save: the file written is found at its path
abbrev pub after_save : (Bytes → Option Bytes) → Option (Bytes × Bytes) → Bytes → Option Bytes
after_save disk none p = disk p
after_save disk (some (path, text)) p = if same p path then some text else disk p

load_text-config_lines :
    (path : Bytes) (cfg : AppConfig)
    → IsSaveable cfg
    → load_text path (unlines (config_lines cfg)) ≡ restored path cfg
unfolding load_text
load_text-config_lines path cfg s =
    let start = record app_config_default { config_file = strncpy 256 path } in
    ap (λ ls. apply_lines start (file_lines 511 (unlines ls))) (config_lines-items cfg)
    ∙ apply_lines-unlines start (items cfg) (items-IsItem cfg s)
    ∙ items_restored start cfg s

-- A save to a path that can be written returns 0, and a load from that path then returns 0 too and
-- gives the saved configuration back, if that is saveable: every setting that has a key has its
-- value again, and what has none (the MAC address, TCP tuning, the rules, two real-time switches)
-- has its default.
pub app_config_load-app_config_save :
    (disk : Bytes → Option Bytes) (can_write : Bytes → Bool) (path : Bytes) (old cfg : AppConfig)
    → IsSaveable cfg
    → can_write path ≡ true
    → let (r, file) = app_config_save can_write (some cfg) (some path) in
      (r ≡ pos 0)
      × (app_config_load (after_save disk file) (some old) (some path)
          ≡ (pos 0, some (restored path cfg)))
unfolding app_config_save app_config_load pnet_driver_test.Config.Load.load_from
    pnet_driver_test.Config.Save.save_to
app_config_load-app_config_save disk can_write path old cfg s w =
    rw (w, (same_iff path path).1 refl)
      (refl, ap (λ c. (pos 0, some c)) (load_text-config_lines path cfg s))
