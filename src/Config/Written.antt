-- ===== src/Config/Written.antt =====
-- What `app_config_save` writes, as items that a load reads one by one.
use pnet_driver_test.Prelude.{
  ℕ, ◌^◌, ◌≤◌, ◌<◌, ◌≡◌, refl, IsInt32, List, [], ◌∷◌, ◌++◌, arith, All, All-append, map,
}
use pnet_driver_test.Text.Bytes.{Bytes, codes}
use pnet_driver_test.Text.Numeral.{print_base}
use pnet_driver_test.Text.Scan.{print_int}
use pnet_driver_test.Address.{format_ip}
use pnet_driver_test.Config.{AppConfig}
use pnet_driver_test.Config.Save.{config_lines, yes_no, hex4}
use pnet_driver_test.Config.Values.{
  IsValue, print_base-IsValue, print_int-IsValue, format_ip-IsValue, yes_no-IsValue, hex4-IsValue,
}
use pnet_driver_test.Config.Items.{Item, blank, comment, pair, item_line, IsItem}

-- a configuration of which every setting can stand in a file: the strings are not empty, have no
-- white space at their ends and fit their buffers, and the numbers are in the range of their types
pub record IsSaveable (cfg : AppConfig) : Type 0 where
  pub product : IsValue 26 cfg.device.product_name
  pub station : IsValue 241 cfg.device.station_name
  pub interface : IsValue 16 cfg.device.interface_name
  pub directory : IsValue 240 cfg.device.file_directory
  pub log : IsValue 256 cfg.log_file
  pub ip : cfg.device.ip_addr < 2 ^ 32
  pub mask : cfg.device.netmask < 2 ^ 32
  pub router : cfg.device.gateway < 2 ^ 32
  pub vendor : cfg.device.vendor_id < 2 ^ 16
  pub ident : cfg.device.device_id < 2 ^ 16
  pub tick : cfg.device.tick_us < 2 ^ 32
  pub level : IsInt32 cfg.log_level
  pub priority : IsInt32 cfg.realtime.rt_priority
  pub cpu : IsInt32 cfg.realtime.isolate_cpu

-- the lines that are written, one list for each part of the file
unfoldable pub device_items : AppConfig → List Item
device_items cfg =
    comment (codes " p-net IO Device Manager Configuration")
    ∷ comment (codes " Auto-generated - edit with care")
    ∷ blank
    ∷ comment (codes " IO Device")
    ∷ pair (codes "product_name") cfg.device.product_name
    ∷ pair (codes "station_name") cfg.device.station_name
    ∷ pair (codes "interface") cfg.device.interface_name
    ∷ pair (codes "ip_addr") (format_ip cfg.device.ip_addr)
    ∷ pair (codes "netmask") (format_ip cfg.device.netmask)
    ∷ pair (codes "gateway") (format_ip cfg.device.gateway)
    ∷ pair (codes "vendor_id") (hex4 cfg.device.vendor_id)
    ∷ pair (codes "device_id") (hex4 cfg.device.device_id)
    ∷ pair (codes "tick_us") (print_base 10 cfg.device.tick_us)
    ∷ pair (codes "send_hello") (yes_no cfg.device.send_hello)
    ∷ pair (codes "file_directory") cfg.device.file_directory
    ∷ []

unfoldable pub log_items : AppConfig → List Item
log_items cfg =
    blank
    ∷ comment (codes " Logging")
    ∷ pair (codes "log_level") (print_int cfg.log_level)
    ∷ pair (codes "log_file") cfg.log_file
    ∷ []

unfoldable pub security_items : AppConfig → List Item
security_items cfg =
    blank
    ∷ comment (codes " Security")
    ∷ pair (codes "security_enabled") (yes_no cfg.security_enabled)
    ∷ []

unfoldable pub realtime_items : AppConfig → List Item
realtime_items cfg =
    blank
    ∷ comment (codes " Real-time")
    ∷ pair (codes "realtime_enabled") (yes_no cfg.realtime_enabled)
    ∷ pair (codes "rt_priority") (print_int cfg.realtime.rt_priority)
    ∷ pair (codes "rt_scheduling") (yes_no cfg.realtime.use_rt_scheduling)
    ∷ pair (codes "lock_memory") (yes_no cfg.realtime.lock_memory)
    ∷ pair (codes "isolate_cpu") (print_int cfg.realtime.isolate_cpu)
    ∷ []

unfoldable pub items : AppConfig → List Item
items cfg = device_items cfg ++ (log_items cfg ++ (security_items cfg ++ realtime_items cfg))

pub config_lines-items : (cfg : AppConfig) → config_lines cfg ≡ map item_line (items cfg)
unfolding config_lines items device_items log_items security_items realtime_items item_line
config_lines-items cfg = refl

wide : {size : ℕ} {v : Bytes} → IsValue size v → size ≤ 300 → IsValue 300 v
wide k h = record {
  nonempty = k.nonempty;
  trimmed = k.trimmed;
  plain = k.plain;
  fits = omega (arith, k.fits);
}

device_items-IsItem : (cfg : AppConfig) → IsSaveable cfg → All IsItem (device_items cfg)
unfolding device_items
device_items-IsItem cfg s = (
  (ground arith, (refl, refl), omega arith),
  (
    (ground arith, (refl, refl), omega arith),
    (
      tt,
      (
        (ground arith, (refl, refl), omega arith),
        (
          (refl, wide s.product (omega arith), omega arith),
          (
            (refl, wide s.station (omega arith), omega arith),
            (
              (refl, wide s.interface (omega arith), omega arith),
              (
                (refl, format_ip-IsValue cfg.device.ip_addr, omega arith),
                (
                  (refl, format_ip-IsValue cfg.device.netmask, omega arith),
                  (
                    (refl, format_ip-IsValue cfg.device.gateway, omega arith),
                    (
                      (refl, hex4-IsValue cfg.device.vendor_id s.vendor, omega arith),
                      (
                        (refl, hex4-IsValue cfg.device.device_id s.ident, omega arith),
                        (
                          (refl, print_base-IsValue cfg.device.tick_us s.tick, omega arith),
                          (
                            (refl, yes_no-IsValue cfg.device.send_hello, omega arith),
                            ((refl, wide s.directory (omega arith), omega arith), tt),
                          ),
                        ),
                      ),
                    ),
                  ),
                ),
              ),
            ),
          ),
        ),
      ),
    ),
  ),
)

log_items-IsItem : (cfg : AppConfig) → IsSaveable cfg → All IsItem (log_items cfg)
unfolding log_items
log_items-IsItem cfg s = (
  tt,
  (
    (ground arith, (refl, refl), omega arith),
    (
      (refl, print_int-IsValue cfg.log_level s.level, omega arith),
      ((refl, wide s.log (omega arith), omega arith), tt),
    ),
  ),
)

security_items-IsItem : (cfg : AppConfig) → IsSaveable cfg → All IsItem (security_items cfg)
unfolding security_items
security_items-IsItem cfg s = (
  tt,
  (
    (ground arith, (refl, refl), omega arith),
    ((refl, yes_no-IsValue cfg.security_enabled, omega arith), tt),
  ),
)

realtime_items-IsItem : (cfg : AppConfig) → IsSaveable cfg → All IsItem (realtime_items cfg)
unfolding realtime_items
realtime_items-IsItem cfg s = (
  tt,
  (
    (ground arith, (refl, refl), omega arith),
    (
      (refl, yes_no-IsValue cfg.realtime_enabled, omega arith),
      (
        (refl, print_int-IsValue cfg.realtime.rt_priority s.priority, omega arith),
        (
          (refl, yes_no-IsValue cfg.realtime.use_rt_scheduling, omega arith),
          (
            (refl, yes_no-IsValue cfg.realtime.lock_memory, omega arith),
            ((refl, print_int-IsValue cfg.realtime.isolate_cpu s.cpu, omega arith), tt),
          ),
        ),
      ),
    ),
  ),
)

pub items-IsItem : (cfg : AppConfig) → IsSaveable cfg → All IsItem (items cfg)
unfolding items
items-IsItem cfg s = All-append IsItem (device_items cfg) _ (device_items-IsItem cfg s) (
    All-append IsItem (log_items cfg) _ (log_items-IsItem cfg s) (
      All-append IsItem (security_items cfg) _ (security_items-IsItem cfg s)
        (realtime_items-IsItem cfg s)))
