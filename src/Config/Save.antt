-- ===== src/Config/Save.antt =====
-- `app_config_save`: the text that it writes.
use pnet_driver_test.Prelude.{
  ℕ, ℤ, pos, negsuc, Bool, Option, none, some, List, [], ◌∷◌, ◌++◌, if◌then◌else◌,
}
use pnet_driver_test.Text.Bytes.{Bytes, codes, unlines}
use pnet_driver_test.Text.Numeral.{print_base}
use pnet_driver_test.Text.Scan.{print_int, pad4}
use pnet_driver_test.Address.{format_ip}
use pnet_driver_test.Config.{AppConfig}

-- "%s=%s"
abbrev pub setting : Bytes → Bytes → Bytes
setting key val = key ++ (b'=' ∷ val)

-- `b ? "true" : "false"`
unfoldable pub yes_no : Bool → Bytes
yes_no b = if b then codes "true" else codes "false"

-- "0x%04X"
unfoldable pub hex4 : ℕ → Bytes
hex4 n = b'0' ∷ b'x' ∷ pad4 (print_base 16 n)

-- the lines of the file, each of them ended by a newline
unfoldable pub config_lines : AppConfig → List Bytes
config_lines cfg =
    codes "# p-net IO Device Manager Configuration"
    ∷ codes "# Auto-generated - edit with care"
    ∷ []
    ∷ codes "# IO Device"
    ∷ setting (codes "product_name") cfg.device.product_name
    ∷ setting (codes "station_name") cfg.device.station_name
    ∷ setting (codes "interface") cfg.device.interface_name
    ∷ setting (codes "ip_addr") (format_ip cfg.device.ip_addr)
    ∷ setting (codes "netmask") (format_ip cfg.device.netmask)
    ∷ setting (codes "gateway") (format_ip cfg.device.gateway)
    ∷ setting (codes "vendor_id") (hex4 cfg.device.vendor_id)
    ∷ setting (codes "device_id") (hex4 cfg.device.device_id)
    ∷ setting (codes "tick_us") (print_base 10 cfg.device.tick_us)
    ∷ setting (codes "send_hello") (yes_no cfg.device.send_hello)
    ∷ setting (codes "file_directory") cfg.device.file_directory
    ∷ []
    ∷ codes "# Logging"
    ∷ setting (codes "log_level") (print_int cfg.log_level)
    ∷ setting (codes "log_file") cfg.log_file
    ∷ []
    ∷ codes "# Security"
    ∷ setting (codes "security_enabled") (yes_no cfg.security_enabled)
    ∷ []
    ∷ codes "# Real-time"
    ∷ setting (codes "realtime_enabled") (yes_no cfg.realtime_enabled)
    ∷ setting (codes "rt_priority") (print_int cfg.realtime.rt_priority)
    ∷ setting (codes "rt_scheduling") (yes_no cfg.realtime.use_rt_scheduling)
    ∷ setting (codes "lock_memory") (yes_no cfg.realtime.lock_memory)
    ∷ setting (codes "isolate_cpu") (print_int cfg.realtime.isolate_cpu)
    ∷ []

-- `can_write` is whether `fopen(path, "w")` succeeds; the result, and the file written with its path.
module _ (can_write : Bytes → Bool) where
  unfoldable pub save_to : AppConfig → Bytes → ℤ × Option (Bytes × Bytes)
  save_to cfg path =
      if can_write path then (pos 0, some (path, unlines (config_lines cfg))) else (negsuc 0, none)

  unfoldable pub app_config_save : Option AppConfig → Option Bytes → ℤ × Option (Bytes × Bytes)
  unfolding save_to
  app_config_save none path = (negsuc 0, none)
  app_config_save (some cfg) none = (negsuc 0, none)
  app_config_save (some cfg) (some path) = save_to cfg path
