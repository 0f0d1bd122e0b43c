-- ===== src/Main/Terminal.antt =====
-- What src/main.c prints at the start of the program: `print_banner` and `print_usage`.
use pnet_driver_test.Prelude.{◌==◌, if◌then◌else◌, ℤ, pos, negsuc, Bool, true, false, [], ◌∷◌}
use pnet_driver_test.Text.Bytes.{Bytes, codes}
use pnet_driver_test.Text.Numeral.{print_base}
use pnet_driver_test.Text.Scan.{print_int, pad4}
use pnet_driver_test.Text.Print.{u, lines}
use pnet_driver_test.Address.{format_ip}
use pnet_driver_test.Config.{AppConfig}
use pnet_driver_test.Main.Program.{default_config_file}

abbrev pnet_mgr_version : Bytes
pnet_mgr_version = codes "1.0.1"

abbrev rule : Bytes
rule = codes "=========================================================="

abbrev enabled_or_disabled : Bool → Bytes
enabled_or_disabled true = codes "enabled"
enabled_or_disabled false = codes "disabled"

unfoldable pub level_name : ℤ → Bytes
level_name (negsuc n) = codes "(?)"
level_name (pos n) =
    if n == 0
    then codes "(ERROR)"
    else if n == 1
    then codes "(WARN)"
    else if n == 2
    then codes "(INFO)"
    else if n == 3
    then codes "(DEBUG)"
    else codes "(?)"

unfoldable pub print_banner : AppConfig → Bytes
unfolding level_name
print_banner cfg = lines (
    (rule ∷ [])
    ∷ (codes "  p-net IO Device Manager  v" ∷ pnet_mgr_version ∷ [])
    ∷ (rule ∷ [])
    ∷ (codes "  Product name  : " ∷ cfg.device.product_name ∷ [])
    ∷ (codes "  Station name  : " ∷ cfg.device.station_name ∷ [])
    ∷ (codes "  Interface     : " ∷ cfg.device.interface_name ∷ [])
    ∷ (codes "  IP address    : " ∷ format_ip cfg.device.ip_addr ∷ [])
    ∷ (codes "  Netmask       : " ∷ format_ip cfg.device.netmask ∷ [])
    ∷ (codes "  Gateway       : " ∷ format_ip cfg.device.gateway ∷ [])
    ∷ (codes "  Vendor ID     : 0x" ∷ pad4 (print_base 16 cfg.device.vendor_id) ∷ [])
    ∷ (codes "  Device ID     : 0x" ∷ pad4 (print_base 16 cfg.device.device_id) ∷ [])
    ∷ (codes "  Tick interval : " ∷ u cfg.device.tick_us ∷ codes " us" ∷ [])
    ∷ (codes "  Security      : " ∷ enabled_or_disabled cfg.security_enabled ∷ [])
    ∷ (codes "  Real-time     : " ∷ enabled_or_disabled cfg.realtime_enabled ∷ [])
    ∷ (codes "  Log level     : "
        ∷ print_int cfg.log_level
        ∷ codes " "
        ∷ level_name cfg.log_level
        ∷ [])
    ∷ (codes "  Config file   : " ∷ cfg.config_file ∷ [])
    ∷ (rule ∷ [])
    ∷ [])

unfoldable pub print_usage : Bytes → Bytes
print_usage prog = lines (
    (codes "Usage: " ∷ prog ∷ codes " [OPTIONS]" ∷ [])
    ∷ []
    ∷ (codes "Options:" ∷ [])
    ∷ (codes "  -c <file>   Path to configuration file" ∷ [])
    ∷ (codes "              (default: " ∷ default_config_file ∷ codes ")" ∷ [])
    ∷ (codes "  -v          Verbose output (set log level to DEBUG)" ∷ [])
    ∷ (codes "  -h          Show this help message" ∷ [])
    ∷ []
    ∷ (codes "Signals:" ∷ [])
    ∷ (codes "  SIGINT, SIGTERM   Graceful shutdown" ∷ [])
    ∷ [])
