-- ===== src/Tests/Text.antt =====
-- Strings and addresses.
use pnet_driver_test.Prelude.{◌≡◌, refl, arith}
use pnet_driver_test.Text.Bytes.{codes}
use pnet_driver_test.Text.Strip.{Pads, strip, strip_lem}
use pnet_driver_test.Text.Numeral.{print_base}
use pnet_driver_test.Address.{parse_ip, format_ip}
use pnet_driver_test.Address.RoundTrip.{parse_ip-format_ip}

padded : strip (codes "  eth0 \t") ≡ codes "eth0"
unfolding strip
padded = refl

strip_lem_example : Pads (codes "  eth0 \t") (strip (codes "  eth0 \t"))
strip_lem_example = strip_lem (codes "  eth0 \t")

format_private : format_ip 0xC0A80064 ≡ codes "192.168.0.100"
unfolding format_ip print_base
format_private = refl

parse_ip-format_ip_example : parse_ip (format_ip 0xC0A80064) ≡ 0xC0A80064
parse_ip-format_ip_example = parse_ip-format_ip 0xC0A80064 (omega arith)
