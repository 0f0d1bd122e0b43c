-- ===== src/Tests/Terminal.antt =====
-- The text for the terminal, for concrete values.
use pnet_driver_test.Prelude.{◌≡◌, refl, ℕ, pos, some, none, [], ◌∷◌}
use pnet_driver_test.Text.Bytes.{Bytes, codes, unlines}
use pnet_driver_test.Text.Numeral.{print_base}
use pnet_driver_test.Text.Print.{hex, lower, lines}
use pnet_driver_test.Pnet.Mock.{MockNet}
use pnet_driver_test.Pnet.Mock.Show.{pnet_show}
use pnet_driver_test.Device.Mocked.{fresh_net}
use pnet_driver_test.Device.{DeviceCfg, zero_cfg}
use pnet_driver_test.Device.Start.{stack_config}
use pnet_driver_test.Device.Show.{show_mac, show_stack, io_device_show}
use pnet_driver_test.Main.Terminal.{level_name, print_usage}

abbrev shown : DeviceCfg
shown = record zero_cfg { product_name = codes "p-net"; station_name = codes "dev" }

-- the stack's own dump, of the mock
abbrev show_net : MockNet → ℕ → Bytes
show_net net level = pnet_show (some net) level

mac_text : show_mac (0 ∷ 0x1A ∷ 0x2B ∷ 0xFF ∷ 5 ∷ 9 ∷ []) ≡ codes "00:1a:2b:ff:05:09"
unfolding show_mac hex lower print_base
mac_text = refl

null_text : io_device_show show_net none ≡ codes "IO Device: (null)\n"
unfolding io_device_show
null_text = refl

stack_text :
    show_stack show_net (some (fresh_net (stack_config shown)))
    ≡ unlines (
        []
        ∷ codes "--- p-net stack internals ---"
        ∷ codes "p-net: initialized, product=p-net, station=dev"
        ∷ codes "p-net: submodules=0, tick_count=0"
        ∷ [])
unfolding show_stack pnet_show lines print_base stack_config
stack_text = refl

beyond_debug : level_name (pos 4) ≡ codes "(?)"
unfolding level_name
beyond_debug = refl

usage_text :
    print_usage (codes "pnet-manager")
    ≡ unlines (
        codes "Usage: pnet-manager [OPTIONS]"
        ∷ codes ""
        ∷ codes "Options:"
        ∷ codes "  -c <file>   Path to configuration file"
        ∷ codes "              (default: /etc/pnet-manager/config.conf)"
        ∷ codes "  -v          Verbose output (set log level to DEBUG)"
        ∷ codes "  -h          Show this help message"
        ∷ codes ""
        ∷ codes "Signals:"
        ∷ codes "  SIGINT, SIGTERM   Graceful shutdown"
        ∷ [])
unfolding print_usage lines
usage_text = refl
