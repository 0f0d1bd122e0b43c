-- ===== src/Device/Show.antt =====
-- `io_device_show` of src/app/io_device.c: the text that it prints. What pnet_show prints of the stack
-- is a parameter.
use pnet_driver_test.Prelude.{
  ℕ, ◌+◌, ◌*◌, ◌^◌, ◌<◌, ◌≡◌, arith, All, length, length-append, Option, none, some, List, [], ◌∷◌,
  ◌++◌,
}
use pnet_driver_test.Text.Bytes.{Bytes, codes}
use pnet_driver_test.Text.Print.{u, hex, lines, length-hex}
use pnet_driver_test.Address.{format_ip}
use pnet_driver_test.Device.{Device, io_device_state_str}

-- the bytes of an address with colons between them
unfoldable pub show_mac : List ℕ → Bytes
show_mac [] = []
show_mac (b ∷ []) = hex 2 b
show_mac (b ∷ c ∷ bs) = hex 2 b ++ (b':' ∷ show_mac (c ∷ bs))

abbrev active_or_null : {Net : Type 0} → Option Net → Bytes
active_or_null none = codes "null"
active_or_null (some net) = codes "active"

unfoldable pub show_fields : {Net : Type 0} → Device Net → Bytes
show_fields dev = lines (
    (codes "=== IO Device Status ===" ∷ [])
    ∷ (codes "  Product name : " ∷ dev.config.product_name ∷ [])
    ∷ (codes "  Station name : " ∷ dev.config.station_name ∷ [])
    ∷ (codes "  Interface    : " ∷ dev.config.interface_name ∷ [])
    ∷ (codes "  MAC          : " ∷ show_mac dev.config.mac_addr ∷ [])
    ∷ (codes "  IP address   : " ∷ format_ip dev.config.ip_addr ∷ [])
    ∷ (codes "  Vendor ID    : 0x" ∷ hex 4 dev.config.vendor_id ∷ [])
    ∷ (codes "  Device ID    : 0x" ∷ hex 4 dev.config.device_id ∷ [])
    ∷ (codes "  State        : " ∷ io_device_state_str dev.state ∷ [])
    ∷ (codes "  Cycle count  : " ∷ u dev.cycle_count ∷ [])
    ∷ (codes "  Error count  : " ∷ u dev.error_count ∷ [])
    ∷ (codes "  Active AREP  : " ∷ u dev.active_arep ∷ [])
    ∷ (codes "  Input size   : " ∷ u dev.input_size ∷ codes " bytes" ∷ [])
    ∷ (codes "  Output size  : " ∷ u dev.output_size ∷ codes " bytes" ∷ [])
    ∷ (codes "  p-net handle : " ∷ active_or_null dev.pnet_handle ∷ [])
    ∷ [])

unfoldable pub show_stack : {Net : Type 0} → (Net → ℕ → Bytes) → Option Net → Bytes
show_stack pnet_show none = []
show_stack pnet_show (some net) = codes "\n--- p-net stack internals ---\n" ++ pnet_show net 1

unfoldable pub io_device_show : {Net : Type 0} → (Net → ℕ → Bytes) → Option (Device Net) → Bytes
unfolding show_fields show_stack
io_device_show pnet_show none = codes "IO Device: (null)\n"
io_device_show pnet_show (some dev) = show_fields dev ++ show_stack pnet_show dev.pnet_handle

-- An address of n + 1 bytes is shown by two digits for each byte and n colons.
length-show_mac :
    (b : ℕ) (bs : List ℕ)
    → All (λ c. c < 2 ^ 8) (b ∷ bs)
    → length (show_mac (b ∷ bs)) ≡ 3 * length bs + 2
unfolding show_mac
length-show_mac b [] h = length-hex 1 b h.0
length-show_mac b (c ∷ cs) h =
    let first : length (hex 2 b) ≡ 2 = length-hex 1 b h.0 in
    let rest = length-show_mac c cs h.1 in
    rw (length-append (hex 2 b) (b':' ∷ show_mac (c ∷ cs))) (omega (arith, first, rest))
