-- ===== src/Pnet/Mock/Show.antt =====
-- `pnet_show` of tests/mock/pnet_api_mock.c: the text that it prints.
use pnet_driver_test.Prelude.{ℕ, Option, none, some, [], ◌∷◌, ltb, if◌then◌else◌}
use pnet_driver_test.Text.Bytes.{Bytes, codes}
use pnet_driver_test.Text.Print.{u, lines}
use pnet_driver_test.Pnet.Mock.{MockNet}

unfoldable pub pnet_show : Option MockNet → ℕ → Bytes
pnet_show none level = codes "p-net: not initialized\n"
pnet_show (some net) level =
    if ltb 0 level
    then lines (
        (codes "p-net: initialized, product="
          ∷ net.cfg.product_name
          ∷ codes ", station="
          ∷ net.cfg.station_name
          ∷ [])
        ∷ (codes "p-net: submodules="
            ∷ u net.submodule_count
            ∷ codes ", tick_count="
            ∷ u net.tick_count
            ∷ [])
        ∷ [])
    else []
