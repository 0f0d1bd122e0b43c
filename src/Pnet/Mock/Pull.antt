-- ===== src/Pnet/Mock/Pull.antt =====
-- The calls of tests/mock/pnet_api_mock.c that the program does not make, on a `pnet_t *` that is not
-- NULL, but for `pnet_show`, which only prints.
use pnet_driver_test.Prelude.{
  ℕ, zero, suc, ◌≡◌, refl, ap, ℤ, pos, negsuc, Bool, false, ◌&&◌, Option, none, some, List, arith,
  ◌==◌, if◌then◌else◌, get_or, set,
}
use pnet_driver_test.Text.Bytes.{Bytes}
use pnet_driver_test.Pnet.Mock.{
  MockSubmodule, zero_submodule, MockNet, find_submodule, set_input, pnet_input_set_data_and_iops,
}

unfoldable pub pnet_application_ready : MockNet → ℕ → ℤ
pnet_application_ready net arep = if net.initialized then pos 0 else negsuc 0

abbrev pub pnet_pull_module : MockNet → ℕ → ℕ → ℤ
pnet_pull_module net api slot = pos 0

-- the test of the loop, which does not ask whether the entry is still plugged
abbrev pub is_at : MockSubmodule → ℕ → ℕ → ℕ → Bool
is_at sm api slot subslot = sm.plug.api == api && sm.plug.slot == slot && sm.plug.subslot == subslot

-- the index at which the loop stops, from `i` on, with `n` rounds left
unfoldable pub find_entry : ℕ → ℕ → List MockSubmodule → ℕ → ℕ → ℕ → Option ℕ
find_entry zero i sms api slot subslot = none
find_entry (suc n) i sms api slot subslot =
    let rest = find_entry n (suc i) sms api slot subslot in
    if is_at (get_or sms i zero_submodule) api slot subslot then some i else rest

unfoldable pub pull_at : MockNet → Option ℕ → MockNet × ℤ
pull_at net none = (net, negsuc 0)
pull_at net (some i) =
    let sm = get_or net.submodules i zero_submodule in
    (record net { submodules = set net.submodules i (record sm { plugged = false }) }, pos 0)

unfoldable pub pnet_pull_submodule : MockNet → ℕ → ℕ → ℕ → MockNet × ℤ
unfolding find_entry pull_at
pnet_pull_submodule net api slot subslot =
    pull_at net (find_entry net.submodule_count 0 net.submodules api slot subslot)

-- the result and `*iocs`
abbrev pub pnet_input_get_iocs : MockNet → ℕ → ℕ → ℕ → ℤ × ℕ
pnet_input_get_iocs net api slot subslot = (pos 0, 0x80)

abbrev pub pnet_set_primary_state : MockNet → Bool → MockNet × ℤ
pnet_set_primary_state net primary = (record net { primary = primary }, pos 0)

abbrev pub pnet_ar_abort : MockNet → ℕ → ℤ
pnet_ar_abort net arep = pos 0

abbrev pub pnet_remove_data_files : Bytes → ℤ
pnet_remove_data_files file_directory = pos 0

-- Where the search of a pull finds nothing, the searches for data find nothing.
find_submodule-find_entry :
    (n i : ℕ) (sms : List MockSubmodule) (api slot subslot : ℕ)
    → find_entry n i sms api slot subslot ≡ none
    → find_submodule n i sms api slot subslot ≡ none
unfolding find_entry find_submodule
find_submodule-find_entry zero i sms api slot subslot h = refl
find_submodule-find_entry (suc n) i sms api slot subslot h =
    let step = find_submodule-find_entry n (suc i) sms api slot subslot in ground (arith, step, h)

pull_at-none : (net : MockNet) (o : Option ℕ) → (pull_at net o).1 ≡ negsuc 0 → o ≡ none
unfolding pull_at
pull_at-none net none h = refl
pull_at-none net (some i) h = cc h

-- If a pull fails, there is no submodule at the address to hand data to either.
pub pnet_pull_submodule_refused :
    (net : MockNet) (api slot subslot iops : ℕ) (bytes : List ℕ)
    → (pnet_pull_submodule net api slot subslot).1 ≡ negsuc 0
    → pnet_input_set_data_and_iops net api slot subslot bytes iops ≡ (net, negsuc 0)
unfolding pnet_pull_submodule pull_at pnet_input_set_data_and_iops set_input
pnet_pull_submodule_refused net api slot subslot iops bytes h =
    let nothing =
      pull_at-none net (find_entry net.submodule_count 0 net.submodules api slot subslot) h in
    ap (set_input net bytes iops)
      (find_submodule-find_entry net.submodule_count 0 net.submodules api slot subslot nothing)
