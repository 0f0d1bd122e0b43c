-- ===== src/Pnet/Mock.antt =====
-- tests/mock/pnet_api_mock.c: the stack that the default build links. It records what is plugged,
-- keeps the data of each submodule, and calls no callback.
pub mod Pull
pub mod Show
use pnet_driver_test.Prelude.{
  ℕ, zero, suc, ◌+◌, ◌%◌, ◌^◌, ℤ, pos, negsuc, Bool, true, false, not, ◌&&◌, Option, none, some,
  List, [], ◌++◌, leb, ◌==◌, if◌then◌else◌, get_or, set, replicate, min, take, drop,
}
use pnet_driver_test.Pnet.{no_io, PnetCfg, Submodule, Output, Stack}

abbrev pub mock_max_submodules : ℕ
mock_max_submodules = 32

-- `mock_submodule_t`
pub record MockSubmodule : Type 0 where
  pub plug : Submodule  -- api, slot, subslot, the identifiers, the direction and the two lengths
  pub input_data : List ℕ  -- uint8_t[256]
  pub output_data : List ℕ  -- uint8_t[256]
  pub input_iops : ℕ
  pub output_iops : ℕ
  pub plugged : Bool

abbrev pub zero_submodule : MockSubmodule
zero_submodule = record {
  plug = record {
    api = 0;
    slot = 0;
    subslot = 0;
    module_ident = 0;
    submodule_ident = 0;
    direction = no_io;
    length_input = 0;
    length_output = 0;
  };
  input_data = replicate 256 0;
  output_data = replicate 256 0;
  input_iops = 0;
  output_iops = 0;
  plugged = false;
}

-- `struct pnet`
pub record MockNet : Type 0 where
  pub cfg : PnetCfg
  pub initialized : Bool
  pub primary : Bool
  pub next_arep : ℕ
  pub tick_count : ℕ  -- uint32_t
  pub submodules : List MockSubmodule  -- mock_submodule_t[32]
  pub submodule_count : ℕ

-- `allocated` says whether calloc has the memory.
unfoldable pub pnet_init : Bool → PnetCfg → Option MockNet
pnet_init false cfg = none
pnet_init true cfg = some (record {
  cfg = cfg;
  initialized = true;
  primary = true;
  next_arep = 1;
  tick_count = 0;
  submodules = replicate mock_max_submodules zero_submodule;
  submodule_count = 0;
})

unfoldable pub pnet_handle_periodic : MockNet → MockNet
pnet_handle_periodic net =
    if net.initialized then record net { tick_count = (net.tick_count + 1) % 2 ^ 32 } else net

unfoldable pub pnet_plug_module : MockNet → ℤ
pnet_plug_module net = if net.initialized then pos 0 else negsuc 0

-- The slot of the array was zeroed by calloc, so the data starts as zeroes.
unfoldable pub pnet_plug_submodule : MockNet → Submodule → MockNet × ℤ
pnet_plug_submodule net sub =
    if not net.initialized
    then (net, negsuc 0)
    else if leb mock_max_submodules net.submodule_count
    then (net, negsuc 0)
    else let i = net.submodule_count in
      let old = get_or net.submodules i zero_submodule in
      let sm = record old { plug = sub; input_iops = 0x80; output_iops = 0x80; plugged = true } in
      (record net { submodules = set net.submodules i sm; submodule_count = suc i }, pos 0)

-- the test of the three search loops
abbrev pub matches : MockSubmodule → ℕ → ℕ → ℕ → Bool
matches sm api slot subslot =
    sm.plug.api == api && sm.plug.slot == slot && sm.plug.subslot == subslot && sm.plugged

-- the index at which a search loop stops, from `i` on, with `n` rounds left
unfoldable pub find_submodule : ℕ → ℕ → List MockSubmodule → ℕ → ℕ → ℕ → Option ℕ
find_submodule zero i sms api slot subslot = none
find_submodule (suc n) i sms api slot subslot =
    let rest = find_submodule n (suc i) sms api slot subslot in
    if matches (get_or sms i zero_submodule) api slot subslot then some i else rest

unfoldable pub set_input : MockNet → List ℕ → ℕ → Option ℕ → MockNet × ℤ
set_input net bytes iops none = (net, negsuc 0)
set_input net bytes iops (some i) =
    let sm = get_or net.submodules i zero_submodule in
    let len = min sm.plug.length_input 256 in
    let sm' = record sm {
      input_data = take len bytes ++ drop len sm.input_data;
      input_iops = iops;
    } in
    (record net { submodules = set net.submodules i sm' }, pos 0)

unfoldable pub pnet_input_set_data_and_iops : MockNet → ℕ → ℕ → ℕ → List ℕ → ℕ → MockNet × ℤ
unfolding set_input find_submodule
pnet_input_set_data_and_iops net api slot subslot bytes iops =
    set_input net bytes iops (find_submodule net.submodule_count 0 net.submodules api slot subslot)

unfoldable pub get_output : MockNet → ℕ → Option ℕ → Output
get_output net len none = record { ret = negsuc 0; data_len = len; bytes = [] }
get_output net len (some i) =
    let sm = get_or net.submodules i zero_submodule in
    let n = min sm.plug.length_output len in
    record { ret = pos 0; data_len = n; bytes = take n sm.output_data }

unfoldable pub pnet_output_get_data_and_iops : MockNet → ℕ → ℕ → ℕ → ℕ → Output
unfolding get_output find_submodule
pnet_output_get_data_and_iops net api slot subslot len =
    get_output net len (find_submodule net.submodule_count 0 net.submodules api slot subslot)

unfoldable pub pnet_factory_reset : MockNet → ℤ
pnet_factory_reset net = pos 0

-- the mock behind the interface; a call on a `pnet_t *` that is not NULL
abbrev pub mock_stack : Bool → Stack
mock_stack allocated = record {
  Net = MockNet;
  init = pnet_init allocated;
  plug_module = λ net api slot ident. (net, pnet_plug_module net);
  plug_submodule = pnet_plug_submodule;
  periodic = λ net. (pnet_handle_periodic net, []);
  factory_reset = λ net. (net, pnet_factory_reset net);
  input_set = pnet_input_set_data_and_iops;
  output_get =
      λ net api slot subslot len. (net, pnet_output_get_data_and_iops net api slot subslot len);
}
