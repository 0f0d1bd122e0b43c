-- ===== src/Main/Program.antt =====
-- `main` as a whole: the options that getopt hands over, the signal handlers, and what follows them.
-- The banner and the usage text are in Terminal.
pub mod Ending
use pnet_driver_test.Prelude.{
  ℕ, ℤ, pos, negsuc, ltbℤ, Bool, true, false, not, Option, List, [], ◌∷◌, if◌then◌else◌,
}
use pnet_driver_test.Text.Bytes.{Bytes, codes}
use pnet_driver_test.Pnet.{Stack}
use pnet_driver_test.Net.Interface.{Kernel}
use pnet_driver_test.Realtime.Setup.{Os, Globals}
use pnet_driver_test.Config.{AppConfig}
use pnet_driver_test.Main.Startup.{
  Exit, exit_success, exit_failure, main_config, Ended, after_config,
}

abbrev pub default_config_file : Bytes
default_config_file = codes "/etc/pnet-manager/config.conf"

-- what `getopt(argc, argv, "c:vh")` returns, with `optarg`
pub data Opt : Type 0 where
  config_opt : Bytes → Opt
  verbose_opt help_opt unknown_opt : Opt

-- what the options come to: a start, or the end of the program
pub data Parsed : Type 0 where
  start_with : Bytes → Bool → Parsed
  leave : Exit → Parsed

-- the loop over the options, with `config_path` and `verbose`
unfoldable pub parse_options : List Opt → Bytes → Bool → Parsed
parse_options [] config_path verbose = start_with config_path verbose
parse_options (config_opt path ∷ opts) config_path verbose = parse_options opts path verbose
parse_options (verbose_opt ∷ opts) config_path verbose = parse_options opts config_path true
parse_options (help_opt ∷ opts) config_path verbose = leave exit_success
parse_options (unknown_opt ∷ opts) config_path verbose = leave exit_failure

pub data Signal : Type 0 where
  sigint sigterm : Signal

unfoldable pub install_signal_handlers : (Signal → ℤ) → ℤ
install_signal_handlers sigaction =
    if ltbℤ (sigaction sigint) (pos 0)
    then negsuc 0
    else if ltbℤ (sigaction sigterm) (pos 0)
    then negsuc 0
    else pos 0

module _ (stack : Stack) (kernel : Kernel) (os : Os) (system : Bytes → ℤ) (sigaction : Signal → ℤ)
    (disk : Bytes → Option Bytes) where
  -- how the program ends: with its options, or behind the configuration
  pub data MainEnd : Type 0 where
    left : Exit → MainEnd
    ended : Ended stack kernel os system → MainEnd

  unfoldable pub after_options :
      AppConfig → List ℕ → kernel.State → Globals → os.State → Parsed → MainEnd
  unfolding install_signal_handlers
  after_options config clock n g k (leave code) = left code
  after_options config clock n g k (start_with path verbose) = ended (
      after_config stack kernel os system (main_config disk config path verbose)
        (not (ltbℤ (install_signal_handlers sigaction) (pos 0))) clock n g k)

  -- `config` is the zeroed variable, and `clock` has a value for each iteration of the loop
  unfoldable pub main : List Opt → AppConfig → List ℕ → kernel.State → Globals → os.State → MainEnd
  unfolding after_options parse_options
  main opts config clock n g k =
      after_options config clock n g k (parse_options opts default_config_file false)
