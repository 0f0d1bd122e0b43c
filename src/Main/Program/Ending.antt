-- ===== src/Main/Program/Ending.antt =====
-- How the program ends, whatever its options.
use pnet_driver_test.Prelude.{
  ℕ, ◌≡◌, ◌⊎◌, inl, inr, refl, ◌∙◌, ap, ℤ, Bool, true, false, ◌||◌, Option, List, [], ◌∷◌, ◌++◌,
  All, arith,
}
use pnet_driver_test.Text.Bytes.{Bytes}
use pnet_driver_test.Pnet.{Stack}
use pnet_driver_test.Net.Interface.{Kernel}
use pnet_driver_test.Realtime.Setup.{Os, Globals}
use pnet_driver_test.Config.{AppConfig}
use pnet_driver_test.Main.Startup.{Exit, exit_success, exit_failure, main_config, Ended}
use pnet_driver_test.Main.Startup.Restores.{Ends, after_config_lem}
use pnet_driver_test.Main.Program.{
  Opt, config_opt, verbose_opt, help_opt, unknown_opt, Parsed, start_with, leave,
  default_config_file, parse_options, Signal, MainEnd, left, ended, after_options, main,
}

-- an option that does not end the program
abbrev pub IsSetting : Opt → Type 0
IsSetting (config_opt path) = Unit
IsSetting verbose_opt = Unit
IsSetting help_opt = ⊥
IsSetting unknown_opt = ⊥

-- the path of the last -c, or `path` if there is none
abbrev pub last_path : Bytes → List Opt → Bytes
last_path path [] = path
last_path path (config_opt p ∷ opts) = last_path p opts
last_path path (_ ∷ opts) = last_path path opts

-- there is a -v
abbrev pub has_v : List Opt → Bool
has_v [] = false
has_v (verbose_opt ∷ opts) = true
has_v (_ ∷ opts) = has_v opts

-- the exit code of the first option that ends the program
abbrev pub EndsWith : List Opt → Exit → Type 0
EndsWith opts code =
    (before : List Opt) × (after : List Opt) × All IsSetting before
    × (((opts ≡ before ++ (help_opt ∷ after)) × (code ≡ exit_success))
        ⊎ ((opts ≡ before ++ (unknown_opt ∷ after)) × (code ≡ exit_failure)))

-- what a list of options comes to
abbrev ParseEnds : List Opt → Bytes → Bool → Parsed → Type 0
ParseEnds opts path verbose p =
    (All IsSetting opts × (p ≡ start_with (last_path path opts) (verbose || has_v opts)))
    ⊎ ((code : Exit) × EndsWith opts code × (p ≡ leave code))

EndsWith-cons :
    (o : Opt) (opts : List Opt) (code : Exit)
    → IsSetting o
    → EndsWith opts code
    → EndsWith (o ∷ opts) code
EndsWith-cons o opts code s (before, after, all, inl (e, out)) =
    (o ∷ before, after, (s, all), inl (ap (λ t. o ∷ t) e, out))
EndsWith-cons o opts code s (before, after, all, inr (e, out)) =
    (o ∷ before, after, (s, all), inr (ap (λ t. o ∷ t) e, out))

or_true : (b : Bool) → (b || true) ≡ true
or_true b = ground arith

parse_options_lem :
    (opts : List Opt) (path : Bytes) (verbose : Bool)
    → ParseEnds opts path verbose (parse_options opts path verbose)
unfolding parse_options
parse_options_lem [] path verbose = inl (tt, ap (start_with path) (ground arith))
parse_options_lem (config_opt p ∷ opts) path verbose = elim (parse_options_lem opts p verbose) [
  | inl (all, e) ↦ inl ((tt, all), e)
  | inr (code, ends, e) ↦ inr (code, EndsWith-cons (config_opt p) opts code tt ends, e)
]
parse_options_lem (verbose_opt ∷ opts) path verbose = elim (parse_options_lem opts path true) [
  | inl (all, e) ↦ inl ((tt, all), e ∙ ap (start_with (last_path path opts)) (ground arith))
  | inr (code, ends, e) ↦ inr (code, EndsWith-cons verbose_opt opts code tt ends, e)
]
parse_options_lem (help_opt ∷ opts) path verbose =
    inr (exit_success, ([], opts, tt, inl (refl, refl)), refl)
parse_options_lem (unknown_opt ∷ opts) path verbose =
    inr (exit_failure, ([], opts, tt, inr (refl, refl)), refl)

module _ (stack : Stack) (kernel : Kernel) (os : Os) (system : Bytes → ℤ) (sigaction : Signal → ℤ)
    (disk : Bytes → Option Bytes) where
  -- how the program can end
  abbrev MainEnds : List Opt → AppConfig → MainEnd stack kernel os system sigaction disk → Type 0
  MainEnds opts config e =
      ((code : Exit) × EndsWith opts code × (e ≡ left code))
      ⊎ ((end : Ended stack kernel os system) × All IsSetting opts
          × (e ≡ ended end)
          × Ends stack kernel os system
              (main_config disk config (last_path default_config_file opts) (has_v opts)) end)

  parsed_ends :
      (opts : List Opt) (config : AppConfig) (clock : List ℕ) (n : kernel.State) (g : Globals)
      (k : os.State) (p : Parsed)
      → g.initialized ≡ false
      → ParseEnds opts default_config_file false p
      → MainEnds opts config
          (after_options stack kernel os system sigaction disk config clock n g k p)
  unfolding after_options
  parsed_ends opts config clock n g k p off (inl (all, e)) =
      rw e (inr (_, all, refl, after_config_lem stack kernel os system _ _ clock n g k off))
  parsed_ends opts config clock n g k p off (inr (code, ends, e)) = rw e (inl (code, ends, refl))

  -- With any options and whatever calls fail, the program ends in one of two ways. If an option asks
  -- for help or is unknown, it ends with that option's exit code, EXIT_SUCCESS for the first such
  -- option -h and EXIT_FAILURE for another, and does nothing else. If not, its configuration is that
  -- of the file of the last -c, or of the default file, at log level 3 if there is a -v, and it
  -- returns EXIT_FAILURE before there is a device, or EXIT_SUCCESS, and then the configuration was
  -- usable and the device has been stopped and zeroed; and the real-time setup is not left behind:
  -- its module, uninitialized at the start, is so at the end.
  pub main_lem :
      (opts : List Opt) (config : AppConfig) (clock : List ℕ) (n : kernel.State) (g : Globals)
      (k : os.State)
      → g.initialized ≡ false
      → let e = main stack kernel os system sigaction disk opts config clock n g k in
        ((code : Exit) × EndsWith opts code × (e ≡ left code))
        ⊎ ((end : Ended stack kernel os system) × All IsSetting opts
            × (e ≡ ended end)
            × Ends stack kernel os system
                (main_config disk config (last_path default_config_file opts) (has_v opts))
                end)
  unfolding main
  main_lem opts config clock n g k off =
      parsed_ends opts config clock n g k (parse_options opts default_config_file false) off
        (parse_options_lem opts default_config_file false)
