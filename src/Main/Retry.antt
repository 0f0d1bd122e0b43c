-- ===== src/Main/Retry.antt =====
-- Runs of the loop over a device that is down.
use pnet_driver_test.Prelude.{
  ℕ, zero, suc, ◌+◌, ◌*◌, ◌≤◌, ◌<◌, ◌≡◌, ◌∙◌, ◌⊎◌, inl, inr, refl, ap, ap₂, pos, negsuc, Bool, true,
  false, List, [], ◌∷◌, arith, length, min,
}
use pnet_driver_test.Pnet.{Stack}
use pnet_driver_test.Device.{DeviceCfg, zero_device}
use pnet_driver_test.Device.Lifecycle.{IsLive}
use pnet_driver_test.Main.{Loop, Effect, recovery_backoff_max, iteration, run_loop, continue_with}
use pnet_driver_test.Main.Recovery.{IsBackoff, IsDown, start_result}
use pnet_driver_test.Main.Outage.{
  attempts_of, EarlyEnds, LateEnds, iteration-EarlyEnds, iteration-LateEnds,
}

-- the attempts that follow each other while none succeeds: their numbers and waits
abbrev pub schedule : ℕ → ℕ → ℕ → List (ℕ × ℕ)
schedule zero k us = []
schedule (suc n) k us = (k, us) ∷ schedule n (k + 1) (min (us * 2) recovery_backoff_max)

module _ (stack : Stack) where
  open stack use {Net}

  -- after the fifth failed tick in a row
  abbrev pub FifthEnds : DeviceCfg → Loop Net → Bool × Loop Net × List Effect → Type 0
  FifthEnds cfg l (going, l', es) =
      (going ≡ true)
      × (attempts_of es ≡ (l.recovery_attempts + 1, l.backoff_us) ∷ [])
      × (l'.backoff_us ≡ min (l.backoff_us * 2) recovery_backoff_max)
      × (((start_result stack cfg ≡ pos 0) × IsLive l'.device × (l'.consecutive_errors ≡ 0))
          ⊎ ((start_result stack cfg ≡ negsuc 0) × (l'.device ≡ zero_device Net)))

  continue_late :
      (cfg : DeviceCfg) (l : Loop Net) (out : Bool × Loop Net × List Effect)
      → LateEnds stack cfg l out
      → FifthEnds cfg l (continue_with (run_loop stack cfg []) out)
  unfolding continue_with run_loop attempts_of
  continue_late cfg l (false, l', es) (going, attempts, backoff, how, ats) = cc
  continue_late cfg l (true, l', es)
        (going, attempts, backoff, inl (r, live, config, errors), ats) =
      (refl, ats [], backoff, inl (r, live, errors))
  continue_late cfg l (true, l', es) (going, attempts, backoff, inr (r, zeroed, errors), ats) =
      (refl, ats [], backoff, inr (r, zeroed))

  continue_early :
      (cfg : DeviceCfg) (l : Loop Net) (rest : Loop Net → Bool × Loop Net × List Effect)
      (out : Bool × Loop Net × List Effect)
      → ((l' : Loop Net)
          → IsDown stack l'.device
          → l'.consecutive_errors ≡ l.consecutive_errors + 1
          → l'.backoff_us ≡ l.backoff_us
          → FifthEnds cfg l' (rest l'))
      → EarlyEnds stack l out
      → FifthEnds cfg l (continue_with rest out)
  unfolding continue_with
  continue_early cfg l rest (false, l', es) on (going, counts, down, ats) = cc
  continue_early cfg l rest (true, l', es) on (going, (errors, attempts, backoff), down, ats) =
      let (going', ats', backoff', how) = on l' down errors backoff in
      (
        going',
        ats _ ∙ ats' ∙ ap₂ (λ k us. (k + 1, us) ∷ []) attempts backoff,
        backoff' ∙ ap (λ us. min (us * 2) recovery_backoff_max) backoff,
        how,
      )

  -- With a backoff in bounds and fewer than five errors counted, a device that is down is restarted
  -- at the fifth failed tick in a row, and not before: the loop waits for the backoff once, and
  -- then the device is live with no errors counted, or was zeroed because the start failed again.
  pub run_loop-fifth :
      (cfg : DeviceCfg) (clock : List ℕ) (l : Loop Net)
      → IsDown stack l.device
      → IsBackoff l.backoff_us
      → l.consecutive_errors < 5
      → l.consecutive_errors + length clock ≡ 5
      → FifthEnds cfg l (run_loop stack cfg clock l)
  unfolding run_loop
  run_loop-fifth cfg [] l down h few five = absurd (omega arith)
  run_loop-fifth cfg (now_ms ∷ []) l down h few five =
      continue_late cfg l (iteration stack cfg now_ms l)
        (iteration-LateEnds stack cfg now_ms l down (omega arith) h)
  run_loop-fifth cfg (now_ms ∷ next ∷ clock) l down h few five =
      continue_early cfg l (run_loop stack cfg (next ∷ clock)) (iteration stack cfg now_ms l)
        (λ l' down' errors backoff.
          run_loop-fifth cfg (next ∷ clock) l' down' (rw backoff h) (omega arith) (omega arith))
        (iteration-EarlyEnds stack cfg now_ms l down (omega arith))

  -- after `n` more failed starts
  abbrev pub FailingEnds : ℕ → Loop Net → Bool × Loop Net × List Effect → Type 0
  FailingEnds n l (going, l', es) =
      (going ≡ true)
      × IsDown stack l'.device
      × (l'.recovery_attempts ≡ l.recovery_attempts + n)
      × (attempts_of es ≡ schedule n (l.recovery_attempts + 1) l.backoff_us)

  continue_failing :
      (cfg : DeviceCfg) (n : ℕ) (l : Loop Net) (rest : Loop Net → Bool × Loop Net × List Effect)
      (out : Bool × Loop Net × List Effect)
      → start_result stack cfg ≡ negsuc 0
      → ((l' : Loop Net)
          → IsDown stack l'.device
          → l'.consecutive_errors ≡ l.consecutive_errors + 1
          → l'.backoff_us ≡ min (l.backoff_us * 2) recovery_backoff_max
          → FailingEnds n l' (rest l'))
      → LateEnds stack cfg l out
      → FailingEnds (suc n) l (continue_with rest out)
  unfolding continue_with
  continue_failing cfg n l rest (false, l', es) fails on (going, attempts, backoff, how, ats) = cc
  continue_failing cfg n l rest (true, l', es) fails on
        (going, attempts, backoff, inl (r, live, config, errors), ats) =
      cc
  continue_failing cfg n l rest (true, l', es) fails on
        (going, attempts, backoff, inr (r, zeroed, errors), ats) =
      let (going', down', attempts', ats') =
        on l' (inl (ap (λ d. d.pnet_handle) zeroed)) errors backoff in
      (
        going',
        down',
        omega arith,
        ats _
            ∙ ap (λ t. (l.recovery_attempts + 1, l.backoff_us) ∷ t)
                (ats' ∙ ap₂ (λ k us. schedule n (k + 1) us) attempts backoff),
      )

  -- While the device is down after four failed ticks or more and cannot be started, the loop never
  -- gives up: with a backoff in bounds, each further iteration is one more attempt, numbered on,
  -- whose wait is twice the one before it, up to 30 s.
  pub run_loop_failing :
      (cfg : DeviceCfg) (clock : List ℕ) (l : Loop Net)
      → start_result stack cfg ≡ negsuc 0
      → IsDown stack l.device
      → IsBackoff l.backoff_us
      → 4 ≤ l.consecutive_errors
      → FailingEnds (length clock) l (run_loop stack cfg clock l)
  unfolding run_loop attempts_of
  run_loop_failing cfg [] l fails down h many = (refl, down, omega arith, refl)
  run_loop_failing cfg (now_ms ∷ clock) l fails down h many =
      continue_failing cfg (length clock) l (run_loop stack cfg clock)
        (iteration stack cfg now_ms l) fails
        (λ l' down' errors backoff.
          run_loop_failing cfg clock l' fails down' (omega arith) (omega arith))
        (iteration-LateEnds stack cfg now_ms l down (omega arith) h)
