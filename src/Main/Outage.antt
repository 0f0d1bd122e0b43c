-- ===== src/Main/Outage.antt =====
-- A device that is down: how the loop counts the failed ticks, and its attempts to recover.
use pnet_driver_test.Prelude.{
  ℕ, ◌+◌, ◌-◌, ◌*◌, ◌%◌, ◌^◌, ◌≤◌, ◌<◌, ◌≡◌, ◌∙◌, ◌⊎◌, inl, inr, refl, ap, pos, negsuc, Bool, true,
  List, [], ◌∷◌, ◌++◌, Bool-cases, leb, min,
}
use pnet_driver_test.Pnet.{Stack}
use pnet_driver_test.Device.{DeviceCfg, zero_device}
use pnet_driver_test.Device.Lifecycle.{IsLive}
use pnet_driver_test.Main.{
  Loop, Effect, slept, recovering, recovery_backoff_max, watchdog_ping_ms, recover, iteration,
  finish, ping,
}
use pnet_driver_test.Main.Recovery.{
  IsBackoff, IsDown, RecoveryEnds, start_result, recover_lem, Counts, ping-Counts, counted,
  iteration-IsDown, tick_failed_early, tick_failed_late,
}

-- an attempt's number, and the wait that follows it
put_attempt : ℕ → List Effect → List (ℕ × ℕ) → List (ℕ × ℕ)
put_attempt k (slept us ∷ es) more = (k, us) ∷ more
put_attempt k _ more = more

-- the attempts to recover among the effects
unfoldable pub attempts_of : List Effect → List (ℕ × ℕ)
unfolding put_attempt
attempts_of [] = []
attempts_of (recovering k ∷ es) = put_attempt k es (attempts_of es)
attempts_of (_ ∷ es) = attempts_of es

attempts_of-ping :
    {Net : Type 0} (cfg : DeviceCfg) (now_ms : ℕ) (l : Loop Net) (fs : List Effect)
    → attempts_of ((ping cfg now_ms l).1 ++ fs) ≡ attempts_of fs
unfolding ping attempts_of
attempts_of-ping cfg now_ms l fs =
    elim (Bool-cases (leb watchdog_ping_ms ((now_ms + 2 ^ 64 - l.last_watchdog_ms) % 2 ^ 64))) [
      | inl due ↦ rw due refl
      | inr early ↦ rw early refl
    ]

module _ (stack : Stack) where
  open stack use {Net}

  -- after a failed tick that is counted only
  abbrev pub EarlyEnds : Loop Net → Bool × Loop Net × List Effect → Type 0
  EarlyEnds l (going, l', es) =
      (going ≡ true)
      × Counts (l.consecutive_errors + 1) l.recovery_attempts l.backoff_us l'
      × IsDown stack l'.device
      × ((fs : List Effect) → attempts_of (es ++ fs) ≡ attempts_of fs)

  -- after one that starts a recovery
  abbrev pub LateEnds : DeviceCfg → Loop Net → Bool × Loop Net × List Effect → Type 0
  LateEnds cfg l (going, l', es) =
      (going ≡ true)
      × (l'.recovery_attempts ≡ l.recovery_attempts + 1)
      × (l'.backoff_us ≡ min (l.backoff_us * 2) recovery_backoff_max)
      × (((start_result stack cfg ≡ pos 0)
            × IsLive l'.device
            × (l'.device.config ≡ cfg)
            × (l'.consecutive_errors ≡ 0))
          ⊎ ((start_result stack cfg ≡ negsuc 0)
              × (l'.device ≡ zero_device Net)
              × (l'.consecutive_errors ≡ l.consecutive_errors + 1)))
      × ((fs : List Effect)
          → attempts_of (es ++ fs) ≡ (l.recovery_attempts + 1, l.backoff_us) ∷ attempts_of fs)

  pub iteration-EarlyEnds :
      (cfg : DeviceCfg) (now_ms : ℕ) (l : Loop Net)
      → IsDown stack l.device
      → l.consecutive_errors + 1 < 5
      → EarlyEnds l (iteration stack cfg now_ms l)
  unfolding finish
  iteration-EarlyEnds cfg now_ms l down few =
      let (counts, same) = ping-Counts cfg now_ms (counted stack l) in
      rw (iteration-IsDown stack cfg now_ms l down, tick_failed_early stack cfg l few)
        (refl, counts, rw same down, attempts_of-ping cfg now_ms (counted stack l))

  finish-LateEnds :
      (cfg : DeviceCfg) (now_ms : ℕ) (l : Loop Net) (out : Loop Net × List Effect)
      → RecoveryEnds stack cfg
          (record (counted stack l) { recovery_attempts = l.recovery_attempts + 1 })
          out
      → LateEnds cfg l (finish cfg now_ms (true, out.0, out.1))
  unfolding finish attempts_of
  finish-LateEnds cfg now_ms l (l', es) ((attempts, backoff, time), how) =
      let ((errors, a, b), same) = ping-Counts cfg now_ms l' in
      elim how [
        | inl (started, live, config, none_left, effects) ↦ (
          refl,
          a ∙ attempts,
          b ∙ backoff,
          inl (started, rw same live, rw same config, errors ∙ none_left),
          λ fs. rw effects (
              ap (λ t. (l.recovery_attempts + 1, l.backoff_us) ∷ t)
                (attempts_of-ping cfg now_ms l' fs)),
        )
        | inr (failed, zeroed, kept, effects) ↦ (
          refl,
          a ∙ attempts,
          b ∙ backoff,
          inr (failed, same ∙ zeroed, errors ∙ kept),
          λ fs. rw effects (
              ap (λ t. (l.recovery_attempts + 1, l.backoff_us) ∷ t)
                (attempts_of-ping cfg now_ms l' fs)),
        )
      ]

  pub iteration-LateEnds :
      (cfg : DeviceCfg) (now_ms : ℕ) (l : Loop Net)
      → IsDown stack l.device
      → 5 ≤ l.consecutive_errors + 1
      → IsBackoff l.backoff_us
      → LateEnds cfg l (iteration stack cfg now_ms l)
  iteration-LateEnds cfg now_ms l down many h =
      let tried = record (counted stack l) { recovery_attempts = l.recovery_attempts + 1 } in
      rw (iteration-IsDown stack cfg now_ms l down, tick_failed_late stack cfg l many)
        (finish-LateEnds cfg now_ms l (recover stack cfg tried) (recover_lem stack cfg tried h))
