-- ===== src/Main/Watchdog/Pings.antt =====
-- Effects in which the watchdog is pinged in time, and what `ping` adds to them.
use pnet_driver_test.Prelude.{
  ℕ, ◌+◌, ◌-◌, ◌%◌, ◌^◌, ◌≤◌, ◌<◌, ◌≡◌, inl, inr, refl, Bool, true, List, [], ◌∷◌, ◌++◌, ◌⊎◌, ◌∙◌,
  sym, ap, All, append_assoc, arith, Bool-cases, leb, leb→gt, leb→le,
}
use pnet_driver_test.Device.{DeviceCfg}
use pnet_driver_test.Main.{Loop, Effect, watchdog, slept, watchdog_ping_ms, ping}
use pnet_driver_test.Main.Recovery.{IsBackoff}

-- no ping of the watchdog
abbrev pub IsQuiet : Effect → Type 0
IsQuiet watchdog = ⊥
IsQuiet _ = Unit

-- the loop goes on with a backoff in bounds and no ping yet; `t` is the variable for the last ping
abbrev pub GoesOn : {Net : Type 0} → ℕ → Bool × Loop Net × List Effect → Type 0
GoesOn t (going, l', es) =
    (going ≡ true) × IsBackoff l'.backoff_us × (l'.last_watchdog_ms ≡ t) × All IsQuiet es

-- The effects of an iteration at `now_ms`: the last of them is the sleep of a tick, and the
-- watchdog is pinged before it exactly if `t` is 15 s ago or more, and at no other place. Behind
-- them, what is left of the effects fits the time of the last ping.
abbrev pub PingedAt : DeviceCfg → ℕ → ℕ → (ℕ → List Effect → Type 0) → List Effect → Type 0
PingedAt cfg t now_ms Rest es =
    (work : List Effect) × (rest : List Effect) × All IsQuiet work
    × (((t + watchdog_ping_ms ≤ now_ms)
          × (es ≡ work ++ (watchdog ∷ slept cfg.tick_us ∷ rest))
          × Rest now_ms rest)
        ⊎ ((now_ms < t + watchdog_ping_ms)
            × (es ≡ work ++ (slept cfg.tick_us ∷ rest))
            × Rest t rest))

-- the effects of iterations at these times, where the last ping before them was at `t`
abbrev pub Pinged : DeviceCfg → List ℕ → ℕ → List Effect → Type 0
Pinged cfg [] t es = es ≡ []
Pinged cfg (now_ms ∷ clock) t es = PingedAt cfg t now_ms (Pinged cfg clock) es

-- what a run has reached
abbrev pub Reached :
    {Net : Type 0} → (ℕ → List Effect → Type 0) → ℕ → Bool × Loop Net × List Effect → Type 0
Reached Rest t (going, l', es) = (going ≡ true) × IsBackoff l'.backoff_us × Rest t es

-- a clock that does not go back, from `since` on
abbrev pub Sorted : ℕ → List ℕ → Type 0
Sorted since [] = Unit
Sorted since (now_ms ∷ clock) = (since ≤ now_ms) × (now_ms < 2 ^ 64) × Sorted now_ms clock

-- the effects of one iteration, with nothing behind them
abbrev pub Ends : {Net : Type 0} → Loop Net → ℕ → List Effect → Type 0
Ends l' t es = (es ≡ []) × (l'.last_watchdog_ms ≡ t)

pub ping-PingedAt :
    {Net : Type 0} (cfg : DeviceCfg) (now_ms : ℕ) (l : Loop Net) (work : List Effect)
    → l.last_watchdog_ms ≤ now_ms
    → now_ms < 2 ^ 64
    → All IsQuiet work
    → let (l', es) = ping cfg now_ms l in
      PingedAt cfg l.last_watchdog_ms now_ms (Ends l') (work ++ es) × (l'.backoff_us ≡ l.backoff_us)
unfolding ping
ping-PingedAt cfg now_ms l work h bound quiet =
    let gap = (now_ms + 2 ^ 64 - l.last_watchdog_ms) % 2 ^ 64 in
    elim (Bool-cases (leb watchdog_ping_ms gap)) [
      | inl due ↦
          let long : watchdog_ping_ms ≤ gap = leb→le watchdog_ping_ms gap due in
          rw due ((work, [], quiet, inl (omega arith, refl, (refl, refl))), refl)
      | inr early ↦
          let short : gap < watchdog_ping_ms = leb→gt watchdog_ping_ms gap early in
          rw early ((work, [], quiet, inr (omega arith, refl, (refl, refl))), refl)
    ]

-- the effects of an iteration, with those of what follows behind them
pub PingedAt-append :
    {Net : Type 0} (cfg : DeviceCfg) (t now_ms : ℕ) (l' : Loop Net)
    (Rest : ℕ → List Effect → Type 0) (es fs : List Effect)
    → PingedAt cfg t now_ms (Ends l') es
    → Rest l'.last_watchdog_ms fs
    → PingedAt cfg t now_ms Rest (es ++ fs)
PingedAt-append cfg t now_ms l' Rest es fs (work, rest, quiet, inl (due, e, (none_left, last))) on =
    (
      work,
      fs,
      quiet,
      inl (
        due,
        ap (λ xs. xs ++ fs) e
            ∙ append_assoc work (watchdog ∷ slept cfg.tick_us ∷ rest) fs
            ∙ ap (λ xs. work ++ (watchdog ∷ slept cfg.tick_us ∷ (xs ++ fs))) none_left,
        rw (sym last) on,
      ),
    )
PingedAt-append cfg t now_ms l' Rest es fs (work, rest, quiet, inr (early, e, (none_left, last)))
      on =
    (
      work,
      fs,
      quiet,
      inr (
        early,
        ap (λ xs. xs ++ fs) e
            ∙ append_assoc work (slept cfg.tick_us ∷ rest) fs
            ∙ ap (λ xs. work ++ (slept cfg.tick_us ∷ (xs ++ fs))) none_left,
        rw (sym last) on,
      ),
    )

pub earlier : (clock : List ℕ) (t u : ℕ) → u ≤ t → Sorted t clock → Sorted u clock
earlier [] t u h s = tt
earlier (now_ms ∷ clock) t u h (after, bound, sorted) = (omega arith, bound, sorted)
