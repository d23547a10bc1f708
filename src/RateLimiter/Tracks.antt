-- ===== src/RateLimiter/Tracks.antt =====
-- A pruned window stands for the whole log of admissions: the step that both limits share.
use st0x_rest_api.Prelude.{
  ℕ, ◌≤◌, ◌≡◌, refl, ap, ◌∙◌, List, [], ◌∷◌, arith, ltb, length, Bool-cases, inl, inr, Bool,
}
use st0x_rest_api.RateLimiter.{prune_window, Clock, cutoff_at, admit, RateLimitInfo}
use st0x_rest_api.RateLimiter.Window.{
  prune-prune, prune_append_congr, IsLog, IsLog-append, IsLog-mono, prune-eq-keep,
}
use st0x_rest_api.RateLimiter.Log.{recent, log_step}

-- The window and the log agree at each cutoff from `c` on.
abbrev pub Tracks : ℕ → List ℕ → List ℕ → Type 0
Tracks c w log = (d : ℕ) → c ≤ d → prune_window d w ≡ prune_window d log

pub Tracks-mono : (c d : ℕ) (w log : List ℕ) → c ≤ d → Tracks c w log → Tracks d w log
Tracks-mono c d w log h t e k = t e (omega arith)

pub Tracks-prune :
    (c d : ℕ) (w log : List ℕ) → c ≤ d → Tracks c w log → Tracks d (prune_window d w) log
Tracks-prune c d w log h t e k = prune-prune d e w k ∙ t e (omega arith)

module _ (rpm c hi : ℕ) (w log : List ℕ) (clock : Clock) where
  abbrev admit_step : List ℕ × Bool × RateLimitInfo
  admit_step = admit rpm (prune_window (cutoff_at clock) w) clock

  length-recent :
      c ≤ cutoff_at clock
      → IsLog 0 hi log
      → Tracks c w log
      → length (prune_window (cutoff_at clock) w) ≡ recent clock.now log
  unfolding recent
  length-recent h l t =
      ap length (t (cutoff_at clock) h ∙ prune-eq-keep (cutoff_at clock) 0 hi log l)

  -- The test on the pruned window decides as the log does, and the new window tracks the new log.
  pub admit-log_step :
      c ≤ cutoff_at clock
      → hi ≤ clock.now
      → IsLog 0 hi log
      → Tracks c w log
      → (admit_step.1 ≡ (log_step rpm log clock.now).1)
        × Tracks (cutoff_at clock) admit_step.0 (log_step rpm log clock.now).0
        × IsLog 0 clock.now (log_step rpm log clock.now).0
  unfolding admit log_step
  admit-log_step h m l t = elim (Bool-cases (ltb (recent clock.now log) rpm)) [
    | inl room ↦
        rw (length-recent h l t, room)
          (
            refl,
            λ d k.
                prune_append_congr d _ log (clock.now ∷ [])
                  (Tracks-prune c (cutoff_at clock) w log h t d k),
            IsLog-append 0 hi clock.now log m l,
          )
    | inr full ↦
        rw (length-recent h l t, full)
          (refl, Tracks-prune c (cutoff_at clock) w log h t, IsLog-mono 0 hi clock.now log m l)
  ]
