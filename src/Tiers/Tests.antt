-- ===== src/Tiers/Tests.antt =====
-- Runs of a tracker, and the theorems about tiers at concrete readings.
use nova_voice.Base.{ℕ, ◌+◌, ◌≤◌, ◌<◌, ◌≡◌, refl, true, false, none, some, List, [], ◌∷◌, arith}
use nova_voice.Tiers.Defs.{
  off, reduced, full, tier_rank, nominal, default_thresholds, raw_tier, Tracker, new_tracker,
  clears_hysteresis, current,
}
use nova_voice.Tiers.Streaks.{Reading, after, Streak, climb_needs_streak}

abbrev reading : ℕ → ℕ → Reading
reading battery at = record {
  telemetry = record {
    thermal_state = nominal;
    hot_available = true;
    battery = battery;
    charging = false;
    low_power_mode = false;
  };
  at = at;
}

-- Below half at first, then well above it for a dwell.
abbrev early : List Reading
early = reading 700000 10000000 ∷ reading 400000 0 ∷ []

tracked : Tracker
tracked = elim (after default_thresholds early) [
  | none ↦ new_tracker default_thresholds
  | some k ↦ k
]

climbed : Tracker
climbed = elim (after default_thresholds (reading 800000 70000000 ∷ early)) [
  | none ↦ new_tracker default_thresholds
  | some k ↦ k
]

early-tracked : after default_thresholds early ≡ some tracked
unfolding tracked after raw_tier clears_hysteresis tier_rank
early-tracked = refl

late-climbed : after default_thresholds (reading 800000 70000000 ∷ early) ≡ some climbed
unfolding climbed after raw_tier clears_hysteresis tier_rank
late-climbed = refl

tiers_seen : (tracked.tier ≡ reduced) × (climbed.tier ≡ full)
unfolding tracked climbed after raw_tier clears_hysteresis tier_rank
tiers_seen = (refl, refl)

climb_ranks : tier_rank tracked.tier < tier_rank climbed.tier
unfolding tier_rank
climb_ranks = rw (tiers_seen.0, tiers_seen.1) (omega arith)

stale_is_off : (current tracked 200000000).tier ≡ off
unfolding current tracked after raw_tier clears_hysteresis tier_rank
stale_is_off = refl

tracked_read : tracked.last_update ≡ some 10000000
unfolding tracked after raw_tier clears_hysteresis tier_rank
tracked_read = refl

climb_needs_streak_example :
    (since : ℕ) × Streak default_thresholds climbed.tier (reading 800000 70000000 ∷ early) since
    × (since + 60000000 ≤ 70000000)
climb_needs_streak_example =
    climb_needs_streak default_thresholds early (reading 800000 70000000) tracked climbed
      early-tracked late-climbed (λ e. cc (tracked_read)) climb_ranks
