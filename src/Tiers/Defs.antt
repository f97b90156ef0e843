-- ===== src/Tiers/Defs.antt =====
-- Telemetry mapped onto a participation tier (src/nova_voice/companion/tiers.py). A battery level and
-- its thresholds are in millionths of a full battery, instants and durations in microseconds of one
-- clock. A reason is a value with what its text shows, in place of the formatted text.
use nova_voice.Base.{
  ℕ, ◌+◌, ◌-◌, Bool, true, false, not, ◌&&◌, Option, none, some, ltb, leb, eqb, if◌then◌else◌,
}

-- `CompanionTier`
pub data Tier : Type 0 where
  off advisory reduced full : Tier

-- `tier_rank`: the place in `_TIER_ORDER`, worst first
unfoldable pub tier_rank : Tier → ℕ
tier_rank off = 0
tier_rank advisory = 1
tier_rank reduced = 2
tier_rank full = 3

abbrev pub same_tier : Tier → Tier → Bool
same_tier a b = eqb (tier_rank a) (tier_rank b)

pub data Thermal : Type 0 where
  nominal fair serious critical : Thermal

-- What the tiers read of `CompanionTelemetry`.
pub record Telemetry : Type 0 where
  pub thermal_state : Thermal
  pub hot_available : Bool
  pub battery : ℕ
  pub charging : Bool
  pub low_power_mode : Bool

-- `TierThresholds`
pub record Thresholds : Type 0 where
  pub off_below : ℕ
  pub advisory_below : ℕ
  pub reduced_below : ℕ
  pub hysteresis : ℕ
  pub dwell_seconds : ℕ
  pub stale_after_seconds : ℕ

abbrev pub default_thresholds : Thresholds
default_thresholds = record {
  off_below = 150000;
  advisory_below = 250000;
  reduced_below = 500000;
  hysteresis = 50000;
  dwell_seconds = 60000000;
  stale_after_seconds = 180000000;
}

pub data Reason : Type 0 where
  thermal_critical no_model thermal_serious low_power charging no_telemetry empty : Reason
  below_floor low below_half nominal : (battery : ℕ) → Reason
  stale : (age : ℕ) → Reason

-- `TierDecision`
pub record Decision : Type 0 where
  pub tier : Tier
  pub reason : Reason
  pub changed : Bool

abbrev pub is_critical : Thermal → Bool
is_critical critical = true
is_critical _ = false

abbrev pub is_serious : Thermal → Bool
is_serious serious = true
is_serious _ = false

-- `_raw_tier`
unfoldable pub raw_tier : Telemetry → Thresholds → Tier × Reason
raw_tier t limits =
    if is_critical t.thermal_state
    then (off, thermal_critical)
    else if not t.hot_available
    then (off, no_model)
    else if ltb t.battery limits.off_below && not t.charging
    then (off, below_floor t.battery)
    else if is_serious t.thermal_state
    then (advisory, thermal_serious)
    else if t.low_power_mode
    then (advisory, low_power)
    else if t.charging
    then (full, Reason.charging)
    else if ltb t.battery limits.advisory_below
    then (advisory, low t.battery)
    else if ltb t.battery limits.reduced_below
    then (reduced, below_half t.battery)
    else (full, Reason.nominal t.battery)

-- `TierTracker`
pub record Tracker : Type 0 where
  pub thresholds : Thresholds
  pub tier : Tier
  pub reason : Reason
  pub last_update : Option ℕ
  pub pending_tier : Option Tier
  pub pending_reason : Reason
  pub pending_since : Option ℕ

unfoldable pub new_tracker : Thresholds → Tracker
new_tracker limits = record {
  thresholds = limits;
  tier = off;
  reason = no_telemetry;
  last_update = none;
  pending_tier = none;
  pending_reason = empty;
  pending_since = none;
}

-- `_clear_pending`
unfoldable pub clear_pending : Tracker → Tracker
clear_pending k = record k { pending_tier = none; pending_reason = empty; pending_since = none }

-- The floor under a tier, by which `_clears_hysteresis` measures.
unfoldable pub floor_of : Thresholds → Tier → Option ℕ
floor_of limits off = none
floor_of limits advisory = some limits.off_below
floor_of limits reduced = some limits.advisory_below
floor_of limits full = some limits.reduced_below

-- `_clears_hysteresis`
unfoldable pub clears_hysteresis : Thresholds → Telemetry → Tier → Bool
unfolding floor_of
clears_hysteresis limits t candidate =
    if t.charging then true else elim (floor_of limits candidate) [
      | none ↦ true
      | some floor ↦ leb (floor + limits.hysteresis) t.battery
    ]

abbrev pub is_pending : Option Tier → Tier → Bool
is_pending none candidate = false
is_pending (some p) candidate = same_tier p candidate

-- `if self._pending_tier != candidate: …`
unfoldable pub pend : Tracker → Tier → Reason → ℕ → Tracker
pend k candidate reason now = if is_pending k.pending_tier candidate then k else record k {
  pending_tier = some candidate;
  pending_reason = reason;
  pending_since = some now;
}

-- The end of `update`, once the candidate is pending; `none` is the failed assertion.
unfoldable pub dwell : Tracker → Tier → ℕ → Option (Decision × Tracker)
unfolding clear_pending
dwell k candidate now = elim k.pending_since [
  | none ↦ none
  | some since ↦
      if ltb now (since + k.thresholds.dwell_seconds)
      then some (record { tier = k.tier; reason = k.reason; changed = false }, k)
      else some (
        record { tier = candidate; reason = k.pending_reason; changed = true },
        clear_pending (record k { tier = candidate; reason = k.pending_reason }),
      )
]

-- `update`
unfoldable pub update : Tracker → Telemetry → ℕ → Option (Decision × Tracker)
unfolding clear_pending pend dwell
update before t now =
    let k = record before { last_update = some now } in
    let (candidate, reason) = raw_tier t k.thresholds in
    let held =
      some (record { tier = k.tier; reason = k.reason; changed = false }, clear_pending k) in
    let taken : Decision = record { tier = candidate; reason = reason; changed = true } in
    elim before.last_update [
      | none ↦ some (taken, record k { tier = candidate; reason = reason })
      | some _ ↦
          if same_tier candidate k.tier
          then held
          else if ltb (tier_rank candidate) (tier_rank k.tier)
          then some (taken, record (clear_pending k) { tier = candidate; reason = reason })
          else if not (clears_hysteresis k.thresholds t candidate)
          then held
          else dwell (pend k candidate reason now) candidate now
    ]

-- `current`
unfoldable pub current : Tracker → ℕ → Decision
current k now = elim k.last_update [
  | none ↦ record { tier = off; reason = no_telemetry; changed = false }
  | some last ↦
      if ltb (last + k.thresholds.stale_after_seconds) now
      then record { tier = off; reason = stale (now - last); changed = false }
      else record { tier = k.tier; reason = k.reason; changed = false }
]
