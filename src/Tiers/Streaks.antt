-- ===== src/Tiers/Streaks.antt =====
-- What it takes to climb a tier, and what it takes to fall.
use nova_voice.Base.{
  ℕ, ◌+◌, ◌≤◌, ◌<◌, ◌≡◌, ◌≢◌, refl, true, Option, none, some, List, [], ◌∷◌, arith, ◌⊎◌, inl, inr,
  ◌∙◌, if◌then◌else◌, is_some, Option-cases, subst, ap, Bool-cases,
}
use nova_voice.Tiers.Defs.{
  Tier, tier_rank, Telemetry, Thresholds, Decision, raw_tier, Tracker, new_tracker,
  clears_hysteresis, update, same_tier, is_pending,
}

-- One telemetry frame, and when it came.
pub record Reading : Type 0 where
  pub telemetry : Telemetry
  pub at : ℕ

-- The tracker after a list of readings, the newest first; `none` is a failed assertion.
unfoldable pub after : Thresholds → List Reading → Option Tracker
unfolding update new_tracker
after limits [] = some (new_tracker limits)
after limits (r ∷ earlier) = elim (after limits earlier) [
  | none ↦ none
  | some k ↦ elim (update k r.telemetry r.at) [ none ↦ none | some (d, k') ↦ some k' ]
]

-- A reading argues for a tier, with headroom past its floor.
pub record Argues (limits : Thresholds) (tier : Tier) (r : Reading) : Type 0 where
  pub candidate : (raw_tier r.telemetry limits).0 ≡ tier
  pub headroom : clears_hysteresis limits r.telemetry tier ≡ true

-- The newest readings, back to one at `since`, all argue for a tier.
pub data Streak (limits : Thresholds) (tier : Tier) : List Reading → ℕ → Type 0 where
  one : (r : Reading) (h : List Reading) → Argues limits tier r → Streak limits tier (r ∷ h) r.at
  more :
      (r : Reading) {h : List Reading} {since : ℕ}
      → Argues limits tier r
      → Streak limits tier h since
      → Streak limits tier (r ∷ h) since

-- The tracker after the readings `h`: what is pending is backed by a streak of them.
pub record IsBacked (limits : Thresholds) (h : List Reading) (k : Tracker) : Type 0 where
  pub limits_kept : k.thresholds ≡ limits
  pub unread : k.last_update ≡ none → k.pending_tier ≡ none
  pub paired : is_some k.pending_tier ≡ is_some k.pending_since
  pub backed :
      (tier : Tier) (since : ℕ)
      → k.pending_tier ≡ some tier
      → k.pending_since ≡ some since
      → Streak limits tier h since

same_tier→eq : (a b : Tier) → same_tier a b ≡ true → a ≡ b
unfolding tier_rank
same_tier→eq a b h = ground arith

update_total :
    (k : Tracker) (t : Telemetry) (now : ℕ)
    → is_some k.pending_tier ≡ is_some k.pending_since
    → update k t now ≢ none
unfolding update
update_total k t now p = ground arith

-- Since when a candidate is pending, once it is.
begun : Tracker → Tier → ℕ → ℕ
begun k candidate now =
    if is_pending k.pending_tier candidate
    then elim k.pending_since [ none ↦ now | some since ↦ since ]
    else now

extend :
    (limits : Thresholds) (h : List Reading) (k : Tracker) (r : Reading) (tier : Tier) (since : ℕ)
    → IsBacked limits h k
    → (same_tier (raw_tier r.telemetry k.thresholds).0 tier ≡ true)
      × (clears_hysteresis k.thresholds r.telemetry (raw_tier r.telemetry k.thresholds).0 ≡ true)
      × ((since ≡ r.at) ⊎ (k.pending_tier ≡ some tier) × (k.pending_since ≡ some since))
    → Streak limits tier (r ∷ h) since
extend limits h k r tier since b (same, clears, began) =
    let e : (raw_tier r.telemetry limits).0 ≡ tier =
      rw (← b.limits_kept) (same_tier→eq (raw_tier r.telemetry k.thresholds).0 tier same) in
    let argues : Argues limits tier r = record {
      candidate = e;
      headroom = rw (← e, ← b.limits_kept) clears;
    } in
    elim began [
      | inl now ↦ rw now (one r h argues)
      | inr (p, q) ↦ more r argues (b.backed tier since p q)
    ]

module _ (k k' : Tracker) (d : Decision) (t : Telemetry) (now : ℕ)
    (u : update k t now ≡ some (d, k')) (unread : k.last_update ≡ none → k.pending_tier ≡ none)
    (paired : is_some k.pending_tier ≡ is_some k.pending_since) where
  update_frame :
      (k'.thresholds ≡ k.thresholds)
      × (k'.last_update ≡ some now)
      × (is_some k'.pending_tier ≡ is_some k'.pending_since)
  unfolding update
  update_frame = ground arith

  -- What is pending after an update was argued for now, and was begun now or was pending before.
  update_pending :
      (tier : Tier) (since : ℕ)
      → k'.pending_tier ≡ some tier
      → k'.pending_since ≡ some since
      → (same_tier (raw_tier t k.thresholds).0 tier ≡ true)
        × (clears_hysteresis k.thresholds t (raw_tier t k.thresholds).0 ≡ true)
        × ((since ≡ now) ⊎ (k.pending_tier ≡ some tier) × (k.pending_since ≡ some since))
  unfolding update
  update_pending tier since p q = ground arith

  -- A climb was argued for now, a dwell after its candidate was first pending.
  update_climbs :
      k.last_update ≢ none
      → tier_rank k.tier < tier_rank k'.tier
      → ((raw_tier t k.thresholds).0 ≡ k'.tier)
        × (clears_hysteresis k.thresholds t (raw_tier t k.thresholds).0 ≡ true)
        × (begun k k'.tier now + k.thresholds.dwell_seconds ≤ now)
  unfolding update begun
  update_climbs f c = ground arith

-- The tracker's state after the readings keeps its backing.
update-IsBacked :
    (limits : Thresholds) (h : List Reading) (k k' : Tracker) (d : Decision) (r : Reading)
    → IsBacked limits h k
    → update k r.telemetry r.at ≡ some (d, k')
    → IsBacked limits (r ∷ h) k'
update-IsBacked limits h k k' d r b u =
    let frame = update_frame k k' d r.telemetry r.at u b.unread b.paired in
    record {
      limits_kept = frame.0 ∙ b.limits_kept;
      unread = λ e. cc (frame.1);
      paired = frame.2;
      backed = λ tier since p q.
          extend limits h k r tier since b
            (update_pending k k' d r.telemetry r.at u b.unread b.paired tier since p q);
    }

-- The assertion in `update` never fails: from a new tracker every list of readings is taken in, and
-- a tier that is then pending is backed by an unbroken streak of readings, back to the one at which
-- it was first pending, that argue for it with headroom.
after-IsBacked :
    (limits : Thresholds) (h : List Reading)
    → (k : Tracker) × (after limits h ≡ some k) × IsBacked limits h k
unfolding after
after-IsBacked limits [] = (
  new_tracker limits,
  refl,
  record { limits_kept = refl; unread = λ _. refl; paired = refl; backed = λ tier since p q. cc },
)
after-IsBacked limits (r ∷ h) =
    let (k, e, b) = after-IsBacked limits h in
    elim (Option-cases (update k r.telemetry r.at)) [
      | inl u ↦ absurd (update_total k r.telemetry r.at b.paired u)
      | inr ((d, k'), u) ↦ (k', rw (e, u) refl, update-IsBacked limits h k k' d r b u)
    ]

IsBacked-at :
    (limits : Thresholds) (h : List Reading) (k : Tracker)
    → after limits h ≡ some k
    → IsBacked limits h k
IsBacked-at limits h k e =
    let (k0, e0, b) = after-IsBacked limits h in
    let same : k0 ≡ k = cc (e0, e) in subst (IsBacked limits h) same b

lost :
    (limits : Thresholds) (h : List Reading) (r : Reading) (k k' : Tracker)
    → after limits h ≡ some k
    → update k r.telemetry r.at ≡ none
    → after limits (r ∷ h) ≢ some k'
unfolding after
lost limits h r k k' e u = rw (e, u) (λ x. cc)

same :
    (limits : Thresholds) (h : List Reading) (r : Reading) (k k' k0 : Tracker) (d : Decision)
    → after limits h ≡ some k
    → update k r.telemetry r.at ≡ some (d, k0)
    → after limits (r ∷ h) ≡ some k'
    → k0 ≡ k'
unfolding after
same limits h r k k' k0 d e u = rw (e, u) (λ x. cc)

after_step :
    (limits : Thresholds) (h : List Reading) (r : Reading) (k k' : Tracker)
    → after limits h ≡ some k
    → after limits (r ∷ h) ≡ some k'
    → (d : Decision) × (update k r.telemetry r.at ≡ some (d, k'))
unfolding after
after_step limits h r k k' e e' = elim (Option-cases (update k r.telemetry r.at)) [
  | inl u ↦ absurd (lost limits h r k k' e u e')
  | inr ((d, k0), u) ↦ (d, u ∙ ap (λ x. some (d, x)) (same limits h r k k' k0 d e u e'))
]

unpaired :
    (k : Tracker) (t : Tier)
    → is_some k.pending_tier ≡ is_some k.pending_since
    → k.pending_tier ≡ some t
    → k.pending_since ≢ none
unpaired k t paired p = λ q. ground arith

begun_streak :
    (limits : Thresholds) (h : List Reading) (r : Reading) (k : Tracker) (tier : Tier)
    → IsBacked limits h k
    → Argues limits tier r
    → Streak limits tier (r ∷ h) (begun k tier r.at)
unfolding begun
begun_streak limits h r k tier b a = elim (Option-cases k.pending_tier) [
  | inl p ↦ rw p (one r h a)
  | inr (t, p) ↦ elim (Bool-cases (same_tier t tier)) [
    | inl s ↦ elim (Option-cases k.pending_since) [
      | inl q ↦ absurd (unpaired k t b.paired p q)
      | inr (since, q) ↦
          rw (p, s, q) (more r a (b.backed tier since (p ∙ ap some (same_tier→eq t tier s)) q))
    ]
    | inr s ↦ rw (p, s) (one r h a)
  ]
]

update-le-raw :
    (k k' : Tracker) (d : Decision) (t : Telemetry) (now : ℕ)
    → update k t now ≡ some (d, k')
    → tier_rank k'.tier ≤ tier_rank (raw_tier t k.thresholds).0
unfolding update
update-le-raw k k' d t now u = ground arith

-- After the first reading the tier climbs only when the newest readings, back to one that is a
-- dwell older at least, all argued for the new tier with headroom past its floor.
pub climb_needs_streak :
    (limits : Thresholds) (h : List Reading) (r : Reading) (k k' : Tracker)
    → after limits h ≡ some k
    → after limits (r ∷ h) ≡ some k'
    → k.last_update ≢ none
    → tier_rank k.tier < tier_rank k'.tier
    → (since : ℕ) × Streak limits k'.tier (r ∷ h) since × (since + limits.dwell_seconds ≤ r.at)
climb_needs_streak limits h r k k' e e' f c =
    let b = IsBacked-at limits h k e in
    let (d, u) = after_step limits h r k k' e e' in
    let (candidate, clears, waited) =
      update_climbs k k' d r.telemetry r.at u b.unread b.paired f c in
    (
      begun k k'.tier r.at,
      begun_streak limits h r k k'.tier b (record {
        candidate = rw (← b.limits_kept) candidate;
        headroom = rw (← candidate, ← b.limits_kept) clears;
      }),
      rw (← b.limits_kept) waited,
    )

-- The tier is never above what the newest reading argues for: a degradation is believed at once.
tier-le-raw :
    (limits : Thresholds) (h : List Reading) (r : Reading) (k' : Tracker)
    → after limits (r ∷ h) ≡ some k'
    → tier_rank k'.tier ≤ tier_rank (raw_tier r.telemetry limits).0
tier-le-raw limits h r k' e =
    let (k, e0, b) = after-IsBacked limits h in
    let (d, u) = after_step limits h r k k' e0 e in
    rw (← b.limits_kept) (update-le-raw k k' d r.telemetry r.at u)
