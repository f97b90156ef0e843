-- ===== src/Arbitration/Exclusion.antt =====
-- Two satellites never hold a live claim of one scope (src/nova_voice/audio/arbitration.py).
use nova_voice.Base.{
  ℕ, ◌+◌, ◌≤◌, ◌<◌, ◌≡◌, refl, sym, ap, ◌∙◌, inl, inr, String, true, false, not, ◌||◌, some, leb,
  max, ◌==◌, eq_iff, arith, Bool-cases, Option-cases, eq_refl,
}
use nova_voice.Arbitration.Defs.{
  Arbiter, new_arbiter, store, pop, is_claim, live_claim, is_gated, grant, acquire,
  extend_for_playback, release,
}

-- The current claims as of an instant: numbers not given out are of no claim, a claim that is neither
-- released nor past its deadline is the current one of its scope, a current claim is of that scope,
-- and no deadline is later than the longest hold allows.
pub record IsGood (a : Arbiter) (now : ℕ) : Type 0 where
  pub fresh : (c : ℕ) → a.next ≤ c → (a.heap c).released ≡ true
  pub held :
      (c : ℕ)
      → (a.heap c).released ≡ false
      → now < (a.heap c).deadline
      → a.current (a.heap c).scope_id ≡ some c
  pub scoped : (s : String) (c : ℕ) → a.current s ≡ some c → (a.heap c).scope_id ≡ s
  pub known : (s : String) (c : ℕ) → a.current s ≡ some c → c < a.next
  pub capped : (c : ℕ) → (a.heap c).deadline ≤ (a.heap c).acquired + max a.initial_hold a.max_hold

IsGood-later : (a : Arbiter) (now t : ℕ) → IsGood a now → now ≤ t → IsGood a t
IsGood-later a now t g l = record {
  fresh = g.fresh;
  held = λ c r d. g.held c r (omega arith);
  scoped = g.scoped;
  known = g.known;
  capped = g.capped;
}

-- Dropping the current claim of a scope, where it is over.
pop-IsGood :
    (a : Arbiter) (scope : String) (now : ℕ)
    → IsGood a now
    → ((c : ℕ)
        → a.current scope ≡ some c
        → (a.heap c).released || leb (a.heap c).deadline now ≡ true)
    → IsGood (pop a scope) now
pop-IsGood a scope now g over = record {
  fresh = g.fresh;
  held = λ c r d. ground (arith, g.held c r d, over c, eq_iff scope (a.heap c).scope_id);
  scoped = λ s c h. ground (arith, g.scoped s c);
  known = λ s c h. ground (arith, g.known s c);
  capped = g.capped;
}

live_claim-IsGood :
    (a : Arbiter) (scope : String) (now : ℕ) → IsGood a now → IsGood (live_claim a scope now).1 now
unfolding live_claim
live_claim-IsGood a scope now g = elim (Option-cases (a.current scope)) [
  | inl e ↦ rw (e, live_claim) g
  | inr (c, e) ↦ elim (Bool-cases ((a.heap c).released || leb (a.heap c).deadline now)) [
    | inl o ↦ rw (e, live_claim, o) (pop-IsGood a scope now g (λ d x. ground arith))
    | inr o ↦ rw (e, live_claim, o) g
  ]
]

-- Releasing an object, where no live claim loses its place by it.
store-released :
    (a : Arbiter) (c now : ℕ)
    → IsGood a now
    → IsGood (store a c (record (a.heap c) { released = true })) now
store-released a c now g = record {
  fresh = λ d l. ground (arith, g.fresh d);
  held = λ d r l. ground (arith, g.held d);
  scoped = λ s d h. ground (arith, g.scoped s d);
  known = λ s d h. ground (arith, g.known s d);
  capped = λ d. ground (arith, g.capped d);
}

release-IsGood : (a : Arbiter) (c now : ℕ) → IsGood a now → IsGood (release a c) now
unfolding release
release-IsGood a c now g = elim (Bool-cases (a.heap c).released) [
  | inl r ↦ rw (release, r) g
  | inr r ↦
      let freed = store a c (record (a.heap c) { released = true }) in
      let good = store-released a c now g in
      elim (Bool-cases (is_claim (a.current (a.heap c).scope_id) c)) [
        | inl i ↦
            rw (release, r, i) (pop-IsGood freed (a.heap c).scope_id now good (λ d x. ground arith))
        | inr i ↦ rw (release, r, i) good
      ]
]

extend-IsGood :
    (a : Arbiter) (c remaining now : ℕ)
    → IsGood a now
    → IsGood (extend_for_playback a c remaining now) now
unfolding extend_for_playback
extend-IsGood a c remaining now g =
    elim (Bool-cases ((a.heap c).released || not (is_claim (a.current (a.heap c).scope_id) c))) [
      | inl i ↦ rw (extend_for_playback, i) g
      | inr i ↦
          rw (extend_for_playback, i)
            (record {
              fresh = λ d l. ground (arith, g.fresh d);
              held = λ d r l. ground (arith, g.held d);
              scoped = λ s d h. ground (arith, g.scoped s d);
              known = λ s d h. ground (arith, g.known s d);
              capped = λ d. ground (arith, g.capped d, g.capped c);
            })
    ]

grant-IsGood :
    (a : Arbiter) (scope satellite room : String) (now : ℕ)
    → IsGood a now
    → ((c : ℕ) → a.current scope ≡ some c → (a.heap c).released ≡ true)
    → IsGood (grant a scope satellite room now) now
unfolding grant
grant-IsGood a scope satellite room now g over = record {
  fresh = λ d l. ground (arith, g.fresh d);
  held = λ d r l. ground (arith, g.held d, over d, eq_iff scope (a.heap d).scope_id, eq_refl scope);
  scoped = λ s d h. ground (arith, g.scoped s d, g.known s d, eq_iff scope s);
  known = λ s d h. ground (arith, g.known s d);
  capped = λ d. ground (arith, g.capped d);
}

acquire-IsGood :
    (a : Arbiter) (scope satellite room : String) (t1 t2 : ℕ)
    → IsGood a t1
    → t1 ≤ t2
    → IsGood (acquire a scope satellite room t1 t2).1 t2
unfolding acquire live_claim
acquire-IsGood a scope satellite room t1 t2 g l =
    let later = λ (b : Arbiter) (h : IsGood b t1). IsGood-later b t1 t2 h l in
    elim (Option-cases (a.current scope)) [
      | inl e ↦
          rw (e, acquire, live_claim)
            (grant-IsGood a scope satellite room t2 (later a g) (λ c x. ground arith))
      | inr (c, e) ↦ elim (Bool-cases ((a.heap c).released || leb (a.heap c).deadline t1)) [
        | inl o ↦
            let popped = pop-IsGood a scope t1 g (λ d x. ground arith) in
            rw (e, acquire, live_claim, o)
              (grant-IsGood (pop a scope) scope satellite room t2 (later (pop a scope) popped)
                (λ d x. ground (arith, eq_refl scope)))
        | inr o ↦ elim (Bool-cases ((a.heap c).satellite_id == satellite)) [
          | inl own ↦
              let freed = store a c (record (a.heap c) { released = true }) in
              rw (e, acquire, live_claim, o, own)
                (grant-IsGood freed scope satellite room t2 (later freed (store-released a c t1 g))
                  (λ d x. ground arith))
          | inr other ↦ rw (e, acquire, live_claim, o, other) (later a g)
        ]
      ]
    ]

-- What is asked of the arbiter.
pub data Request : Type 0 where
  ask : (scope satellite : String) → Request
  claim : (scope satellite room : String) (later : ℕ) → Request
  extend : (c remaining : ℕ) → Request
  free : (c : ℕ) → Request

unfoldable pub serve : Request → ℕ → Arbiter → Arbiter
unfolding is_gated acquire extend_for_playback release
serve (ask scope satellite) now a = (is_gated a scope satellite now).1
serve (claim scope satellite room later) now a =
    (acquire a scope satellite room now (now + later)).1
serve (extend c remaining) now a = extend_for_playback a c remaining now
serve (free c) now a = release a c

-- The instant at which a request has read the clock last.
abbrev pub ends : Request → ℕ → ℕ
ends (claim scope satellite room later) now = now + later
ends _ now = now

-- The arbiters, with the instants, that requests on a clock that never goes back lead to.
pub data Reached (initial most grace : ℕ) : Arbiter → ℕ → Type 0 where
  at_first : (now : ℕ) → Reached initial most grace (new_arbiter initial most grace) now
  wait :
      (a : Arbiter) (before now : ℕ)
      → Reached initial most grace a before
      → before ≤ now
      → Reached initial most grace a now
  after :
      (a : Arbiter) (before now : ℕ) (r : Request)
      → Reached initial most grace a before
      → before ≤ now
      → Reached initial most grace (serve r now a) (ends r now)

serve-IsGood :
    (r : Request) (now : ℕ) (a : Arbiter) → IsGood a now → IsGood (serve r now a) (ends r now)
unfolding serve is_gated
serve-IsGood (ask scope satellite) now a g = live_claim-IsGood a scope now g
serve-IsGood (claim scope satellite room later) now a g =
    acquire-IsGood a scope satellite room now (now + later) g (omega arith)
serve-IsGood (extend c remaining) now a g = extend-IsGood a c remaining now g
serve-IsGood (free c) now a g = release-IsGood a c now g

Reached-IsGood :
    (initial most grace : ℕ) (a : Arbiter) (now : ℕ)
    → Reached initial most grace a now
    → IsGood a now
unfolding new_arbiter
Reached-IsGood initial most grace _ _ (at_first now) = record {
  fresh = λ c l. refl;
  held = λ c r d. ground arith;
  scoped = λ s c h. ground arith;
  known = λ s c h. ground arith;
  capped = λ c. omega arith;
}
Reached-IsGood initial most grace _ _ (wait a before now w l) =
    IsGood-later a before now (Reached-IsGood initial most grace a before w) l
Reached-IsGood initial most grace _ _ (after a before now r w l) =
    serve-IsGood r now a
      (IsGood-later a before now (Reached-IsGood initial most grace a before w) l)

-- A claim that is neither released nor past its deadline.
abbrev pub IsLive : Arbiter → ℕ → ℕ → Type 0
IsLive a now c = ((a.heap c).released ≡ false) × (now < (a.heap c).deadline)

-- At any instant, whatever satellites asked, claimed, extended and released, a scope has one live
-- claim at most; its own satellite passes the gate and every other one is stopped there.
pub one_claim_at_once :
    (initial most grace : ℕ) (a : Arbiter) (now : ℕ) (c d : ℕ) (satellite : String)
    → Reached initial most grace a now
    → IsLive a now c
    → ((a.heap d).scope_id ≡ (a.heap c).scope_id → IsLive a now d → d ≡ c)
      × ((is_gated a (a.heap c).scope_id satellite now).0
          ≡ not ((a.heap c).satellite_id == satellite))
unfolding is_gated live_claim
one_claim_at_once initial most grace a now c d satellite w live =
    let g = Reached-IsGood initial most grace a now w in
    let here = g.held c live.0 live.1 in
    let fresh : (a.heap c).released || leb (a.heap c).deadline now ≡ false = ground arith in
    (
      λ e l.
          let there = g.held d l.0 l.1 in
          let same : some d ≡ some c = sym there ∙ ap a.current e ∙ here in ground arith,
      rw (is_gated, live_claim, here, fresh) refl,
    )

-- No claim sticks: its deadline is at most the longest hold after it was acquired, however often it
-- is extended, and from the deadline on no satellite is gated by it.
pub no_claim_sticks :
    (initial most grace : ℕ) (a : Arbiter) (now : ℕ) (scope satellite : String) (c : ℕ)
    → Reached initial most grace a now
    → a.current scope ≡ some c
    → (a.heap c).acquired + max a.initial_hold a.max_hold ≤ now
    → (is_gated a scope satellite now).0 ≡ false
unfolding is_gated live_claim
no_claim_sticks initial most grace a now scope satellite c w h late =
    let g = Reached-IsGood initial most grace a now w in
    let cap = g.capped c in
    let over : (a.heap c).released || leb (a.heap c).deadline now ≡ true = ground arith in
    rw (is_gated, live_claim, h, over) refl
