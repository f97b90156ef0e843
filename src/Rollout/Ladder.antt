-- ===== src/Rollout/Ladder.antt =====
-- No stage is reached without a passing evaluation of every stage before it (src/nova_voice/rollout.py).
use nova_voice.Base.{
  ℕ, ◌+◌, ◌≤◌, ◌<◌, ◌≡◌, refl, sym, if_both, subst, ◌⊎◌, inl, inr, String, Bool, true, false, not,
  ◌||◌, ◌&&◌, none, some, List, [], ◌∷◌, ◌++◌, ltb, leb, eqb, ◌==◌, exists, is_some, arith,
  Bool-cases, Option-cases, eq_of_==,
}
use nova_voice.Rollout.Defs.{
  Stage, fixture, standing_autonomy, stage_index, next_stage, Status, active, revoked, is_revoked,
  Evidence, Action, promoted, Event, Rollout, is_empty, same_stage, Refusal, Outcome, changed, kept,
  refused, create, selected_scope, promoted_to, promote_to, promote, revoke, revoked_by, rollback,
  rolled_to,
}

-- A call of the manager on a rollout.
pub data Call : Type 0 where
  promotion : (actor : String) (evidence : Evidence) (scope : List String) → Call
  revocation : (actor reason : String) → Call
  return_to : (actor : String) (target : Stage) (reason : String) → Call

unfoldable pub run : Call → ℕ → Rollout → Outcome
unfolding promote revoke rollback
run (promotion actor evidence scope) now r = promote r actor evidence scope now
run (revocation actor reason) now r = revoke r actor reason now
run (return_to actor target reason) now r = rollback r actor target reason now

abbrev pub result : Rollout → Outcome → Rollout
result r (changed r') = r'
result r kept = r
result r (refused e) = r

pub record Timed : Type 0 where
  pub call : Call
  pub now : ℕ

unfoldable pub run_all : List Timed → Rollout → Rollout
unfolding run
run_all [] r = r
run_all (c ∷ rest) r = run_all rest (result r (run c.call c.now r))

-- What a promotion that was granted satisfies.
pub record Granted (r : Rollout) (actor : String) (evidence : Evidence) (r' : Rollout)
    : Type 0 where
  pub was_active : r.status ≡ active
  pub by_owner : actor ≡ r.owner_id
  pub of_stage : stage_index evidence.stage ≡ stage_index r.stage
  pub of_pins : evidence.pins_digest ≡ r.pins_digest
  pub eligible : evidence.eligible ≡ true
  pub no_reasons : evidence.reasons ≡ []
  pub some_runs : 1 ≤ evidence.scenario_runs
  pub one_up : stage_index r'.stage ≡ stage_index r.stage + 1
  pub bounded : r'.stage ≡ standing_autonomy → is_empty r'.authority_scope ≡ false

next_stage-index :
    (s target : Stage) → next_stage s ≡ some target → stage_index target ≡ stage_index s + 1
unfolding next_stage stage_index
next_stage-index fixture target h = ground arith
next_stage-index s target h = ground arith

-- What a promotion that goes through has met.
module _ (r : Rollout) (actor : String) (evidence : Evidence) (scope : List String) (now : ℕ) where
  abbrev Checks : Stage → Type 0
  Checks target =
      (same_stage evidence.stage r.stage ≡ true)
      × ((evidence.pins_digest == r.pins_digest) ≡ true)
      × (evidence.eligible ≡ true)
      × (is_empty evidence.reasons ≡ true)
      × (eqb evidence.scenario_runs 0 ≡ false)
      × ((same_stage target standing_autonomy && is_empty (selected_scope scope r.authority_scope))
          ≡ false)

  promote_to-Checks :
      (target : Stage) (r' : Rollout)
      → promote_to r actor evidence scope now (some target) ≡ changed r'
      → Checks target
        × (r' ≡ promoted_to r actor evidence (selected_scope scope r.authority_scope) target now)
  unfolding promote_to
  promote_to-Checks target r' h = ground arith

  promote-shape :
      (r' : Rollout)
      → promote r actor evidence scope now ≡ changed r'
      → (is_revoked r.status ≡ false)
        × ((actor == r.owner_id) ≡ true)
        × (promote_to r actor evidence scope now (next_stage r.stage) ≡ changed r')
  unfolding promote
  promote-shape r' h = ground arith

  is_empty-nil : (xs : List String) → is_empty xs ≡ true → xs ≡ []
  is_empty-nil [] h = refl
  is_empty-nil (x ∷ xs) h = ground arith

  active-of : (s : Status) → is_revoked s ≡ false → s ≡ active
  active-of active h = refl
  active-of revoked h = ground arith

  bounded-of :
      (target : Stage) (xs : List String)
      → (same_stage target standing_autonomy && is_empty xs) ≡ false
      → target ≡ standing_autonomy
      → is_empty xs ≡ false
  unfolding stage_index
  bounded-of standing_autonomy xs h e = h
  bounded-of target xs h e = ground arith

  Granted-at :
      (target : Stage) (r' : Rollout)
      → next_stage r.stage ≡ some target
      → promote r actor evidence scope now ≡ changed r'
      → Granted r actor evidence r'
        × (r' ≡ promoted_to r actor evidence (selected_scope scope r.authority_scope) target now)
  unfolding promoted_to
  Granted-at target r' n h =
      let (a, o, p) = promote-shape r' h in
      let ((st, pins, el, re, runs, bd), e) =
        promote_to-Checks target r'
          (subst (λ x. promote_to r actor evidence scope now x ≡ changed r') n p) in
      (
        subst (Granted r actor evidence) (sym e) (record {
          was_active = active-of r.status a;
          by_owner = eq_of_== actor r.owner_id o;
          of_stage = ground arith;
          of_pins = eq_of_== evidence.pins_digest r.pins_digest pins;
          eligible = el;
          no_reasons = is_empty-nil evidence.reasons re;
          some_runs = ground arith;
          one_up = next_stage-index r.stage target n;
          bounded = bounded-of target (selected_scope scope r.authority_scope) bd;
        }),
        e,
      )

  -- A promotion that goes through is the owner's, of an active rollout, one stage up and no further,
  -- on passing evidence of the stage it leaves and of its own pins, and standing autonomy has a scope.
  pub promote-Granted :
      (r' : Rollout) → promote r actor evidence scope now ≡ changed r' → Granted r actor evidence r'
  unfolding promote_to
  promote-Granted r' h = elim (Option-cases (next_stage r.stage)) [
    | inl n ↦
        let top : refused Refusal.at_top ≡ changed r' =
          subst (λ x. promote_to r actor evidence scope now x ≡ changed r') n
            (promote-shape r' h).2 in
        cc (top)
    | inr (target, n) ↦ (Granted-at target r' n h).0
  ]

abbrev pub is_promotion : Action → Bool
is_promotion promoted = true
is_promotion _ = false

-- A promotion by the owner from a stage to the next one, on evidence.
abbrev pub is_step : String → Stage → Event → Bool
is_step owner s e =
    is_promotion e.action
    && e.actor_id == owner
    && (elim e.from_stage [ none ↦ false | some f ↦ same_stage f s ])
    && eqb (stage_index e.to_stage) (stage_index s + 1)
    && is_some e.evidence_revision

-- Every stage below the present one was left by the owner on evidence.
abbrev pub Earned : Rollout → Type 0
Earned r =
    (s : Stage)
    → stage_index s < stage_index r.stage
    → exists (is_step r.owner_id s) r.history ≡ true

exists-append :
    (p : Event → Bool) (xs : List Event) (y : Event) → exists p (xs ++ y ∷ []) ≡ exists p xs || p y
exists-append p [] y = ground arith
exists-append p (x ∷ xs) y = ground (arith, exists-append p xs y)

exists-more :
    (p : Event → Bool) (xs : List Event) (y : Event)
    → (exists p xs ≡ true) ⊎ (p y ≡ true)
    → exists p (xs ++ y ∷ []) ≡ true
exists-more p xs y h = ground (arith, exists-append p xs y)

-- A longer history, at a stage no higher.
Earned-later :
    (r r' : Rollout) (e : Event)
    → Earned r
    → r'.owner_id ≡ r.owner_id
    → r'.history ≡ r.history ++ e ∷ []
    → stage_index r'.stage ≤ stage_index r.stage
    → Earned r'
Earned-later r r' e h o w l s b =
    rw (o, w) (exists-more (is_step r.owner_id s) r.history e (inl (h s (omega arith))))

Earned-promote :
    (r : Rollout) (actor : String) (evidence : Evidence) (scope : List String) (now : ℕ)
    (r' : Rollout)
    → Earned r
    → promote r actor evidence scope now ≡ changed r'
    → Earned r'
unfolding promote_to promoted_to
Earned-promote r actor evidence scope now r' h c = elim (Option-cases (next_stage r.stage)) [
  | inl n ↦
      let top : refused Refusal.at_top ≡ changed r' =
        subst (λ x. promote_to r actor evidence scope now x ≡ changed r') n
          (promote-shape r actor evidence scope now r' c).2 in
      cc (top)
  | inr (target, n) ↦
      let (g, e) = Granted-at r actor evidence scope now target r' n c in
      subst Earned (sym e) (λ s b.
        exists-more (is_step r.owner_id s) r.history _
          (elim (Bool-cases (ltb (stage_index s) (stage_index r.stage))) [
            | inl l ↦ inl (h s (ground arith))
            | inr l ↦
                let up = next_stage-index r.stage target n in
                let own = (promote-shape r actor evidence scope now r' c).1 in inr (ground arith)
          ]))
]

Earned-revoke :
    (r : Rollout) (actor reason : String) (now : ℕ)
    → Earned r
    → Earned (result r (revoke r actor reason now))
unfolding revoke
Earned-revoke r actor reason now h =
    if_both (λ o. Earned (result r o)) (not (actor == r.owner_id)) _ _ h
      (if_both (λ o. Earned (result r o)) (is_revoked r.status) _ _ h
        (Earned-later r (revoked_by r actor reason now) _ h refl refl (omega arith)))

Earned-rollback :
    (r : Rollout) (actor : String) (target : Stage) (reason : String) (now : ℕ)
    → Earned r
    → Earned (result r (rollback r actor target reason now))
unfolding rollback
Earned-rollback r actor target reason now h =
    if_both (λ o. Earned (result r o)) (not (actor == r.owner_id)) _ _ h
      (elim (Bool-cases (leb (stage_index r.stage) (stage_index target))) [
        | inl e ↦ rw e h
        | inr e ↦
            rw e (Earned-later r (rolled_to r actor target reason now) _ h refl refl (ground arith))
      ])

Earned-result :
    (r : Rollout) (o : Outcome)
    → Earned r
    → ((r' : Rollout) → o ≡ changed r' → Earned r')
    → Earned (result r o)
Earned-result r (changed r') h k = k r' refl
Earned-result r kept h k = h
Earned-result r (refused e) h k = h

Earned-run : (c : Call) (now : ℕ) (r : Rollout) → Earned r → Earned (result r (run c now r))
unfolding run
Earned-run (promotion actor evidence scope) now r h =
    Earned-result r _ h (λ r'. Earned-promote r actor evidence scope now r' h)
Earned-run (revocation actor reason) now r h = Earned-revoke r actor reason now h
Earned-run (return_to actor target reason) now r h = Earned-rollback r actor target reason now h

Earned-run_all : (cs : List Timed) (r : Rollout) → Earned r → Earned (run_all cs r)
unfolding run_all
Earned-run_all [] r h = h
Earned-run_all (c ∷ rest) r h =
    Earned-run_all rest (result r (run c.call c.now r)) (Earned-run c.call c.now r h)

-- After any calls on a new rollout, its history holds, for every stage below the present one, a
-- promotion by the owner from that stage to the one above it that names its evidence.
pub run_all-Earned :
    (id owner component pins : String) (now : ℕ) (cs : List Timed)
    → Earned (run_all cs (create id owner component pins now))
unfolding create stage_index
run_all-Earned id owner component pins now cs =
    Earned-run_all cs (create id owner component pins now) (λ s b. ground arith)
