-- ===== src/Automation/Lifecycle.antt =====
-- What an automation that is active has behind it, whatever calls came (src/nova_voice/automation.py).
use nova_voice.Base.{
  ℕ, ◌≡◌, refl, sym, ap, String, Bool, true, false, not, ◌||◌, some, List, [], ◌∷◌, ◌==◌, eq_of_==,
  is_some, arith, Bool-cases, inl, inr,
}
use nova_voice.Automation.Defs.{
  State, draft, simulated, approved, active, paused, rolled_back, failed, Automation, Outcome,
  refused, changed, is_open_draft, is_simulated, is_approved, is_active, is_running, is_safe,
  simulate, approve, activate, roll_back, fail_monitor,
}

-- A call of the manager on an automation, at an instant.
pub data Call : Type 0 where
  simulates : (revision : String) (now : ℕ) → Call
  approves : (actor : String) (now : ℕ) → Call
  activates : (actor : String) (now : ℕ) → Call
  rolls_back : (actor : String) (now : ℕ) → Call
  fails : (now : ℕ) → Call

unfoldable pub run : Call → Automation → Outcome
unfolding simulate approve activate roll_back fail_monitor
run (simulates revision now) a = simulate a revision now
run (approves actor now) a = approve a actor now
run (activates actor now) a = activate a actor now
run (rolls_back actor now) a = roll_back a actor now
run (fails now) a = fail_monitor a now

abbrev pub result : Automation → Outcome → Automation
result a (refused e) = a
result a (changed a') = a'

unfoldable pub run_all : List Call → Automation → Automation
unfolding run
run_all [] a = a
run_all (c ∷ cs) a = run_all cs (result a (run c a))

abbrev is_granted : State → Bool
is_granted approved = true
is_granted active = true
is_granted _ = false

-- What is approved or active was found safe and approved by its owner, and what is active was activated.
pub record IsGranted (a : Automation) : Type 0 where
  pub found_safe : is_granted a.state ≡ true → is_safe a.simulation ≡ true
  pub by_owner : is_granted a.state ≡ true → a.approval_id ≡ some a.owner_id
  pub activated : is_active a.state ≡ true → is_some a.activated_at ≡ true

approved-is_granted : (s : State) → is_approved s ≡ true → is_granted s ≡ true
approved-is_granted approved _ = refl
approved-is_granted draft h = cc (h)
approved-is_granted simulated h = cc (h)
approved-is_granted active _ = refl
approved-is_granted paused h = cc (h)
approved-is_granted rolled_back h = cc (h)
approved-is_granted failed h = cc (h)

clash : {b : Bool} → b ≡ false → b ≡ true → ⊥
clash n h = cc (n, h)

-- A call that leaves the automation neither approved nor active.
not-IsGranted :
    (a : Automation) → is_granted a.state ≡ false → is_active a.state ≡ false → IsGranted a
not-IsGranted a n m = record {
  found_safe = λ h. cc (n, h);
  by_owner = λ h. elim (clash n h) [ ];
  activated = λ h. cc (m, h);
}

run-IsGranted : (c : Call) (a : Automation) → IsGranted a → IsGranted (result a (run c a))
unfolding run simulate approve activate roll_back fail_monitor
run-IsGranted (simulates revision now) a g = elim (Bool-cases (not (is_open_draft a.state))) [
  | inl e ↦ rw (simulate, e) g
  | inr e ↦ rw (simulate, e) (not-IsGranted _ refl refl)
]
run-IsGranted (approves actor now) a g = elim (Bool-cases (a.owner_id == actor)) [
  | inr e ↦ rw (approve, e) g
  | inl e ↦ elim (Bool-cases (not (is_simulated a.state) || not (is_safe a.simulation))) [
    | inl f ↦ rw (approve, e) (rw f g)
    | inr f ↦
        rw (approve, e)
          (rw f (record {
            found_safe = λ h. ground arith;
            by_owner = λ h. ap some (sym (eq_of_== a.owner_id actor e));
            activated = λ h. cc (h);
          }))
  ]
]
run-IsGranted (activates actor now) a g =
    elim (Bool-cases (not (a.owner_id == actor) || not (is_approved a.state))) [
      | inl e ↦ rw (activate, e) g
      | inr e ↦
          let was : is_granted a.state ≡ true = approved-is_granted a.state (ground arith) in
          rw (activate, e)
            (record {
              found_safe = λ h. g.found_safe was;
              by_owner = λ h. g.by_owner was;
              activated = λ h. refl;
            })
    ]
run-IsGranted (rolls_back actor now) a g =
    elim (Bool-cases (not (a.owner_id == actor) || not (is_running a.state))) [
      | inl e ↦ rw (roll_back, e) g
      | inr e ↦ rw (roll_back, e) (not-IsGranted _ refl refl)
    ]
run-IsGranted (fails now) a g = not-IsGranted _ refl refl

-- Whatever calls come to an automation in draft, one that is approved or active was simulated and found
-- safe, bears the approval of its owner, and one that is active has the instant of its activation.
pub run_all-IsGranted : (cs : List Call) (a : Automation) → IsGranted a → IsGranted (run_all cs a)
unfolding run_all
run_all-IsGranted [] a g = g
run_all-IsGranted (c ∷ cs) a g = run_all-IsGranted cs (result a (run c a)) (run-IsGranted c a g)

abbrev is_over : State → Bool
is_over failed = true
is_over rolled_back = true
is_over _ = false

run-over :
    (c : Call) (a : Automation) → is_over a.state ≡ true → is_over (result a (run c a)).state ≡ true
unfolding run simulate approve activate roll_back fail_monitor
run-over (simulates revision now) a h = ground arith
run-over (approves actor now) a h = ground arith
run-over (activates actor now) a h = ground arith
run-over (rolls_back actor now) a h = ground arith
run-over (fails now) a h = refl

-- An automation that failed or was rolled back is never active again, whatever calls come.
over_for_good :
    (cs : List Call) (a : Automation) → is_over a.state ≡ true → is_over (run_all cs a).state ≡ true
unfolding run_all
over_for_good [] a h = h
over_for_good (c ∷ cs) a h = over_for_good cs (result a (run c a)) (run-over c a h)
