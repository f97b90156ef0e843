-- ===== src/Plans/Waves.antt =====
-- Which steps are executed together (src/nova_voice/durable/runner.py, `_ready_steps` and `_next_wave`).
use nova_voice.Base.{
  All-weaken, Option, Option-cases, ap, ◌∙◌, none, some, ◌≡◌, refl, if_both, subst, inl, inr,
  String, Bool, true, false, not, ◌&&◌, ◌||◌, List, [], ◌∷◌, ◌++◌, All, exists, ◌==◌, eq_of_==,
  arith, Bool-cases,
}
use nova_voice.Plans.Records.{Step, is_success, is_executable}
use nova_voice.Plans.Runner.{
  by_id, all, holds, is_unblocked, unblocked, is_called_for, is_startable, is_ready, before,
  insert_step, sort_steps, keep_ready, with_first, sorted, ready_steps, resources_of, has,
  is_disjoint, pick, next_wave,
}

-- No resource is of both.
abbrev pub Disjoint : List String → List String → Type 0
Disjoint xs ys = (r : String) → has xs r ≡ true → has ys r ≡ false

-- No two of the steps share a resource.
abbrev pub Exclusive : List Step → Type 0
Exclusive [] = Unit
Exclusive (s ∷ rest) = All (λ t. Disjoint (resources_of s) (resources_of t)) rest × Exclusive rest

has-append : (xs ys : List String) (r : String) → has (xs ++ ys) r ≡ has xs r || has ys r
has-append [] ys r = refl
has-append (x ∷ xs) ys r = ground (arith, has-append xs ys r)

exists-has :
    (p : String → Bool) (rs : List String) (r : String)
    → exists p rs ≡ false
    → has rs r ≡ true
    → p r ≡ false
exists-has p [] r h k = ground arith
exists-has p (x ∷ rs) r h k = elim (Bool-cases (x == r)) [
  | inl e ↦ subst (λ z. p z ≡ false) (eq_of_== x r e) (ground arith)
  | inr e ↦ exists-has p rs r (ground arith) (ground arith)
]

is_disjoint-Disjoint : (xs ys : List String) → is_disjoint xs ys ≡ true → Disjoint xs ys
is_disjoint-Disjoint xs ys h r k = elim (Bool-cases (has ys r)) [
  | inl e ↦ let absent = exists-has (has xs) ys r (ground arith) e in ground arith
  | inr e ↦ e
]

Disjoint-left : (xs ys zs : List String) → Disjoint (xs ++ ys) zs → Disjoint xs zs
Disjoint-left xs ys zs h r k = h r (ground (arith, has-append xs ys r))

Disjoint-right : (xs ys zs : List String) → Disjoint (xs ++ ys) zs → Disjoint ys zs
Disjoint-right xs ys zs h r k = h r (ground (arith, has-append xs ys r))

-- The steps that are picked stay clear of what is taken and of one another.
pick-Exclusive :
    (taken : List String) (rest : List Step)
    → All (λ t. Disjoint taken (resources_of t)) (pick taken rest) × Exclusive (pick taken rest)
unfolding pick
pick-Exclusive taken [] = (tt, tt)
pick-Exclusive taken (c ∷ rest) =
    let mine = resources_of c in
    elim (Bool-cases (c.parallel_safe && is_disjoint taken mine)) [
      | inl e ↦
          let (clear, apart) = pick-Exclusive (mine ++ taken) rest in
          rw (pick, e)
            (
              (
                is_disjoint-Disjoint taken mine (ground arith),
                All-weaken _ _ (λ t. Disjoint-right mine taken (resources_of t)) _ clear,
              ),
              (All-weaken _ _ (λ t. Disjoint-left mine taken (resources_of t)) _ clear, apart),
            )
      | inr e ↦ rw (pick, e) (pick-Exclusive taken rest)
    ]

pick-All :
    (P : Step → Type 0) (taken : List String) (rest : List Step)
    → All P rest
    → All P (pick taken rest)
unfolding pick
pick-All P taken [] h = tt
pick-All P taken (c ∷ rest) h =
    elim (Bool-cases (c.parallel_safe && is_disjoint taken (resources_of c))) [
      | inl e ↦ rw (pick, e) (h.0, pick-All P (resources_of c ++ taken) rest h.1)
      | inr e ↦ rw (pick, e) (pick-All P taken rest h.1)
    ]

next_wave-All : (P : Step → Type 0) (ready : List Step) → All P ready → All P (next_wave ready)
unfolding next_wave
next_wave-All P [] h = tt
next_wave-All P (s ∷ rest) h =
    if_both (All P) (not s.parallel_safe) (s ∷ []) (s ∷ pick (resources_of s) rest) (h.0, tt)
      (h.0, pick-All P (resources_of s) rest h.1)

next_wave-Exclusive : (ready : List Step) → Exclusive (next_wave ready)
unfolding next_wave
next_wave-Exclusive [] = tt
next_wave-Exclusive (s ∷ rest) =
    let (clear, apart) = pick-Exclusive (resources_of s) rest in
    if_both Exclusive (not s.parallel_safe) (s ∷ []) (s ∷ pick (resources_of s) rest) (tt, tt)
      (clear, apart)

insert_step-All :
    (P : Step → Type 0) (s : Step) (rest : List Step)
    → P s
    → All P rest
    → All P (insert_step s rest)
unfolding insert_step
insert_step-All P s [] h k = (h, tt)
insert_step-All P s (t ∷ rest) h k =
    if_both (All P) (before s t) _ _ (h, k) (k.0, insert_step-All P s rest h k.1)

sort_steps-All : (P : Step → Type 0) (steps : List Step) → All P steps → All P (sort_steps steps)
unfolding sort_steps
sort_steps-All P [] h = tt
sort_steps-All P (s ∷ rest) h =
    insert_step-All P s (sort_steps rest) h.0 (sort_steps-All P rest h.1)

-- What makes a step fit to be executed.
abbrev pub Runnable : List Step → Step → Type 0
Runnable steps s =
    (is_startable s.status ≡ true)
    × (is_executable s.kind ≡ true)
    × (is_unblocked steps s ≡ true)
    × (is_called_for steps s ≡ true)

unblocked-is_unblocked :
    (steps : List Step) (names : List String)
    → unblocked steps names ≡ some true
    → all (λ name. holds is_success (by_id steps name)) names ≡ true
unfolding unblocked
unblocked-is_unblocked steps [] h = refl
unblocked-is_unblocked steps (name ∷ rest) h = ground (arith, unblocked-is_unblocked steps rest)

is_ready-Runnable : (steps : List Step) (s : Step) → is_ready steps s ≡ some true → Runnable steps s
unfolding is_ready
is_ready-Runnable steps s h = ground (arith, unblocked-is_unblocked steps s.depends_on)

-- Of the steps of a list that is there.
abbrev AllOf : (Step → Type 0) → Option (List Step) → Type 0
AllOf P none = Unit
AllOf P (some steps) = All P steps

with_first-AllOf :
    (P : Step → Type 0) (b : Bool) (s : Step) (o : Option (List Step))
    → (b ≡ true → P s)
    → AllOf P o
    → AllOf P (with_first b s o)
with_first-AllOf P b s none h k = tt
with_first-AllOf P true s (some others) h k = (h refl, k)
with_first-AllOf P false s (some others) h k = k

keep_ready-AllOf : (steps rest : List Step) → AllOf (Runnable steps) (keep_ready steps rest)
unfolding keep_ready
keep_ready-AllOf steps [] = tt
keep_ready-AllOf steps (s ∷ rest) = elim (Option-cases (is_ready steps s)) [
  | inl e ↦ rw (keep_ready, e) tt
  | inr (b, e) ↦
      rw (keep_ready, e)
        (with_first-AllOf (Runnable steps) b s (keep_ready steps rest)
          (λ t. is_ready-Runnable steps s (e ∙ ap some t)) (keep_ready-AllOf steps rest))
]

sorted-AllOf : (P : Step → Type 0) (o : Option (List Step)) → AllOf P o → AllOf P (sorted o)
sorted-AllOf P none h = tt
sorted-AllOf P (some steps) h = sort_steps-All P steps h

-- Where no dependency that is looked up is missing, every step of a wave may start, is of a kind that is
-- executed, has only dependencies that succeeded and, for a compensation, makes good for a step that
-- failed; and no two steps of a wave share a resource.
pub wave_is_safe :
    (steps ready : List Step)
    → ready_steps steps ≡ some ready
    → All (Runnable steps) (next_wave ready) × Exclusive (next_wave ready)
unfolding ready_steps
wave_is_safe steps ready h = (
  next_wave-All (Runnable steps) ready (
      subst (AllOf (Runnable steps)) h
        (sorted-AllOf (Runnable steps) (keep_ready steps steps) (keep_ready-AllOf steps steps))),
  next_wave-Exclusive ready,
)
