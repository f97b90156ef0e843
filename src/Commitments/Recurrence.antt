-- ===== src/Commitments/Recurrence.antt =====
-- When a commitment recurs (`next_recurrence` and its loop in `poll`, src/nova_voice/commitments.py). A
-- rule is given read, beside its text.
use nova_voice.Base.{
  ℕ, zero, suc, ◌+◌, ◌*◌, ◌≤◌, ◌<◌, ◌≡◌, refl, String, Bool, true, false, ◌||◌, Option, none, some,
  if◌then◌else◌, ltb, leb, Bool-cases, inl, inr, arith,
}
use nova_voice.Commitments.Calendar.{day, add_months, add_months-gt}

pub data Frequency : Type 0 where
  daily weekly monthly other : Frequency

pub record Rule : Type 0 where
  pub frequency : Frequency
  pub interval : ℕ
  pub text : String

-- One step of a frequency; nothing for a frequency that is not known
unfoldable pub stepped : Frequency → ℕ → ℕ → Option ℕ
stepped daily value n = some (value + n * day)
stepped weekly value n = some (value + n * 7 * day)
stepped monthly value n = some (add_months value n)
stepped other value n = none

abbrev pub is_out_of_range : ℕ → Bool
is_out_of_range n = ltb n 1 || ltb 365 n

-- `next_recurrence`; nothing for `ValueError`
unfoldable pub next_recurrence : ℕ → Rule → Option ℕ
unfolding stepped
next_recurrence value rule =
    if is_out_of_range rule.interval then none else stepped rule.frequency value rule.interval

-- `while next_due <= current`
unfoldable pub advance : ℕ → (current : ℕ) → Rule → ℕ → Option ℕ
unfolding next_recurrence
advance zero current rule due = none
advance (suc fuel) current rule due = elim (leb due current) [
  | false ↦ some due
  | true ↦ elim (next_recurrence due rule) [
    | none ↦ none
    | some later ↦ advance fuel current rule later
  ]
]

stepped-some :
    (f : Frequency) (value later value' n : ℕ)
    → stepped f value n ≡ some later
    → (later' : ℕ) × (stepped f value' n ≡ some later')
unfolding stepped
stepped-some daily value later value' n h = (value' + n * day, refl)
stepped-some weekly value later value' n h = (value' + n * 7 * day, refl)
stepped-some monthly value later value' n h = (add_months value' n, refl)
stepped-some other value later value' n h = cc (h)

-- A rule that is accepted once is accepted always.
next_recurrence-some :
    (value later value' : ℕ) (rule : Rule)
    → next_recurrence value rule ≡ some later
    → (later' : ℕ) × (next_recurrence value' rule ≡ some later')
unfolding next_recurrence
next_recurrence-some value later value' rule h = elim (Bool-cases (is_out_of_range rule.interval)) [
  | inl e ↦ ground arith
  | inr e ↦
      let here : stepped rule.frequency value rule.interval ≡ some later = ground arith in
      let (later', there) = stepped-some rule.frequency value later value' rule.interval here in
      (later', rw (next_recurrence, e) there)
]

stepped-gt :
    (f : Frequency) (value later n : ℕ) → 1 ≤ n → stepped f value n ≡ some later → value < later
unfolding stepped
stepped-gt daily value later n p h = let e : value + n * day ≡ later = cc (h) in omega arith
stepped-gt weekly value later n p h = let e : value + n * 7 * day ≡ later = cc (h) in omega arith
stepped-gt monthly value later n p h =
    let e : add_months value n ≡ later = cc (h) in let q = add_months-gt value n p in omega arith
stepped-gt other value later n p h = cc (h)

next_recurrence-gt :
    (value later : ℕ) (rule : Rule) → next_recurrence value rule ≡ some later → value < later
unfolding next_recurrence
next_recurrence-gt value later rule h = elim (Bool-cases (is_out_of_range rule.interval)) [
  | inl e ↦ ground arith
  | inr e ↦ stepped-gt rule.frequency value later rule.interval (ground arith) (ground arith)
]

-- The search for the next occurrence ends: with one try for each instant that has passed since the
-- first one, and two more, it finds an occurrence that is still to come.
pub advance_ends :
    (fuel current due first : ℕ) (rule : Rule)
    → next_recurrence due rule ≡ some first
    → current + 2 ≤ due + fuel
    → 1 ≤ fuel
    → (later : ℕ) × (advance fuel current rule due ≡ some later) × (current < later)
unfolding advance
advance_ends zero current due first rule h enough p = ground arith
advance_ends (suc fuel) current due first rule h enough p = elim (Bool-cases (leb due current)) [
  | inr e ↦ (due, rw (advance, e) refl, ground arith)
  | inl e ↦
      let on = next_recurrence-gt due first rule h in
      let past : due ≤ current = ground arith in
      let (second, again) = next_recurrence-some due first first rule h in
      let (later, found, over) =
        advance_ends fuel current first second rule again (omega arith) (omega arith) in
      (later, rw (advance, e) (rw h found), over)
]
