-- ===== src/Job/History.antt =====
-- Lemmas on the history of attempts.
use nova_voice.Base.{
  ℕ, ◌+◌, ◌≤◌, ◌<◌, String, ◌≡◌, refl, Bool, true, false, ◌&&◌, Option, none, some, List, [], ◌∷◌,
  ◌++◌, arith, leb, if◌then◌else◌, ◌==◌, eq_iff,
}
use nova_voice.Job.Record.{AttemptOutcome, Attempt}
use nova_voice.Job.Attempts.{is_open, last_open, end_attempt, has_attempt}
use nova_voice.Job.Validators.{valid_attempts, distinct_ids}

-- How many attempts have not ended.
unfoldable pub open_count : List Attempt → ℕ
unfolding is_open
open_count [] = 0
open_count (a ∷ rest) = (if is_open a then 1 else 0) + open_count rest

pub open_count-append :
    (l : List Attempt) (a : Attempt)
    → open_count (l ++ a ∷ []) ≡ open_count l + (if is_open a then 1 else 0)
unfolding open_count
open_count-append [] a = ground arith
open_count-append (b ∷ l) a = ground (arith, open_count-append l a)

pub last_open-none : (l : List Attempt) → open_count l ≡ 0 → last_open l ≡ none
unfolding open_count last_open
last_open-none [] h = refl
last_open-none (a ∷ l) h = ground (arith, last_open-none l)

pub open_count-zero : (l : List Attempt) → last_open l ≡ none → open_count l ≡ 0
unfolding open_count last_open
open_count-zero [] h = refl
open_count-zero (a ∷ l) h = ground (arith, open_count-zero l)

module _ (n : String) (o : AttemptOutcome) (d : Option String) (t : ℕ) where
  pub open_count-end_attempt_le :
      (l : List Attempt) → open_count (end_attempt l n o d t) ≤ open_count l
  unfolding open_count end_attempt
  open_count-end_attempt_le [] = omega arith
  open_count-end_attempt_le (a ∷ l) = ground (arith, open_count-end_attempt_le l)

  -- Closing the attempt that is current leaves one open attempt fewer at least.
  pub open_count-end_attempt_lt :
      (l : List Attempt) (a : Attempt)
      → last_open l ≡ some a
      → (a.attempt_id == n) ≡ true
      → open_count (end_attempt l n o d t) < open_count l
  unfolding open_count end_attempt last_open
  open_count-end_attempt_lt [] a h e = ground arith
  open_count-end_attempt_lt (b ∷ l) a h e =
      ground (arith, open_count-end_attempt_lt l a, open_count-end_attempt_le l, open_count-zero l)

  -- The closed attempt does not hold the job: what is open after it has another name.
  pub last_open-end_attempt :
      (l : List Attempt) (a : Attempt)
      → last_open (end_attempt l n o d t) ≡ some a
      → (a.attempt_id == n) ≡ false
  unfolding end_attempt last_open
  last_open-end_attempt [] a h = ground arith
  last_open-end_attempt (b ∷ l) a h = ground (arith, last_open-end_attempt l a)

  pub has_attempt-end_attempt :
      (l : List Attempt) (m : String) → has_attempt (end_attempt l n o d t) m ≡ has_attempt l m
  unfolding end_attempt has_attempt
  has_attempt-end_attempt [] m = refl
  has_attempt-end_attempt (a ∷ l) m = ground (arith, has_attempt-end_attempt l m)

pub has_attempt-append :
    (l : List Attempt) (a : Attempt) (m : String)
    → has_attempt (l ++ a ∷ []) m ≡ (if has_attempt l m then true else a.attempt_id == m)
unfolding has_attempt
has_attempt-append [] a m = ground arith
has_attempt-append (b ∷ l) a m = ground (arith, has_attempt-append l a m)

pub last_open-append :
    (l : List Attempt) (a : Attempt) → is_open a ≡ true → last_open (l ++ a ∷ []) ≡ some a
unfolding last_open
last_open-append [] a h = ground arith
last_open-append (b ∷ l) a h = ground (arith, last_open-append l a)

pub distinct-append :
    (l : List Attempt) (a : Attempt)
    → distinct_ids l ≡ true
    → has_attempt l a.attempt_id ≡ false
    → distinct_ids (l ++ a ∷ []) ≡ true
unfolding distinct_ids has_attempt
distinct-append [] a d h = refl
distinct-append (b ∷ l) a d h = ground (
  arith,
  leb,
  ◌&&◌,
  distinct-append l a,
  has_attempt-append l a b.attempt_id,
  eq_iff a.attempt_id b.attempt_id,
  eq_iff b.attempt_id a.attempt_id,
)

module _ (n : String) (o : AttemptOutcome) (d : Option String) (t : ℕ) where
  pub distinct-end_attempt :
      (l : List Attempt) → distinct_ids (end_attempt l n o d t) ≡ distinct_ids l
  unfolding distinct_ids end_attempt
  distinct-end_attempt [] = refl
  distinct-end_attempt (a ∷ l) =
      ground (arith, distinct-end_attempt l, has_attempt-end_attempt n o d t l a.attempt_id)

-- Every attempt began no later than the instant.
unfoldable pub started_by : ℕ → List Attempt → Bool
started_by t [] = true
started_by t (a ∷ l) = leb a.started_at t && started_by t l

pub started_by_mono :
    (t u : ℕ) (l : List Attempt) → t ≤ u → started_by t l ≡ true → started_by u l ≡ true
unfolding started_by
started_by_mono t u [] h p = refl
started_by_mono t u (a ∷ l) h p = ground (arith, started_by_mono t u l h)

pub started_by-append :
    (t : ℕ) (l : List Attempt) (a : Attempt)
    → started_by t l ≡ true
    → a.started_at ≤ t
    → started_by t (l ++ a ∷ []) ≡ true
unfolding started_by
started_by-append t [] a p h = ground arith
started_by-append t (b ∷ l) a p h = ground (arith, started_by-append t l a)

pub valid_attempts-append :
    (l : List Attempt) (a : Attempt)
    → valid_attempts l ≡ true
    → a.ended_at ≡ none
    → valid_attempts (l ++ a ∷ []) ≡ true
unfolding valid_attempts
valid_attempts-append [] a p h = ground arith
valid_attempts-append (b ∷ l) a p h = ground (arith, valid_attempts-append l a)

module _ (n : String) (o : AttemptOutcome) (d : Option String) (t : ℕ) where
  pub started_by-end_attempt :
      (u : ℕ) (l : List Attempt) → started_by u (end_attempt l n o d t) ≡ started_by u l
  unfolding started_by end_attempt
  started_by-end_attempt u [] = refl
  started_by-end_attempt u (a ∷ l) = ground (arith, started_by-end_attempt u l)

  pub valid_attempts-end_attempt :
      (l : List Attempt)
      → valid_attempts l ≡ true
      → started_by t l ≡ true
      → valid_attempts (end_attempt l n o d t) ≡ true
  unfolding valid_attempts end_attempt started_by
  valid_attempts-end_attempt [] p h = refl
  valid_attempts-end_attempt (a ∷ l) p h = ground (arith, valid_attempts-end_attempt l)
