-- ===== src/Commitments/Calendar.antt =====
-- The calendar that the recurrence by months goes by (src/nova_voice/commitments.py, the `MONTHLY` branch
-- of `next_recurrence`). An instant is a wall-clock reading of the record's own zone, in microseconds from
-- the first day of year 0; Python's calendar ends with year 9999, which is left out.
use nova_voice.Base.{
  subst, sym, ℕ, zero, suc, ◌+◌, ◌*◌, ◌≤◌, ◌<◌, ◌≡◌, refl, Bool, true, false, not, ◌&&◌, ◌||◌, eqb,
  ltb, min, ◌-◌, ◌/◌, ◌%◌, if◌then◌else◌, arith, Bool-cases, inl, inr,
}

abbrev pub day : ℕ
day = 86400000000

-- `calendar.isleap`
abbrev pub is_leap : ℕ → Bool
is_leap year = eqb (year % 4) 0 && (not (eqb (year % 100) 0) || eqb (year % 400) 0)

-- `calendar.monthrange(year, month)[1]`
unfoldable pub days_of : (year month : ℕ) → ℕ
days_of year month =
    if eqb month 2
    then (if is_leap year then 29 else 28)
    else if eqb month 4 || eqb month 6 || eqb month 9 || eqb month 11
    then 30
    else 31

-- A reading of the calendar, with the time of the day.
pub record Civil : Type 0 where
  pub year : ℕ
  pub month : ℕ
  pub day_of : ℕ
  pub time : ℕ

-- The days of the month that has a number, with twelve to the year.
unfoldable pub length_of : ℕ → ℕ
unfolding days_of
length_of index = days_of (index / 12) (index % 12 + 1)

-- The days before a month.
unfoldable pub start : ℕ → ℕ
unfolding length_of
start zero = 0
start (suc index) = start index + length_of index

-- The month of a day, and its place there from 0; there are no more months to pass than days.
unfoldable pub settle : ℕ → (index days : ℕ) → ℕ × ℕ
unfolding length_of
settle zero index days = (index, days)
settle (suc fuel) index days = elim (ltb days (length_of index)) [
  | true ↦ (index, days)
  | false ↦ settle fuel (suc index) (days - length_of index)
]

-- The calendar's reading of an instant.
unfoldable pub civil : ℕ → Civil
unfolding settle
civil value =
    let (index, days) = settle (value / day) 0 (value / day) in
    record { year = index / 12; month = index % 12 + 1; day_of = days + 1; time = value % day }

-- The instant of a reading.
unfoldable pub instant : Civil → ℕ
unfolding start
instant c = (start (c.year * 12 + c.month - 1) + (c.day_of - 1)) * day + c.time

-- The `MONTHLY` branch of `next_recurrence`, of a reading
unfoldable pub months_on : Civil → (interval : ℕ) → Civil
unfolding days_of
months_on value interval =
    let month_index = value.year * 12 + value.month - 1 + interval in
    let year = month_index / 12 in
    let month = month_index % 12 + 1 in
    record value { year = year; month = month; day_of = min value.day_of (days_of year month) }

unfoldable pub add_months : (value interval : ℕ) → ℕ
unfolding civil instant months_on
add_months value interval = instant (months_on (civil value) interval)

length_of-pos : (index : ℕ) → 28 ≤ length_of index
unfolding length_of days_of
length_of-pos index = ground arith

-- The day is found in its month.
settle-day :
    (fuel index days : ℕ)
    → days ≤ fuel
    → (start (settle fuel index days).0 + (settle fuel index days).1 ≡ start index + days)
      × ((settle fuel index days).1 < length_of (settle fuel index days).0)
unfolding settle start
settle-day zero index days h = let some_days = length_of-pos index in (refl, omega arith)
settle-day (suc fuel) index days h = elim (Bool-cases (ltb days (length_of index))) [
  | inl e ↦ rw (settle, e) (refl, ground arith)
  | inr e ↦
      let some_days = length_of-pos index in
      let past : length_of index ≤ days = ground arith in
      let (same, within) = settle-day fuel (suc index) (days - length_of index) (omega arith) in
      rw (settle, e) (omega arith, within)
]

start-le : (n index later : ℕ) → index + n ≡ later → start index ≤ start later
unfolding start
start-le zero index later h =
    let same : index ≡ later = omega arith in subst (λ i. start index ≤ start i) same (omega arith)
start-le (suc n) index later h =
    let more = start-le n (suc index) later (omega arith) in omega arith

days-gt : (a b c time : ℕ) → a < b → a * day + time < (b + c) * day + time
days-gt a b c time h = omega arith

-- A month on is past the end of the month.
months_on-gt :
    (index days interval time : ℕ)
    → 1 ≤ interval
    → days < length_of index
    → (start index + days) * day + time
      < instant (
          months_on
            (record { year = index / 12; month = index % 12 + 1; day_of = days + 1; time = time })
            interval)
unfolding instant months_on start
months_on-gt index days interval time p within =
    let m = index / 12 * 12 + (index % 12 + 1) - 1 + interval in
    let there = m / 12 * 12 + (m % 12 + 1) - 1 in
    let past = start-le (interval - 1) (suc index) there (omega arith) in
    days-gt (start index + days) (start there) (min (days + 1) (days_of (m / 12) (m % 12 + 1)) - 1)
      time (omega arith)

-- A reading some months on is later than the reading that it is counted from.
pub add_months-gt : (value interval : ℕ) → 1 ≤ interval → value < add_months value interval
unfolding add_months civil start
add_months-gt value interval p =
    let (same, within) = settle-day (value / day) 0 (value / day) (omega arith) in
    let found = settle (value / day) 0 (value / day) in
    let more = months_on-gt found.0 found.1 interval (value % day) p within in
    let here : (start found.0 + found.1) * day + value % day ≡ value =
      subst (λ d. d * day + value % day ≡ value) (sym same) (omega arith) in
    subst (λ v. v < add_months value interval) here more
