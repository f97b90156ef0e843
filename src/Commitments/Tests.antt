-- ===== src/Commitments/Tests.antt =====
-- One reminder, and the theorems on it.
use nova_voice.Base.{ℕ, ◌+◌, ◌*◌, ◌≤◌, ◌<◌, ◌≡◌, ◌↔◌, refl, true, false, none, some, [], ◌∷◌, arith}
use nova_voice.Durable.Store
use nova_voice.Durable.Store.{Database, Stored}
use nova_voice.Durable.Laws.{DistinctRows}
use nova_voice.Commitments.Calendar.{
  day, days_of, length_of, settle, civil, months_on, add_months, instant, start,
}
use nova_voice.Commitments.Recurrence.{
  Rule, monthly, stepped, next_recurrence, advance, advance_ends,
}
use nova_voice.Commitments.Defs.{
  active, due, dashboard, Commitment, commitment_id, is_before, is_within, is_readable,
  valid_commitment, are_distinct, returned, save_latest, made_due, comes_due, turn, snoozed,
  operate,
}
use nova_voice.Commitments.Overlaps.{alone, cancelling, poll_undoes_cancel, snooze_iff_readable}

abbrev every_month : Rule
every_month = record { frequency = monthly; interval = 1; text = "FREQ=MONTHLY" }

abbrev pills : Commitment
pills = record {
  id = "c1";
  owner_id = "ann";
  summary = "pills";
  status = active;
  due_at = some 100;
  deadline = some 500;
  recurrence = none;
  wait_event_key = none;
  channels = dashboard ∷ [];
  occurrence = 1;
  missed_count = 0;
  delivered_at = none;
  completed_at = none;
  continuation_device = none;
  created_at = 10;
  updated_at = 10;
  expires_at = none;
}

abbrev pills_row : Stored Commitment
pills_row = record { value = pills; revision = 1 }

abbrev reminders : Database Commitment
reminders = record { rows = pills_row ∷ []; audit = [] }

one_reminder : DistinctRows commitment_id reminders.rows
unfolding Store.find_row
one_reminder = (refl, tt)

pills_found : Store.get commitment_id reminders "c1" ≡ some pills_row
unfolding Store.get Store.find_row
pills_found = refl

pills_come_due : turn 3 pills 200 ≡ comes_due (made_due pills 200)
unfolding turn
pills_come_due = refl

poll_undoes_cancel_example :
    (db : Database Commitment) × (save_latest
        (operate alone (cancelling "phone" 210) "c1" "phone" reminders).1
        (made_due pills 200)
        "worker"
      ≡ (returned (made_due pills 200), db))
    × (Store.get commitment_id db "c1" ≡ some (record { value = made_due pills 200; revision = 3 }))
    × ((made_due pills 200).status ≡ due)
poll_undoes_cancel_example =
    poll_undoes_cancel 3 200 210 "phone" "worker" reminders pills_row (made_due pills 200)
      one_reminder pills_found pills_come_due

abbrev late_pills : Commitment
late_pills = record pills {
  due_at = some 900;
  continuation_device = some "phone";
  updated_at = 301;
}

pills_readable : is_readable pills ≡ true
unfolding is_readable valid_commitment are_distinct
pills_readable = refl

pills-snoozed : snoozed pills 900 "phone" 300 301 ≡ returned late_pills
unfolding snoozed
pills-snoozed = refl

late_pills_broken : is_readable late_pills ≡ false
unfolding is_readable valid_commitment are_distinct
late_pills_broken = refl

snooze_iff_readable_example : (is_readable late_pills ≡ true) ↔ (
    (is_before (some 500) (some 900) ≡ false) × (is_within 160 (some "phone") ≡ true) × (10 ≤ 301))
snooze_iff_readable_example =
    snooze_iff_readable pills late_pills 900 300 301 "phone" pills_readable pills-snoozed

-- The last of January goes to the last of February, in a leap year and in another.
leap_february :
    months_on (record { year = 2024; month = 1; day_of = 31; time = 7 }) 1
    ≡ record { year = 2024; month = 2; day_of = 29; time = 7 }
unfolding months_on days_of
leap_february = refl

short_february :
    months_on (record { year = 2022; month = 12; day_of = 31; time = 7 }) 2
    ≡ record { year = 2023; month = 2; day_of = 28; time = 7 }
unfolding months_on days_of
short_february = refl

first_of_march : civil (60 * day + 5) ≡ record { year = 0; month = 3; day_of = 1; time = 5 }
unfolding civil settle length_of days_of
first_of_march = refl

a_month_on : next_recurrence 100 every_month ≡ some (31 * day + 100)
unfolding next_recurrence stepped add_months instant months_on civil settle start length_of days_of
a_month_on = refl

advance_ends_example : (later : ℕ) × (advance 600 650 every_month 100 ≡ some later) × (650 < later)
advance_ends_example =
    advance_ends 600 650 100 (31 * day + 100) every_month a_month_on (omega arith) (omega arith)
