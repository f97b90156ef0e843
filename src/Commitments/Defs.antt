-- ===== src/Commitments/Defs.antt =====
-- The record of a commitment and the operations of `CommitmentManager` (src/nova_voice/commitments.py),
-- over the store. Others may write between a reading and the writing that follows it.
use nova_voice.Base.{
  ℕ, ◌+◌, String, Bool, true, false, not, ◌&&◌, ◌||◌, Option, none, some, List, [], ◌∷◌,
  if◌then◌else◌, ltb, leb, exists, is_text, is_some, max,
}
use Prim.Native.String.{count}
use nova_voice.Durable.Store
use nova_voice.Durable.Store.{Database, Stored, Written, written, conflict, duplicate}
use nova_voice.Commitments.Recurrence.{Rule, next_recurrence, advance}

-- `CommitmentState`
pub data State : Type 0 where
  active due delivered completed cancelled missed : State

pub data Channel : Type 0 where
  voice dashboard notification : Channel

-- `CommitmentRecord`
pub record Commitment : Type 0 where
  pub id : String
  pub owner_id : String
  pub summary : String
  pub status : State
  pub due_at : Option ℕ
  pub deadline : Option ℕ
  pub recurrence : Option Rule
  pub wait_event_key : Option String
  pub channels : List Channel
  pub occurrence : ℕ
  pub missed_count : ℕ
  pub delivered_at : Option ℕ
  pub completed_at : Option ℕ
  pub continuation_device : Option String
  pub created_at : ℕ
  pub updated_at : ℕ
  pub expires_at : Option ℕ

abbrev pub is_before : Option ℕ → Option ℕ → Bool
is_before (some a) (some b) = ltb a b
is_before _ _ = false

abbrev pub channel_rank : Channel → ℕ
channel_rank voice = 0
channel_rank dashboard = 1
channel_rank notification = 2

unfoldable pub are_distinct : List Channel → Bool
are_distinct [] = true
are_distinct (c ∷ rest) =
    let others = are_distinct rest in
    not (
      exists (λ d. leb (channel_rank c) (channel_rank d) && leb (channel_rank d) (channel_rank c))
        rest)
    && others

-- `validate_commitment`; instants have their time zone
unfoldable pub valid_commitment : Commitment → Bool
unfolding are_distinct
valid_commitment c =
    (is_some c.due_at || is_some c.wait_event_key)
    && not (is_before c.deadline c.due_at)
    && are_distinct c.channels

-- `require_utc_ordered_timestamps`
abbrev pub is_ordered : Commitment → Bool
is_ordered c =
    not (ltb c.updated_at c.created_at) && not (is_before c.expires_at (some c.created_at))

abbrev pub is_within : ℕ → Option String → Bool
is_within limit none = true
is_within limit (some text) = leb (count text) limit

abbrev pub rule_text : Option Rule → Option String
rule_text none = none
rule_text (some rule) = some rule.text

abbrev pub has_channel : List Channel → Bool
has_channel [] = false
has_channel (_ ∷ _) = true

-- The limits of the fields
abbrev pub is_limited : Commitment → Bool
is_limited c =
    (leb 1 (count c.id) && leb (count c.id) 160)
    && (leb 1 (count c.summary) && leb (count c.summary) 1000)
    && is_within 500 (rule_text c.recurrence)
    && is_within 200 c.wait_event_key
    && has_channel c.channels
    && leb 1 c.occurrence
    && is_within 160 c.continuation_device

-- What is checked when a stored row is read: the limits of the fields, and the two validators
unfoldable pub is_readable : Commitment → Bool
unfolding valid_commitment
is_readable c = is_limited c && is_ordered c && valid_commitment c

pub data Error : Type 0 where
  unknown_commitment not_awaiting not_future bad_rule concurrent : Error

pub data Reply (A : Type 0) : Type 0 where
  raised : Error → Reply A
  returned : A → Reply A

abbrev pub commitment_id : Commitment → String
commitment_id c = c.id

-- `_save`: at the revision that the row has by now
unfoldable pub save_latest :
    Database Commitment → Commitment → (actor : String) → Reply Commitment × Database Commitment
save_latest db c actor = elim (Store.get commitment_id db c.id) [
  | none ↦ (raised unknown_commitment, db)
  | some row ↦ elim (Store.save commitment_id db c row.revision actor) [
    | written db' ↦ (returned c, db')
    | conflict ↦ (raised concurrent, db)
    | duplicate ↦ (raised concurrent, db)
  ]
]

-- The record of an occurrence that has come
abbrev pub made_due : Commitment → ℕ → Commitment
made_due c now = record c { status = due; updated_at = max now c.created_at }

-- The record of one whose deadline has passed and that does not recur
abbrev pub made_missed : Commitment → ℕ → Commitment
made_missed c now = record c {
  status = missed;
  missed_count = c.missed_count + 1;
  updated_at = max now c.created_at;
}

-- The record of one whose deadline has passed and that recurs
abbrev pub made_next : Commitment → ℕ → (later : ℕ) → Commitment
made_next c now later = record c {
  status = active;
  missed_count = c.missed_count + 1;
  due_at = some later;
  deadline = none;
  occurrence = c.occurrence + 1;
  updated_at = max now c.created_at;
}

abbrev pub is_active : State → Bool
is_active active = true
is_active _ = false

abbrev pub is_awaiting : State → Bool
is_awaiting due = true
is_awaiting delivered = true
is_awaiting _ = false

-- What a poll makes of one record: nothing, a record whose deadline has passed, or one that is due; or
-- the exception of a rule that is not one.
pub data Turn : Type 0 where
  untouched broken : Turn
  passed : Commitment → Turn
  comes_due : Commitment → Turn

-- A passed deadline, in the loop of `poll`; the fuel is for the search of the next occurrence.
unfoldable pub passed_by : ℕ → Commitment → (due_at now : ℕ) → Turn
unfolding advance
passed_by fuel c due_at now = elim c.recurrence [
  | none ↦ passed (made_missed c now)
  | some rule ↦ elim (advance fuel now rule due_at) [
    | none ↦ broken
    | some later ↦ passed (made_next c now later)
  ]
]

-- One round of the loop of `poll`, on the record that was listed
unfoldable pub turn : ℕ → Commitment → (now : ℕ) → Turn
unfolding passed_by
turn fuel c now = elim (is_active c.status) [
  | false ↦ untouched
  | true ↦ elim c.due_at [
    | none ↦ untouched
    | some due_at ↦
        if ltb now due_at
        then untouched
        else if is_before c.deadline (some now)
        then passed_by fuel c due_at now
        else comes_due (made_due c now)
  ]
]

-- `acknowledge`, on the record that was read
unfoldable pub acknowledged : Commitment → (device : String) → (now : ℕ) → Reply Commitment
unfolding next_recurrence
acknowledged c device now =
    let moment = max now c.created_at in
    let complete = record c {
      status = completed;
      delivered_at = some moment;
      completed_at = some moment;
      continuation_device = some device;
      updated_at = moment;
    } in
    if not (is_awaiting c.status) then raised not_awaiting else (elim c.recurrence [
      | none ↦ returned complete
      | some rule ↦ elim c.due_at [
        | none ↦ returned complete
        | some due_at ↦ elim (next_recurrence due_at rule) [
          | none ↦ raised bad_rule
          | some later ↦ returned (record c {
            status = active;
            due_at = some later;
            deadline = none;
            occurrence = c.occurrence + 1;
            delivered_at = none;
            completed_at = none;
            continuation_device = some device;
            updated_at = moment;
          })
        ]
      ]
    ])

-- `snooze`, on the record that was read, with the two readings of the clock
unfoldable pub snoozed :
    Commitment → (until : ℕ) → (device : String) → (now later : ℕ) → Reply Commitment
snoozed c until device now later =
    if leb until now
    then raised not_future
    else returned (record c {
      status = active;
      due_at = some until;
      continuation_device = some device;
      updated_at = later;
    })

-- `cancel`, on the record that was read
abbrev pub withdrawn : Commitment → (device : String) → ℕ → Commitment
withdrawn c device now = record c {
  status = cancelled;
  continuation_device = some device;
  updated_at = now;
}

-- `satisfy_event`, on a record that was listed
unfoldable pub satisfied : Commitment → (event_key : String) → ℕ → Option Commitment
satisfied c event_key now =
    if is_active c.status && is_text c.wait_event_key event_key
    then some
        (record c { due_at = some now; wait_event_key = none; updated_at = max now c.created_at })
    else none

-- An operation by name: the record is read, others write, and what was made of it is saved.
unfoldable pub operate :
    (others : Database Commitment → Database Commitment)
    → (Commitment → Reply Commitment)
    → (id actor : String) → Database Commitment
    → Reply Commitment × Database Commitment
unfolding save_latest
operate others f id actor db = elim (Store.get commitment_id db id) [
  | none ↦ (raised unknown_commitment, others db)
  | some row ↦ elim (f row.value) [
    | raised e ↦ (raised e, others db)
    | returned c ↦ save_latest (others db) c actor
  ]
]
