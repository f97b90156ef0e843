-- ===== src/Callbacks/Defs.antt =====
-- `CompanionCallbackLedger` (src/nova_voice/companion/callbacks.py) over the store of durable records.
-- Other writers may run between two calls of the store: `others n` is what they do after the n-th
-- call. The tool is a parameter; the arguments and the observation of a tool are one text each, and
-- the retention of a sensitivity class is a parameter.
use nova_voice.Base.{
  ℕ, ◌+◌, String, Bool, false, not, Option, none, some, eqb, if◌then◌else◌, ◌⊎◌, inl, inr, is_text,
}
use nova_voice.Durable.Store
use nova_voice.Durable.Store.{Stored, Database, Written, written, conflict, duplicate}

-- `CompanionCallbackState`
pub data State : Type 0 where
  pending executing completed failed superseded : State

unfoldable pub state_rank : State → ℕ
state_rank pending = 0
state_rank executing = 1
state_rank completed = 2
state_rank failed = 3
state_rank superseded = 4

abbrev pub same_state : State → State → Bool
same_state a b = eqb (state_rank a) (state_rank b)

-- `CompanionCallbackRecord`, with the base record's id and times; the call id is the id, the key of
-- the pair of job and call is given
pub record Callback : Type 0 where
  pub id : String
  pub created_at : ℕ
  pub updated_at : ℕ
  pub expires_at : ℕ
  pub job_id : String
  pub attempt_id : String
  pub call_id : String
  pub provider : String
  pub tool : String
  pub arguments : String
  pub status : State
  pub idempotency_key : String
  pub sensitivity : String
  pub observed : Option String
  pub ok : Option Bool
  pub code : Option String
  pub message : Option String
  pub completed_at : Option ℕ

abbrev pub Db : Type 0
Db = Database Callback

abbrev pub callback_id : Callback → String
callback_id r = r.id

-- `CallbackError`, and what the store raises
pub data Error : Type 0 where
  unknown_callback vanished overtaken duplicate_id : Error

pub data Reply : Type 0 where
  returned : Option Callback → Reply
  raised : Error → Reply

abbrev pub value_of : Option (Stored Callback) → Option Callback
value_of none = none
value_of (some row) = some row.value

unfoldable pub get : Db → String → Option Callback
get db call = value_of (Store.get callback_id db call)

-- What a tool answers, or the text of the exception that it raised, cut to 1000 letters.
pub record Answer : Type 0 where
  pub ok : Bool
  pub code : String
  pub message : String
  pub observed : Option String

-- What `request` is asked for.
pub record Asked : Type 0 where
  pub job_id : String
  pub attempt_id : String
  pub call_id : String
  pub provider : String
  pub tool : String
  pub arguments : String
  pub sensitivity : String

unfoldable pub new_callback : Asked → (key : String) → (payload_life now : ℕ) → Callback
new_callback a key payload_life now = record {
  id = a.call_id;
  created_at = now;
  updated_at = now;
  expires_at = now + payload_life;
  job_id = a.job_id;
  attempt_id = a.attempt_id;
  call_id = a.call_id;
  provider = a.provider;
  tool = a.tool;
  arguments = a.arguments;
  status = pending;
  idempotency_key = key;
  sensitivity = a.sensitivity;
  observed = none;
  ok = none;
  code = none;
  message = none;
  completed_at = none;
}

abbrev pub written_reply : Callback → Db → Error → Written Callback → Reply × Db
written_reply r db e (written db') = (returned (some r), db')
written_reply r db e conflict = (raised e, db)
written_reply r db e duplicate = (raised e, db)

abbrev pub finish : Callback → (Answer ⊎ String) → (t t' : ℕ) → Callback
finish r (inl a) t t' = record r {
  status = if a.ok then completed else failed;
  ok = some a.ok;
  code = some a.code;
  message = some a.message;
  observed = a.observed;
  completed_at = some t;
  updated_at = t';
}
finish r (inr error) t t' = record r {
  status = failed;
  ok = some false;
  code = some "backend_error";
  message = some error;
  completed_at = some t;
  updated_at = t';
}

-- The answer of a callback that was superseded is not handed on.
abbrev pub discarded : Reply × Db → Reply × Db
discarded (returned r, db) = (returned none, db)
discarded (raised e, db) = (raised e, db)

-- What executing a callback does: the reply, the record that the tool was run for, if it was, and
-- the database.
pub record Run : Type 0 where
  pub reply : Reply
  pub ran : Option Callback
  pub db : Db

module _ (others : ℕ → Db → Db) where
  -- `request`
  unfoldable pub request : Asked → (key : String) → (payload_life now : ℕ) → Db → Reply × Db
  unfolding get new_callback
  request a key payload_life now db = elim (get db a.call_id) [
    | some r ↦ (returned (some r), others 0 db)
    | none ↦
        let r = new_callback a key payload_life now in
        written_reply r (others 0 db) duplicate_id
          (Store.insert callback_id (others 0 db) r "system")
  ]

  -- `_reload_and_save`, of a change of the record, as of the n-th call
  unfoldable pub reload_and_save : ℕ → String → (Callback → Callback) → Db → Reply × Db
  unfolding get
  reload_and_save n call change db = elim (Store.get callback_id db call) [
    | none ↦ (raised vanished, others n db)
    | some row ↦
        elim (Store.save callback_id (others n db) (change row.value) row.revision "system") [
          | written db' ↦ (returned (some (change row.value)), db')
          | conflict ↦ elim (get (others (n + 1) (others n db)) call) [
            | none ↦ (raised vanished, others (n + 1) (others n db))
            | some now ↦ (returned (some now), others (n + 1) (others n db))
          ]
          | duplicate ↦ (raised vanished, others n db)
        ]
  ]

  -- `execute`
  unfoldable pub execute : (Callback → Answer ⊎ String) → String → (t0 t t' : ℕ) → Db → Run
  unfolding reload_and_save
  execute run call t0 t t' db = elim (Store.get callback_id db call) [
    | none ↦ record { reply = raised unknown_callback; ran = none; db = others 0 db }
    | some row ↦
        if not (same_state row.value.status pending)
        then record { reply = returned (some row.value); ran = none; db = others 0 db }
        else (let claimed = record row.value { status = executing; updated_at = t0 } in
            elim (Store.save callback_id (others 0 db) claimed row.revision "system") [
              | written db' ↦
                  let (reply, end) =
                    reload_and_save 2 call (λ r. finish r (run claimed) t t') (others 1 db') in
                  record { reply = reply; ran = some claimed; db = end }
              | conflict ↦ record { reply = raised overtaken; ran = none; db = others 0 db }
              | duplicate ↦ record { reply = raised overtaken; ran = none; db = others 0 db }
            ])
  ]

  -- `deliverable`, at an instant
  unfoldable pub deliverable : String → Option String → ℕ → Db → Reply × Db
  unfolding get reload_and_save
  deliverable call attempt now db = elim (get db call) [
    | none ↦ (returned none, others 0 db)
    | some r ↦
        if is_text attempt r.attempt_id
        then (returned (some r), others 0 db)
        else if same_state r.status superseded
        then (returned none, others 0 db)
        else discarded (
            reload_and_save 1 call (λ x. record x { status = superseded; updated_at = now })
              (others 0 db))
  ]
