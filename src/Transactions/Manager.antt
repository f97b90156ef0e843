-- ===== src/Transactions/Manager.antt =====
-- The operations of `TransactionManager` (src/nova_voice/transactions.py) up to the transport: proposing,
-- previewing, budgets, and the first part of a commit. The hash and the folding of case are parameters.
use nova_voice.Base.{
  ℕ, ◌+◌, ◌-◌, String, Bool, true, false, not, ◌&&◌, ◌||◌, Option, none, some, [], ◌∷◌, ◌++◌,
  if◌then◌else◌, eqb, leb, ◌==◌,
}
use nova_voice.Transactions.Records.{
  Category, category_rank, State, proposed, committing, Proposal, Row, Budget, Deed, was_proposed,
  was_previewed, commit_authorized, World, find_row, update_rows, find_budget, update_budgets,
}

pub data Error : Type 0 where
  unknown_proposal not_pending not_authorized already_cancelled bad_budget budget_exists : Error
  transport_failed : Error

pub data Reply (A : Type 0) : Type 0 where
  raised : Error → Reply A
  returned : A → Reply A

abbrev pub is_proposed : State → Bool
is_proposed proposed = true
is_proposed _ = false

-- `_audit`
abbrev pub audited : World → String → Deed → String → World
audited w id deed actor = record w {
  audit = w.audit ++ record { proposal_id = id; action = deed; actor = actor } ∷ [];
}

-- The row of a proposal as it is inserted
abbrev pub new_row : Proposal → Row
new_row p = record {
  proposal = p;
  approval_hash = none;
  approval_revision = none;
  approval_used = false;
}

-- `propose`
unfoldable pub propose : World → Proposal → (actor : String) → Proposal × World
unfolding find_row
propose w p actor = elim (find_row w.rows p.id) [
  | some r ↦ (r.proposal, w)
  | none ↦ (p, audited (record w { rows = w.rows ++ new_row p ∷ [] }) p.id was_proposed actor)
]

-- `create_budget`, of a currency in capitals
unfoldable pub create_budget :
    World → String → Category → (currency : String) → ℕ → Option String → Reply World
unfolding find_budget
create_budget w id category currency limit counterparty = elim (eqb limit 0) [
  | true ↦ raised bad_budget
  | false ↦ elim (find_budget w.budgets id) [
    | some b ↦ raised budget_exists
    | none ↦ returned (record w {
      budgets =
          w.budgets
          ++ record {
            id = id;
            category = category;
            counterparty = counterparty;
            currency = currency;
            limit_amount = limit;
            remaining_amount = limit;
            active = true;
          }
            ∷ [];
    })
  ]
]

abbrev pub or_empty : Option String → String
or_empty none = ""
or_empty (some s) = s

abbrev pub is_revision : Option ℕ → ℕ → Bool
is_revision none n = false
is_revision (some m) n = eqb m n

-- What lets a commit through.
pub data Warrant : Type 0 where
  denied by_approval : Warrant
  by_budget : Budget → Warrant

-- The budget of a name, unless the name is missing or empty
abbrev pub named_budget : World → Option String → Option Budget
named_budget w none = none
named_budget w (some id) = if id == "" then none else find_budget w.budgets id

abbrev pub spend : ℕ → Budget → Budget
spend n b = record b { remaining_amount = b.remaining_amount - n }

abbrev pub credit : ℕ → Budget → Budget
credit n b = record b { remaining_amount = b.remaining_amount + n }

abbrev pub charged : World → Proposal → Warrant → World
charged w p denied = w
charged w p by_approval = w
charged w p (by_budget b) = record w { budgets = update_budgets (spend p.amount) w.budgets b.id }

abbrev pub is_denied : Warrant → Bool
is_denied denied = true
is_denied _ = false

-- The row of a proposal that is being committed
abbrev pub taken : Proposal → ℕ → Row → Row
taken p now s = record s {
  proposal = record p { state = committing; updated_at = now };
  approval_used = true;
}

-- What is written before the transport is asked
abbrev pub authorized : World → Proposal → Warrant → (actor : String) → ℕ → World
authorized w p granted actor now =
    audited (record (charged w p granted) { rows = update_rows (taken p now) w.rows p.id }) p.id
      commit_authorized actor

module _ (hash casefold : String → String) where
  -- `preview`, with the token that was drawn
  unfoldable pub preview : World → String → (token actor : String) → Reply Proposal × World
  unfolding find_row update_rows
  preview w id token actor = elim (find_row w.rows id) [
    | none ↦ (raised unknown_proposal, w)
    | some r ↦ elim (is_proposed r.proposal.state) [
      | false ↦ (raised not_pending, w)
      | true ↦ (
        returned r.proposal,
        audited
            (record w {
              rows =
                  update_rows
                    (λ (s : Row). record s {
                      approval_hash = some (hash token);
                      approval_revision = some r.proposal.revision;
                      approval_used = false;
                    })
                    w.rows r.proposal.id;
            })
            r.proposal.id was_previewed actor,
      )
    ]
  ]

  -- Whether a token approves the proposal of a row as it stands.
  unfoldable pub approves : Row → Option String → Bool
  approves r none = false
  approves r (some token) =
      not (token == "")
      && not r.approval_used
      && is_revision r.approval_revision r.proposal.revision
      && or_empty r.approval_hash == hash token

  -- Whether a budget covers a proposal.
  unfoldable pub covers : Budget → Proposal → Bool
  unfolding category_rank
  covers b p =
      b.active
      && eqb (category_rank b.category) (category_rank p.category)
      && b.currency == p.currency
      && (or_empty b.counterparty == ""
          || casefold (or_empty b.counterparty) == casefold p.counterparty)
      && leb p.amount b.remaining_amount

  unfoldable pub warrant : World → Row → (token budget_id : Option String) → Warrant
  unfolding approves covers find_budget
  warrant w r token budget_id = elim (approves r token) [
    | true ↦ by_approval
    | false ↦ elim (named_budget w budget_id) [
      | none ↦ denied
      | some b ↦ if covers b r.proposal then by_budget b else denied
    ]
  ]

  -- The first part of `commit`, up to the transport: the proposal as it was read
  unfoldable pub begin_commit :
      World
      → String
      → (actor : String) → (token budget_id : Option String) → (now : ℕ) → Reply Proposal × World
  unfolding find_row update_rows warrant update_budgets
  begin_commit w id actor token budget_id now = elim (find_row w.rows id) [
    | none ↦ (raised unknown_proposal, w)
    | some r ↦ elim (is_proposed r.proposal.state) [
      | false ↦ (raised not_pending, w)
      | true ↦
          let granted = warrant w r token budget_id in
          elim (is_denied granted) [
            | true ↦ (raised not_authorized, w)
            | false ↦ (returned r.proposal, authorized w r.proposal granted actor now)
          ]
    ]
  ]
