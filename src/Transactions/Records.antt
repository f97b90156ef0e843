-- ===== src/Transactions/Records.antt =====
-- The rows of src/nova_voice/transactions.py: proposals with their approval, budgets, and the audit.
use nova_voice.Base.{ℕ, String, Bool, Option, none, some, List, [], ◌∷◌, if◌then◌else◌, ◌==◌}

-- `TransactionCategory`
pub data Category : Type 0 where
  travel shopping booking finance purchase : Category

unfoldable pub category_rank : Category → ℕ
category_rank travel = 0
category_rank shopping = 1
category_rank booking = 2
category_rank finance = 3
category_rank purchase = 4

-- `TransactionState`
pub data State : Type 0 where
  proposed committing committed failed cancelled : State

-- `TransactionProposal`; an amount is in the smallest unit that the validator lets through
pub record Proposal : Type 0 where
  pub id : String
  pub category : Category
  pub counterparty : String
  pub amount : ℕ
  pub currency : String
  pub summary : String
  pub state : State
  pub revision : ℕ
  pub receipt : Option String
  pub created_at : ℕ
  pub updated_at : ℕ

-- A row of `transaction_proposals`
pub record Row : Type 0 where
  pub proposal : Proposal
  pub approval_hash : Option String
  pub approval_revision : Option ℕ
  pub approval_used : Bool

-- A row of `transaction_budgets`
pub record Budget : Type 0 where
  pub id : String
  pub category : Category
  pub counterparty : Option String
  pub currency : String
  pub limit_amount : ℕ
  pub remaining_amount : ℕ
  pub active : Bool

pub data Deed : Type 0 where
  was_proposed was_previewed commit_authorized commit_verified commit_failed was_cancelled : Deed

-- A row of `transaction_audit`, without its detail and its instant
pub record Entry : Type 0 where
  pub proposal_id : String
  pub action : Deed
  pub actor : String

pub record World : Type 0 where
  pub rows : List Row
  pub budgets : List Budget
  pub audit : List Entry

-- `SELECT … WHERE id=?`
unfoldable pub find_row : List Row → String → Option Row
find_row [] id = none
find_row (r ∷ rest) id = if r.proposal.id == id then some r else find_row rest id

-- `UPDATE transaction_proposals … WHERE id=?`
unfoldable pub update_rows : (Row → Row) → List Row → String → List Row
update_rows f [] id = []
update_rows f (r ∷ rest) id =
    let others = update_rows f rest id in if r.proposal.id == id then f r ∷ others else r ∷ others

unfoldable pub find_budget : List Budget → String → Option Budget
find_budget [] id = none
find_budget (b ∷ rest) id = if b.id == id then some b else find_budget rest id

-- `UPDATE transaction_budgets … WHERE id=?`
unfoldable pub update_budgets : (Budget → Budget) → List Budget → String → List Budget
update_budgets f [] id = []
update_budgets f (b ∷ rest) id =
    let others = update_budgets f rest id in if b.id == id then f b ∷ others else b ∷ others
