-- ===== src/Transactions/Tests.antt =====
-- One purchase, one budget, and the theorems about them.
use nova_voice.Base.{
  ◌+◌, ◌≤◌, ◌≡◌, refl, String, ◌<>◌, true, false, Option, none, some, List, [], ◌∷◌,
}
use nova_voice.Transactions.Records.{
  shopping, proposed, category_rank, Proposal, Row, Budget, World, find_row, find_budget,
  update_rows,
}
use nova_voice.Transactions.Manager.{
  returned, approves, covers, warrant, is_denied, credit, begin_commit,
}
use nova_voice.Transactions.Endings.{settled, withdrawn, commit, cancel}
use nova_voice.Transactions.Pending.{pending}
use nova_voice.Transactions.Once.{Call, begins, serve, serve_all, handed, times_handed, handed_once}
use nova_voice.Transactions.Money.{alone, cost, commit_balances, approved_failure_credits}
use nova_voice.Transactions.Overlaps.{cancel_overwrites_commit}

abbrev hash : String → String
hash s = "sha:" <> s

abbrev plain : String → String
plain s = s

abbrev beans : Proposal
beans = record {
  id = "p1";
  category = shopping;
  counterparty = "Roaster";
  amount = 30;
  currency = "EUR";
  summary = "beans";
  state = proposed;
  revision = 1;
  receipt = none;
  created_at = 10;
  updated_at = 10;
}

abbrev beans_row : Row
beans_row = record {
  proposal = beans;
  approval_hash = some "sha:tok";
  approval_revision = some 1;
  approval_used = false;
}

abbrev coffee : Budget
coffee = record {
  id = "b1";
  category = shopping;
  counterparty = none;
  currency = "EUR";
  limit_amount = 100;
  remaining_amount = 100;
  active = true;
}

abbrev shop : World
shop = record { rows = beans_row ∷ []; budgets = coffee ∷ []; audit = [] }

abbrev pays : Proposal → Option String
pays p = some "r-7"

abbrev fails : Proposal → Option String
fails p = none

beans_found : find_row shop.rows "p1" ≡ some beans_row
unfolding find_row
beans_found = refl

coffee_found : find_budget shop.budgets "b1" ≡ some coffee
unfolding find_budget
coffee_found = refl

unapproved : approves hash plain beans_row none ≡ false
unfolding approves
unapproved = refl

approved : approves hash plain beans_row (some "tok") ≡ true
unfolding approves
approved = refl

covered : covers hash plain coffee beans ≡ true
unfolding covers category_rank
covered = refl

warranted : is_denied (warrant hash plain shop beans_row (some "tok") none) ≡ false
unfolding warrant approves
warranted = refl

abbrev two_commits : List Call
two_commits = begins "p1" "ann" (some "tok") none 20 ∷ begins "p1" "ann" none (some "b1") 21 ∷ []

handed_first : times_handed hash plain "p1" two_commits shop ≡ 1
unfolding times_handed handed serve begin_commit warrant approves find_row update_rows
handed_first = refl

handed_once_example :
    times_handed hash plain "p1" two_commits shop
      + pending (serve_all hash plain two_commits shop).rows "p1"
    ≤ pending shop.rows "p1"
handed_once_example = handed_once hash plain "p1" two_commits shop

commit_balances_example :
    (b : Budget) × (find_budget
        (commit hash plain pays alone alone shop "p1" "ann" none (some "b1") 20 21).1.budgets
        "b1"
      ≡ some b)
    × (b.remaining_amount + cost (pays beans) beans ≡ 100)
commit_balances_example =
    commit_balances hash plain pays shop "p1" "b1" "ann" none 20 21 beans_row coffee beans_found
      refl unapproved refl coffee_found covered

approved_failure_credits_example :
    find_budget
      (commit hash plain fails alone alone shop "p1" "ann" (some "tok") (some "b1") 20 21).1.budgets
      "b1"
    ≡ some (credit 30 coffee)
approved_failure_credits_example =
    approved_failure_credits hash plain fails shop "p1" "b1" "ann" (some "tok") 20 21 beans_row
      coffee beans_found refl approved refl coffee_found

cancel_overwrites_commit_example :
    ((commit hash plain pays alone alone shop "p1" "ann" (some "tok") none 20 21).0
      ≡ returned (settled beans (some "r-7") 21))
    × ((row : Row) × (find_row
            (cancel
              (λ p. true)
              (λ v. (commit hash plain pays alone alone v "p1" "ann" (some "tok") none 20 21).1)
              shop
              "p1"
              "bob"
              22).1.rows
            "p1"
          ≡ some row)
        × (row.proposal ≡ withdrawn beans 22))
cancel_overwrites_commit_example =
    cancel_overwrites_commit hash plain pays (λ p. true) shop "p1" "ann" "bob" (some "tok") none 20
      21 22 beans_row "r-7" beans_found refl warranted refl
