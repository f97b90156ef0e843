-- ===== src/Transactions/Endings.antt =====
-- The operations of `TransactionManager` (src/nova_voice/transactions.py) that go through the transport: a
-- commit from there on, a cancellation, and each as a whole, with others acting where the lock is let go.
use nova_voice.Base.{ℕ, ◌+◌, String, Bool, true, Option, none, some, if◌then◌else◌, ◌==◌}
use nova_voice.Transactions.Records.{
  proposed, committed, failed, cancelled, Proposal, Row, Budget, Deed, commit_verified,
  commit_failed, was_cancelled, World, find_row, update_rows, update_budgets,
}
use nova_voice.Transactions.Manager.{
  unknown_proposal, already_cancelled, transport_failed, Reply, raised, returned, audited,
  begin_commit,
}

-- What a failure does to the budget that the call named.
unfoldable pub refund : World → Proposal → (budget_id : Option String) → World
unfolding update_budgets
refund w p none = w
refund w p (some id) = if id == "" then w else record w {
  budgets =
      update_budgets (λ (b : Budget). record b { remaining_amount = b.remaining_amount + p.amount })
        w.budgets id;
}

-- The proposal after the transport: its receipt, or nothing where it raised
unfoldable pub settled : Proposal → Option String → ℕ → Proposal
settled p (some receipt) now = record p {
  state = committed;
  receipt = some receipt;
  revision = p.revision + 1;
  updated_at = now;
}
settled p none now = record p { state = failed; revision = p.revision + 1; updated_at = now }

abbrev pub deed_of : Option String → Deed
deed_of none = commit_failed
deed_of (some receipt) = commit_verified

-- The last part of `commit`
unfoldable pub settle : World → Proposal → (actor : String) → Option String → ℕ → World
unfolding settled update_rows
settle w p actor answer now =
    audited
      (record w {
        rows = update_rows (λ (s : Row). record s { proposal = settled p answer now }) w.rows p.id;
      })
      p.id (deed_of answer) actor

-- The proposal after a cancellation
abbrev pub withdrawn : Proposal → ℕ → Proposal
withdrawn p now = record p { state = cancelled; revision = p.revision + 1; updated_at = now }

-- The last part of `cancel`
unfoldable pub settle_cancel : World → Proposal → (actor : String) → ℕ → World
unfolding update_rows
settle_cancel w p actor now =
    audited
      (record w {
        rows =
            update_rows (λ (s : Row). record s { proposal = withdrawn p now; approval_used = true })
              w.rows p.id;
      })
      p.id was_cancelled actor

-- `commit` from the transport on; others act before the first write after it and before the second.
unfoldable pub finish_commit :
    (transport : Proposal → Option String)
    → (first second : World → World) → (actor : String) → (budget_id : Option String) → (later : ℕ)
    → Reply Proposal × World
    → Reply Proposal × World
unfolding refund settle settled
finish_commit transport first second actor budget_id later (raised e, w) = (raised e, w)
finish_commit transport first second actor budget_id later (returned p, w) =
    let answer = transport p in
    let written : World = elim answer [
      | some receipt ↦ first w
      | none ↦ refund (first w) p budget_id
    ] in
    (returned (settled p answer later), settle (second written) p actor answer later)

-- `commit`
unfoldable pub commit :
    (hash casefold : String → String)
    → (transport : Proposal → Option String) → (first second : World → World) → World
    → String
    → (actor : String) → (token budget_id : Option String) → (now later : ℕ)
    → Reply Proposal × World
unfolding begin_commit finish_commit
commit hash casefold transport first second w id actor token budget_id now later =
    finish_commit transport first second actor budget_id later
      (begin_commit hash casefold w id actor token budget_id now)

-- `cancel`; the transport compensates for what was committed, or raises, and others act meanwhile.
unfoldable pub cancel :
    (transport : Proposal → Bool)
    → (others : World → World) → World
    → String
    → (actor : String) → ℕ
    → Reply Proposal × World
unfolding find_row settle_cancel
cancel transport others w id actor now = elim (find_row w.rows id) [
  | none ↦ (raised unknown_proposal, w)
  | some r ↦
      let p = r.proposal in
      let done : Reply Proposal × World =
        (returned (withdrawn p now), settle_cancel (others w) p actor now) in
      elim p.state [
        | committed ↦ if transport p then done else (raised transport_failed, others w)
        | proposed ↦ done
        | failed ↦ done
        | _ ↦ (raised already_cancelled, w)
      ]
]
