-- ===== src/Transactions/Once.antt =====
-- How often the transport is asked to commit one proposal, whatever calls of the manager of
-- src/nova_voice/transactions.py interleave.
use nova_voice.Base.{
  ℕ, ◌+◌, ◌≤◌, ◌≡◌, refl, sym, ap, subst, ◌∙◌, String, true, false, Option, none, some, List, [],
  ◌∷◌, if◌then◌else◌, eqb, ◌==◌, eq_of_==, Bool-cases, Option-cases, inl, inr, arith,
}
use nova_voice.Transactions.Records.{
  Category, Proposal, Row, World, find_row, update_rows, find_budget,
}
use nova_voice.Transactions.Tables.{found-id}
use nova_voice.Transactions.Warrants.{begin-cases}
use nova_voice.Transactions.Pending.{
  bit, pending, pending-update, pending-closed, pending-append, over-Downward, pending-found,
  nothing,
}
use nova_voice.Transactions.Manager.{
  taken, Reply, raised, returned, is_proposed, authorized, new_row, propose, create_budget, preview,
  warrant, begin_commit,
}
use nova_voice.Transactions.Endings.{refund, settled, settle, withdrawn, settle_cancel}

-- What the manager does under its lock, or in one write, on behalf of any caller.
pub data Call : Type 0 where
  proposes : (p : Proposal) (actor : String) → Call
  budgets :
      (id : String) (category : Category) (currency : String) (limit : ℕ)
      (counterparty : Option String)
      → Call
  previews : (id token actor : String) → Call
  begins : (id actor : String) (token budget_id : Option String) (now : ℕ) → Call
  refunds : (p : Proposal) (budget_id : Option String) → Call
  settles : (p : Proposal) (actor : String) (answer : Option String) (now : ℕ) → Call
  cancels : (p : Proposal) (actor : String) (now : ℕ) → Call

abbrev pub replied : {A : Type 0} → Reply A → ℕ
replied (raised e) = 0
replied (returned a) = 1

abbrev world_or : World → Reply World → World
world_or w (raised e) = w
world_or w (returned w') = w'

module _ (hash casefold : String → String) where
  unfoldable pub serve : Call → World → World
  unfolding propose create_budget preview begin_commit refund settle settle_cancel
  serve (proposes p actor) w = (propose w p actor).1
  serve (budgets id category currency limit counterparty) w =
      world_or w (create_budget w id category currency limit counterparty)
  serve (previews id token actor) w = (preview hash casefold w id token actor).1
  serve (begins id actor token budget_id now) w =
      (begin_commit hash casefold w id actor token budget_id now).1
  serve (refunds p budget_id) w = refund w p budget_id
  serve (settles p actor answer now) w = settle w p actor answer now
  serve (cancels p actor now) w = settle_cancel w p actor now

  unfoldable pub serve_all : List Call → World → World
  unfolding serve
  serve_all [] w = w
  serve_all (c ∷ cs) w = serve_all cs (serve c w)

  -- Whether a call hands the proposal to the transport.
  unfoldable pub handed : String → Call → World → ℕ
  unfolding begin_commit
  handed id (begins i actor token budget_id now) w =
      if i == id then replied (begin_commit hash casefold w i actor token budget_id now).0 else 0
  handed id _ w = 0

  unfoldable pub times_handed : String → List Call → World → ℕ
  unfolding serve handed
  times_handed id [] w = 0
  times_handed id (c ∷ cs) w = handed id c w + times_handed id cs (serve c w)

settled-id : (p : Proposal) (answer : Option String) (now : ℕ) → (settled p answer now).id ≡ p.id
unfolding settled
settled-id p none now = refl
settled-id p (some receipt) now = refl

settled-over :
    (p : Proposal) (answer : Option String) (now : ℕ)
    → is_proposed (settled p answer now).state ≡ false
unfolding settled
settled-over p none now = refl
settled-over p (some receipt) now = refl

module _ (hash casefold : String → String) where
  begin-pending :
      (id i actor : String) (token budget_id : Option String) (now : ℕ) (w : World)
      → handed hash casefold id (begins i actor token budget_id now) w
          + pending (begin_commit hash casefold w i actor token budget_id now).1.rows id
        ≤ pending w.rows id
  unfolding handed
  begin-pending id i actor token budget_id now w =
      elim (begin-cases hash casefold w i actor token budget_id now) [
        | inl (e, q) ↦
            rw q (nothing (i == id) (pending w.rows id) (pending w.rows id) (omega arith))
        | inr b ↦
            let p = b.row.proposal in
            let same = found-id w.rows i b.row b.found in
            rw b.result (elim (Bool-cases (i == id)) [
              | inl e ↦
                  let at : i ≡ id = eq_of_== i id e in
                  let found : find_row w.rows id ≡ some b.row =
                    subst (λ j. find_row w.rows j ≡ some b.row) at b.found in
                  let before = pending-found w.rows id b.row found in
                  let after : pending (update_rows (taken p now) w.rows p.id) id ≡ 0 =
                    subst (λ j. pending (update_rows (taken p now) w.rows j) id ≡ 0)
                      (sym (same ∙ at))
                      (pending-closed (taken p now) w.rows id b.row
                        (λ s f. same ∙ at ∙ sym (eq_of_== s.proposal.id id f)) (λ s. refl) found) in
                  let one : bit (is_proposed b.row.proposal.state) ≡ 1 = ap bit b.waiting in
                  let closed : pending
                        (authorized w p (warrant hash casefold w b.row token budget_id) actor
                          now).rows
                        id
                      ≡ 0 =
                    after in
                  rw e (omega arith)
              | inr e ↦ rw e (
                  nothing true _ _ (
                    pending-update (taken p now) p.id
                      (over-Downward (taken p now) p (λ s. refl) (λ s. refl)) w.rows id))
            ])
      ]

  serve-pending :
      (id : String) (c : Call) (w : World)
      → handed hash casefold id c w + pending (serve hash casefold c w).rows id ≤ pending w.rows id
  unfolding serve handed propose create_budget preview refund settle settle_cancel
  serve-pending id (proposes p actor) w = elim (Option-cases (find_row w.rows p.id)) [
    | inl e ↦
        (let after = pending-append w.rows (new_row p) id in
          rw (serve, propose, e) (nothing true _ _ after))
    | inr (r, e) ↦ rw (serve, propose, e) (omega arith)
  ]
  serve-pending id (budgets i category currency limit counterparty) w =
      elim (Bool-cases (eqb limit 0)) [
        | inl e ↦ rw (serve, create_budget, e) (omega arith)
        | inr e ↦ elim (Option-cases (find_budget w.budgets i)) [
          | inl f ↦ rw (serve, create_budget, e) (rw f (omega arith))
          | inr (b, f) ↦ rw (serve, create_budget, e) (rw f (omega arith))
        ]
      ]
  serve-pending id (previews i token actor) w = elim (Option-cases (find_row w.rows i)) [
    | inl e ↦ rw (serve, preview, e) (omega arith)
    | inr (r, e) ↦ elim (Bool-cases (is_proposed r.proposal.state)) [
      | inr f ↦ rw (serve, preview, e) (rw f (omega arith))
      | inl f ↦
          rw (serve, preview, e)
            (rw f (
              nothing true _ _ (
                pending-update
                  (λ (s : Row). record s {
                    approval_hash = some (hash token);
                    approval_revision = some r.proposal.revision;
                    approval_used = false;
                  })
                  r.proposal.id (record { id_kept = λ s h. refl; lower = λ s. omega arith }) w.rows
                  id)))
    ]
  ]
  serve-pending id (begins i actor token budget_id now) w =
      begin-pending id i actor token budget_id now w
  serve-pending id (refunds p none) w = omega arith
  serve-pending id (refunds p (some b)) w = elim (Bool-cases (b == "")) [
    | inl e ↦ rw (serve, refund, e) (omega arith)
    | inr e ↦ rw (serve, refund, e) (omega arith)
  ]
  serve-pending id (settles p actor answer now) w = nothing true _ _ (
      pending-update (λ (s : Row). record s { proposal = settled p answer now }) p.id
        (over-Downward (λ (s : Row). record s { proposal = settled p answer now }) p
          (λ s. settled-id p answer now) (λ s. settled-over p answer now))
        w.rows id)
  serve-pending id (cancels p actor now) w = nothing true _ _ (
      pending-update (λ (s : Row). record s { proposal = withdrawn p now; approval_used = true })
        p.id
        (over-Downward (λ (s : Row). record s { proposal = withdrawn p now; approval_used = true })
          p (λ s. refl) (λ s. refl))
        w.rows id)

  -- However calls interleave, one proposal is handed to the transport for its commit once at most, and
  -- not at all once it no longer waits.
  pub handed_once :
      (id : String) (cs : List Call) (w : World)
      → times_handed hash casefold id cs w + pending (serve_all hash casefold cs w).rows id
        ≤ pending w.rows id
  unfolding times_handed serve_all
  handed_once id [] w = omega arith
  handed_once id (c ∷ cs) w =
      let here = serve-pending id c w in
      let after = handed_once id cs (serve hash casefold c w) in omega arith
