-- ===== src/Rollout/Control.antt =====
-- What a revocation stops, and that it is not lost to a promotion (src/nova_voice/rollout.py).
use nova_voice.Base.{
  ℕ, ◌≡◌, ◌≢◌, refl, subst, ◌∙◌, inl, inr, if_both, String, true, false, not, some, List, [], ◌∷◌,
  All, leb, eqb, ◌==◌, is_some, arith, Bool-cases,
}
use nova_voice.Durable.Store
use nova_voice.Durable.Store.{Stored, Database, Written, written, conflict, duplicate}
use nova_voice.Durable.Laws.{DistinctRows, at_revision, get-save, find_row-key}
use nova_voice.Rollout.Defs.{
  Stage, fixture, replay, shadow, owner_canary, household, standing_autonomy, stage_index, active,
  revoked, is_revoked, Evidence, Rollout, is_empty, Outcome, changed, kept, refused, create,
  promote, promote_to, promoted_to, revoke, rollback, allows, Db, rollout_id, edit,
}
use nova_voice.Rollout.Ladder.{
  Call, promotion, revocation, return_to, run, result, Timed, run_all, promote-Granted,
}

abbrev pub NoReturn : Call → Type 0
NoReturn (return_to actor target reason) = ⊥
NoReturn _ = Unit

-- A revoked rollout changes by a return to an earlier stage only.
revoked-run :
    (c : Call) (now : ℕ) (r : Rollout)
    → NoReturn c
    → r.status ≡ revoked
    → result r (run c now r) ≡ r
unfolding run promote revoke
revoked-run (promotion actor evidence scope) now r n h = rw (h) refl
revoked-run (revocation actor reason) now r n h = elim (Bool-cases (actor == r.owner_id)) [
  | inl e ↦ rw (e, h) refl
  | inr e ↦ rw e refl
]
revoked-run (return_to actor target reason) now r n h = absurd n

-- Once revoked, a rollout allows no stage, whatever calls come, until it is rolled back.
revoked_allows_nothing :
    (cs : List Timed) (r : Rollout) (required : Stage)
    → All (λ c. NoReturn c.call) cs
    → r.status ≡ revoked
    → (allows (run_all cs r) required).allowed ≡ false
unfolding run_all allows
revoked_allows_nothing [] r required n h = rw h refl
revoked_allows_nothing (c ∷ rest) r required n h =
    let same = revoked-run c.call c.now r n.0 h in
    revoked_allows_nothing rest (result r (run c.call c.now r)) required n.1 (rw same h)

-- `validate_rollout`, without the time zones
pub record IsValid (r : Rollout) : Type 0 where
  pub revoked_when : r.status ≡ revoked → is_some r.revoked_at ≡ true
  pub bounded : r.stage ≡ standing_autonomy → is_empty r.authority_scope ≡ false

IsValid-changed :
    (r : Rollout) (o : Outcome)
    → IsValid r
    → ((r' : Rollout) → o ≡ changed r' → IsValid r')
    → IsValid (result r o)
IsValid-changed r (changed r') h k = k r' refl
IsValid-changed r kept h k = h
IsValid-changed r (refused e) h k = h

promote-status :
    (r : Rollout) (actor : String) (evidence : Evidence) (scope : List String) (now : ℕ)
    (r' : Rollout)
    → promote r actor evidence scope now ≡ changed r'
    → (r.status ≡ active) × (r'.status ≡ r.status)
unfolding promote promote_to promoted_to
promote-status r actor evidence scope now r' h =
    ((promote-Granted r actor evidence scope now r' h).was_active, ground arith)

not_top : (s t : Stage) → leb (stage_index s) (stage_index t) ≡ false → t ≢ standing_autonomy
unfolding stage_index
not_top s fixture h e = cc (e)
not_top s replay h e = cc (e)
not_top s shadow h e = cc (e)
not_top s owner_canary h e = cc (e)
not_top s household h e = cc (e)
not_top fixture standing_autonomy h e = ground arith
not_top s standing_autonomy h e = ground arith

IsValid-run : (c : Call) (now : ℕ) (r : Rollout) → IsValid r → IsValid (result r (run c now r))
unfolding run revoke rollback
IsValid-run (promotion actor evidence scope) now r h = IsValid-changed r _ h (λ r' e.
    let g = promote-Granted r actor evidence scope now r' e in
    let (was, is) = promote-status r actor evidence scope now r' e in
    record {
      revoked_when = λ x. let never : active ≡ revoked = cc (was, is, x) in cc (never);
      bounded = g.bounded;
    })
IsValid-run (revocation actor reason) now r h =
    if_both (λ o. IsValid (result r o)) (not (actor == r.owner_id)) _ _ h
      (if_both (λ o. IsValid (result r o)) (is_revoked r.status) _ _ h
        (record { revoked_when = λ x. refl; bounded = h.bounded }))
IsValid-run (return_to actor target reason) now r h =
    if_both (λ o. IsValid (result r o)) (not (actor == r.owner_id)) _ _ h
      (elim (Bool-cases (leb (stage_index r.stage) (stage_index target))) [
        | inl e ↦ rw e h
        | inr e ↦ rw e (record {
          revoked_when = λ x. cc (x);
          bounded = λ x. absurd (not_top r.stage target e x);
        })
      ])

IsValid-run_all : (cs : List Timed) (r : Rollout) → IsValid r → IsValid (run_all cs r)
unfolding run_all
IsValid-run_all [] r h = h
IsValid-run_all (c ∷ rest) r h =
    IsValid-run_all rest (result r (run c.call c.now r)) (IsValid-run c.call c.now r h)

-- Every record that the manager makes passes the validation of `RolloutRecord`, which its copies
-- skip.
calls-IsValid :
    (cs : List Timed) (id owner component pins : String) (now : ℕ)
    → IsValid (run_all cs (create id owner component pins now))
unfolding create
calls-IsValid cs id owner component pins now =
    IsValid-run_all cs (create id owner component pins now)
      (record { revoked_when = λ x. cc (x); bounded = λ x. cc (x) })

run-id : (c : Call) (now : ℕ) (r r' : Rollout) → run c now r ≡ changed r' → r'.id ≡ r.id
unfolding run promote promote_to promoted_to revoke rollback
run-id (promotion actor evidence scope) now r r' h = ground arith
run-id c now r r' h = ground arith

-- A call that another write overtakes between its read and its own write changes nothing and does
-- not report a change: in particular a revocation is not lost to a promotion.
module _ (c : Call) (t : ℕ) (id actor : String) (db : Db) (row now : Stored Rollout)
    (other : Db → Db) where
  late_edit :
      (o : Outcome)
      → run c t row.value ≡ o
      → DistinctRows rollout_id (other db).rows
      → Store.get rollout_id db id ≡ some row
      → Store.get rollout_id (other db) id ≡ some now
      → now.revision ≢ row.revision
      → ((edit other (run c t) id actor db).1 ≡ other db)
        × ((r : Rollout) → (edit other (run c t) id actor db).0 ≢ changed r)
  unfolding edit Store.get
  late_edit kept e d found moved late =
      (rw (found, edit, e) refl, λ r. rw (found, edit, e) (λ x. cc (x)))
  late_edit (refused x) e d found moved late =
      (rw (found, edit, e) refl, λ r. rw (found, edit, e) (λ x. cc (x)))
  late_edit (changed r') e d found moved late =
      let key : row.value.id ≡ id = find_row-key rollout_id db.rows id row found in
      let rid : r'.id ≡ id = run-id c t row.value r' e ∙ key in
      elim (get-save rollout_id (other db) r' row.revision actor d) [
        | inl (at, _) ↦
            let here : eqb now.revision row.revision ≡ true =
              subst (λ o. at_revision o row.revision ≡ true) moved
                (subst (λ x. at_revision (Store.get rollout_id (other db) x) row.revision ≡ true)
                  rid at) in
            absurd (late (ground arith))
        | inr (_, w) ↦ (rw (found, edit, e, w) refl, λ r. rw (found, edit, e, w) (λ x. cc (x)))
      ]

  overtaken_writes_nothing :
      DistinctRows rollout_id (other db).rows
      → Store.get rollout_id db id ≡ some row
      → Store.get rollout_id (other db) id ≡ some now
      → now.revision ≢ row.revision
      → ((edit other (run c t) id actor db).1 ≡ other db)
        × ((r : Rollout) → (edit other (run c t) id actor db).0 ≢ changed r)
  overtaken_writes_nothing = late_edit (run c t row.value) refl
