-- ===== src/Authority/Laws.antt =====
-- Who may do what (src/nova_voice/authority.py, `authorize` and `record_use`).
use nova_voice.Base.{
  ℕ, ◌+◌, ◌<◌, ◌≡◌, refl, sym, subst, ◌⊎◌, inl, inr, String, true, false, ◌&&◌, ◌||◌, Option, none,
  some, List, [], ◌∷◌, All, All-weaken, leb, eqb, ◌==◌, is_text, is_some, eq_of_==, arith,
  Bool-cases, Option-cases,
}
use nova_voice.Authority.Defs.{
  Role, guest, Identity, GrantRecord, Action, Speaker, Clock, action_capability, is_base, classify,
  has_expired, has_uses, affords, grant_allows, person_of, matching, authorize_rest, authorize,
  used, valid_grant,
}

used-overspent :
    (g : GrantRecord) (a b : Action) (most x y : ℕ)
    → g.max_amount ≡ some most
    → a.amount ≡ some x
    → b.amount ≡ some y
    → most < g.spent_amount + x + y
    → valid_grant (used g (a ∷ b ∷ [])) ≡ false
unfolding used valid_grant
used-overspent g a b most x y m ax by over =
    let over' : leb (g.spent_amount + (x + (y + 0))) most ≡ false = ground arith in
    let some_spent : eqb (g.spent_amount + (x + (y + 0))) 0 ≡ false = ground arith in
    rw (m, ax, by, over', some_spent) (ground arith)

-- A grant that backs an action of a person at an instant.
pub record Backs (g : GrantRecord) (person : Option String) (a : Action) (now : ℕ) : Type 0 where
  pub to_person : is_text person g.grantee_id ≡ true
  pub active : g.active ≡ true
  pub not_revoked : is_some g.revoked_at ≡ false
  pub in_time : has_expired g.expires_at now ≡ false
  pub of_capability : g.capability == "*" || g.capability == action_capability a ≡ true
  pub has_use : has_uses g.max_uses g.uses ≡ true
  pub affordable : affords g.max_amount g.spent_amount a.amount ≡ true

abbrev pub Listed : GrantRecord → List GrantRecord → Type 0
Listed g [] = ⊥
Listed g (x ∷ rest) = (g ≡ x) ⊎ Listed g rest

module _ (clock : Clock) (normalized : String → Option String) where
  grant_allows-Backs :
      (g : GrantRecord) (person : Option String) (a : Action) (now : ℕ)
      → is_text person g.grantee_id ≡ true
      → grant_allows clock normalized g a (action_capability a) now ≡ true
      → Backs g person a now
  unfolding grant_allows
  grant_allows-Backs g person a now p h = record {
    to_person = p;
    active = ground arith;
    not_revoked = ground arith;
    in_time = ground arith;
    of_capability = ground arith;
    has_use = ground arith;
    affordable = ground arith;
  }

  matching-Backs :
      (grants : List GrantRecord) (person : Option String) (a : Action) (now : ℕ) (g : GrantRecord)
      → matching clock normalized grants person a (action_capability a) now ≡ some g
      → Listed g grants × Backs g person a now
  unfolding matching
  matching-Backs [] person a now g h = ground arith
  matching-Backs (x ∷ rest) person a now g h =
      elim (Bool-cases (
        is_text person x.grantee_id
        && grant_allows clock normalized x a (action_capability a) now)) [
          | inl e ↦
              let same : x ≡ g = ground arith in
              (
                inl (sym same),
                subst (λ y. Backs y person a now) same
                    (grant_allows-Backs x person a now (ground arith) (ground arith)),
              )
          | inr e ↦ let (l, b) = matching-Backs rest person a now g (ground arith) in (inr l, b)
        ]

  -- An action that a role has at its base, or that a grant backs.
  abbrev pub Permitted : Role → List GrantRecord → Option String → ℕ → Action → Type 0
  Permitted role grants person now a =
      (is_base role (action_capability a) ≡ true)
      ⊎ ((g : GrantRecord) × Listed g grants × Backs g person a now)

  authorize_rest-Permitted :
      (role : Role) (grants : List GrantRecord) (person : Option String) (actions : List Action)
      (now : ℕ) (ids : List String)
      → authorize_rest clock normalized role grants person actions now ≡ some ids
      → All (Permitted role grants person now) actions
  unfolding authorize_rest
  authorize_rest-Permitted role grants person [] now ids h = tt
  authorize_rest-Permitted role grants person (a ∷ rest) now ids h =
      elim (Bool-cases (is_base role (action_capability a))) [
        | inl b ↦ (inl b, authorize_rest-Permitted role grants person rest now ids (ground arith))
        | inr b ↦
            elim (Option-cases
              (matching clock normalized grants person a (action_capability a) now)) [
                | inl m ↦ let never : none ≡ some ids = ground arith in cc (never)
                | inr (g, m) ↦
                    elim (Option-cases
                      (authorize_rest clock normalized role grants person rest now)) [
                        | inl o ↦ let never : none ≡ some ids = ground arith in cc (never)
                        | inr (others, o) ↦ (
                          let (l, backs) = matching-Backs grants person a now g m in
                              inr (g, l, backs),
                          authorize_rest-Permitted role grants person rest now others o,
                        )
                      ]
              ]
      ]

  -- What is allowed is permitted action by action: each is of the base of the speaker's role, or a grant
  -- to the recognized speaker backs it that is active, in time, of its capability, and not used up.
  pub authorize-Permitted :
      (identities : List Identity) (grants : List GrantRecord) (s : Speaker) (actions : List Action)
      (now : ℕ)
      → (authorize clock normalized identities grants s actions now).allowed ≡ true
      → All (Permitted (classify identities s) grants (person_of clock normalized s) now) actions
  unfolding authorize
  authorize-Permitted identities grants s actions now h =
      elim (Option-cases (
        authorize_rest clock normalized (classify identities s) grants
          (person_of clock normalized s) actions now)) [
            | inl o ↦
                let never : false ≡ true = subst (λ r. r ≡ true) (rw (authorize, o) refl) h in
                cc (never)
            | inr (ids, o) ↦
                authorize_rest-Permitted (classify identities s) grants
                  (person_of clock normalized s) actions now ids o
          ]

  matching-nobody :
      (grants : List GrantRecord) (a : Action) (capability : String) (now : ℕ)
      → matching clock normalized grants none a capability now ≡ none
  unfolding matching
  matching-nobody [] a capability now = refl
  matching-nobody (g ∷ rest) a capability now = matching-nobody rest a capability now

  classify-stranger :
      (identities : List Identity) (s : Speaker)
      → s.recognized ≡ false
      → classify identities s ≡ guest
  unfolding classify
  classify-stranger identities s r = ground arith

  stranger-reads :
      (identities : List Identity) (grants : List GrantRecord) (s : Speaker) (now : ℕ)
      → s.recognized ≡ false
      → (a : Action) → Permitted (classify identities s) grants (person_of clock normalized s) now a
      → action_capability a ≡ "knowledge.read"
  unfolding is_base
  stranger-reads identities grants s now r a (inl b) =
      let g = classify-stranger identities s r in
      let known : ("knowledge.read" == action_capability a) ≡ true =
        subst (λ x. is_base x (action_capability a) ≡ true) g b in
      sym (eq_of_== "knowledge.read" (action_capability a) known)
  stranger-reads identities grants s now r a (inr (g, l, backs)) =
      let p = backs.to_person in let never : false ≡ true = ground arith in cc (never)

  -- A speaker that is not recognized gets no action but reading knowledge, whatever identities and
  -- grants there are.
  pub stranger_reads_only :
      (identities : List Identity) (grants : List GrantRecord) (s : Speaker) (actions : List Action)
      (now : ℕ)
      → s.recognized ≡ false
      → (authorize clock normalized identities grants s actions now).allowed ≡ true
      → All (λ a. action_capability a ≡ "knowledge.read") actions
  stranger_reads_only identities grants s actions now r h =
      All-weaken _ _ (stranger-reads identities grants s now r) actions
        (authorize-Permitted identities grants s actions now h)

  matching-first :
      (g : GrantRecord) (rest : List GrantRecord) (person : Option String) (a : Action) (now : ℕ)
      → is_text person g.grantee_id ≡ true
      → grant_allows clock normalized g a (action_capability a) now ≡ true
      → matching clock normalized (g ∷ rest) person a (action_capability a) now ≡ some g
  unfolding matching
  matching-first g rest person a now p h = rw (p, h) refl

  authorize_rest-granted :
      (role : Role) (grants : List GrantRecord) (person : Option String) (a : Action)
      (rest : List Action) (now : ℕ) (g : GrantRecord) (ids : List String)
      → is_base role (action_capability a) ≡ false
      → matching clock normalized grants person a (action_capability a) now ≡ some g
      → authorize_rest clock normalized role grants person rest now ≡ some ids
      → authorize_rest clock normalized role grants person (a ∷ rest) now ≡ some (g.id ∷ ids)
  unfolding authorize_rest
  authorize_rest-granted role grants person a rest now g ids n m r =
      rw (authorize_rest, n, m, r) refl

  -- Each action of a plan is held against a grant as it was before the plan: two that a grant affords
  -- one by one are allowed together beyond its amount, and the record of their use is then invalid.
  pub spending_is_not_summed :
      (identities : List Identity) (g : GrantRecord) (rest : List GrantRecord) (s : Speaker)
      (a b : Action) (now most x y : ℕ)
      → is_base (classify identities s) (action_capability a) ≡ false
      → is_base (classify identities s) (action_capability b) ≡ false
      → is_text (person_of clock normalized s) g.grantee_id ≡ true
      → grant_allows clock normalized g a (action_capability a) now ≡ true
      → grant_allows clock normalized g b (action_capability b) now ≡ true
      → g.max_amount ≡ some most
      → a.amount ≡ some x
      → b.amount ≡ some y
      → most < g.spent_amount + x + y
      → ((authorize clock normalized identities (g ∷ rest) s (a ∷ b ∷ []) now).allowed ≡ true)
        × (valid_grant (used g (a ∷ b ∷ [])) ≡ false)
  unfolding authorize authorize_rest
  spending_is_not_summed identities g rest s a b now most x y ba bb p ga gb m ax by over =
      let person = person_of clock normalized s in
      let role = classify identities s in
      let last =
        authorize_rest-granted role (g ∷ rest) person b [] now g [] bb
          (matching-first g rest person b now p gb) refl in
      let both =
        authorize_rest-granted role (g ∷ rest) person a (b ∷ []) now g (g.id ∷ []) ba
          (matching-first g rest person a now p ga) last in
      (rw (authorize, both) refl, used-overspent g a b most x y m ax by over)
