-- ===== src/Policy/Laws.antt =====
-- What every execution that the policy allows has met (src/nova_voice/policy.py).
use nova_voice.Base.{
  ℕ, ◌≤◌, ◌≡◌, refl, sym, ◌∙◌, ◌⊎◌, inl, inr, String, Bool, true, false, not, ◌&&◌, Option, some,
  List, All, ltb, if◌then◌else◌, arith,
}
use nova_voice.Domain.{SpeechAct, directive}
use nova_voice.Authority.Defs.{Identity, GrantRecord, Speaker, Clock, authorize, action_capability}
use nova_voice.Authority.Laws.{stranger_reads_only}
use nova_voice.Policy.{
  Settings, Request, PolicyOutcome, Authorized, is_executable_act, is_refused_act, all_web,
  wants_execution, is_active, is_denied, evaluate, decide,
}

-- What the policy asks of an execution.
pub record Cleared (settings : Settings) (r : Request) (authority : Option Authorized)
    : Type 0 where
  pub not_self : r.self_intended ≡ false
  pub wanted : wants_execution r ≡ true
  pub act : is_executable_act (all_web r.actions) r.speech_act ≡ true
  pub addressed :
      (if is_active r
        then settings.active_addressed_threshold
        else settings.passive_addressed_threshold)
      ≤ r.addressed_probability
  pub confident :
      (r.targets_verified && is_active r ≡ true)
      ⊎ ((if is_active r
            then settings.active_interpretation_threshold
            else settings.passive_interpretation_threshold)
          ≤ r.confidence)
  pub authorized : is_denied (λ (o : Authorized). o.granted) authority ≡ false
  pub not_shadowed : settings.shadow_mode && not r.dry_run ≡ false
  pub engaged :
      (is_active r ≡ true)
      ⊎ ((all_web r.actions ≡ false) × (settings.passive_execution_enabled ≡ true))

-- A refusal that was not taken.
passed :
    (b : Bool) (x y : PolicyOutcome)
    → x.executes ≡ false
    → (if b then x else y).executes ≡ true
    → (b ≡ false) × (y.executes ≡ true)
passed true x y n h = let never : false ≡ true = sym n ∙ h in cc (never)
passed false x y n h = (refl, h)

passes :
    (P : PolicyOutcome → Type 0) (b : Bool) (x y : PolicyOutcome)
    → b ≡ false
    → P y
    → P (if b then x else y)
passes P b x y e h = rw e h

un_not : (b : Bool) → not b ≡ false → b ≡ true
un_not true h = refl
un_not false h = cc (h)

not-un : (b : Bool) → b ≡ true → not b ≡ false
not-un b h = rw h refl

at_least : (a b : ℕ) → ltb a b ≡ false → b ≤ a
at_least a b h = ground arith

not-below : (a b : ℕ) → b ≤ a → ltb a b ≡ false
not-below a b h = ground arith

sure_or_confident : (sure : Bool) (a b : ℕ) → not sure && ltb a b ≡ false → (sure ≡ true) ⊎ (b ≤ a)
sure_or_confident true a b h = inl refl
sure_or_confident false a b h = inr (at_least a b h)

confident_enough : (sure : Bool) (a b : ℕ) → (sure ≡ true) ⊎ (b ≤ a) → not sure && ltb a b ≡ false
confident_enough sure a b (inl e) = rw e refl
confident_enough true a b (inr h) = refl
confident_enough false a b (inr h) = not-below a b h

engaged_by :
    (web active passive : Bool)
    → web && not active ≡ false
    → not web && not active && not passive ≡ false
    → (active ≡ true) ⊎ ((web ≡ false) × (passive ≡ true))
engaged_by web true passive h k = inl refl
engaged_by true false passive h k = cc (h)
engaged_by false false passive h k = inr (refl, un_not passive k)

engaged_web :
    (web active passive : Bool)
    → (active ≡ true) ⊎ ((web ≡ false) × (passive ≡ true))
    → (web && not active ≡ false) × (not web && not active && not passive ≡ false)
engaged_web web active passive h = ground arith

act-not_refused :
    (web : Bool) (a : SpeechAct) → is_executable_act web a ≡ true → is_refused_act a ≡ false
act-not_refused web directive h = refl
act-not_refused web a h = ground arith

-- An action runs only for a request that meets every one of the policy's conditions, and one that meets
-- them runs, dry exactly when the request is.
pub executes_iff_Cleared :
    (settings : Settings) (r : Request) (authority : Option Authorized)
    → ((evaluate settings r authority).executes ≡ true → Cleared settings r authority)
      × (Cleared settings r authority
          → ((evaluate settings r authority).executes ≡ true)
            × ((evaluate settings r authority).dry ≡ r.dry_run))
unfolding evaluate
executes_iff_Cleared settings r authority =
    let web = all_web r.actions in
    let active = is_active r in
    let near : ℕ =
      if active
      then settings.active_addressed_threshold
      else settings.passive_addressed_threshold in
    let floor : ℕ =
      if active
      then settings.active_interpretation_threshold
      else settings.passive_interpretation_threshold in
    let sure = r.targets_verified && active in
    let b7 = is_denied (λ (o : Authorized). o.granted) authority in
    let Runs : PolicyOutcome → Type 0 = λ o. (o.executes ≡ true) × (o.dry ≡ r.dry_run) in
    (
      λ h.
          let (c1, h1) = passed r.self_intended _ _ refl h in
          let (c2, h2) = passed (not (wants_execution r)) _ _ refl h1 in
          let (c3, h3) = passed (is_refused_act r.speech_act) _ _ refl h2 in
          let (c4, h4) = passed (not (is_executable_act web r.speech_act)) _ _ refl h3 in
          let (c5, h5) = passed (ltb r.addressed_probability near) _ _ refl h4 in
          let (c6, h6) = passed (not sure && ltb r.confidence floor) _ _ refl h5 in
          let (c7, h7) = passed b7 _ _ refl h6 in
          let (c8, h8) = passed (settings.shadow_mode && not r.dry_run) _ _ refl h7 in
          let (c9, h9) = passed (web && not active) _ _ refl h8 in
          let (c10, _) =
            passed (not web && not active && not settings.passive_execution_enabled) _ _ refl h9 in
          record {
            not_self = c1;
            wanted = un_not (wants_execution r) c2;
            act = un_not (is_executable_act web r.speech_act) c4;
            addressed = at_least r.addressed_probability near c5;
            confident = sure_or_confident sure r.confidence floor c6;
            authorized = c7;
            not_shadowed = c8;
            engaged = engaged_by web active settings.passive_execution_enabled c9 c10;
          },
      λ c.
          let (c9, c10) = engaged_web web active settings.passive_execution_enabled c.engaged in
          passes Runs r.self_intended _ _ c.not_self (
            passes Runs (not (wants_execution r)) _ _ (not-un (wants_execution r) c.wanted) (
              passes Runs (is_refused_act r.speech_act) _ _ (act-not_refused web r.speech_act c.act)
                (passes Runs (not (is_executable_act web r.speech_act)) _ _
                  (not-un (is_executable_act web r.speech_act) c.act)
                  (passes Runs (ltb r.addressed_probability near) _ _
                    (not-below r.addressed_probability near c.addressed)
                    (passes Runs (not sure && ltb r.confidence floor) _ _
                      (confident_enough sure r.confidence floor c.confident)
                      (passes Runs b7 _ _ c.authorized (
                        passes Runs (settings.shadow_mode && not r.dry_run) _ _ c.not_shadowed (
                          passes Runs (web && not active) _ _ c9 (
                            passes Runs
                              (not web && not active && not settings.passive_execution_enabled) _ _
                              c10 (refl, refl)))))))))),
    )

-- Whatever identities and grants there are, what runs for a speaker that is not recognized only reads
-- knowledge.
pub stranger_executes_reads_only :
    (clock : Clock) (normalized : String → Option String) (settings : Settings)
    (identities : List Identity) (grants : List GrantRecord) (s : Speaker) (now : ℕ) (r : Request)
    → s.recognized ≡ false
    → (decide clock normalized settings identities grants s now r).executes ≡ true
    → All (λ a. action_capability a ≡ "knowledge.read") r.actions
unfolding decide
stranger_executes_reads_only clock normalized settings identities grants s now r unknown h =
    let o = authorize clock normalized identities grants s r.actions now in
    let asked : Authorized = record {
      granted = o.allowed;
      role = o.role;
      grant_ids = o.grant_ids;
    } in
    let cleared = (executes_iff_Cleared settings r (some asked)).0 h in
    stranger_reads_only clock normalized identities grants s r.actions now unknown
      (un_not o.allowed cleared.authorized)
