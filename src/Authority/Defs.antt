-- ===== src/Authority/Defs.antt =====
-- `HouseholdAuthority` (src/nova_voice/authority.py), as it decides from its caches of identities and
-- grants, which stand in the order of the dictionary. An amount of money is a number of its smallest
-- unit and not negative, an instant is in microseconds, and a time of day in minutes. The stripping
-- and folding of a text is a parameter, as is the household's clock.
use nova_voice.Base.{
  ℕ, zero, suc, length, ◌+◌, String, ◌<>◌, Bool, true, false, not, ◌&&◌, ◌||◌, Option, none, some,
  List, [], ◌∷◌, exists, ltb, leb, eqb, if◌then◌else◌, ◌==◌, is_text, is_some,
}
use text.Mathlib.Text.{starts_with}

-- `HouseholdRole`
pub data Role : Type 0 where
  owner recognized_household guest : Role

-- `IdentityPolicyRecord`
pub record Identity : Type 0 where
  pub person_id : String
  pub role : Role
  pub active : Bool

-- `GrantSchedule`
pub record Schedule : Type 0 where
  pub weekdays : List ℕ
  pub start_time : Option ℕ
  pub end_time : Option ℕ

-- `DelegationGrantRecord`
pub record GrantRecord : Type 0 where
  pub id : String
  pub expires_at : Option ℕ
  pub grantor_id : String
  pub grantee_id : String
  pub capability : String
  pub target_scope : List String
  pub recipients : List String
  pub locations : List String
  pub schedule : Option Schedule
  pub max_uses : Option ℕ
  pub uses : ℕ
  pub max_amount : Option ℕ
  pub spent_amount : ℕ
  pub active : Bool
  pub revoked_at : Option ℕ

-- `PlannedAction`: its call, and the arguments that authority reads; an amount that is no number and a
-- text that is no text are left out
pub record Action : Type 0 where
  pub provider : String
  pub tool : String
  pub scope : Option String
  pub operation : Option String
  pub amount : Option ℕ
  pub target : Option String
  pub recipient : Option String
  pub location : Option String
  pub room : Option String

-- `SpeakerIdentity`, recognized or not
pub record Speaker : Type 0 where
  pub recognized : Bool
  pub person_id : Option String

-- The providers whose tools are capabilities by their own names.
abbrev pub named_providers : List String
named_providers =
    "icloud" ∷ "personal" ∷ "library" ∷ "communications" ∷ "transactions" ∷ "commitments"
    ∷ "research" ∷ "briefings" ∷ "dialogue" ∷ []

abbrev pub is_among : List String → String → Bool
is_among names s = exists (λ n. n == s) names

-- `action_capability`
unfoldable pub action_capability : Action → String
action_capability a =
    if a.provider == "web"
    then "knowledge.read"
    else if is_among named_providers a.provider
    then (if starts_with a.tool (a.provider <> ".") then a.tool else a.provider <> ("." <> a.tool))
    else if not (a.provider == "nova")
    then a.provider <> ("." <> a.tool)
    else if a.tool == "nova.query"
    then (if is_text a.scope "tasks" then "tasks.read" else "home.read")
    else if a.tool == "nova.task"
    then (if is_text a.operation "list" then "tasks.read" else "tasks.manage")
    else if a.tool == "nova.control" || a.tool == "nova.lighting_shortcut"
    then "home.control"
    else a.tool

-- `_BASE_CAPABILITIES`, as a test
unfoldable pub is_base : Role → String → Bool
is_base owner capability = true
is_base recognized_household capability =
    is_among
      ("knowledge.read" ∷ "home.read" ∷ "home.control" ∷ "tasks.read" ∷ "tasks.manage"
        ∷ "library.search_shared" ∷ [])
      capability
is_base guest capability = "knowledge.read" == capability

unfoldable pub find_identity : List Identity → String → Option Identity
find_identity [] person = none
find_identity (i ∷ rest) person =
    if i.person_id == person then some i else find_identity rest person

abbrev pub assigned_or : Option Identity → Role → Role
assigned_or none r = r
assigned_or (some i) r = if i.active then i.role else r

-- `classify`; an empty person id counts as none
unfoldable pub classify : List Identity → Speaker → Role
unfolding find_identity
classify identities s = elim s.person_id [
  | none ↦ guest
  | some person ↦
      if s.recognized && not (person == "")
      then assigned_or (find_identity identities person) recognized_household
      else guest
]

-- `role_for_person`
unfoldable pub role_for_person : List Identity → String → Option Role
unfolding find_identity
role_for_person identities person = elim (find_identity identities person) [
  | none ↦ none
  | some i ↦ if i.active then some i.role else none
]

-- The day of the week and the time of day of an instant, in the household's zone.
pub record Clock : Type 0 where
  pub weekday : ℕ → ℕ
  pub time_of_day : ℕ → ℕ

abbrev pub is_nil {ℓ} : {A : Type ℓ} → List A → Bool
is_nil [] = true
is_nil (_ ∷ _) = false

abbrev pub in_window : Option ℕ → Option ℕ → ℕ → Bool
in_window none stop current = true
in_window (some start) none current = true
in_window (some start) (some stop) current =
    if leb start stop
    then leb start current && ltb current stop
    else leb start current || ltb current stop

-- `_schedule_allows`
unfoldable pub schedule_allows : Clock → Option Schedule → ℕ → Bool
schedule_allows clock none now = true
schedule_allows clock (some s) now =
    (is_nil s.weekdays || exists (λ d. eqb d (clock.weekday now)) s.weekdays)
    && in_window s.start_time s.end_time (clock.time_of_day now)

abbrev pub has_expired : Option ℕ → ℕ → Bool
has_expired none now = false
has_expired (some t) now = leb t now

abbrev pub has_uses : Option ℕ → ℕ → Bool
has_uses none uses = true
has_uses (some most) uses = ltb uses most

abbrev pub affords : Option ℕ → ℕ → Option ℕ → Bool
affords none spent amount = true
affords (some most) spent none = false
affords (some most) spent (some amount) = leb (spent + amount) most

module _ (clock : Clock) (normalized : String → Option String) where
  abbrev pub normal : Option String → Option String
  normal none = none
  normal (some s) = normalized s

  abbrev pub same : Option String → Option String → Bool
  same none none = true
  same (some s) (some t) = s == t
  same a b = false

  -- A scope of a grant that is given admits a value.
  abbrev pub admits : List String → Option String → Bool
  admits scope value = is_nil scope || exists (λ s. same (normalized s) (normal value)) scope

  -- `arguments.get("location") or arguments.get("room")`
  abbrev pub place_of : Action → Option String
  place_of a = elim a.location [ none ↦ a.room | some s ↦ if s == "" then a.room else some s ]

  -- `_grant_allows`
  unfoldable pub grant_allows : GrantRecord → Action → String → ℕ → Bool
  unfolding schedule_allows
  grant_allows g a capability now =
      g.active
      && not (is_some g.revoked_at)
      && not (has_expired g.expires_at now)
      && (g.capability == "*" || g.capability == capability)
      && has_uses g.max_uses g.uses
      && affords g.max_amount g.spent_amount a.amount
      && schedule_allows clock g.schedule now
      && admits g.target_scope a.target
      && admits g.recipients a.recipient
      && admits g.locations (place_of a)

  abbrev pub person_of : Speaker → Option String
  person_of s = if s.recognized then s.person_id else none

  -- The first grant that allows an action of a person.
  unfoldable pub matching :
      List GrantRecord → Option String → Action → String → ℕ → Option GrantRecord
  unfolding grant_allows
  matching [] person a capability now = none
  matching (g ∷ rest) person a capability now =
      if is_text person g.grantee_id && grant_allows g a capability now
      then some g
      else matching rest person a capability now

  -- `AuthorityOutcome`
  pub record Outcome : Type 0 where
    pub allowed : Bool
    pub role : Role
    pub grant_ids : List String

  -- The loop of `authorize`: the grants used, or nothing where an action is refused
  unfoldable pub authorize_rest :
      Role → List GrantRecord → Option String → List Action → ℕ → Option (List String)
  unfolding is_base matching action_capability
  authorize_rest role grants person [] now = some []
  authorize_rest role grants person (a ∷ rest) now =
      let others = authorize_rest role grants person rest now in
      if is_base role (action_capability a)
      then others
      else (elim (matching grants person a (action_capability a) now) [
        | none ↦ none
        | some g ↦ elim others [ none ↦ none | some ids ↦ some (g.id ∷ ids) ]
      ])

  unfoldable pub without : String → List String → List String
  without s [] = []
  without s (x ∷ rest) = let others = without s rest in if x == s then others else x ∷ others

  -- `tuple(dict.fromkeys(…))`: each id where it comes first
  unfoldable pub from_keys : ℕ → List String → List String
  unfolding without
  from_keys zero ids = []
  from_keys (suc n) [] = []
  from_keys (suc n) (x ∷ rest) = x ∷ from_keys n (without x rest)

  -- `authorize`
  unfoldable pub authorize : List Identity → List GrantRecord → Speaker → List Action → ℕ → Outcome
  unfolding classify authorize_rest from_keys
  authorize identities grants s actions now =
      let role = classify identities s in
      elim (authorize_rest role grants (person_of s) actions now) [
        | none ↦ record { allowed = false; role = role; grant_ids = [] }
        | some ids ↦ record { allowed = true; role = role; grant_ids = from_keys (length ids) ids }
      ]

-- `sum(…)` of the amounts
abbrev pub total_amount : List Action → ℕ
total_amount [] = 0
total_amount (a ∷ rest) = elim a.amount [ none ↦ 0 | some n ↦ n ] + total_amount rest

-- What `record_use` makes of a grant
unfoldable pub used : GrantRecord → List Action → GrantRecord
used g actions = record g {
  uses = g.uses + 1;
  spent_amount = g.spent_amount + total_amount actions;
}

-- What `revoke_grant` makes of a grant
unfoldable pub revoked_grant : GrantRecord → ℕ → GrantRecord
revoked_grant g now = record g { active = false; revoked_at = some now }

-- `validate_grant`, on uses and spending
unfoldable pub valid_grant : GrantRecord → Bool
valid_grant g =
    not (not (eqb g.uses 0) && not (elim g.max_uses [ none ↦ true | some most ↦ leb g.uses most ]))
    && not (
        not (eqb g.spent_amount 0)
        && not (elim g.max_amount [ none ↦ true | some most ↦ leb g.spent_amount most ]))
