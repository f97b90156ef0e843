-- ===== src/Policy/Tests.antt =====
-- One household, its requests, and the theorems about authority and policy on them.
use nova_voice.Base.{
  ℕ, ◌≡◌, refl, String, true, false, Option, none, some, [], ◌∷◌, All, inl, inr, arith,
}
use nova_voice.Domain.{directive, execute}
use nova_voice.Authority.Defs.{
  GrantRecord, Action, Speaker, Clock, classify, is_base, grant_allows, authorize, authorize_rest,
  matching, action_capability, schedule_allows, from_keys, find_identity, used, valid_grant,
  without, person_of,
}
use nova_voice.Authority.Laws.{Permitted, authorize-Permitted, spending_is_not_summed}
use nova_voice.Policy.{Settings, Request, PolicyOutcome, evaluate, decide}
use nova_voice.Policy.Laws.{Cleared, executes_iff_Cleared, stranger_executes_reads_only}

abbrev clock : Clock
clock = record { weekday = λ t. 0; time_of_day = λ t. 600 }

abbrev as_is : String → Option String
as_is s = some s

abbrev payment : ℕ → Action
payment n = record {
  provider = "transactions";
  tool = "pay";
  scope = none;
  operation = none;
  amount = some n;
  target = none;
  recipient = none;
  location = none;
  room = none;
}

abbrev lookup : Action
lookup = record (payment 0) { provider = "web"; tool = "search"; amount = none }

abbrev allowance : GrantRecord
allowance = record {
  id = "g1";
  expires_at = none;
  grantor_id = "o";
  grantee_id = "kid";
  capability = "transactions.pay";
  target_scope = [];
  recipients = [];
  locations = [];
  schedule = none;
  max_uses = none;
  uses = 0;
  max_amount = some 100;
  spent_amount = 0;
  active = true;
  revoked_at = none;
}

abbrev kid : Speaker
kid = record { recognized = true; person_id = some "kid" }

abbrev visitor : Speaker
visitor = record { recognized = false; person_id = none }

kid_pays : (authorize clock as_is [] (allowance ∷ []) kid (payment 60 ∷ []) 5).allowed ≡ true
unfolding authorize authorize_rest matching grant_allows schedule_allows classify find_identity
    is_base action_capability from_keys without
kid_pays = refl

visitor_reads : (authorize clock as_is [] (allowance ∷ []) visitor (lookup ∷ []) 5).allowed ≡ true
unfolding authorize authorize_rest matching grant_allows schedule_allows classify find_identity
    is_base action_capability from_keys without
visitor_reads = refl

visitor_pays_not :
    (authorize clock as_is [] (allowance ∷ []) visitor (payment 60 ∷ []) 5).allowed ≡ false
unfolding authorize authorize_rest matching grant_allows schedule_allows classify find_identity
    is_base action_capability from_keys without
visitor_pays_not = refl

authorize-Permitted_example :
    All
      (Permitted clock as_is (classify [] kid) (allowance ∷ []) (person_of clock as_is kid) 5)
      (payment 60 ∷ [])
authorize-Permitted_example =
    authorize-Permitted clock as_is [] (allowance ∷ []) kid (payment 60 ∷ []) 5 kid_pays

pay_not_base : (n : ℕ) → is_base (classify [] kid) (action_capability (payment n)) ≡ false
unfolding is_base classify action_capability find_identity
pay_not_base n = refl

pay_granted :
    grant_allows clock as_is allowance (payment 60) (action_capability (payment 60)) 5 ≡ true
unfolding grant_allows schedule_allows action_capability
pay_granted = refl

spending_is_not_summed_example :
    ((authorize clock as_is [] (allowance ∷ []) kid (payment 60 ∷ payment 60 ∷ []) 5).allowed
      ≡ true)
    × (valid_grant (used allowance (payment 60 ∷ payment 60 ∷ [])) ≡ false)
spending_is_not_summed_example =
    spending_is_not_summed clock as_is [] allowance [] kid (payment 60) (payment 60) 5 100 60 60
      (pay_not_base 60) (pay_not_base 60) refl pay_granted pay_granted refl refl refl (omega arith)

abbrev settings : Settings
settings = record {
  active_addressed_threshold = 500000;
  passive_addressed_threshold = 900000;
  active_interpretation_threshold = 600000;
  passive_interpretation_threshold = 900000;
  shadow_mode = false;
  passive_execution_enabled = false;
}

abbrev asks : Request
asks = record {
  self_intended = false;
  wake_detected = true;
  conversation_active = false;
  session_active = false;
  targets_verified = false;
  dry_run = false;
  decision = execute;
  speech_act = directive;
  actions = lookup ∷ [];
  addressed_probability = 950000;
  confidence = 800000;
}

asks-Cleared : Cleared settings asks none
asks-Cleared = record {
  not_self = refl;
  wanted = refl;
  act = refl;
  addressed = omega arith;
  confident = inr (omega arith);
  authorized = refl;
  not_shadowed = refl;
  engaged = inl refl;
}

abbrev asked : PolicyOutcome
asked = evaluate settings asks none

executes_iff_Cleared_example :
    (asked.executes ≡ true → Cleared settings asks none)
    × (Cleared settings asks none → (asked.executes ≡ true) × (asked.dry ≡ asks.dry_run))
executes_iff_Cleared_example = executes_iff_Cleared settings asks none

visitor_executes : (decide clock as_is settings [] [] visitor 5 asks).executes ≡ true
unfolding decide evaluate authorize authorize_rest matching grant_allows schedule_allows classify
    find_identity is_base action_capability from_keys without
visitor_executes = refl

stranger_executes_reads_only_example :
    All (λ a. action_capability a ≡ "knowledge.read") asks.actions
stranger_executes_reads_only_example =
    stranger_executes_reads_only clock as_is settings [] [] visitor 5 asks refl visitor_executes
