-- ===== src/Presence.antt =====
-- Whether the owner is home (src/nova_voice/companion/presence.py). An age is in microseconds. The
-- explanatory text of a reading is the case that it explains; a payload's untyped value is `Value`.
mod Laws
mod Tests
use nova_voice.Base.{
  ℕ, String, Bool, true, false, not, ◌&&◌, ◌||◌, Option, none, some, List, [], ◌∷◌, ltb,
  if◌then◌else◌, ◌==◌, is_text,
}

pub data State : Type 0 where
  home away unknown : State

pub data Source : Type 0 where
  home_lan_session device_location nothing : Source

pub data Detail : Type 0 where
  on_home_network reports_home reports_away outside not_connected : Detail
  old_fix : (age : ℕ) → Detail

-- `PresenceReading`
pub record Reading : Type 0 where
  pub state : State
  pub source : Source
  pub age_seconds : Option ℕ
  pub detail : Detail

-- `actionable`
unfoldable pub actionable : Reading → Bool
actionable r = elim r.state [ home ↦ true | away ↦ true | unknown ↦ false ]

abbrev located : Bool → Option ℕ → Reading
located is_home age = record {
  state = if is_home then home else away;
  source = device_location;
  age_seconds = age;
  detail = if is_home then reports_home else reports_away;
}

-- The reading of a fix: an age that is not known is not too old.
abbrev fixed : Bool → Option ℕ → ℕ → Reading
fixed is_home none max_age = located is_home none
fixed is_home (some age) max_age =
    if ltb max_age age
    then record {
      state = unknown;
      source = device_location;
      age_seconds = some age;
      detail = old_fix age;
    }
    else located is_home (some age)

-- `presence_from`
unfoldable pub presence_from : Option String → Bool → Option Bool → Option ℕ → ℕ → Reading
presence_from session_locality session_connected location_is_home location_age max_age =
    if session_connected && is_text session_locality "home_lan"
    then record {
      state = home;
      source = home_lan_session;
      age_seconds = some 0;
      detail = on_home_network;
    }
    else elim location_is_home [
      | some is_home ↦ fixed is_home location_age max_age
      | none ↦ record {
        state = unknown;
        source = nothing;
        age_seconds = none;
        detail = if session_connected then outside else not_connected;
      }
    ]

-- A value of a decoded payload, as far as the parser tells values apart: a number is its magnitude
-- and whether it is below 0.
pub data Value : Type 0 where
  bool : Bool → Value
  number : (negative : Bool) (magnitude : ℕ) → Value
  text : String → Value
  other : Value

pub data Accuracy : Type 0 where
  coarse fine : Accuracy

-- `LocationReading`, less its free text
pub record LocationReading : Type 0 where
  pub is_home : Bool
  pub accuracy : Accuracy
  pub age_seconds : ℕ

-- `stale`
unfoldable pub stale : LocationReading → ℕ → Bool
stale r max_age = ltb max_age r.age_seconds

-- `payload.get`
unfoldable pub field : List (String × Value) → String → Option Value
field [] key = none
field ((k, v) ∷ rest) key = if k == key then some v else field rest key

abbrev pub as_bool : Option Value → Option Bool
as_bool (some (bool b)) = some b
as_bool _ = none

-- A number that is not negative; in Python a Boolean is a number too, 0 or 1.
abbrev pub as_age : Option Value → Option ℕ
as_age (some (number false n)) = some n
as_age (some (bool true)) = some 1000000
as_age (some (bool false)) = some 0
as_age _ = none

abbrev pub as_accuracy : Option Value → Option Accuracy
as_accuracy (some (text t)) =
    if t == "coarse" then some coarse else if t == "fine" then some fine else none
as_accuracy _ = none

-- `parse_location_result`
unfoldable pub parse_location_result : List (String × Value) → Option LocationReading
unfolding field
parse_location_result payload = elim (as_bool (field payload "isHome")) [
  | none ↦ none
  | some is_home ↦ elim (as_age (field payload "ageSeconds")) [
    | none ↦ none
    | some age ↦ elim (as_accuracy (field payload "accuracy")) [
      | none ↦ none
      | some accuracy ↦ some (record { is_home = is_home; accuracy = accuracy; age_seconds = age })
    ]
  ]
]
