-- ===== src/Presence/Laws.antt =====
-- When a reading says home, and when it says away.
use nova_voice.Base.{
  ℕ, String, ◌≡◌, refl, Bool, true, false, ◌&&◌, Option, none, some, List, arith, ◌↔◌, ◌||◌, leb,
  is_some, eq_iff, is_text,
}
use nova_voice.Presence.{
  away, actionable, presence_from, Value, bool, text, LocationReading, parse_location_result, field,
  as_age, Accuracy, as_bool, as_accuracy, number, coarse, fine, other,
}

-- The age is not known to pass the limit.
abbrev pub within : Option ℕ → ℕ → Bool
within none max_age = true
within (some age) max_age = leb age max_age

-- Presence is away exactly when no session is connected through the home network and the device
-- itself reported that it is away, in a fix that is not known to be too old. So neither a lost
-- connection nor a session from elsewhere ever makes anyone away.
away_iff_reported :
    (locality : Option String) (connected : Bool) (is_home : Option Bool) (age : Option ℕ)
    (max_age : ℕ)
    → ((presence_from locality connected is_home age max_age).state ≡ away) ↔ (
        (connected && is_text locality "home_lan" ≡ false)
        × (is_home ≡ some false)
        × (within age max_age ≡ true))
unfolding presence_from
away_iff_reported locality connected is_home age max_age = (λ h. ground arith, λ h. ground arith)

-- A reading is actionable exactly when there is evidence: a session connected through the home
-- network, or an answer of the device in a fix that is not known to be too old.
actionable_iff_evidence :
    (locality : Option String) (connected : Bool) (is_home : Option Bool) (age : Option ℕ)
    (max_age : ℕ)
    → actionable (presence_from locality connected is_home age max_age)
      ≡ (connected && is_text locality "home_lan" || is_some is_home && within age max_age)
unfolding presence_from actionable
actionable_iff_evidence locality connected is_home age max_age = ground arith

abbrev pub word : Accuracy → String
word coarse = "coarse"
word fine = "fine"

as_bool_said : (o : Option Value) (b : Bool) → as_bool o ≡ some b → o ≡ some (bool b)
as_bool_said none b h = cc
as_bool_said (some (bool c)) b h = ground arith
as_bool_said (some _) b h = cc

as_accuracy_said :
    (o : Option Value) (a : Accuracy) → as_accuracy o ≡ some a → o ≡ some (text (word a))
as_accuracy_said none a h = cc
as_accuracy_said (some (text t)) coarse h = ground (arith, eq_iff t "coarse", eq_iff t "fine")
as_accuracy_said (some (text t)) fine h = ground (arith, eq_iff t "coarse", eq_iff t "fine")
as_accuracy_said (some (bool b)) a h = cc
as_accuracy_said (some (number b n)) a h = cc
as_accuracy_said (some other) a h = cc

as_accuracy-word : (a : Accuracy) → as_accuracy (some (text (word a))) ≡ some a
as_accuracy-word coarse = refl
as_accuracy-word fine = refl

-- A location answer is read exactly from a payload that says in so many words whether the device
-- is home, how old the fix is, with a number that is not negative, and how accurate: what is
-- missing or malformed is never filled in.
parse_iff_said :
    (payload : List (String × Value)) (r : LocationReading)
    → (parse_location_result payload ≡ some r) ↔ (
        (field payload "isHome" ≡ some (bool r.is_home))
        × (as_age (field payload "ageSeconds") ≡ some r.age_seconds)
        × (field payload "accuracy" ≡ some (text (word r.accuracy))))
unfolding parse_location_result
parse_iff_said payload r = (
  λ h. ground (
    arith,
    as_bool_said (field payload "isHome") r.is_home,
    as_accuracy_said (field payload "accuracy") r.accuracy,
  ),
  λ h. ground (arith, as_accuracy-word r.accuracy),
)
