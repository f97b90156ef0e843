-- ===== src/Presence/Tests.antt =====
-- Readings at concrete sessions and answers (src/nova_voice/companion/presence.py).
use nova_voice.Base.{String, ◌≡◌, refl, true, false, some, List, [], ◌∷◌}
use nova_voice.Presence.{
  away, presence_from, Value, bool, text, number, LocationReading, coarse, parse_location_result,
  stale,
}

reported_away : (presence_from (some "tailnet") true (some false) (some 5) 900).state ≡ away
unfolding presence_from
reported_away = refl

abbrev answer : List (String × Value)
answer = ("isHome", bool true) ∷ ("ageSeconds", number false 7) ∷ ("accuracy", text "coarse") ∷ []

abbrev located : LocationReading
located = record { is_home = true; accuracy = coarse; age_seconds = 7 }

answer_parsed : (parse_location_result answer ≡ some located) × (stale located 5 ≡ true)
unfolding parse_location_result stale
answer_parsed = (refl, refl)
