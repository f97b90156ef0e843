-- ===== src/Automation/Tests.antt =====
-- One automation, and the theorems on its life.
use nova_voice.Base.{◌≡◌, refl, true, false, none, some, List, [], ◌∷◌}
use nova_voice.Automation.Defs.{
  draft, active, Trigger, Action, Automation, changed, refused, bad_channel, drafted, objection,
  simulate, approve, activate, trigger_matches, has_all, lookup,
}
use nova_voice.Automation.Lifecycle.{
  Call, simulates, approves, activates, run, run_all, IsGranted, run_all-IsGranted,
}

abbrev at_door : Trigger
at_door = record {
  is_empty = false;
  kind = some "door";
  source = none;
  payload = some (("state", "open") ∷ []);
}

abbrev chime : Action
chime = record { channel = "voice"; message_length = some 12 }

abbrev greeting : Automation
greeting = record {
  id = "a1";
  owner_id = "ann";
  summary = "say hello";
  trigger = at_door;
  proposed_actions = chime ∷ [];
  simulation = none;
  state = draft;
  approval_id = none;
  activated_at = none;
  rolled_back_at = none;
  monitor_failures = 0;
  created_at = 5;
  updated_at = 5;
}

greeting-drafted : drafted (λ s. s) "a1" "ann" "say hello" at_door (chime ∷ []) 5 ≡ changed greeting
unfolding drafted objection
greeting-drafted = refl

shouting_refused :
    drafted
      (λ s. s)
      "a1"
      "ann"
      "say hello"
      at_door
      (record { channel = "siren"; message_length = none } ∷ [])
      5
    ≡ refused bad_channel
unfolding drafted objection
shouting_refused = refl

door_matches :
    trigger_matches at_door
      (record { source = "hall"; kind = "door"; payload = ("state", "open") ∷ [] })
    ≡ true
unfolding trigger_matches has_all lookup
door_matches = refl

abbrev to_active : List Call
to_active = simulates "r1" 10 ∷ approves "ann" 11 ∷ activates "ann" 12 ∷ []

greeting_active : (run_all to_active greeting).state ≡ active
unfolding run_all run simulate approve activate
greeting_active = refl

greeting-IsGranted : IsGranted greeting
greeting-IsGranted = record {
  found_safe = λ h. cc (h);
  by_owner = λ h. cc (h);
  activated = λ h. cc (h);
}

run_all-IsGranted_example : IsGranted (run_all to_active greeting)
run_all-IsGranted_example = run_all-IsGranted to_active greeting greeting-IsGranted
