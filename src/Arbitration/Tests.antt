-- ===== src/Arbitration/Tests.antt =====
-- Two satellites that hear one utterance, and the theorems about claims on them.
use nova_voice.Base.{ℕ, ◌+◌, ◌≤◌, ◌≡◌, refl, false, not, some, max, arith, ◌==◌}
use nova_voice.Arbitration.Defs.{
  Arbiter, new_arbiter, is_gated, live_claim, acquire, grant, extend_for_playback,
}
use nova_voice.Arbitration.Exclusion.{
  claim, extend, serve, Reached, at_first, wait, after, IsLive, one_claim_at_once, no_claim_sticks,
}

abbrev first : ℕ
first = 0

abbrev start : Arbiter
start = new_arbiter 25 60 2

abbrev one_claim : Arbiter
one_claim = serve (claim "flat" "left" "hall" 1) 100 start

-- The other satellite's claim is refused meanwhile, and the first is extended.
abbrev tried : Arbiter
tried = serve (claim "flat" "right" "den" 1) 105 one_claim

abbrev played : Arbiter
played = serve (extend 0 90) 110 tried

reached_one : Reached 25 60 2 one_claim 101
reached_one = after start 100 100 (claim "flat" "left" "hall" 1) (at_first 100) (omega arith)

reached_tried : Reached 25 60 2 tried 106
reached_tried = after one_claim 101 105 (claim "flat" "right" "den" 1) reached_one (omega arith)

reached_played : Reached 25 60 2 played 110
reached_played = after tried 106 110 (extend 0 90) reached_tried (omega arith)

played_holder : (played.heap 0).satellite_id ≡ "left"
unfolding serve acquire live_claim grant extend_for_playback new_arbiter
played_holder = refl

played_deadline : (played.heap 0).deadline ≡ 161
unfolding serve acquire live_claim grant extend_for_playback new_arbiter
played_deadline = refl

played-IsLive : IsLive played 110 0
unfolding serve acquire live_claim grant extend_for_playback new_arbiter
played-IsLive = (refl, omega arith)

played_current : played.current "flat" ≡ some 0
unfolding serve acquire live_claim grant extend_for_playback new_arbiter
played_current = refl

long_after : (played.heap 0).acquired + max played.initial_hold played.max_hold ≤ 161
unfolding serve acquire live_claim grant extend_for_playback new_arbiter
long_after = omega arith

one_claim_at_once_example :
    ((played.heap first).scope_id ≡ (played.heap 0).scope_id → IsLive played 110 first → first ≡ 0)
    × ((is_gated played (played.heap 0).scope_id "right" 110).0
        ≡ not ((played.heap 0).satellite_id == "right"))
one_claim_at_once_example =
    one_claim_at_once 25 60 2 played 110 0 0 "right" reached_played played-IsLive

no_claim_sticks_example : (is_gated played "flat" "right" 161).0 ≡ false
no_claim_sticks_example =
    no_claim_sticks 25 60 2 played 161 "flat" "right" 0
      (wait played 110 161 reached_played (omega arith)) played_current long_after
