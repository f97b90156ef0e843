-- ===== src/Arbitration/Defs.antt =====
-- `TurnArbiter` (src/nova_voice/audio/arbitration.py). A claim is an object that the arbiter and a
-- turn share, so it is known by a number in a heap; numbers from `next` on are not given out yet.
-- Times and spans are in microseconds, and every reading of the clock is an argument.
use nova_voice.Base.{
  ℕ, suc, ◌+◌, String, Bool, true, false, not, ◌||◌, Option, none, some, min, max, leb, eqb,
  if◌then◌else◌, ◌==◌,
}

-- `TurnClaim`
pub record TurnClaim : Type 0 where
  pub scope_id : String
  pub satellite_id : String
  pub room_id : String
  pub acquired : ℕ
  pub deadline : ℕ
  pub released : Bool

-- `TurnArbiter`: its settings, the claims ever made, and the current claim of a scope
pub record Arbiter : Type 0 where
  pub initial_hold : ℕ
  pub max_hold : ℕ
  pub playback_grace : ℕ
  pub heap : ℕ → TurnClaim
  pub next : ℕ
  pub current : String → Option ℕ

abbrev pub no_claim : TurnClaim
no_claim = record {
  scope_id = "";
  satellite_id = "";
  room_id = "";
  acquired = 0;
  deadline = 0;
  released = true;
}

unfoldable pub new_arbiter : (initial most grace : ℕ) → Arbiter
new_arbiter initial most grace = record {
  initial_hold = initial;
  max_hold = most;
  playback_grace = grace;
  heap = λ _. no_claim;
  next = 0;
  current = λ _. none;
}

abbrev pub store : Arbiter → ℕ → TurnClaim → Arbiter
store a c claim = record a { heap = λ i. if eqb i c then claim else a.heap i }

abbrev pub pop : Arbiter → String → Arbiter
pop a scope = record a { current = λ s. if scope == s then none else a.current s }

abbrev pub put : Arbiter → String → ℕ → Arbiter
put a scope c = record a { current = λ s. if scope == s then some c else a.current s }

-- `self._claims.get(scope) is claim`
abbrev pub is_claim : Option ℕ → ℕ → Bool
is_claim none c = false
is_claim (some d) c = eqb d c

-- `_live_claim`
unfoldable pub live_claim : Arbiter → String → ℕ → Option ℕ × Arbiter
live_claim a scope now = elim (a.current scope) [
  | none ↦ (none, a)
  | some c ↦
      if (a.heap c).released || leb (a.heap c).deadline now
      then (none, pop a scope)
      else (some c, a)
]

-- Whether a claim that was found is another satellite's.
abbrev pub is_other : Arbiter → String → Option ℕ → Bool
is_other a satellite none = false
is_other a satellite (some c) = not ((a.heap c).satellite_id == satellite)

-- `is_gated`
unfoldable pub is_gated : Arbiter → String → String → ℕ → Bool × Arbiter
unfolding live_claim
is_gated a scope satellite now =
    let (found, a') = live_claim a scope now in (is_other a' satellite found, a')

abbrev pub let_go : Arbiter → Option ℕ → Arbiter
let_go a none = a
let_go a (some c) = store a c (record (a.heap c) { released = true })

-- The claim that `acquire` makes.
unfoldable pub grant : Arbiter → (scope satellite room : String) → ℕ → Arbiter
grant a scope satellite room now =
    put
      (record (store a a.next (record {
        scope_id = scope;
        satellite_id = satellite;
        room_id = room;
        acquired = now;
        deadline = now + a.initial_hold;
        released = false;
      })) { next = suc a.next })
      scope a.next

-- `acquire`, which reads the clock twice
unfoldable pub acquire :
    Arbiter → (scope satellite room : String) → (t1 t2 : ℕ) → Option ℕ × Arbiter
unfolding live_claim grant
acquire a scope satellite room t1 t2 =
    let (found, a') = live_claim a scope t1 in
    if is_other a' satellite found
    then (none, a')
    else (some a'.next, grant (let_go a' found) scope satellite room t2)

-- `extend_for_playback`; a span below zero is none
unfoldable pub extend_for_playback : Arbiter → ℕ → (remaining now : ℕ) → Arbiter
extend_for_playback a c remaining now =
    let claim = a.heap c in
    if claim.released || not (is_claim (a.current claim.scope_id) c)
    then a
    else store a c (record claim {
      deadline =
          max claim.deadline
            (min (now + remaining + a.playback_grace) (claim.acquired + a.max_hold));
    })

-- `release`, of a claim
unfoldable pub release : Arbiter → ℕ → Arbiter
release a c =
    if (a.heap c).released
    then a
    else (let freed = store a c (record (a.heap c) { released = true }) in
        if is_claim (a.current (a.heap c).scope_id) c then pop freed (a.heap c).scope_id else freed)
