-- ===== src/Wire/Greeting.antt =====
-- What a satellite says of itself when it connects, and what of it is accepted (`SatelliteHello` of
-- src/nova_voice/satellites/protocol.py).
use nova_voice.Base.{
  ℕ, ◌≡◌, ◌⊎◌, String, Bool, true, false, not, ◌&&◌, ◌||◌, Option, none, some, if◌then◌else◌, eqb,
  ◌==◌,
}
use nova_voice.Wire.Frames.{protocol_version}

pub record Capabilities : Type 0 where
  pub microphone : Bool
  pub speaker : Bool
  pub echo_cancellation : Bool
  pub noise_suppression : Bool
  pub automatic_gain_control : Bool
  pub playback_events : Bool
  pub local_vad : Bool
  pub identity_proof : Bool

pub data Client : Type 0 where
  linux_native macos_native browser ios_native : Client

-- `"none"` is unsupervised.
pub data Supervisor : Type 0 where
  systemd launchd unsupervised : Supervisor

pub record Hello : Type 0 where
  pub version : ℕ
  pub satellite_id : String
  pub display_name : String
  pub room_id : String
  pub client : Client
  pub supervisor : Supervisor
  pub capture_policy : String
  pub dashboard_foreground : Option Bool
  pub capabilities : Capabilities

-- The messages of the `ValueError`s
pub data Objection : Type 0 where
  unsupported_version no_microphone no_speaker capture_not_allowed has_supervisor : Objection
  no_echo_cancellation not_always no_supervisor wrong_supervisor : Objection

unfoldable pub is_supervised : Supervisor → Bool
is_supervised unsupervised = false
is_supervised _ = true

abbrev pub is_offered : String → Bool
is_offered policy = policy == "always" || policy == "push-to-talk"

abbrev pub objection_if : Bool → Objection → Option Objection
objection_if false o = none
objection_if true o = some o

-- The tests of a native client: macOS is supervised by launchd, Linux by systemd
unfoldable pub validate_native : Client → Supervisor → Option Objection
validate_native macos_native launchd = none
validate_native macos_native _ = some wrong_supervisor
validate_native linux_native systemd = none
validate_native linux_native _ = some wrong_supervisor
validate_native _ _ = none

-- `validate_protocol`: what it raises, or nothing
unfoldable pub validate_protocol : Hello → Option Objection
unfolding is_supervised validate_native
validate_protocol h =
    if not (eqb h.version protocol_version)
    then some unsupported_version
    else if not h.capabilities.microphone
    then some no_microphone
    else if not h.capabilities.speaker
    then some no_speaker
    else (elim h.client [
      | browser ↦
          if not (is_offered h.capture_policy)
          then some capture_not_allowed
          else objection_if (is_supervised h.supervisor) has_supervisor
      | ios_native ↦
          if not (is_offered h.capture_policy)
          then some capture_not_allowed
          else if is_supervised h.supervisor
          then some has_supervisor
          else objection_if (h.capture_policy == "always" && not h.capabilities.echo_cancellation)
              no_echo_cancellation
      | _ ↦
          if not (h.capture_policy == "always")
          then some not_always
          else if not (is_supervised h.supervisor)
          then some no_supervisor
          else validate_native h.client h.supervisor
    ])

-- The one supervisor of each kind of client.
abbrev pub supervisor_of : Client → Supervisor
supervisor_of linux_native = systemd
supervisor_of macos_native = launchd
supervisor_of browser = unsupervised
supervisor_of ios_native = unsupervised

abbrev pub may_push_to_talk : Client → Bool
may_push_to_talk browser = true
may_push_to_talk ios_native = true
may_push_to_talk _ = false

-- What the service asks of a greeting, whatever the client is.
pub record Admissible (h : Hello) : Type 0 where
  pub versioned : h.version ≡ protocol_version
  pub hears : h.capabilities.microphone ≡ true
  pub speaks : h.capabilities.speaker ≡ true
  pub supervised : h.supervisor ≡ supervisor_of h.client
  pub captures :
      (h.capture_policy ≡ "always")
      ⊎ ((h.capture_policy ≡ "push-to-talk") × (may_push_to_talk h.client ≡ true))
  pub cancels_echo :
      h.client ≡ ios_native → h.capture_policy ≡ "always" → h.capabilities.echo_cancellation ≡ true
