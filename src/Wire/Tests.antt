-- ===== src/Wire/Tests.antt =====
-- Frames and greetings, and the theorems on them.
use nova_voice.Base.{ℕ, ◌≡◌, ◌↔◌, refl, true, false, none, some, List, [], ◌∷◌, arith}
use nova_voice.Wire.Bytes.{Bytes, push, read}
use nova_voice.Wire.Struct.{fits, push_all, pack, unpack_from}
use nova_voice.Wire.Frames.{
  Frame, control, kind_value, kind_of, of_fields, pack_frame, unpack_frame, unpacked, refused,
  too_short,
}
use nova_voice.Wire.Trips.{unpack_iff_packed}
use nova_voice.Wire.Greeting.{
  Hello, ios_native, unsupervised, validate_protocol, Admissible, no_echo_cancellation,
}
use nova_voice.Wire.Admission.{validate_iff_Admissible}

abbrev tap : Frame
tap = record {
  kind = control;
  flags = 1;
  sequence = 258;
  monotonic_ns = 65536;
  payload = 7 ∷ 8 ∷ [];
}

abbrev tap_bytes : List ℕ
tap_bytes =
    78 ∷ 86 ∷ 65 ∷ 70 ∷ 1 ∷ 3 ∷ 0 ∷ 1 ∷ 0 ∷ 0 ∷ 0 ∷ 0 ∷ 0 ∷ 0 ∷ 1 ∷ 2 ∷ 0 ∷ 0 ∷ 0 ∷ 0 ∷ 0 ∷ 1 ∷ 0
    ∷ 0 ∷ 0 ∷ 0 ∷ 0 ∷ 2 ∷ 7 ∷ 8 ∷ []

tap_packed : pack_frame tap ≡ some tap_bytes
unfolding pack_frame pack push_all push fits kind_value
tap_packed = refl

tap_unpacked : unpack_frame tap_bytes ≡ unpacked tap
unfolding unpack_frame unpack_from read of_fields kind_of
tap_unpacked = refl

cut_refused : unpack_frame (78 ∷ 86 ∷ []) ≡ refused too_short
unfolding unpack_frame
cut_refused = refl

tap_bytes-Bytes : Bytes tap_bytes
tap_bytes-Bytes = ground arith

unpack_iff_packed_example :
    (unpack_frame tap_bytes ≡ unpacked tap) ↔ (pack_frame tap ≡ some tap_bytes)
unpack_iff_packed_example = unpack_iff_packed tap_bytes tap tap_bytes-Bytes

abbrev phone : Hello
phone = record {
  version = 1;
  satellite_id = "phone";
  display_name = "Phone";
  room_id = "kitchen";
  client = ios_native;
  supervisor = unsupervised;
  capture_policy = "always";
  dashboard_foreground = none;
  capabilities = record {
    microphone = true;
    speaker = true;
    echo_cancellation = false;
    noise_suppression = false;
    automatic_gain_control = false;
    playback_events = true;
    local_vad = true;
    identity_proof = true;
  };
}

phone_refused : validate_protocol phone ≡ some no_echo_cancellation
unfolding validate_protocol
phone_refused = refl

validate_iff_Admissible_example : (validate_protocol phone ≡ none) ↔ Admissible phone
validate_iff_Admissible_example = validate_iff_Admissible phone
