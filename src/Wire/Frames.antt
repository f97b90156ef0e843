-- ===== src/Wire/Frames.antt =====
-- A frame of audio and its bytes (`AudioFrame.pack` and `AudioFrame.unpack` of
-- src/nova_voice/satellites/protocol.py). The fields are natural numbers; `struct` refuses a negative
-- one as it does one that is too large.
use nova_voice.Base.{
  ℕ, true, false, not, ◌||◌, Option, none, some, List, [], ◌∷◌, if◌then◌else◌, ltb, eqb, length,
}
use nova_voice.Wire.Struct.{pack, unpack_from}

pub data FrameKind : Type 0 where
  audio_input audio_output control : FrameKind

unfoldable pub kind_value : FrameKind → ℕ
kind_value audio_input = 1
kind_value audio_output = 2
kind_value control = 3

-- `FrameKind(kind)`
unfoldable pub kind_of : ℕ → Option FrameKind
kind_of n =
    if eqb n 1
    then some audio_input
    else if eqb n 2
    then some audio_output
    else if eqb n 3
    then some control
    else none

pub record Frame : Type 0 where
  pub kind : FrameKind
  pub flags : ℕ
  pub sequence : ℕ
  pub monotonic_ns : ℕ
  pub payload : List ℕ

-- `NVAF`, as a number of four bytes
abbrev pub magic : ℕ
magic = 0x4e56_4146

abbrev pub protocol_version : ℕ
protocol_version = 1

-- `HEADER`: the mark, the version, the kind, the flags, the sequence, the instant and the length
abbrev pub format : List ℕ
format = 4 ∷ 1 ∷ 1 ∷ 2 ∷ 8 ∷ 8 ∷ 4 ∷ []

abbrev pub header_size : ℕ
header_size = 28

abbrev pub fields : Frame → List ℕ
fields f =
    magic
    ∷ protocol_version
    ∷ kind_value f.kind
    ∷ f.flags
    ∷ f.sequence
    ∷ f.monotonic_ns
    ∷ length f.payload
    ∷ []

-- `pack`; nothing for `struct.error`
unfoldable pub pack_frame : Frame → Option (List ℕ)
unfolding pack
pack_frame f = pack format (fields f) f.payload

pub data Refusal : Type 0 where
  too_short bad_magic bad_length unknown_kind : Refusal

pub data Unpacked : Type 0 where
  refused : Refusal → Unpacked
  unpacked : Frame → Unpacked

-- `unpack`, once the header is read; a header has seven fields
unfoldable pub of_fields : List ℕ → List ℕ → Unpacked
unfolding kind_of
of_fields (mark ∷ version ∷ kind ∷ flags ∷ sequence ∷ monotonic ∷ count ∷ []) payload =
    if not (eqb mark magic) || not (eqb version protocol_version)
    then refused bad_magic
    else if not (eqb (length payload) count)
    then refused bad_length
    else (elim (kind_of kind) [
      | none ↦ refused unknown_kind
      | some k ↦ unpacked (record {
        kind = k;
        flags = flags;
        sequence = sequence;
        monotonic_ns = monotonic;
        payload = payload;
      })
    ])
of_fields _ payload = refused too_short

-- `unpack`
unfoldable pub unpack_frame : List ℕ → Unpacked
unfolding unpack_from of_fields
unpack_frame value = elim (ltb (length value) header_size) [
  | true ↦ refused too_short
  | false ↦ elim (unpack_from format value) [
    | none ↦ refused too_short
    | some (vs, payload) ↦ of_fields vs payload
  ]
]
