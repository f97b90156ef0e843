-- ===== src/Wire/Trips.antt =====
-- What AudioFrame.pack writes is what AudioFrame.unpack reads, and nothing else is read
-- (src/nova_voice/satellites/protocol.py).
use nova_voice.Base.{
  ℕ, ◌≡◌, ◌↔◌, refl, subst, false, some, List, [], ◌∷◌, length, arith, Option-cases, inl, inr, ltb,
}
use nova_voice.Wire.Bytes.{Bytes}
use nova_voice.Wire.Struct.{pack, unpack_from, unpack_iff_pack, unpack_from-length}
use nova_voice.Wire.Frames.{
  FrameKind, audio_input, audio_output, control, kind_value, kind_of, Frame, format, header_size,
  magic, protocol_version, fields, of_fields, unpacked, pack_frame, unpack_frame,
}

kind_of-value : (k : FrameKind) → kind_of (kind_value k) ≡ some k
unfolding kind_of kind_value
kind_of-value audio_input = refl
kind_of-value audio_output = refl
kind_of-value control = refl

kind_value-of : (n : ℕ) (k : FrameKind) → kind_of n ≡ some k → n ≡ kind_value k
unfolding kind_of kind_value
kind_value-of n audio_input h = ground arith
kind_value-of n audio_output h = ground arith
kind_value-of n control h = ground arith

of_fields-fields : (f : Frame) → of_fields (fields f) f.payload ≡ unpacked f
unfolding of_fields
of_fields-fields f = rw (kind_of-value f.kind) (ground arith)

of_fields-Whole :
    (vs payload : List ℕ) (f : Frame)
    → of_fields vs payload ≡ unpacked f
    → (vs ≡ fields f) × (payload ≡ f.payload)
unfolding of_fields
of_fields-Whole [] payload f r = cc (r)
of_fields-Whole (_ ∷ []) payload f r = cc (r)
of_fields-Whole (_ ∷ _ ∷ []) payload f r = cc (r)
of_fields-Whole (_ ∷ _ ∷ _ ∷ []) payload f r = cc (r)
of_fields-Whole (_ ∷ _ ∷ _ ∷ _ ∷ []) payload f r = cc (r)
of_fields-Whole (_ ∷ _ ∷ _ ∷ _ ∷ _ ∷ []) payload f r = cc (r)
of_fields-Whole (_ ∷ _ ∷ _ ∷ _ ∷ _ ∷ _ ∷ []) payload f r = cc (r)
of_fields-Whole (m ∷ v ∷ k ∷ a ∷ s ∷ t ∷ n ∷ []) payload f r = elim (Option-cases (kind_of k)) [
  | inl e ↦ ground arith
  | inr (kind, e) ↦
      let read : (m ≡ magic) × (v ≡ protocol_version) × (length payload ≡ n) = ground arith in
      let given : Frame = record {
        kind = kind;
        flags = a;
        sequence = s;
        monotonic_ns = t;
        payload = payload;
      } in
      let same : given ≡ f = ground arith in
      let (of_mark, of_version, of_count) = read in
      let on = kind_value-of k kind e in
      subst (λ (g : Frame). ((m ∷ v ∷ k ∷ a ∷ s ∷ t ∷ n ∷ []) ≡ fields g) × (payload ≡ g.payload))
        same (cc (of_mark, of_version, of_count, on), refl)
]
of_fields-Whole (_ ∷ _ ∷ _ ∷ _ ∷ _ ∷ _ ∷ _ ∷ _ ∷ _) payload f r = cc (r)

-- A message of bytes is unpacked to a frame exactly when packing that frame gives the message.
pub unpack_iff_packed :
    (message : List ℕ) (f : Frame)
    → Bytes message
    → (unpack_frame message ≡ unpacked f) ↔ (pack_frame f ≡ some message)
unfolding unpack_frame pack_frame
unpack_iff_packed message f h = (forth, back)
  where
    forth : unpack_frame message ≡ unpacked f → pack_frame f ≡ some message
    forth r = elim (Option-cases (unpack_from format message)) [
      | inl e ↦ ground arith
      | inr ((vs, payload), e) ↦
          let given : of_fields vs payload ≡ unpacked f = ground arith in
          let (of_header, of_payload) = of_fields-Whole vs payload f given in
          let same : (vs, payload) ≡ (fields f, f.payload) = cc (of_header, of_payload) in
          subst (λ (o : List ℕ × List ℕ). pack format o.0 o.1 ≡ some message) same
            ((unpack_iff_pack format message vs payload h).0 e)
    ]

    back : pack_frame f ≡ some message → unpack_frame message ≡ unpacked f
    back p =
        let read = (unpack_iff_pack format message (fields f) f.payload h).1 p in
        let counted = unpack_from-length format message (fields f, f.payload) read in
        let long : ltb (length message) header_size ≡ false = ground arith in
        rw (unpack_frame, long, read) (of_fields-fields f)
