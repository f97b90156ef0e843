-- ===== src/Wire/Struct.antt =====
-- What `struct.Struct` does of a format of unsigned fields in network order, for
-- src/nova_voice/satellites/protocol.py: a format is the list of its fields' widths in bytes.
use nova_voice.Base.{
  ℕ, ◌+◌, ◌<◌, ◌≡◌, refl, sym, ap, subst, ◌∙◌, ◌↔◌, inl, inr, Option-cases, Bool-cases, Bool, true,
  false, ◌&&◌, Option, none, some, List, [], ◌∷◌, ltb, length, arith, if◌then◌else◌,
}
use nova_voice.Wire.Bytes.{size, push, read, Bytes, read-push, read-Written, read-length}

abbrev pub Fits : List ℕ → List ℕ → Type 0
Fits [] [] = Unit
Fits (w ∷ ws) (v ∷ vs) = (v < size w) × Fits ws vs
Fits _ _ = ⊥

-- Whether there is a value for each field, within its width.
unfoldable pub fits : List ℕ → List ℕ → Bool
fits [] [] = true
fits (w ∷ ws) (v ∷ vs) = ltb v (size w) && fits ws vs
fits [] (_ ∷ _) = false
fits (_ ∷ _) [] = false

-- The fields' bytes, before the rest.
unfoldable pub push_all : List ℕ → List ℕ → List ℕ → List ℕ
unfolding push
push_all (w ∷ ws) (v ∷ vs) rest = push w v (push_all ws vs rest)
push_all _ _ rest = rest

-- `pack`, before the rest; nothing for `struct.error`
unfoldable pub pack : List ℕ → List ℕ → List ℕ → Option (List ℕ)
unfolding fits push_all
pack ws vs rest = if fits ws vs then some (push_all ws vs rest) else none

-- `unpack_from`, with what follows the fields; nothing where bytes are missing.
unfoldable pub unpack_from : List ℕ → List ℕ → Option (List ℕ × List ℕ)
unfolding read
unpack_from [] bs = some ([], bs)
unpack_from (w ∷ ws) bs = elim (read w 0 bs) [
  | none ↦ none
  | some (v, bs') ↦ elim (unpack_from ws bs') [
    | none ↦ none
    | some (vs, rest) ↦ some (v ∷ vs, rest)
  ]
]

fits-Fits : (ws vs : List ℕ) → fits ws vs ≡ true → Fits ws vs
unfolding fits
fits-Fits [] [] h = tt
fits-Fits (w ∷ ws) (v ∷ vs) h = (ground arith, fits-Fits ws vs (ground arith))
fits-Fits [] (v ∷ vs) h = cc (h)
fits-Fits (w ∷ ws) [] h = cc (h)

Fits-fits : (ws vs : List ℕ) → Fits ws vs → fits ws vs ≡ true
unfolding fits
Fits-fits [] [] h = refl
Fits-fits (w ∷ ws) (v ∷ vs) h = rw (Fits-fits ws vs h.1) (ground arith)
Fits-fits [] (v ∷ vs) h = elim h [ ]
Fits-fits (w ∷ ws) [] h = elim h [ ]

unpack_from-push_all :
    (ws vs rest : List ℕ) → Fits ws vs → unpack_from ws (push_all ws vs rest) ≡ some (vs, rest)
unfolding unpack_from push_all
unpack_from-push_all [] [] rest h = refl
unpack_from-push_all (w ∷ ws) (v ∷ vs) rest h =
    rw (unpack_from, read-push w v (push_all ws vs rest) h.0)
      (rw (unpack_from-push_all ws vs rest h.1) refl)
unpack_from-push_all [] (v ∷ vs) rest h = elim h [ ]
unpack_from-push_all (w ∷ ws) [] rest h = elim h [ ]

-- What is unpacked stands in the bytes as it would be packed.
abbrev Written : List ℕ → List ℕ → List ℕ × List ℕ → Type 0
Written ws bs (vs, rest) = Fits ws vs × (bs ≡ push_all ws vs rest) × Bytes rest

unpack_from-Written :
    (ws bs : List ℕ) (out : List ℕ × List ℕ)
    → Bytes bs
    → unpack_from ws bs ≡ some out
    → Written ws bs out
unfolding unpack_from push_all
unpack_from-Written [] bs out h r =
    let same : ([], bs) ≡ out = cc (r) in subst (Written [] bs) same (tt, refl, h)
unpack_from-Written (w ∷ ws) bs out h r = elim (Option-cases (read w 0 bs)) [
  | inl e ↦ ground arith
  | inr ((v, bs'), e) ↦ elim (Option-cases (unpack_from ws bs')) [
    | inl f ↦ ground arith
    | inr ((vs, rest), f) ↦
        let (lt, on, left) = read-Written w v bs bs' h e in
        let (fit, at, over) = unpack_from-Written ws bs' (vs, rest) left f in
        let same : (v ∷ vs, rest) ≡ out = ground arith in
        subst (Written (w ∷ ws) bs) same ((lt, fit), on ∙ ap (push w v) at, over)
  ]
]

-- Bytes unpack into values and a rest exactly when the values pack into them before that rest.
pub unpack_iff_pack :
    (ws bs vs rest : List ℕ)
    → Bytes bs
    → (unpack_from ws bs ≡ some (vs, rest)) ↔ (pack ws vs rest ≡ some bs)
unfolding pack
unpack_iff_pack ws bs vs rest h = (forth, back)
  where
    forth : unpack_from ws bs ≡ some (vs, rest) → pack ws vs rest ≡ some bs
    forth r =
        let (fit, at, left) = unpack_from-Written ws bs (vs, rest) h r in
        rw (Fits-fits ws vs fit) (ap some (sym at))

    back : pack ws vs rest ≡ some bs → unpack_from ws bs ≡ some (vs, rest)
    back r = elim (Bool-cases (fits ws vs)) [
      | inl e ↦
          let at : push_all ws vs rest ≡ bs = ground (arith) in
          subst (λ b. unpack_from ws b ≡ some (vs, rest)) at
            (unpack_from-push_all ws vs rest (fits-Fits ws vs e))
      | inr e ↦ ground (arith)
    ]

-- How many bytes the fields take.
abbrev pub total : List ℕ → ℕ
total [] = 0
total (w ∷ ws) = w + total ws

-- The bytes are those of the fields and of the rest.
pub unpack_from-length :
    (ws bs : List ℕ) (out : List ℕ × List ℕ)
    → unpack_from ws bs ≡ some out
    → length bs ≡ total ws + length out.1
unfolding unpack_from
unpack_from-length [] bs out r =
    let same : ([], bs) ≡ out = cc (r) in
    let counted = ap (λ (o : List ℕ × List ℕ). length o.1) same in omega arith
unpack_from-length (w ∷ ws) bs out r = elim (Option-cases (read w 0 bs)) [
  | inl e ↦ ground arith
  | inr ((v, bs'), e) ↦ elim (Option-cases (unpack_from ws bs')) [
    | inl f ↦ ground arith
    | inr ((vs, rest), f) ↦
        let same : (v ∷ vs, rest) ≡ out = ground arith in
        let here : length bs ≡ w + length bs' = read-length w 0 v bs bs' e in
        let after : length bs' ≡ total ws + length rest = unpack_from-length ws bs' (vs, rest) f in
        subst (λ (o : List ℕ × List ℕ). length bs ≡ total (w ∷ ws) + length o.1) same (omega arith)
  ]
]
