-- ===== src/Wire/Bytes.antt =====
-- Numbers as bytes, the most significant first, as `struct` packs them for
-- src/nova_voice/satellites/protocol.py; what is read back is what was written, and only that.
use nova_voice.Base.{
  ℕ, zero, suc, ◌+◌, ◌*◌, ◌/◌, ◌%◌, ◌<◌, ◌≡◌, sym, ap, subst, ◌∙◌, Option, none, some, List, [],
  ◌∷◌, All, length, arith,
}

-- How many numbers n bytes hold.
abbrev pub size : ℕ → ℕ
size zero = 1
size (suc n) = size n * 256

-- The n low bytes of a number, before the rest.
unfoldable pub push : ℕ → ℕ → List ℕ → List ℕ
push zero x rest = rest
push (suc n) x rest = push n (x / 256) (x % 256 ∷ rest)

-- A number of n bytes after a part that was read, and what follows it; nothing where bytes are missing.
unfoldable pub read : ℕ → ℕ → List ℕ → Option (ℕ × List ℕ)
read zero acc bs = some (acc, bs)
read (suc n) acc [] = none
read (suc n) acc (b ∷ bs) = read n (acc * 256 + b) bs

abbrev pub Bytes : List ℕ → Type 0
Bytes = All (λ b. b < 256)

-- One byte more.
read_on :
    (n acc v b : ℕ) (bs rest : List ℕ)
    → read n acc bs ≡ some (v, b ∷ rest)
    → read (suc n) acc bs ≡ some (v * 256 + b, rest)
unfolding read
read_on zero acc v b bs rest h = grind arith
read_on (suc n) acc v b [] rest h = cc (h)
read_on (suc n) acc v b (c ∷ bs) rest h = read_on n (acc * 256 + c) v b bs rest h

read-push_after :
    (n acc x : ℕ) (rest : List ℕ)
    → x < size n
    → read n acc (push n x rest) ≡ some (acc * size n + x, rest)
unfolding read push
read-push_after zero acc x rest h = ap (λ v. some (v, rest)) (omega arith)
read-push_after (suc n) acc x rest h =
    read_on n acc (acc * size n + x / 256) (x % 256) (push n (x / 256) (x % 256 ∷ rest)) rest
      (read-push_after n acc (x / 256) (x % 256 ∷ rest) (omega arith))
    ∙ ap (λ v. some (v, rest)) (grind arith)

-- What is written within its width is read back, and the rest stays.
pub read-push : (n x : ℕ) (rest : List ℕ) → x < size n → read n 0 (push n x rest) ≡ some (x, rest)
read-push n x rest h = read-push_after n 0 x rest h ∙ ap (λ v. some (v, rest)) (omega arith)

push-top :
    (n b x : ℕ) (rest : List ℕ)
    → b < 256
    → x < size n
    → push (suc n) (b * size n + x) rest ≡ b ∷ push n x rest
unfolding push
push-top zero b x rest hb hx = ap (λ c. c ∷ rest) (omega arith)
push-top (suc n) b x rest hb hx =
    rw (top, low) (push-top n b (x / 256) (x % 256 ∷ rest) hb (omega arith))
  where
    top : (b * (size n * 256) + x) / 256 ≡ b * size n + x / 256
    top = grind arith

    low : (b * (size n * 256) + x) % 256 ≡ x % 256
    low = grind arith

read-Written_after :
    (n acc y : ℕ) (bs rest : List ℕ)
    → Bytes bs
    → read n acc bs ≡ some (y, rest)
    → (x : ℕ) × (x < size n) × (y ≡ acc * size n + x) × (bs ≡ push n x rest) × Bytes rest
unfolding read push
read-Written_after zero acc y bs rest h r =
    let same : acc ≡ y = cc (r) in
    let left : bs ≡ rest = cc (r) in (0, omega arith, omega arith, left, subst Bytes left h)
read-Written_after (suc n) acc y [] rest h r = cc (r)
read-Written_after (suc n) acc y (b ∷ bs) rest h r =
    let (x, lt, at, on, left) = read-Written_after n (acc * 256 + b) y bs rest h.1 r in
    (
      b * size n + x,
      grind arith,
      grind arith,
      ap (λ cs. b ∷ cs) on ∙ sym (push-top n b x rest h.0 lt),
      left,
    )

-- What is read stands in the bytes as it would be written.
pub read-Written :
    (n y : ℕ) (bs rest : List ℕ)
    → Bytes bs
    → read n 0 bs ≡ some (y, rest)
    → (y < size n) × (bs ≡ push n y rest) × Bytes rest
read-Written n y bs rest h r =
    let (x, lt, at, on, left) = read-Written_after n 0 y bs rest h r in
    let same : x ≡ y = omega arith in (omega arith, on ∙ ap (λ z. push n z rest) same, left)

pub read-length :
    (n acc y : ℕ) (bs rest : List ℕ) → read n acc bs ≡ some (y, rest) → length bs ≡ n + length rest
unfolding read
read-length zero acc y bs rest r =
    let same : bs ≡ rest = cc (r) in let counted = ap length same in omega arith
read-length (suc n) acc y [] rest r = cc (r)
read-length (suc n) acc y (b ∷ bs) rest r =
    let after = read-length n (acc * 256 + b) y bs rest r in omega arith
