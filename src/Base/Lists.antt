-- ===== src/Base/Lists.antt =====
-- Lists measured and indexed by native numbers, under the library's names, and Go's `copy`.
use Prim.Native.Nat.{ℕ, zero, suc, ◌+◌, ◌-◌, ◌≤◌}
use mathlib.Core.Path.{◌≡◌, refl, ap, ◌∙◌}
use mathlib.Core.List.{List, [], ◌∷◌, ◌++◌}
use native.Mathlib.Omega.{arith}

module _ {ℓ} {A : Type ℓ} where
  abbrev pub length : List A → ℕ
  length [] = 0
  length (x ∷ xs) = suc (length xs)

  abbrev pub take : ℕ → List A → List A
  take zero xs = []
  take (suc n) [] = []
  take (suc n) (x ∷ xs) = x ∷ take n xs

  abbrev pub drop : ℕ → List A → List A
  drop zero xs = xs
  drop (suc n) [] = []
  drop (suc n) (x ∷ xs) = drop n xs

  abbrev pub replicate : ℕ → A → List A
  replicate zero a = []
  replicate (suc n) a = a ∷ replicate n a

  -- `copy(buf, src)`: as many elements as both have.
  abbrev pub overlay : List A → List A → List A
  overlay [] bs = bs
  overlay (s ∷ ss) [] = []
  overlay (s ∷ ss) (b ∷ bs) = s ∷ overlay ss bs

  -- `copy(buf[i:], src)`, for an `i` within the buffer.
  abbrev pub copy_at : ℕ → List A → List A → List A
  copy_at zero src buf = overlay src buf
  copy_at (suc i) src [] = []
  copy_at (suc i) src (b ∷ bs) = b ∷ copy_at i src bs

  abbrev pub All {κ} : (A → Type κ) → List A → Type κ
  All P [] = Unit {κ}
  All P (x ∷ xs) = P x × All P xs

module _ {ℓ} {A : Type ℓ} where
  pub length-append : (xs ys : List A) → length (xs ++ ys) ≡ length xs + length ys
  length-append [] ys = omega arith
  length-append (x ∷ xs) ys = omega (arith, length-append xs ys)

  pub length-replicate : (n : ℕ) (a : A) → length (replicate n a) ≡ n
  length-replicate zero a = refl
  length-replicate (suc n) a = ap suc (length-replicate n a)

  pub length-take : (n : ℕ) (xs : List A) → n ≤ length xs → length (take n xs) ≡ n
  length-take zero xs h = refl
  length-take (suc n) [] h = absurd (omega arith)
  length-take (suc n) (x ∷ xs) h = ap suc (length-take n xs (omega arith))

  pub length-drop : (n : ℕ) (xs : List A) → length (drop n xs) ≡ length xs - n
  length-drop zero xs = omega arith
  length-drop (suc n) [] = omega arith
  length-drop (suc n) (x ∷ xs) = omega (arith, length-drop n xs)

  pub take-append : (xs ys : List A) → take (length xs) (xs ++ ys) ≡ xs
  take-append [] ys = refl
  take-append (x ∷ xs) ys = ap (λ t. x ∷ t) (take-append xs ys)

  pub drop-append : (xs ys : List A) → drop (length xs) (xs ++ ys) ≡ ys
  drop-append [] ys = refl
  drop-append (x ∷ xs) ys = drop-append xs ys

  -- A prefix is read whatever follows it.
  pub take-append_le : (n : ℕ) (xs ys : List A) → n ≤ length xs → take n (xs ++ ys) ≡ take n xs
  take-append_le zero xs ys h = refl
  take-append_le (suc n) [] ys h = absurd (omega arith)
  take-append_le (suc n) (x ∷ xs) ys h = ap (λ t. x ∷ t) (take-append_le n xs ys (omega arith))

  pub take-take : (n : ℕ) (xs : List A) → length xs ≤ n → take n xs ≡ xs
  take-take zero [] h = refl
  take-take zero (x ∷ xs) h = absurd (omega arith)
  take-take (suc n) [] h = refl
  take-take (suc n) (x ∷ xs) h = ap (λ t. x ∷ t) (take-take n xs (omega arith))

  pub drop-replicate : (k n : ℕ) (a : A) → drop k (replicate n a) ≡ replicate (n - k) a
  drop-replicate zero n a = ap (λ m. replicate m a) (let e : n ≡ n - 0 = omega arith in e)
  drop-replicate (suc k) zero a = ap (λ m. replicate m a) (let e : 0 ≡ 0 - suc k = omega arith in e)
  drop-replicate (suc k) (suc n) a =
      drop-replicate k n a
      ∙ ap (λ m. replicate m a) (let e : n - k ≡ suc n - suc k = omega arith in e)

  pub replicate-append : (m n : ℕ) (a : A) → replicate m a ++ replicate n a ≡ replicate (m + n) a
  replicate-append zero n a = ap (λ k. replicate k a) (let e : n ≡ zero + n = omega arith in e)
  replicate-append (suc m) n a =
      ap (λ t. a ∷ t) (replicate-append m n a)
      ∙ ap (λ k. replicate k a) (let e : suc (m + n) ≡ suc m + n = omega arith in e)

  pub overlay-le :
      (src buf : List A) → length src ≤ length buf → overlay src buf ≡ src ++ drop (length src) buf
  overlay-le [] buf h = refl
  overlay-le (s ∷ ss) [] h = absurd (omega arith)
  overlay-le (s ∷ ss) (b ∷ bs) h = ap (λ t. s ∷ t) (overlay-le ss bs (omega arith))

  pub length-overlay : (src buf : List A) → length (overlay src buf) ≡ length buf
  length-overlay [] buf = refl
  length-overlay (s ∷ ss) [] = refl
  length-overlay (s ∷ ss) (b ∷ bs) = ap suc (length-overlay ss bs)

  pub length-copy_at : (i : ℕ) (src buf : List A) → length (copy_at i src buf) ≡ length buf
  length-copy_at zero src buf = length-overlay src buf
  length-copy_at (suc i) src [] = refl
  length-copy_at (suc i) src (b ∷ bs) = ap suc (length-copy_at i src bs)

  -- A write behind the filled part of a buffer.
  pub copy_at-append :
      (pre src zs : List A)
      → length src ≤ length zs
      → copy_at (length pre) src (pre ++ zs) ≡ pre ++ (src ++ drop (length src) zs)
  copy_at-append [] src zs h = overlay-le src zs h
  copy_at-append (p ∷ pre) src zs h = ap (λ t. p ∷ t) (copy_at-append pre src zs h)

  pub All-append {κ} :
      (P : A → Type κ) (front back : List A) → All P front → All P back → All P (front ++ back)
  All-append P [] back h k = k
  All-append P (x ∷ front) back (here, h) k = (here, All-append P front back h k)
