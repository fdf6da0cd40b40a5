-- ===== src/Base/Bytes.antt =====
-- Fixed-width words: a `uintN` is a number, with its wrap-around written out, and a byte slice is
-- a list of numbers. encoding/binary's big-endian readers and writers, and the masks of the code.
use Prim.Native.Nat.{ℕ, zero, suc, ◌+◌, ◌*◌, ◌/◌, ◌%◌, ◌<◌, bit_and, bit_or}
use mathlib.Core.Path.{◌≡◌, refl}
use mathlib.Core.Bool.{Bool, true, false}
use mathlib.Core.Logic.{ite}
use mathlib.Core.List.{List, [], ◌∷◌}
use native.Mathlib.Decide.{ℕ_discrete}
use native.Mathlib.Omega.{arith}

-- `uint8(x)` and `uint16(x)` of a wider number.
abbrev pub u8 : ℕ → ℕ
u8 x = x % 256

abbrev pub u16 : ℕ → ℕ
u16 x = x % 65536

abbrev pub IsByte : ℕ → Type 0
IsByte b = b < 256

abbrev pub IsWord : ℕ → Type 0
IsWord w = w < 65536

-- binary.BigEndian.PutUint16 and Uint16.
abbrev pub put_uint16 : ℕ → List ℕ
put_uint16 w = w / 256 % 256 ∷ w % 256 ∷ []

abbrev pub uint16 : ℕ → ℕ → ℕ
uint16 hi lo = hi * 256 + lo

-- binary.BigEndian.PutUint32 and Uint32.
abbrev pub put_uint32 : ℕ → List ℕ
put_uint32 w = w / 16777216 % 256 ∷ w / 65536 % 256 ∷ w / 256 % 256 ∷ w % 256 ∷ []

abbrev pub uint32 : ℕ → ℕ → ℕ → ℕ → ℕ
uint32 a b c d = a * 16777216 + b * 65536 + c * 256 + d

pub uint16-put_uint16 : (w : ℕ) → IsWord w → uint16 (w / 256 % 256) (w % 256) ≡ w
uint16-put_uint16 w h = omega arith

pub uint32-put_uint32 :
    (w : ℕ)
    → w < 4294967296
    → uint32 (w / 16777216 % 256) (w / 65536 % 256) (w / 256 % 256) (w % 256) ≡ w
uint32-put_uint32 w h = omega arith

-- Two functions agree below a bound, by evaluation.
module _ (f g : ℕ → ℕ) where
  agree_below : ℕ → Bool
  unfolding ℕ_discrete
  agree_below zero = true
  agree_below (suc n) = ite (ℕ_discrete (f n) (g n)) (agree_below n) false

  agree_below→eq : (n : ℕ) → agree_below n ≡ true → (i : ℕ) → i < n → f i ≡ g i
  unfolding agree_below
  agree_below→eq zero e i h = absurd (omega arith)
  agree_below→eq (suc n) e i h = ground (arith, agree_below→eq n (ground arith) i)

pub bit_and_seven : (b : ℕ) → b < 256 → bit_and b 7 ≡ b % 8
unfolding agree_below
bit_and_seven = agree_below→eq _ _ 256 refl

pub bit_and_0x1f : (b : ℕ) → b < 256 → bit_and b 0x1f ≡ b % 32
unfolding agree_below
bit_and_0x1f = agree_below→eq _ _ 256 refl

-- `(uint8(t) << 1) | 0x01`.
pub bit_or_one : (t : ℕ) → t < 256 → bit_or (t * 2 % 256) 1 ≡ t * 2 % 256 + 1
unfolding agree_below
bit_or_one = agree_below→eq _ _ 256 refl

-- `(version << 5) | (reserved & 0x1F)`, the two packed in one number.
bit_or_high : (n : ℕ) → n < 256 → bit_or (n / 32 * 32 % 256) (bit_and (n % 32) 0x1f) ≡ n
unfolding agree_below
bit_or_high = agree_below→eq _ _ 256 refl

pub bit_or_pack : (v r : ℕ) → v < 8 → r < 32 → bit_or (v * 32 % 256) (bit_and r 0x1f) ≡ v * 32 + r
bit_or_pack v r hv hr =
    let hi : (v * 32 + r) / 32 ≡ v = omega arith in
    let lo : (v * 32 + r) % 32 ≡ r = omega arith in
    rw (hi, lo) at (bit_or_high (v * 32 + r) (omega arith))

-- `w & 0xFF` of a `uint16`.
pub bit_and_0xff : (w : ℕ) → IsWord w → bit_and w 0xff ≡ w % 256
unfolding agree_below
bit_and_0xff = agree_below→eq _ _ 65536 refl
