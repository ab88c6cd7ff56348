-- ===== src/Encoding/Bits.antt =====
-- The bit operations of the codecs as arithmetic: masks on a byte by tables, and `|` of disjoint
-- fields at every width.
use Prim.Native.Nat.{bit_and, bit_or, bit_and-bitwise, bit_or-bitwise, digits}
use native.Mathlib.Decide.{ℕ_discrete}
use native.Mathlib.Nat.{pow-suc}
use mathlib.Core.Logic.{ite}
use crdt_probe.Prelude.{
  ℕ, zero, suc, ◌+◌, ◌*◌, ◌/◌, ◌%◌, ◌^◌, ◌≤◌, ◌<◌, min, max, ◌≡◌, refl, ap, ◌∙◌, Bool, true, false,
  not, ◌==◌, arith, if◌then◌else◌, ltb, lt→ltb, le→ltb,
}

module _ (f g : ℕ → ℕ) where
  agree_below : ℕ → Bool
  unfolding ℕ_discrete
  agree_below zero = true
  agree_below (suc n) = ite (ℕ_discrete (f n) (g n)) (agree_below n) false

  agree_below_sound : (n : ℕ) → agree_below n ≡ true → (i : ℕ) → i < n → f i ≡ g i
  unfolding agree_below
  agree_below_sound zero e i h = absurd (omega arith)
  agree_below_sound (suc n) e i h = ground (arith, agree_below_sound n (ground arith) i)

-- `b & 0x80`, `b & 0x3f` and `b & 0x40` of a byte.
top_bit : (b : ℕ) → b < 256 → bit_and b 0x80 ≡ b / 128 * 128
unfolding agree_below
top_bit = agree_below_sound _ _ 256 refl

low_six : (b : ℕ) → b < 256 → bit_and b 0x3f ≡ b % 64
unfolding agree_below
low_six = agree_below_sound _ _ 256 refl

sign_bit : (b : ℕ) → b < 256 → bit_and b 0x40 ≡ b / 64 % 2 * 64
unfolding agree_below
sign_bit = agree_below_sound _ _ 256 refl

-- `g | 0x80` for a group of seven bits, and `h | g` for a head byte and a group of six bits.
pub set_top_bit : (b : ℕ) → b < 128 → bit_or b 0x80 ≡ b + 128
unfolding agree_below
set_top_bit = agree_below_sound _ _ 128 refl

pub top_or_group : (b : ℕ) → b < 128 → bit_or 0x80 b ≡ b + 128
unfolding agree_below
top_or_group = agree_below_sound _ _ 128 refl

-- The first byte of a signed number: the continuation bit, the sign and a group of six bits.
pub head_byte :
    (more sign : Bool) (g : ℕ)
    → g < 64
    → bit_or (bit_or (if more then 0x80 else 0) (if sign then 0x40 else 0)) g
      ≡ (if more then 0x80 else 0) + (if sign then 0x40 else 0) + g
unfolding agree_below
head_byte false false = agree_below_sound (λ g. bit_or 0 g) (λ g. 0 + 0 + g) 64 refl
head_byte false true = agree_below_sound (λ g. bit_or 0x40 g) (λ g. 0 + 0x40 + g) 64 refl
head_byte true false = agree_below_sound (λ g. bit_or 0x80 g) (λ g. 0x80 + 0 + g) 64 refl
head_byte true true = agree_below_sound (λ g. bit_or 0xc0 g) (λ g. 0x80 + 0x40 + g) 64 refl

-- What a reader finds in that byte.
head_fields :
    (b : ℕ) (more sign : Bool) (g : ℕ)
    → b ≡ (if more then 0x80 else 0) + (if sign then 0x40 else 0) + g
    → g < 64
    → (bit_and b 0x3f ≡ g) × (ltb 0 (bit_and b 0x40) ≡ sign) × ((bit_and b 0x80 == 0) ≡ not more)
head_fields b false false g e h = ground (arith, low_six b, sign_bit b, top_bit b)
head_fields b false true g e h = ground (arith, low_six b, sign_bit b, top_bit b)
head_fields b true false g e h = ground (arith, low_six b, sign_bit b, top_bit b)
head_fields b true true g e h = ground (arith, low_six b, sign_bit b, top_bit b)

pub head_read :
    (more sign : Bool) (g : ℕ)
    → g < 64
    → let b = (if more then 0x80 else 0) + (if sign then 0x40 else 0) + g in
      (bit_and b 0x3f ≡ g) × (ltb 0 (bit_and b 0x40) ≡ sign) × ((bit_and b 0x80 == 0) ≡ not more)
head_read more sign g h = head_fields _ more sign g refl h

-- The recursion on binary digits that the native operations stand for: its fuel does not matter.
module _ (z : ℕ → ℕ) (f : ℕ → ℕ → ℕ) where
  digits_enough :
      (v w rounds rounds' : ℕ)
      → v ≤ rounds
      → v ≤ rounds'
      → digits z f rounds v w ≡ digits z f rounds' v w
  digits_enough zero w zero zero h k = refl
  digits_enough zero w zero (suc r') h k = refl
  digits_enough zero w (suc r) zero h k = refl
  digits_enough zero w (suc r) (suc r') h k = refl
  digits_enough (suc v) w zero r' h k = absurd (omega arith)
  digits_enough (suc v) w (suc r) zero h k = absurd (omega arith)
  digits_enough (suc v) w (suc r) (suc r') h k =
      rw (digits_enough (suc v / 2) (w / 2) r r' (omega arith) (omega arith))

-- One binary digit of `|` and of `&`.
bit_or_zero : (w : ℕ) → bit_or 0 w ≡ w
bit_or_zero w = bit_or-bitwise 0 w

bit_or_step : (v w : ℕ) → bit_or v w ≡ max (v % 2) (w % 2) + 2 * bit_or (v / 2) (w / 2)
bit_or_step zero w = omega (arith, bit_or_zero w, bit_or_zero (w / 2))
bit_or_step (suc v) w =
    let half = suc v / 2 in
    let enough = digits_enough (λ d. d) max half (w / 2) v half (omega arith) (omega arith) in
    omega (arith, enough, bit_or-bitwise (suc v) w, bit_or-bitwise half (w / 2))

bit_and_zero : (w : ℕ) → bit_and 0 w ≡ 0
bit_and_zero w = bit_and-bitwise 0 w

bit_and_step : (v w : ℕ) → bit_and v w ≡ min (v % 2) (w % 2) + 2 * bit_and (v / 2) (w / 2)
bit_and_step zero w = omega (arith, bit_and_zero w, bit_and_zero (w / 2))
bit_and_step (suc v) w =
    let half = suc v / 2 in
    let enough = digits_enough (λ d. 0) min half (w / 2) v half (omega arith) (omega arith) in
    omega (arith, enough, bit_and-bitwise (suc v) w, bit_and-bitwise half (w / 2))

-- `value & mask` for a mask of ones, one digit at a time.
ones-bit_and : (a : ℕ) → bit_and 1 a ≡ a % 2
ones-bit_and a = omega (arith, bit_and_step 1 a, bit_and_zero (a / 2))

seven-bit_and : (a : ℕ) → bit_and 7 a ≡ a % 8
seven-bit_and a = omega (arith, bit_and_step 7 a, bit_and_step 3 (a / 2), ones-bit_and (a / 2 / 2))

pub mask_six : (a : ℕ) → bit_and 0x3f a ≡ a % 64
mask_six a = omega (
  arith,
  bit_and_step 0x3f a,
  bit_and_step 0x1f (a / 2),
  bit_and_step 0xf (a / 2 / 2),
  seven-bit_and (a / 2 / 2 / 2),
)

pub mask_seven : (a : ℕ) → bit_and 0x7f a ≡ a % 128
mask_seven a = omega (arith, bit_and_step 0x7f a, mask_six (a / 2))

bit_and_comm_fuel : (n a b : ℕ) → a ≤ n → b ≤ n → bit_and a b ≡ bit_and b a
bit_and_comm_fuel zero a b p q = ground arith
bit_and_comm_fuel (suc n) a b p q = omega (
  arith,
  bit_and_step a b,
  bit_and_step b a,
  bit_and_comm_fuel n (a / 2) (b / 2) (omega arith) (omega arith),
)

pub bit_and_comm : (a b : ℕ) → bit_and a b ≡ bit_and b a
bit_and_comm a b = bit_and_comm_fuel (a + b) a b (omega arith) (omega arith)

pub low_seven_any : (a : ℕ) → bit_and a 0x7f ≡ a % 128
low_seven_any a = bit_and_comm a 0x7f ∙ mask_seven a

times_pow-suc : (x s : ℕ) → x * 2 ^ suc s ≡ 2 * (x * 2 ^ s)
times_pow-suc x s = omega (arith, ap (λ (t : ℕ). x * t) (pow-suc 2 s))

-- `num | (x << s)` is a sum while `num` has only bits below `s`.
pub bit_or_above : (s num x : ℕ) → num < 2 ^ s → bit_or num (x * 2 ^ s) ≡ num + x * 2 ^ s
bit_or_above zero num x h = ground (arith, bit_or_zero x)
bit_or_above (suc s) num x h = omega (
  arith,
  bit_or_step num (x * 2 ^ suc s),
  times_pow-suc x s,
  pow-suc 2 s,
  bit_or_above s (num / 2) x (omega (arith, pow-suc 2 s)),
  ap (λ (t : ℕ). bit_or (num / 2) t) (half_of_double x s),
)
  where
    half_of_double : (y t : ℕ) → y * 2 ^ suc t / 2 ≡ y * 2 ^ t
    half_of_double y t = omega (arith, times_pow-suc y t)

-- A later byte of a signed number, at a last group and at an inner one.
pub tail_byte_last :
    (v : ℕ) → v < 128 → bit_or (if ltb 0x7f v then 0x80 else 0) (bit_and 0x7f v) ≡ v
tail_byte_last v h = rw (le→ltb 0x7f v (omega arith), mask_seven v, bit_or_zero) (omega arith)

pub tail_byte_inner :
    (v : ℕ) → 128 ≤ v → bit_or (if ltb 0x7f v then 0x80 else 0) (bit_and 0x7f v) ≡ v % 128 + 128
tail_byte_inner v h =
    rw (lt→ltb 0x7f v (omega arith), mask_seven v) (top_or_group (v % 128) (omega arith))

-- `|` of two numbers of `s` bits has `s` bits.
pub bit_or_lt : (s a b : ℕ) → a < 2 ^ s → b < 2 ^ s → bit_or a b < 2 ^ s
bit_or_lt zero a b h k = let a0 : a ≡ 0 = omega arith in rw a0 (omega (arith, bit_or_zero b))
bit_or_lt (suc s) a b h k = omega (
  arith,
  bit_or_step a b,
  pow-suc 2 s,
  bit_or_lt s (a / 2) (b / 2) (omega (arith, pow-suc 2 s)) (omega (arith, pow-suc 2 s)),
)
