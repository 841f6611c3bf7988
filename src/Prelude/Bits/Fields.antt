-- ===== src/Prelude/Bits/Fields.antt =====
-- Bits that are put in where a mask has ones, and kept where it has zeros.
use Prim.Native.Nat.{ℕ, zero, suc, ◌+◌, ◌-◌, ◌*◌, ◌/◌, ◌%◌, ◌^◌, ◌≤◌, ◌<◌, min, max}
use Prim.Native.Nat.{bit_and, bit_or, bit_and-bitwise}
use mathlib.Core.Path.{◌≡◌, refl, ap, ◌∙◌, sym}
use native.Mathlib.Nat.{
  pow-suc, one-le-pow, mul_assoc, mul-add-mod_self_right, mod-eq_of_lt, mod-lt, div-add-mod',
}
use native.Mathlib.Omega.{arith}
use cameleon.Prelude.Bits.Digits.{bit_and_step, bit_or_step}

bit_and-nil : (rounds a : ℕ) → a ≤ rounds → bit_and a 0 ≡ 0
bit_and-nil zero a h = ground (arith, bit_and-bitwise 0 0)
bit_and-nil (suc rounds) zero h = ground (arith, bit_and-bitwise 0 0)
bit_and-nil (suc rounds) (suc a) h =
    omega (arith, bit_and_step (suc a) 0, bit_and-nil rounds (suc a / 2) (omega arith))

same_digits : (a b : ℕ) → a / 2 ≡ b / 2 → a % 2 ≡ b % 2 → a ≡ b
same_digits a b h k = omega arith

bit_and_half : (a b : ℕ) → bit_and a b / 2 ≡ bit_and (a / 2) (b / 2)
bit_and_half a b = omega (arith, bit_and_step a b)

bit_and_last : (a b : ℕ) → bit_and a b % 2 ≡ min (a % 2) (b % 2)
bit_and_last a b = omega (arith, bit_and_step a b)

bit_or_half : (a b : ℕ) → bit_or a b / 2 ≡ bit_or (a / 2) (b / 2)
bit_or_half a b = omega (arith, bit_or_step a b)

bit_or_last : (a b : ℕ) → bit_or a b % 2 ≡ max (a % 2) (b % 2)
bit_or_last a b = omega (arith, bit_or_step a b)

pow_pos : (n : ℕ) → 0 < 2 ^ n
pow_pos n = one-le-pow n 2 (omega arith)

mod_split : (a m : ℕ) → 0 < m → a % (m * 2) ≡ a / 2 % m * 2 + a % 2
mod_split a m h =
    let q = a / 2 / m in
    let c = a / 2 % m * 2 + a % 2 in
    ap (λ x. x % (m * 2)) {x = a} {y = q * (m * 2) + c}
      (omega (arith, div-add-mod' (a / 2) m, mul_assoc q m 2))
    ∙ mul-add-mod_self_right q (m * 2) c
    ∙ mod-eq_of_lt (omega (arith, mod-lt (a / 2) h))

-- The last digit of a remainder, and the others.
mod_half : (a n : ℕ) → a % 2 ^ suc n / 2 ≡ a / 2 % 2 ^ n
mod_half a n =
    omega (arith, mod_split a (2 ^ n) (pow_pos n), pow-suc 2 n, ap (λ m. a % m) (pow-suc 2 n))

mod_last : (a n : ℕ) → a % 2 ^ suc n % 2 ≡ a % 2
mod_last a n =
    omega (arith, mod_split a (2 ^ n) (pow_pos n), pow-suc 2 n, ap (λ m. a % m) (pow-suc 2 n))

-- The low digits.
pub bit_and_low : (n a : ℕ) → bit_and a (2 ^ n - 1) ≡ a % 2 ^ n
bit_and_low zero a = omega (arith, bit_and-nil a a (omega arith))
bit_and_low (suc n) a =
    same_digits _ _
      (bit_and_half a (2 ^ suc n - 1)
        ∙ ap (bit_and (a / 2)) (omega (arith, pow-suc 2 n))
        ∙ bit_and_low n (a / 2)
        ∙ sym (mod_half a n))
      (omega (arith, pow-suc 2 n, pow_pos n, bit_and_last a (2 ^ suc n - 1), mod_last a n))

pub doubled : (a l : ℕ) → a * 2 ^ suc l ≡ a * 2 ^ l * 2
doubled a l = ap (λ m. a * m) (pow-suc 2 l) ∙ sym (mul_assoc a (2 ^ l) 2)

doubled_half : (a l : ℕ) → a * 2 ^ suc l / 2 ≡ a * 2 ^ l
doubled_half a l = omega (arith, doubled a l)

doubled_last : (a l : ℕ) → a * 2 ^ suc l % 2 ≡ 0
doubled_last a l = omega (arith, doubled a l)

times_one : (a : ℕ) → a * 2 ^ 0 ≡ a
times_one a = omega arith

-- Digits that are shifted together.
pub bit_and_shifted : (l a b : ℕ) → bit_and (a * 2 ^ l) (b * 2 ^ l) ≡ bit_and a b * 2 ^ l
bit_and_shifted zero a b = rw (times_one a, times_one b, times_one (bit_and a b)) refl
bit_and_shifted (suc l) a b =
    same_digits _ _
      (bit_and_half _ _
        ∙ rw (doubled_half a l, doubled_half b l, doubled_half (bit_and a b) l)
            (bit_and_shifted l a b))
      (omega (
        arith,
        bit_and_last (a * 2 ^ suc l) (b * 2 ^ suc l),
        doubled_last a l,
        doubled_last b l,
        doubled_last (bit_and a b) l,
      ))

-- `a` with the digits of `b` where `m` has ones.
abbrev pub insert : ℕ → ℕ → ℕ → ℕ → ℕ
insert w a b m = bit_or (bit_and a (2 ^ w - 1 - m)) (bit_and b m)

insert_half :
    (w a b m : ℕ) → m < 2 ^ suc w → insert (suc w) a b m / 2 ≡ insert w (a / 2) (b / 2) (m / 2)
insert_half w a b m h =
    rw
      (
        bit_or_half (bit_and a (2 ^ suc w - 1 - m)) (bit_and b m),
        bit_and_half a (2 ^ suc w - 1 - m),
        bit_and_half b m,
      )
      (ap (λ c. bit_or (bit_and (a / 2) c) (bit_and (b / 2) (m / 2))) (omega (arith, pow-suc 2 w)))

insert_last :
    (w a b m : ℕ)
    → m < 2 ^ suc w
    → insert (suc w) a b m % 2 ≡ max (min (a % 2) (1 - m % 2)) (min (b % 2) (m % 2))
insert_last w a b m h =
    rw
      (
        bit_or_last (bit_and a (2 ^ suc w - 1 - m)) (bit_and b m),
        bit_and_last a (2 ^ suc w - 1 - m),
        bit_and_last b m,
      )
      (ap (λ c. max (min (a % 2) c) (min (b % 2) (m % 2))) (omega (arith, pow-suc 2 w)))

nothing : (b : ℕ) → insert 0 0 b 0 ≡ 0
nothing b = ap (bit_or 0) (bit_and-nil b b (omega arith))

below_one : (a : ℕ) → a < 1 → a ≡ 0
below_one a h = omega arith

-- The digits that are put in are those of `b`.
pub bit_and-insert : (w a b m : ℕ) → m < 2 ^ w → bit_and (insert w a b m) m ≡ bit_and b m
bit_and-insert zero a b m h = rw (below_one m h) (
    omega (
      arith,
      bit_and-nil (insert 0 a b 0) (insert 0 a b 0) (omega arith),
      bit_and-nil b b (omega arith),
    ))
bit_and-insert (suc w) a b m h =
    same_digits _ _
      (rw (bit_and_half (insert (suc w) a b m) m, insert_half w a b m h, bit_and_half b m)
        (bit_and-insert w (a / 2) (b / 2) (m / 2) (omega (arith, pow-suc 2 w))))
      (rw (bit_and_last (insert (suc w) a b m) m, insert_last w a b m h, bit_and_last b m)
        (omega arith))

-- The other digits stay.
pub bit_and-insert_apart :
    (w a b m k : ℕ)
    → a < 2 ^ w
    → m < 2 ^ w
    → bit_and m k ≡ 0
    → bit_and (insert w a b m) k ≡ bit_and a k
bit_and-insert_apart zero a b m k ha hm apart =
    rw (below_one a ha, below_one m hm) (ap (λ c. bit_and c k) (nothing b))
bit_and-insert_apart (suc w) a b m k ha hm apart =
    same_digits _ _
      (rw (bit_and_half (insert (suc w) a b m) k, insert_half w a b m hm, bit_and_half a k)
        (bit_and-insert_apart w (a / 2) (b / 2) (m / 2) (k / 2) (omega (arith, pow-suc 2 w))
          (omega (arith, pow-suc 2 w)) (omega (arith, bit_and_step m k))))
      (rw (bit_and_last (insert (suc w) a b m) k, insert_last w a b m hm, bit_and_last a k)
        (omega (arith, bit_and_step m k)))

bit_and_swap : (rounds a b : ℕ) → a ≤ rounds → bit_and a b ≡ bit_and b a
bit_and_swap zero a b h =
    rw (below_one a (omega arith)) (bit_and-bitwise 0 b ∙ sym (bit_and-nil b b (omega arith)))
bit_and_swap (suc rounds) zero b h = bit_and-bitwise 0 b ∙ sym (bit_and-nil b b (omega arith))
bit_and_swap (suc rounds) (suc a) b h =
    same_digits _ _
      (rw (bit_and_half (suc a) b, bit_and_half b (suc a))
        (bit_and_swap rounds (suc a / 2) (b / 2) (omega arith)))
      (omega (arith, bit_and_last (suc a) b, bit_and_last b (suc a)))

pub bit_and_comm : (a b : ℕ) → bit_and a b ≡ bit_and b a
bit_and_comm a b = bit_and_swap a a b (omega arith)
