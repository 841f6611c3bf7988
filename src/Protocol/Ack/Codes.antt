-- ===== src/Protocol/Ack/Codes.antt =====
-- Which status codes the host's parser takes.
use cameleon.Prelude.{ℕ, ◌/◌, ◌%◌, ◌≤◌, ◌<◌, ◌^◌, bit_and, ◌≡◌, refl, arith, ◌==◌, ==_iff}
use cameleon.Prelude.{Bool, true, false, leb}
use cameleon.Prelude.Bits.{holds_below, holds_below_lem}
use cameleon.Result.{panic}
use cameleon.Protocol.Ack.{status_of_code, parse_gencp_status, parse_usb_status}
use cameleon.Protocol.Ack.{trailing_zeros}

-- The namespace is the lowest two of the three bits on top. The mask keeps the lowest one alone.
masked_table : holds_below 8 (λ n. bit_and n 0x11 == n % 2) ≡ true
unfolding holds_below
masked_table = refl

pub masked : (n : ℕ) → n < 8 → bit_and n 0x11 ≡ n % 2
masked n h = (==_iff _ _).0 (holds_below_lem 8 _ n h masked_table)

low_two_table : holds_below 8 (λ n. bit_and n 0b11 == n % 4) ≡ true
unfolding holds_below
low_two_table = refl

pub low_two : (n : ℕ) → n < 8 → bit_and n 0b11 ≡ n % 4
low_two n h = (==_iff _ _).0 (holds_below_lem 8 _ n h low_two_table)

abbrev test_of : Bool → ℕ
test_of true = 1
test_of false = 0

zeros_table :
    holds_below 8 (λ n. test_of (leb 2 (trailing_zeros 16 n)) == test_of (n % 4 == 0)) ≡ true
unfolding holds_below trailing_zeros
zeros_table = refl

two_zeros : (n : ℕ) → n < 8 → leb 2 (trailing_zeros 16 n) ≡ (n % 4 == 0)
two_zeros n h = let e = (==_iff _ _).0 (holds_below_lem 8 _ n h zeros_table) in ground (arith, e)

-- A `u16` status code in the namespace of the device or in the reserved one panics: the mask makes
-- it look like a GenCP or a USB code, and the assertion there fails.
pub other_namespaces_panic :
    (code : ℕ) → code < 2 ^ 16 → 2 ≤ code / 2 ^ 13 % 4 → status_of_code code ≡ panic
unfolding status_of_code parse_gencp_status parse_usb_status
other_namespaces_panic code b h =
    let top : code / 2 ^ 13 < 8 = omega arith in
    ground (
      arith,
      masked (code / 2 ^ 13) top,
      two_zeros (code / 2 ^ 13) top,
      low_two (code / 2 ^ 13) top,
    )
