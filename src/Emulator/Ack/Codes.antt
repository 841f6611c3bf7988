-- ===== src/Emulator/Ack/Codes.antt =====
-- The status codes that the device writes are those that the host reads.
use cameleon.Prelude.{ℕ, ◌/◌, ◌<◌, ◌^◌, ◌≡◌, ◌↔◌, ◌⊎◌, inl, inr, refl, sym, arith}
use mathlib.Core.Path.{subst}
use cameleon.Result.{ok}
use cameleon.Protocol.Ack.{GenCpStatus, UsbSpecificStatus, StatusKind, Status, status_of_code}
use cameleon.Protocol.Ack.{parse_gencp_status, parse_usb_status, gencp_of_code, usb_of_code}
use cameleon.Protocol.Ack.{trailing_zeros, gen_cp, usb_specific, device_specific}
use cameleon.Protocol.Ack.{success}
use cameleon.Protocol.Ack.{resend_not_supported}
use cameleon.Protocol.Ack.Codes.{masked}
use cameleon.Emulator.Ack.{gencp_code, usb_code, status_of_gencp, status_of_usb}

-- The statuses that the device has: a GenCP or a USB status with its own code.
pub data IsKnown : Status → Type 0 where
  gencp : (g : GenCpStatus) → IsKnown (status_of_gencp g)
  usb : (u : UsbSpecificStatus) → IsKnown (status_of_usb u)

status_of_code-gencp_code :
    (g : GenCpStatus) → status_of_code (gencp_code g) ≡ ok (status_of_gencp g)
unfolding status_of_code gencp_code parse_gencp_status gencp_of_code trailing_zeros
status_of_code-gencp_code success = refl
status_of_code-gencp_code _ = refl

status_of_code-usb_code :
    (u : UsbSpecificStatus) → status_of_code (usb_code u) ≡ ok (status_of_usb u)
unfolding status_of_code usb_code parse_usb_status usb_of_code
status_of_code-usb_code resend_not_supported = refl
status_of_code-usb_code _ = refl

pub status_of_code-code : (s : Status) → IsKnown s → status_of_code s.code ≡ ok s
status_of_code-code s (gencp g) = status_of_code-gencp_code g
status_of_code-code s (usb u) = status_of_code-usb_code u

abbrev made : ℕ → StatusKind → Status
made code kind = record { code = code; kind = kind }

gencp_inv :
    (code c : ℕ) (g : GenCpStatus)
    → gencp_of_code code ≡ ok (made c (gen_cp g))
    → made c (gen_cp g) ≡ status_of_gencp g
unfolding gencp_of_code gencp_code
gencp_inv code c success h = ground arith
gencp_inv code c _ h = ground arith

usb_inv :
    (code c : ℕ) (u : UsbSpecificStatus)
    → usb_of_code code ≡ ok (made c (usb_specific u))
    → made c (usb_specific u) ≡ status_of_usb u
unfolding usb_of_code usb_code
usb_inv code c resend_not_supported h = ground arith
usb_inv code c _ h = ground arith

gencp-IsKnown :
    (code c : ℕ) (k : StatusKind) → gencp_of_code code ≡ ok (made c k) → IsKnown (made c k)
gencp-IsKnown code c (gen_cp g) h = subst IsKnown (sym (gencp_inv code c g h)) (gencp g)
gencp-IsKnown code c (usb_specific u) h = absurd (unfold gencp_of_code in ground arith)
gencp-IsKnown code c device_specific h = absurd (unfold gencp_of_code in ground arith)

usb-IsKnown : (code c : ℕ) (k : StatusKind) → usb_of_code code ≡ ok (made c k) → IsKnown (made c k)
usb-IsKnown code c (usb_specific u) h = subst IsKnown (sym (usb_inv code c u h)) (usb u)
usb-IsKnown code c (gen_cp g) h = absurd (unfold usb_of_code in ground arith)
usb-IsKnown code c device_specific h = absurd (unfold usb_of_code in ground arith)

-- The code itself is kept, whatever table it is found in.
tables :
    (code : ℕ) (s : Status)
    → code < 2 ^ 16
    → status_of_code code ≡ ok s
    → (gencp_of_code code ≡ ok s) ⊎ (usb_of_code code ≡ ok s)
unfolding status_of_code parse_gencp_status parse_usb_status
tables code s b h = ground (arith, masked (code / 2 ^ 13) (omega arith))

gencp_keeps : (code : ℕ) (s : Status) → gencp_of_code code ≡ ok s → s.code ≡ code
unfolding gencp_of_code
gencp_keeps code s h = ground arith

usb_keeps : (code : ℕ) (s : Status) → usb_of_code code ≡ ok s → s.code ≡ code
unfolding usb_of_code
usb_keeps code s h = ground arith

-- The host's parser accepts a 16-bit status code exactly when it is the code of one of the GenCP or
-- USB statuses that the device can send, and then returns that status; a device-specific status is
-- never returned.
pub status_of_code-eq-ok_iff :
    (code : ℕ) (s : Status)
    → code < 2 ^ 16
    → (status_of_code code ≡ ok s) ↔ (IsKnown s × (s.code ≡ code))
status_of_code-eq-ok_iff code s b = (
  λ h. elim (tables code s b h) [
    | inl g ↦ (gencp-IsKnown code s.code s.kind g, gencp_keeps code s g)
    | inr u ↦ (usb-IsKnown code s.code s.kind u, usb_keeps code s u)
  ],
  λ (k, e). subst (λ c. status_of_code c ≡ ok s) e (status_of_code-code s k),
)
