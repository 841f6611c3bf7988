-- ===== src/Control/Access.antt =====
-- cameleon/src/u3v/control_handle.rs, `DeviceControl::read`: a read in pieces of one command each.
pub mod Whole
use cameleon.Prelude.{
  ℕ, zero, suc, ◌+◌, ◌-◌, ◌^◌, List, [], ◌++◌, length, min, ltb, ◌==◌, if◌then◌else◌,
}
use cameleon.Result.{Result, ok, err, panic, stuck, assert}
use cameleon.Bytes.{ByteOrder}
use cameleon.Protocol.Cmd.Scd.{ReadMem, ReadMem-scd}
use cameleon.Protocol.Cmd.Chunks.{maximum_read_length}
use cameleon.Protocol.Ack.Scd.{parse_read_mem}
use cameleon.Control.{ControlError, not_opened, Channel, ControlHandle, and_then, unwrap, send_cmd}

module _ {C : Type 0} ⦃K : Channel C⦄ where
  -- `assert_open`
  unfoldable pub assert_open : ControlHandle C → Result ControlError (Unit {0})
  assert_open h = if K.is_opened h.inner then ok tt else err not_opened

  module _ ⦃B : ByteOrder⦄ where
    -- The loop over `buf.chunks_mut(maximum)`, for `n` bytes from `address` on; where it succeeds, the
    -- result is what the buffer holds at the end.
    unfoldable pub read_pieces :
        ℕ
        → (maximum address n : ℕ) → ControlHandle C
        → Result ControlError (List ℕ) × ControlHandle C
    read_pieces zero maximum address n h = (stuck, h)
    read_pieces (suc rounds) maximum address n h =
        let len = min maximum n in
        let cmd : ReadMem = record { address = address; read_length = len } in
        let (answer, h') = send_cmd parse_read_mem h cmd in
        let rest = read_pieces rounds maximum (address + len) (n - len) h' in
        if n == 0
        then (ok [], h)
        else (and_then (assert (ltb len (2 ^ 16))) h (λ _. and_then answer h' (λ ack.
            and_then (assert (length ack.bytes == len)) h' (λ _.
              and_then (assert (ltb (address + len) (2 ^ 64))) h'
                (λ _. and_then (rest.0) (rest.1) (λ more. (ok (ack.bytes ++ more), rest.1)))))))

    -- `ControlHandle::read`; `chunks_mut` panics on pieces of size 0.
    unfoldable pub read :
        (address n : ℕ) → ControlHandle C → Result ControlError (List ℕ) × ControlHandle C
    read address n h = and_then (assert_open h) h (λ _.
        and_then (unwrap (maximum_read_length h.maximum_ack_length)) h (λ maximum.
          and_then (assert (ltb 0 maximum)) h (λ _. read_pieces (n + 1) maximum address n h)))
