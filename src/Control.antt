-- ===== src/Control.antt =====
-- cameleon/src/u3v/control_handle.rs: how the host sends a command and waits for its acknowledge.
-- The USB transfers of the control channel are the parameter `Channel`. What an operation leaves of
-- the handle is returned beside its result, also where it fails; sleeping is left out.
pub mod Access
pub mod Pending
pub mod Answer
use cameleon.Prelude.{
  ℕ, zero, suc, ◌+◌, ◌-◌, ◌%◌, ◌^◌, List, ◌++◌, length, take, drop, replicate, max,
}
use cameleon.Prelude.{Bool, true, false, ◌==◌, ltb, leb, if◌then◌else◌}
use cameleon.Result.{Result, ok, err, panic, stuck, ◌>>=◌, ◌>>◌, guard, assert, map_err}
use cameleon.Bytes.{ByteOrder}
use cameleon.Protocol
use cameleon.Protocol.{Error, LibUsbError, lib_usb, invalid_packet, buffer_io}
use cameleon.Protocol.Cmd.{CommandScd, finalize, serialize, cmd_len, maximum_ack_len}
use cameleon.Protocol.Ack.{AckPacket, AckCcd, ScdKind, pending, is_success, parse}
use cameleon.Protocol.Ack.Scd.{parse_pending}

pub data ControlError : Type 0 where
  busy disconnected io timeout not_opened invalid_device buffer_too_small : ControlError
  invalid_data : ControlError

-- `From<u3v::Error> for ControlError`
abbrev pub from_libusb : LibUsbError → ControlError
from_libusb Protocol.busy = busy
from_libusb Protocol.no_device = disconnected
from_libusb Protocol.not_found = disconnected
from_libusb Protocol.timeout = timeout
from_libusb _ = io

unfoldable pub from_device : Error → ControlError
from_device (lib_usb e) = from_libusb e
from_device (buffer_io _) = io
from_device invalid_packet = io
from_device Protocol.invalid_device = invalid_device

-- `ControlChannel::is_opened`, `send` and `recv`, which gives the bytes that it put into a buffer of
-- that length.
pub record Channel (C : Type 0) : Type 0 where
  pub is_opened : C → Bool
  pub send : List ℕ → C → Result Error (Unit {0}) × C
  pub recv : ℕ → C → Result Error (List ℕ) × C

pub record ControlHandle (C : Type 0) : Type 0 where
  pub inner : C
  pub retry_count : ℕ
  pub maximum_ack_length : ℕ
  pub next_req_id : ℕ
  pub buffer : List ℕ

-- `kind == ScdKind::Pending`
abbrev pub is_pending : ScdKind → Bool
is_pending pending = true
is_pending _ = false

-- A buffer after bytes are written to its front.
abbrev pub overwrite : List ℕ → List ℕ → List ℕ
overwrite buffer bytes = bytes ++ drop (length bytes) buffer

-- `resize` with zeros, where the buffer is shorter.
abbrev pub enlarged : List ℕ → ℕ → List ℕ
enlarged buffer len =
    if ltb (length buffer) len then buffer ++ replicate (len - length buffer) 0 else buffer

-- `r.unwrap()`
abbrev pub unwrap {ℓ} : {A : Type ℓ} → Result Error A → Result ControlError A
unwrap (ok a) = ok a
unwrap (err _) = panic
unwrap panic = panic
unwrap stuck = stuck

-- `r?` before the rest of a method.
abbrev pub and_then :
    {A B H : Type 0}
    → Result ControlError A
    → H
    → (A → Result ControlError B × H)
    → Result ControlError B × H
and_then (ok a) h rest = rest a
and_then (err e) h rest = (err e, h)
and_then panic h rest = (panic, h)
and_then stuck h rest = (stuck, h)

module _ ⦃B : ByteOrder⦄ where
  -- A pending acknowledge is parsed for its timeout.
  unfoldable pub pending_parsed : AckPacket → Result ControlError Bool
  pending_parsed ack =
      if is_pending ack.ccd.scd_kind
      then map_err from_device (do _ ← parse_pending ack.raw_scd ack.ccd; ok true)
      else ok false

  -- The packet parsed and verified by `verify_ack`: is it a pending acknowledge?
  unfoldable pub verify : ℕ → List ℕ → Result ControlError Bool
  verify next_req_id bytes = do
    ack ← map_err from_device (parse bytes)
    guard (is_success ack.ccd.status) io
    guard (ack.ccd.request_id == next_req_id) io
    pending_parsed ack

  module _ {C : Type 0} ⦃K : Channel C⦄ where
    -- The loop of `send_cmd`; a received length beyond the buffer panics at the slice.
    unfoldable pub receive : ℕ → ControlHandle C → Result ControlError (List ℕ) × ControlHandle C
    receive zero h = (err io, h)
    receive (suc retry_count) h =
        let (got, inner) = K.recv (length h.buffer) h.inner in
        let back : ControlHandle C = record h { inner = inner } in
        and_then (map_err from_device got) back (λ bytes.
          let filled : ControlHandle C = record back { buffer = overwrite h.buffer bytes } in
          let again = receive retry_count filled in
          and_then (assert (leb (length bytes) (length h.buffer))) filled (λ _.
            and_then (verify h.next_req_id bytes) filled (λ wait.
              if wait
              then again
              else (ok bytes, record filled { next_req_id = (h.next_req_id + 1) % 2 ^ 16 }))))

    module _ {T : Type 0} ⦃S : CommandScd T⦄ {U : Type 0} where
      -- `send_cmd`, with `ParseScd::parse` of the acknowledge's kind for `parse_scd`.
      unfoldable pub send_cmd :
          (List ℕ → AckCcd → Result Error U)
          → ControlHandle C
          → T
          → Result ControlError U × ControlHandle C
      send_cmd parse_scd h scd =
          let cmd = finalize scd h.next_req_id in
          let len = max (cmd_len cmd) (maximum_ack_len cmd) in
          let room = enlarged h.buffer len in
          let bytes = serialize cmd in
          if leb (length bytes) (length room)
          then (let buffer = overwrite room bytes in
              let (sent, inner) = K.send (take (cmd_len cmd) buffer) h.inner in
              let h : ControlHandle C = record h { inner = inner; buffer = buffer } in
              and_then (map_err from_device sent) h (λ _.
                let (answer, h) = receive h.retry_count h in
                and_then answer h (λ bytes. (
                  (do
                    ack ← unwrap (parse bytes)
                    map_err from_device (parse_scd ack.raw_scd ack.ccd)),
                  h,
                ))))
          else (err io, record h { buffer = take (length room) bytes })
