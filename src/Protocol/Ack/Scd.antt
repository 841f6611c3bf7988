-- ===== src/Protocol/Ack/Scd.antt =====
-- device/src/u3v/protocol/ack.rs: the `ParseScd` instances. A `Duration` is a number of
-- nanoseconds, and `bytes` is the field `data`.
use cameleon.Prelude.{ℕ, zero, suc, ◌*◌, List, [], ◌∷◌, ◌==◌}
use cameleon.Result.{Result, ok, panic, ◌>>=◌, ◌>>◌, guard}
use cameleon.Bytes.{ByteOrder, u16}
use cameleon.Protocol.{Error, invalid_packet, read, read_slice}
use cameleon.Protocol.Ack.{AckCcd}

pub record ReadMem : Type 0 where
  pub bytes : List ℕ

pub record WriteMem : Type 0 where
  pub length : ℕ

pub record Pending : Type 0 where
  pub timeout : ℕ

pub record ReadMemStacked : Type 0 where
  pub bytes : List ℕ

pub record WriteMemStacked : Type 0 where
  pub lengths : List ℕ

-- `Duration::from_millis`
abbrev pub from_millis : ℕ → ℕ
from_millis ms = ms * 1_000_000

unfoldable pub parse_read_mem : List ℕ → AckCcd → Result Error ReadMem
parse_read_mem buf ccd = do (bytes, _) ← read_slice buf ccd.scd_len; ok (record { bytes = bytes })

unfoldable pub parse_read_mem_stacked : List ℕ → AckCcd → Result Error ReadMemStacked
parse_read_mem_stacked buf ccd = do
  (bytes, _) ← read_slice buf ccd.scd_len
  ok (record { bytes = bytes })

module _ ⦃B : ByteOrder⦄ where
  -- The reserved field, which must be zero, and the `u16` behind it.
  unfoldable pub parse_reserved_length : List ℕ → Result Error (ℕ × List ℕ)
  parse_reserved_length c = do
    (reserved, c) ← read u16 c
    guard (reserved == 0) invalid_packet
    read u16 c

  unfoldable pub parse_write_mem : List ℕ → AckCcd → Result Error WriteMem
  parse_write_mem buf _ = do
    (length, _) ← parse_reserved_length buf
    ok (record { length = length })

  unfoldable pub parse_pending : List ℕ → AckCcd → Result Error Pending
  parse_pending buf _ = do
    (timeout_ms, _) ← parse_reserved_length buf
    ok (record { timeout = from_millis timeout_ms })

  -- `while to_read > 0`: `to_read -= 4` overflows below 4.
  unfoldable pub parse_lengths : ℕ → List ℕ → Result Error (List ℕ)
  parse_lengths zero c = ok []
  parse_lengths (suc (suc (suc (suc to_read)))) c = do
    (length, c) ← parse_reserved_length c
    lengths ← parse_lengths to_read c
    ok (length ∷ lengths)
  parse_lengths _ c = do (_, _) ← parse_reserved_length c; panic

  unfoldable pub parse_write_mem_stacked : List ℕ → AckCcd → Result Error WriteMemStacked
  parse_write_mem_stacked buf ccd = do
    lengths ← parse_lengths ccd.scd_len buf
    ok (record { lengths = lengths })
