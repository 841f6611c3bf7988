-- ===== src/Tests/Acks.antt =====
-- Acknowledges: packets and status codes.
use cameleon.Prelude.{[], ◌∷◌, ◌≡◌, ◌↔◌, arith}
use cameleon.Result.{ok}
use cameleon.Protocol.Ack.{AckCcd, Status, status_of_code, parse, parse_status, parse_kind}
use cameleon.Protocol.Ack.{GenCpStatus, success, access_denied, gen_cp}
use cameleon.Protocol.Ack
use cameleon.Protocol.Ack.Scd.{ReadMem, Pending, WriteMemStacked}
use cameleon.Emulator.Ack.{ErrorAck, finalize, serialize, new_ccd, status_of_gencp, ReadMem-ack}
use cameleon.Emulator.Ack.{Pending-ack, WriteMemStacked-ack, ErrorAck-ack}
use cameleon.Emulator.Ack.{gencp_code}
use cameleon.Emulator.Ack.Codes.{IsKnown, gencp, status_of_code-eq-ok_iff}
use cameleon.Emulator.Ack.RoundTrip.{parse-serialize_ack}
use cameleon.Tests.{little_endian}

abbrev denied : ErrorAck
denied = record { status = status_of_gencp access_denied; scd_kind = Ack.read_mem }

parse-serialize_ack_example :
    parse (serialize (finalize denied 1)) ≡ ok (record { ccd = new_ccd denied 1; raw_scd = [] })
parse-serialize_ack_example =
    parse-serialize_ack denied 1 (gencp access_denied) (omega arith) (omega arith)

abbrev four_bytes : ReadMem
four_bytes = record { bytes = 1 ∷ 2 ∷ 3 ∷ 4 ∷ [] }

abbrev a_pending : Pending
a_pending = record { timeout = 700_000_001 }

abbrev two_lengths : WriteMemStacked
two_lengths = record { lengths = 3 ∷ 10 ∷ [] }

status_of_code-eq-ok_iff_example :
    (status_of_code 0x8006 ≡ ok (status_of_gencp access_denied))
    ↔ (IsKnown (status_of_gencp access_denied) × (gencp_code access_denied ≡ 0x8006))
status_of_code-eq-ok_iff_example =
    status_of_code-eq-ok_iff 0x8006 (status_of_gencp access_denied) (omega arith)

abbrev six_bytes : AckCcd
six_bytes = record {
  status = status_of_gencp success;
  scd_kind = Ack.write_mem_stacked;
  request_id = 1;
  scd_len = 6;
}
