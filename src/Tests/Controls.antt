-- ===== src/Tests/Controls.antt =====
-- A read of two bytes, which the device answers after one pending acknowledge.
use cameleon.Prelude.{true, ℕ, ◌≤◌, List, [], ◌∷◌, length, ◌≡◌, refl, arith, replicate}
use cameleon.Result.{ok, err, map_err}
use cameleon.Bytes.{write_bytes}
use cameleon.Protocol.{lib_usb, timeout}
use cameleon.Protocol.Cmd
use cameleon.Protocol.Cmd.Scd
use cameleon.Protocol.Cmd.Scd.{ReadMem-scd, serialize_read_mem}
use cameleon.Protocol.Ack.Scd.{ReadMem, Pending, parse_read_mem}
use cameleon.Emulator.Ack.{finalize, serialize, serialize_ccd, new_ccd, ReadMem-ack, Pending-ack}
use cameleon.Control.{Channel, ControlHandle, receive, send_cmd, from_device}
use cameleon.Control.Pending.{more, none, receive_answered}
use cameleon.Control.Answer.{send_cmd_answered}
use cameleon.Tests.{little_endian}

-- A channel that takes every packet and delivers the packets of a list.
instance abbrev script : Channel (List (List ℕ))
script = record {
  is_opened = λ c. true;
  send = λ bytes c. (ok tt, c);
  recv = λ room c. elim c [ [] ↦ (err (lib_usb timeout), []) | packet ∷ rest ↦ (ok packet, rest) ];
}

abbrev wait : Pending
wait = record { timeout = 5_000_000 }

abbrev answer : ReadMem
answer = record { bytes = 1 ∷ 2 ∷ [] }

abbrev wait_packet : List ℕ
wait_packet = serialize (finalize wait 65535)

abbrev answer_packet : List ℕ
answer_packet = serialize (finalize answer 65535)

abbrev handle : List (List ℕ) → ControlHandle (List (List ℕ))
handle packets = record {
  inner = packets;
  retry_count = 2;
  maximum_ack_length = 1024;
  next_req_id = 65535;
  buffer = replicate 24 0;
}

wait_fits : length wait_packet ≤ 24
unfolding serialize finalize serialize_ccd write_bytes
wait_fits = omega arith

answer_fits : length answer_packet ≤ 24
unfolding serialize finalize serialize_ccd write_bytes
answer_fits = omega arith

receive_answered_example :
    (buffer : List ℕ) × (length buffer ≡ 24)
    × (receive 2 (handle (wait_packet ∷ answer_packet ∷ []))
        ≡ (ok answer_packet, record (handle []) { buffer = buffer; next_req_id = 0 }))
receive_answered_example =
    receive_answered answer (handle (wait_packet ∷ answer_packet ∷ [])) 1 2 (answer_packet ∷ []) []
      refl refl (omega arith) (omega arith) (more wait (refl, wait_fits) none) (refl, answer_fits)
      (omega arith)

abbrev two_bytes : Cmd.Scd.ReadMem
two_bytes = record { address = 256; read_length = 2 }

two_bytes_whole :
    length (Cmd.serialize (Cmd.finalize two_bytes 65535))
    ≡ Cmd.cmd_len (Cmd.finalize two_bytes 65535)
unfolding Cmd.serialize Cmd.finalize Cmd.serialize_ccd Cmd.cmd_len serialize_read_mem write_bytes
two_bytes_whole = refl

send_cmd_answered_example :
    ((send_cmd parse_read_mem (handle (wait_packet ∷ answer_packet ∷ [])) two_bytes).0
      ≡ map_err from_device (parse_read_mem (1 ∷ 2 ∷ []) (new_ccd answer 65535)))
    × ((send_cmd parse_read_mem (handle (wait_packet ∷ answer_packet ∷ [])) two_bytes).1.next_req_id
        ≡ 0)
unfolding Cmd.cmd_len Cmd.maximum_ack_len Cmd.finalize
send_cmd_answered_example =
    send_cmd_answered two_bytes answer parse_read_mem (handle (wait_packet ∷ answer_packet ∷ [])) 1
      (wait_packet ∷ answer_packet ∷ []) (answer_packet ∷ []) [] two_bytes_whole refl refl
      (omega arith) (omega arith) refl (more wait (refl, wait_fits) none) (refl, answer_fits)
      (omega arith)
