-- ===== src/Emulator/Cmd/Ends.antt =====
-- How the device's parser of packets ends.
use cameleon.Prelude.{ℕ, ◌^◌, List, ◌==◌}
use cameleon.Result.{Ensures, Ensures-bind, Ensures-guard, Ensures-if, returns, fails}
use cameleon.Bytes.{ByteOrder, u16, u32}
use cameleon.Memory.{}
use cameleon.Emulator.{invalid_packet}
use cameleon.Emulator.Reads.{read-Ensures}
use cameleon.Emulator.Cmd.{
  parse, parse_prefix, parse_ccd, parse_flag, parse_kind, flag_of_raw, kind_of_raw, prefix_magic,
}
use cameleon.Emulator.Cmd.Scd.Total.{}
use cameleon.Emulator.Ack.{ErrorAck-ack, ReadMem-ack, WriteMem-ack}
use cameleon.Emulator.Worker.{}

flag_of_raw-Ensures : (raw : ℕ) → Ensures (λ _. Unit {0}) (flag_of_raw raw)
unfolding flag_of_raw
flag_of_raw-Ensures raw =
    Ensures-if (raw == 2 ^ 14) (returns tt) (Ensures-if (raw == 2 ^ 15) (returns tt) fails)

kind_of_raw-Ensures : (raw : ℕ) → Ensures (λ _. Unit {0}) (kind_of_raw raw)
unfolding kind_of_raw
kind_of_raw-Ensures raw = Ensures-if (raw == 0x0800) (returns tt) (
    Ensures-if (raw == 0x0802) (returns tt)
      (Ensures-if (raw == 0x0806) (returns tt) (Ensures-if (raw == 0x0808) (returns tt) fails)))

module _ ⦃B : ByteOrder⦄ where
  parse_flag-Ensures : (c : List ℕ) → Ensures (λ _. Unit {0}) (parse_flag c)
  unfolding parse_flag
  parse_flag-Ensures c =
      Ensures-bind (read-Ensures u16 c) λ (raw, c') _.
        Ensures-bind {P = λ _. Unit {0}} (flag_of_raw-Ensures raw) λ flag _. returns tt

  parse_kind-Ensures : (c : List ℕ) → Ensures (λ _. Unit {0}) (parse_kind c)
  unfolding parse_kind
  parse_kind-Ensures c =
      Ensures-bind (read-Ensures u16 c) λ (raw, c') _.
        Ensures-bind {P = λ _. Unit {0}} (kind_of_raw-Ensures raw) λ kind _. returns tt

  parse_prefix-Ensures : (c : List ℕ) → Ensures (λ _. Unit {0}) (parse_prefix c)
  unfolding parse_prefix
  parse_prefix-Ensures c = Ensures-bind (read-Ensures u32 c) λ (magic, c') _.
      Ensures-bind (Ensures-guard (magic == prefix_magic) invalid_packet) λ _ _. returns tt

  parse_ccd-Ensures : (c : List ℕ) → Ensures (λ _. Unit {0}) (parse_ccd c)
  unfolding parse_ccd
  parse_ccd-Ensures c = Ensures-bind (parse_flag-Ensures c) λ (flag, c1) _.
      Ensures-bind (parse_kind-Ensures c1) λ (kind, c2) _.
        Ensures-bind (read-Ensures u16 c2)
          λ (len, c3) _. Ensures-bind (read-Ensures u16 c3) λ (id, c4) _. returns tt

  -- The device's parser of packets gives a packet or an error for any bytes.
  pub parse-Ensures : (buf : List ℕ) → Ensures (λ _. Unit {0}) (parse buf)
  unfolding parse
  parse-Ensures buf =
      Ensures-bind (parse_prefix-Ensures buf)
        λ (_, c) _. Ensures-bind (parse_ccd-Ensures c) λ _ _. returns tt
