-- ===== src/Protocol/Cmd/Chunks.antt =====
-- device/src/u3v/protocol/cmd.rs: splitting a read or a write into commands that fit a buffer.
-- An iterator is its state, and `next` returns the item with the new state.
pub mod Loop
pub mod Read
pub mod Write
use cameleon.Prelude.{ℕ, zero, suc, ◌+◌, ◌-◌, ◌%◌, ◌^◌, List, [], ◌∷◌, length, take, drop}
use cameleon.Prelude.{Option, none, some, ltb, leb, ◌==◌, if◌then◌else◌}
use cameleon.Result.{Result, ok, err, panic, stuck, ◌>>=◌, ◌>>◌, assert}
use cameleon.Protocol.{Error, invalid_packet}
use cameleon.Protocol.Cmd.{ack_header_length, header_len, u16_max}
use cameleon.Protocol.Cmd.Scd.{ReadMem, WriteMem, new_write_mem}

pub record ReadMemChunks : Type 0 where
  pub address : ℕ
  pub read_length : ℕ
  pub maximum_read_length : ℕ

-- `ReadMemChunks::next`: the address is a `u64`, and a cast to `u16` keeps the low bits.
unfoldable pub next_read : ReadMemChunks → Result Error (Option (ReadMem × ReadMemChunks))
next_read c =
    if c.read_length == 0
    then ok none
    else if ltb c.maximum_read_length c.read_length
    then (do
      let piece = c.maximum_read_length % 2 ^ 16
      assert (leb piece c.read_length)
      assert (ltb (c.address + c.maximum_read_length) (2 ^ 64))
      ok (
          some (
            record { address = c.address; read_length = piece },
            record c {
              read_length = c.read_length - piece;
              address = c.address + c.maximum_read_length;
            },
          )))
    else ok (
        some (
          record { address = c.address; read_length = c.read_length },
          record c { read_length = 0 },
        ))

-- `ReadMem::chunks`
unfoldable pub read_chunks : ReadMem → ℕ → Result Error ReadMemChunks
read_chunks r ack_len =
    if leb ack_len ack_header_length
    then err invalid_packet
    else ok (record {
      address = r.address;
      read_length = r.read_length;
      maximum_read_length = ack_len - ack_header_length;
    })

-- `ReadMem::maximum_read_length`: the subtraction panics below the header's length.
unfoldable pub maximum_read_length : ℕ → Result Error ℕ
maximum_read_length maximum_ack_len = do
  assert (leb ack_header_length maximum_ack_len)
  let len = maximum_ack_len - ack_header_length
  ok (if leb len u16_max then len else u16_max)

-- `data_idx` is where the next chunk begins.
pub record WriteMemChunks : Type 0 where
  pub address : ℕ
  pub bytes : List ℕ
  pub data_idx : ℕ
  pub maximum_data_len : ℕ

-- `WriteMem::new(..).unwrap()`
abbrev pub unwrap_write : Result Error WriteMem → Result Error WriteMem
unwrap_write (ok w) = ok w
unwrap_write (err e) = panic
unwrap_write panic = panic
unwrap_write stuck = stuck

-- `WriteMemChunks::next`
unfoldable pub next_write : WriteMemChunks → Result Error (Option (WriteMem × WriteMemChunks))
next_write c =
    if c.data_idx == length c.bytes
    then ok none
    else if ltb (c.data_idx + c.maximum_data_len) (length c.bytes)
    then (do
      next_item ←
          unwrap_write (new_write_mem c.address (take c.maximum_data_len (drop c.data_idx c.bytes)))
      assert (ltb (c.address + c.maximum_data_len) (2 ^ 64))
      ok (
          some (
            next_item,
            record c {
              address = c.address + c.maximum_data_len;
              data_idx = c.data_idx + c.maximum_data_len;
            },
          )))
    else (do
      next_item ← unwrap_write (new_write_mem c.address (drop c.data_idx c.bytes))
      ok (some (next_item, record c { data_idx = length c.bytes })))

-- `WriteMem::chunks`
unfoldable pub write_chunks : WriteMem → ℕ → Result Error WriteMemChunks
write_chunks w cmd_len =
    if leb cmd_len (header_len + 8)
    then err invalid_packet
    else ok (record {
      address = w.address;
      bytes = w.bytes;
      data_idx = 0;
      maximum_data_len = cmd_len - (header_len + 8);
    })

-- A `for` loop over an iterator, on fuel: the items in order.
unfoldable pub collect {ℓ κ} :
    {E : Type 0} {S : Type ℓ} {A : Type κ}
    → (S → Result E (Option (A × S)))
    → ℕ
    → S
    → Result E (List A)
collect next zero s = stuck
collect next (suc fuel) s = do
  item ← next s
  elim item [ none ↦ ok [] | some (a, s') ↦ do ok (a ∷ (← collect next fuel s')) ]
