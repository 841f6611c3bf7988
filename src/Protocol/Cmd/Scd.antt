-- ===== src/Protocol/Cmd/Scd.antt =====
-- device/src/u3v/protocol/cmd.rs: the specific command data of the four commands.
pub mod Build
use cameleon.Prelude.{ℕ, ◌+◌, ◌*◌, ◌%◌, ◌^◌, List, [], ◌∷◌, ◌++◌, length, ltb, if◌then◌else◌}
use cameleon.Result.{Result, ok, err, ◌>>=◌, ◌>>◌, assert}
use cameleon.Bytes.{ByteOrder, u16, u64, write_bytes}
use cameleon.Protocol.{Error, invalid_packet}
use cameleon.Protocol.Cmd.{CommandScd, into_scd_len, request_ack}
use cameleon.Protocol.Cmd.{read_mem, write_mem, read_mem_stacked, write_mem_stacked}

pub record ReadMem : Type 0 where
  pub address : ℕ
  pub read_length : ℕ

-- `bytes` is the field `data`.
pub record WriteMem : Type 0 where
  pub address : ℕ
  pub bytes : List ℕ
  pub data_len : ℕ
  pub len : ℕ

-- `WriteMem::new`
unfoldable pub new_write_mem : ℕ → List ℕ → Result Error WriteMem
unfolding into_scd_len
new_write_mem address bytes = do
  data_len ← into_scd_len (length bytes)
  len ← into_scd_len (length bytes + 8)
  ok (record { address = address; bytes = bytes; data_len = data_len; len = len })

pub record ReadMemStacked : Type 0 where
  pub entries : List ReadMem
  pub len : ℕ
  pub ack_scd_len : ℕ

pub record WriteMemStacked : Type 0 where
  pub entries : List WriteMem
  pub len : ℕ
  pub ack_scd_len : ℕ

-- `regs.iter().fold(0, |acc, reg| acc + reg.scd_len() as usize)`
abbrev pub fold_read_len : ℕ → List ReadMem → ℕ
fold_read_len acc [] = acc
fold_read_len acc (reg ∷ regs) = fold_read_len (acc + 12) regs

-- The loop of `ReadMemStacked::ack_scd_len`, with `checked_add`.
unfoldable pub sum_read_length : ℕ → List ReadMem → Result Error ℕ
sum_read_length acc [] = ok acc
sum_read_length acc (ent ∷ entries) =
    let rest = sum_read_length (acc + ent.read_length) entries in
    if ltb (acc + ent.read_length) (2 ^ 16) then rest else err invalid_packet

-- `ReadMemStacked::new`
unfoldable pub new_read_mem_stacked : List ReadMem → Result Error ReadMemStacked
unfolding into_scd_len
new_read_mem_stacked entries = do
  len ← into_scd_len (fold_read_len 0 entries)
  ack_scd_len ← sum_read_length 0 entries
  ok (record { entries = entries; len = len; ack_scd_len = ack_scd_len })

-- `entries.iter().fold(0, |acc, cmd| acc + 12 + cmd.data_len as usize)`
abbrev pub fold_write_len : ℕ → List WriteMem → ℕ
fold_write_len acc [] = acc
fold_write_len acc (cmd ∷ entries) = fold_write_len (acc + 12 + cmd.data_len) entries

-- `WriteMemStacked::new`; the product is a `u16`.
unfoldable pub new_write_mem_stacked : List WriteMem → Result Error WriteMemStacked
unfolding into_scd_len
new_write_mem_stacked entries = do
  len ← into_scd_len (fold_write_len 0 entries)
  let ack_scd_len = length entries % 2 ^ 16 * 4
  assert (ltb ack_scd_len (2 ^ 16))
  ok (record { entries = entries; len = len; ack_scd_len = ack_scd_len })

module _ ⦃B : ByteOrder⦄ where
  unfoldable pub serialize_read_mem : ReadMem → List ℕ
  serialize_read_mem r =
      write_bytes u64 r.address ++ (write_bytes u16 0 ++ write_bytes u16 r.read_length)

  unfoldable pub serialize_write_mem : WriteMem → List ℕ
  serialize_write_mem w = write_bytes u64 w.address ++ w.bytes

  unfoldable pub serialize_reads : List ReadMem → List ℕ
  serialize_reads [] = []
  serialize_reads (ent ∷ entries) = serialize_read_mem ent ++ serialize_reads entries

  unfoldable pub serialize_writes : List WriteMem → List ℕ
  serialize_writes [] = []
  serialize_writes (ent ∷ entries) =
      write_bytes u64 ent.address
      ++ (write_bytes u16 0
          ++ (write_bytes u16 ent.data_len ++ (ent.bytes ++ serialize_writes entries)))

  instance abbrev pub ReadMem-scd : CommandScd ReadMem
  ReadMem-scd = record {
    flag = λ r. request_ack;
    scd_kind = λ r. read_mem;
    scd_len = λ r. 12;
    serialize_scd = serialize_read_mem;
    ack_scd_len = λ r. r.read_length;
  }

  instance abbrev pub WriteMem-scd : CommandScd WriteMem
  WriteMem-scd = record {
    flag = λ w. request_ack;
    scd_kind = λ w. write_mem;
    scd_len = λ w. w.len;
    serialize_scd = serialize_write_mem;
    ack_scd_len = λ w. 4;
  }

  instance abbrev pub ReadMemStacked-scd : CommandScd ReadMemStacked
  ReadMemStacked-scd = record {
    flag = λ r. request_ack;
    scd_kind = λ r. read_mem_stacked;
    scd_len = λ r. r.len;
    serialize_scd = λ r. serialize_reads r.entries;
    ack_scd_len = λ r. r.ack_scd_len;
  }

  instance abbrev pub WriteMemStacked-scd : CommandScd WriteMemStacked
  WriteMemStacked-scd = record {
    flag = λ w. request_ack;
    scd_kind = λ w. write_mem_stacked;
    scd_len = λ w. w.len;
    serialize_scd = λ w. serialize_writes w.entries;
    ack_scd_len = λ w. w.ack_scd_len;
  }
