-- ===== src/Memory/RegisterMap.antt =====
-- impl/macros/src/register_map.rs: the registers that `#[register_map]` generates for integers in
-- little-endian order; and device/src/emulator/emulator_impl/memory.rs: the places of the registers
-- that the device handles.
use cameleon.Prelude.{ℕ, zero, suc, ◌+◌, List, [], ◌∷◌, none, some}
use cameleon.Result.{ok, err}
use cameleon.Bytes.{ByteOrder, Width, size, u32, u64, write_bytes}
use cameleon.Memory.{invalid_register_data, AccessRight, ro, wo, rw}
use cameleon.Memory.Raw.{Register}

-- The offset of the register with a number, which lies behind those before it.
abbrev pub offset : List ℕ → ℕ → ℕ
offset [] i = 0
offset (len ∷ lens) zero = 0
offset (len ∷ lens) (suc i) = len + offset lens i

-- The lengths of the registers of `ABRM`, `SBRM` and `SIRM`, without their initial values.
abbrev pub abrm_lens : List ℕ
abrm_lens =
    2 ∷ 2 ∷ 64 ∷ 64 ∷ 64 ∷ 64 ∷ 64 ∷ 64 ∷ 64 ∷ 8 ∷ 4 ∷ 8 ∷ 8 ∷ 8 ∷ 4 ∷ 4 ∷ 8 ∷ 4 ∷ 8 ∷ 4 ∷ 4 ∷ 4
    ∷ 64 ∷ []

abbrev pub sbrm_lens : List ℕ
sbrm_lens = 2 ∷ 2 ∷ 8 ∷ 8 ∷ 4 ∷ 4 ∷ 4 ∷ 8 ∷ 4 ∷ 8 ∷ 4 ∷ 8 ∷ 4 ∷ []

abbrev pub sirm_lens : List ℕ
sirm_lens = 4 ∷ 4 ∷ 8 ∷ 4 ∷ 4 ∷ 4 ∷ 4 ∷ 4 ∷ 4 ∷ 4 ∷ 4 ∷ []

-- `ABRM_ADDRESS`, `SBRM_ADDRESS` and `SIRM_ADDRESS`
abbrev pub abrm_address : ℕ
abrm_address = 0

abbrev pub sbrm_address : ℕ
sbrm_address = 0xffff

abbrev pub sirm_address : ℕ
sirm_address = sbrm_address + offset sbrm_lens 13

module _ ⦃B : ByteOrder⦄ where
  -- The `Register` of an unsigned integer.
  abbrev pub int_register : Width → ℕ → AccessRight → Register ℕ
  int_register w address right = record {
    address = address;
    len = size w;
    access_right = right;
    parse =
        λ bytes. elim (B.read_le w bytes) [ none ↦ err invalid_register_data | some (v, _) ↦ ok v ];
    serialize = λ value. ok (write_bytes w value);
  }

  abbrev pub timestamp : Register ℕ
  timestamp = int_register u64 (abrm_address + offset abrm_lens 16) ro

  abbrev pub timestamp_latch : Register ℕ
  timestamp_latch = int_register u32 (abrm_address + offset abrm_lens 17) wo

  abbrev pub control : Register ℕ
  control = int_register u32 (sirm_address + offset sirm_lens 1) rw

  abbrev pub required_payload_size : Register ℕ
  required_payload_size = int_register u64 (sirm_address + offset sirm_lens 2) ro

  abbrev pub required_leader_size : Register ℕ
  required_leader_size = int_register u32 (sirm_address + offset sirm_lens 3) ro

  abbrev pub required_trailer_size : Register ℕ
  required_trailer_size = int_register u32 (sirm_address + offset sirm_lens 4) ro

  abbrev pub maximum_leader_size : Register ℕ
  maximum_leader_size = int_register u32 (sirm_address + offset sirm_lens 5) rw

  abbrev pub payload_transfer_size : Register ℕ
  payload_transfer_size = int_register u32 (sirm_address + offset sirm_lens 6) rw

  abbrev pub payload_transfer_count : Register ℕ
  payload_transfer_count = int_register u32 (sirm_address + offset sirm_lens 7) rw

  abbrev pub payload_final_transfer_size1 : Register ℕ
  payload_final_transfer_size1 = int_register u32 (sirm_address + offset sirm_lens 8) rw

  abbrev pub payload_final_transfer_size2 : Register ℕ
  payload_final_transfer_size2 = int_register u32 (sirm_address + offset sirm_lens 9) rw

  abbrev pub maximum_trailer_size : Register ℕ
  maximum_trailer_size = int_register u32 (sirm_address + offset sirm_lens 10) rw
