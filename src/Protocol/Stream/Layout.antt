-- ===== src/Protocol/Stream/Layout.antt =====
-- Leaders and trailers as a device lays them out, and what the host reads from them.
use cameleon.Prelude.{ℕ, List, ◌++◌, ◌≡◌, refl, arith, ap, none, some}
use cameleon.Result.{ok, err}
use cameleon.Bytes.{ByteOrder, IsWord, u16, u32, u64, write_bytes}
use cameleon.Bytes.Laws.{read_bytes-write_bytes}
use cameleon.Protocol.{invalid_packet}
use cameleon.PixelFormat.{PixelFormat}
use cameleon.PixelFormat.Codes.{code_of}
use cameleon.PixelFormat.RoundTrip.{try_from-code_of, code_of-lt}
use cameleon.Protocol.Stream.{Leader, Trailer, ImageLeader, PayloadType, PayloadStatus}
use cameleon.Protocol.Stream.{image, image_extended_chunk, chunk, success, data_discarded}
use cameleon.Protocol.Stream.{data_overrun, payload_type_of, payload_status_of, leader_magic}
use cameleon.Protocol.Stream.{
  pixel_format_of, trailer_magic, parse_prefix, parse_leader, parse_trailer, image_leader,
}

-- The values of the fields in the standard's tables.
abbrev pub type_code : PayloadType → ℕ
type_code image = 0x0001
type_code image_extended_chunk = 0x4001
type_code chunk = 0x4000

abbrev pub status_code : PayloadStatus → ℕ
status_code success = 0x0000
status_code data_discarded = 0xA100
status_code data_overrun = 0xA101

pub record IsLeader (l : Leader) : Type 0 where
  pub leader_size : IsWord u16 l.leader_size
  pub block_id : IsWord u64 l.block_id

pub record IsTrailer (t : Trailer) : Type 0 where
  pub trailer_size : IsWord u16 t.trailer_size
  pub block_id : IsWord u64 t.block_id
  pub valid_payload_size : IsWord u64 t.valid_payload_size

pub record IsImageLeader (l : ImageLeader) : Type 0 where
  pub timestamp : IsWord u64 l.timestamp
  pub width : IsWord u32 l.width
  pub height : IsWord u32 l.height
  pub x_offset : IsWord u32 l.x_offset
  pub y_offset : IsWord u32 l.y_offset
  pub x_padding : IsWord u16 l.x_padding

pixel_format_of-code_of : (p : PixelFormat) → pixel_format_of (code_of p) ≡ ok p
pixel_format_of-code_of p =
    ap (λ o. elim o [ none ↦ err invalid_packet | some q ↦ ok q ]) (try_from-code_of p)

module _ ⦃B : ByteOrder⦄ where
  -- `r1` and `r2` are the reserved fields.
  abbrev pub leader_bytes : Leader → ℕ → ℕ → List ℕ
  leader_bytes l r1 r2 =
      write_bytes u32 leader_magic
      ++ (write_bytes u16 r1
          ++ (write_bytes u16 l.leader_size
              ++ (write_bytes u64 l.block_id
                  ++ (write_bytes u16 r2
                      ++ (write_bytes u16 (type_code l.payload_type) ++ l.raw_specfic_leader)))))

  abbrev pub trailer_bytes : Trailer → ℕ → ℕ → List ℕ
  trailer_bytes t r1 r2 =
      write_bytes u32 trailer_magic
      ++ (write_bytes u16 r1
          ++ (write_bytes u16 t.trailer_size
              ++ (write_bytes u64 t.block_id
                  ++ (write_bytes u16 (status_code t.payload_status)
                      ++ (write_bytes u16 r2
                          ++ (write_bytes u64 t.valid_payload_size ++ t.raw_specfic_trailer))))))

  abbrev pub image_leader_bytes : ImageLeader → ℕ → List ℕ → List ℕ
  image_leader_bytes l reserved rest =
      write_bytes u64 l.timestamp
      ++ (write_bytes u32 (code_of l.pixel_format)
          ++ (write_bytes u32 l.width
              ++ (write_bytes u32 l.height
                  ++ (write_bytes u32 l.x_offset
                      ++ (write_bytes u32 l.y_offset
                          ++ (write_bytes u16 l.x_padding
                              ++ (write_bytes u16 reserved ++ rest)))))))

  prefix :
      (magic : ℕ)
      → IsWord u32 magic
      → (rest : List ℕ) → parse_prefix magic (write_bytes u32 magic ++ rest) ≡ ok (tt, rest)
  unfolding parse_prefix
  prefix magic h rest = rw (read_bytes-write_bytes u32 magic h rest) (ground arith)

  type_code-IsWord : (t : PayloadType) → IsWord u16 (type_code t)
  type_code-IsWord t = ground arith

  status_code-IsWord : (s : PayloadStatus) → IsWord u16 (status_code s)
  status_code-IsWord s = ground arith

  payload_type_of-type_code : (t : PayloadType) → payload_type_of (type_code t) ≡ ok t
  unfolding payload_type_of
  payload_type_of-type_code image = refl
  payload_type_of-type_code _ = refl

  payload_status_of-status_code : (s : PayloadStatus) → payload_status_of (status_code s) ≡ ok s
  unfolding payload_status_of
  payload_status_of-status_code success = refl
  payload_status_of-status_code _ = refl

  -- For a leader whose fields are of their widths, with the payload types' codes of the standard:
  -- the host reads the leader back from its layout, whatever the two reserved `u16` fields hold.
  pub parse_leader-leader_bytes :
      (l : Leader) (r1 r2 : ℕ)
      → IsLeader l
      → IsWord u16 r1
      → IsWord u16 r2
      → parse_leader (leader_bytes l r1 r2) ≡ ok l
  unfolding parse_leader
  parse_leader-leader_bytes l r1 r2 h h1 h2 = simp (
    prefix leader_magic (omega arith),
    read_bytes-write_bytes u16 r1 h1,
    read_bytes-write_bytes u16 l.leader_size h.leader_size,
    read_bytes-write_bytes u64 l.block_id h.block_id,
    read_bytes-write_bytes u16 r2 h2,
    read_bytes-write_bytes u16 (type_code l.payload_type) (type_code-IsWord l.payload_type),
    payload_type_of-type_code l.payload_type,
  )

  -- For a trailer whose fields are of their widths, with the statuses' codes of the standard: the
  -- host reads the trailer back from its layout, whatever the two reserved `u16` fields hold.
  pub parse_trailer-trailer_bytes :
      (t : Trailer) (r1 r2 : ℕ)
      → IsTrailer t
      → IsWord u16 r1
      → IsWord u16 r2
      → parse_trailer (trailer_bytes t r1 r2) ≡ ok t
  unfolding parse_trailer
  parse_trailer-trailer_bytes t r1 r2 h h1 h2 = simp (
    prefix trailer_magic (omega arith),
    read_bytes-write_bytes u16 r1 h1,
    read_bytes-write_bytes u16 t.trailer_size h.trailer_size,
    read_bytes-write_bytes u64 t.block_id h.block_id,
    read_bytes-write_bytes u16 (status_code t.payload_status) (status_code-IsWord t.payload_status),
    payload_status_of-status_code t.payload_status,
    read_bytes-write_bytes u16 r2 h2,
    read_bytes-write_bytes u64 t.valid_payload_size h.valid_payload_size,
  )

  -- For an image leader whose fields are of their widths and whose timestamp is in whole
  -- nanoseconds below 2 ^ 64: the host reads it back from its layout, with every pixel format,
  -- whatever the reserved `u16` field holds and whatever follows.
  pub image_leader-image_leader_bytes :
      (l : ImageLeader) (reserved : ℕ) (rest : List ℕ)
      → IsImageLeader l
      → IsWord u16 reserved
      → image_leader (image_leader_bytes l reserved rest) ≡ ok l
  unfolding image_leader
  image_leader-image_leader_bytes l reserved rest h hr = simp (
    read_bytes-write_bytes u64 l.timestamp h.timestamp,
    read_bytes-write_bytes u32 (code_of l.pixel_format) (code_of-lt l.pixel_format),
    pixel_format_of-code_of l.pixel_format,
    read_bytes-write_bytes u32 l.width h.width,
    read_bytes-write_bytes u32 l.height h.height,
    read_bytes-write_bytes u32 l.x_offset h.x_offset,
    read_bytes-write_bytes u32 l.y_offset h.y_offset,
    read_bytes-write_bytes u16 l.x_padding h.x_padding,
    read_bytes-write_bytes u16 reserved hr,
  )
