-- ===== src/Protocol/Stream.antt =====
-- device/src/u3v/protocol/stream.rs: the leader and the trailer of a stream. The pixel format is
-- read by `PixelFormat::try_from`, in the module `PixelFormat`.
pub mod Layout
pub mod Total
use cameleon.Prelude.{Option, none, some, ℕ, List, ◌==◌, if◌then◌else◌}
use cameleon.Result.{Result, ok, err, ◌>>=◌, ◌>>◌, guard}
use cameleon.Bytes.{ByteOrder, u16, u32, u64}
use cameleon.PixelFormat.{PixelFormat}
use cameleon.PixelFormat.Arms.{try_from}
use cameleon.Protocol.{Error, invalid_packet, read}

pub data PayloadType : Type 0 where
  image image_extended_chunk chunk : PayloadType

pub data PayloadStatus : Type 0 where
  success data_discarded data_overrun : PayloadStatus

pub record Leader : Type 0 where
  pub leader_size : ℕ
  pub block_id : ℕ
  pub payload_type : PayloadType
  pub raw_specfic_leader : List ℕ

pub record Trailer : Type 0 where
  pub trailer_size : ℕ
  pub block_id : ℕ
  pub payload_status : PayloadStatus
  pub valid_payload_size : ℕ
  pub raw_specfic_trailer : List ℕ

abbrev pub leader_magic : ℕ
leader_magic = 0x4C56_3355

abbrev pub trailer_magic : ℕ
trailer_magic = 0x5456_3355

-- `TryFrom<u16> for PayloadType`
unfoldable pub payload_type_of : ℕ → Result Error PayloadType
payload_type_of val =
    if val == 0x0001
    then ok image
    else if val == 0x4001
    then ok image_extended_chunk
    else if val == 0x4000
    then ok chunk
    else err invalid_packet

-- `TryFrom<u16> for PayloadStatus`
unfoldable pub payload_status_of : ℕ → Result Error PayloadStatus
payload_status_of val =
    if val == 0x0000
    then ok success
    else if val == 0xA100
    then ok data_discarded
    else if val == 0xA101
    then ok data_overrun
    else err invalid_packet

pub record ImageLeader : Type 0 where
  pub timestamp : ℕ
  pub pixel_format : PixelFormat
  pub width : ℕ
  pub height : ℕ
  pub x_offset : ℕ
  pub y_offset : ℕ
  pub x_padding : ℕ

pub record ImageExtendedChunkLeader : Type 0 where
  pub timestamp : ℕ
  pub pixel_format : PixelFormat
  pub width : ℕ
  pub height : ℕ
  pub x_offset : ℕ
  pub y_offset : ℕ
  pub x_padding : ℕ

pub record ChunkLeader : Type 0 where
  pub timestamp : ℕ

pub record ImageTrailer : Type 0 where
  pub actual_height : ℕ

pub record ImageExtendedChunkTrailer : Type 0 where
  pub actual_height : ℕ
  pub chunk_layout_id : ℕ

pub record ChunkTrailer : Type 0 where
  pub chunk_layout_id : ℕ

-- `try_into().map_err(|e: String| Error::InvalidPacket(e.into()))`
abbrev pub pixel_format_of : ℕ → Result Error PixelFormat
pixel_format_of value = elim (try_from value) [ none ↦ err invalid_packet | some p ↦ ok p ]

module _ ⦃B : ByteOrder⦄ where
  -- `parse_prefix` of the leader and of the trailer.
  unfoldable pub parse_prefix : ℕ → List ℕ → Result Error (Unit {0} × List ℕ)
  parse_prefix expected c = do
    (magic, c) ← read u32 c
    guard (magic == expected) invalid_packet
    ok (tt, c)

  -- `Leader::parse`
  unfoldable pub parse_leader : List ℕ → Result Error Leader
  parse_leader buf = do
    (_, c) ← parse_prefix leader_magic buf
    (_, c) ← read u16 c
    (leader_size, c) ← read u16 c
    (block_id, c) ← read u64 c
    (_, c) ← read u16 c
    (raw_type, c) ← read u16 c
    payload_type ← payload_type_of raw_type
    ok (record {
      leader_size = leader_size;
      block_id = block_id;
      payload_type = payload_type;
      raw_specfic_leader = c;
    })

  -- `Trailer::parse`
  unfoldable pub parse_trailer : List ℕ → Result Error Trailer
  parse_trailer buf = do
    (_, c) ← parse_prefix trailer_magic buf
    (_, c) ← read u16 c
    (trailer_size, c) ← read u16 c
    (block_id, c) ← read u64 c
    (raw_status, c) ← read u16 c
    payload_status ← payload_status_of raw_status
    (_, c) ← read u16 c
    (valid_payload_size, c) ← read u64 c
    ok (record {
      trailer_size = trailer_size;
      block_id = block_id;
      payload_status = payload_status;
      valid_payload_size = valid_payload_size;
      raw_specfic_trailer = c;
    })

  -- `ImageLeader::from_bytes`
  unfoldable pub image_leader : List ℕ → Result Error ImageLeader
  image_leader buf = do
    (timestamp, c) ← read u64 buf
    (raw_format, c) ← read u32 c
    pixel_format ← pixel_format_of raw_format
    (width, c) ← read u32 c
    (height, c) ← read u32 c
    (x_offset, c) ← read u32 c
    (y_offset, c) ← read u32 c
    (x_padding, c) ← read u16 c
    (_, _) ← read u16 c
    ok (record {
      timestamp = timestamp;
      pixel_format = pixel_format;
      width = width;
      height = height;
      x_offset = x_offset;
      y_offset = y_offset;
      x_padding = x_padding;
    })

  -- `ImageExtendedChunkLeader::from_bytes`
  unfoldable pub image_extended_chunk_leader : List ℕ → Result Error ImageExtendedChunkLeader
  image_extended_chunk_leader buf = do
    (timestamp, c) ← read u64 buf
    (raw_format, c) ← read u32 c
    pixel_format ← pixel_format_of raw_format
    (width, c) ← read u32 c
    (height, c) ← read u32 c
    (x_offset, c) ← read u32 c
    (y_offset, c) ← read u32 c
    (x_padding, c) ← read u16 c
    (_, _) ← read u16 c
    ok (record {
      timestamp = timestamp;
      pixel_format = pixel_format;
      width = width;
      height = height;
      x_offset = x_offset;
      y_offset = y_offset;
      x_padding = x_padding;
    })

  unfoldable pub chunk_leader : List ℕ → Result Error ChunkLeader
  chunk_leader buf = do (timestamp, _) ← read u64 buf; ok (record { timestamp = timestamp })

  unfoldable pub image_trailer : List ℕ → Result Error ImageTrailer
  image_trailer buf = do
    (actual_height, _) ← read u32 buf
    ok (record { actual_height = actual_height })

  unfoldable pub image_extended_chunk_trailer : List ℕ → Result Error ImageExtendedChunkTrailer
  image_extended_chunk_trailer buf = do
    (actual_height, c) ← read u32 buf
    (chunk_layout_id, _) ← read u32 c
    ok (record { actual_height = actual_height; chunk_layout_id = chunk_layout_id })

  unfoldable pub chunk_trailer : List ℕ → Result Error ChunkTrailer
  chunk_trailer buf = do
    (chunk_layout_id, _) ← read u32 buf
    ok (record { chunk_layout_id = chunk_layout_id })
