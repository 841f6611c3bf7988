-- ===== src/Tests/Streams.antt =====
-- Leaders, trailers, events and pixel formats.
use cameleon.Prelude.{ℕ, List, [], ◌∷◌, ◌≡◌, ◌↔◌, arith, some}
use cameleon.Result.{ok, Ensures}
use cameleon.PixelFormat.{mono8, bayer_gr8}
use cameleon.PixelFormat.Codes.{code_of}
use cameleon.PixelFormat.Arms.{try_from}
use cameleon.PixelFormat.RoundTrip.{try_from-eq-some_iff}
use cameleon.Protocol.Event
use cameleon.Protocol.Event.Loop.{Sizes, parse-Ensures}
use cameleon.Protocol.Stream.{Leader, Trailer, ImageLeader, image, data_discarded}
use cameleon.Protocol.Stream.{parse_leader}
use cameleon.Protocol.Stream.Layout.{leader_bytes}
use cameleon.Protocol.Stream.Layout.{parse_leader-leader_bytes}
use cameleon.Tests.{little_endian}

abbrev a_leader : Leader
a_leader = record {
  leader_size = 50;
  block_id = 51;
  payload_type = image;
  raw_specfic_leader = 7 ∷ [];
}

parse_leader-leader_bytes_example : parse_leader (leader_bytes a_leader 9 0) ≡ ok a_leader
parse_leader-leader_bytes_example =
    parse_leader-leader_bytes a_leader 9 0 (omega arith) (omega arith) (omega arith)

abbrev a_trailer : Trailer
a_trailer = record {
  trailer_size = 32;
  block_id = 51;
  payload_status = data_discarded;
  valid_payload_size = 8_847_360;
  raw_specfic_trailer = 7 ∷ [];
}

abbrev an_image : ImageLeader
an_image = record {
  timestamp = 100;
  pixel_format = bayer_gr8;
  width = 3840;
  height = 2160;
  x_offset = 0;
  y_offset = 0;
  x_padding = 4;
}

-- An event packet with one event of size 14.
abbrev an_event : List ℕ
an_event =
    0x55 ∷ 0x33 ∷ 0x56 ∷ 0x45 ∷ 0 ∷ 0 ∷ 0 ∷ 0x0c ∷ 14 ∷ 0 ∷ 1 ∷ 0 ∷ 14 ∷ 0 ∷ 5 ∷ 0 ∷ 1 ∷ 0 ∷ 0 ∷ 0
    ∷ 0 ∷ 0 ∷ 0 ∷ 0 ∷ 8 ∷ 9 ∷ []

parse-Ensures_example : Ensures (λ p. Sizes p.ccd.scd_len p.scd) (Event.parse an_event)
parse-Ensures_example = parse-Ensures an_event

try_from-eq-some_iff_example : (try_from 0x0108_0001 ≡ some mono8) ↔ (code_of mono8 ≡ 0x0108_0001)
try_from-eq-some_iff_example = try_from-eq-some_iff 0x0108_0001 mono8
