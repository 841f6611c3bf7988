-- ===== src/Protocol/Reads.antt =====
-- What a read by the host leaves of the cursor.
use cameleon.Prelude.{ℕ, ◌+◌, List, length, ◌≡◌}
use cameleon.Result.{Ensures, Ensures-map_err}
use cameleon.Bytes.{ByteOrder, Width, size}
use cameleon.Bytes.Laws.{read_bytes-Ensures}
use cameleon.Bytes.Laws
use cameleon.Protocol.{read, read_slice}

pub read-Ensures :
    ⦃B : ByteOrder⦄
    → (w : Width) (c : List ℕ) → Ensures (λ (v, rest). length rest + size w ≡ length c) (read w c)
read-Ensures w c = Ensures-map_err _ (read_bytes-Ensures w c)

pub read_slice-Ensures :
    (c : List ℕ) (n : ℕ)
    → Ensures (λ (bs, rest). (length bs ≡ n) × (length rest + n ≡ length c)) (read_slice c n)
read_slice-Ensures c n = Ensures-map_err _ (Laws.read_slice-Ensures c n)
