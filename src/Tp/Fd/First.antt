-- ===== src/Tp/Fd/First.antt =====
-- The first frames of CAN FD in src/tp/iso_tp.c, encoded and decoded.
use uds.Base.{
  ℕ, ◌+◌, ◌*◌, ◌/◌, ◌%◌, ◌^◌, ◌≤◌, ◌<◌, ◌≡◌, refl, sym, ap, ◌∙◌, bit_and, bit_or, false, List, [],
  ◌∷◌, length, take, slice, ◌++◌, ltb, leb, arith, length-take, inl, inr, Bool-cases,
}
use uds.Base.Bits.{bit_and_15, bit_and_255, bit_or_shifted, or_nibble}
use uds.Can.{CanfdFrame}
use uds.Tp.{tp_ok, frame_ff}
use uds.Tp.Fd.{
  data_byte, fd_data, fd_frame_of, frame_type_fd, ff_header, encode_ff_fd, decode_ff_fd,
}
use uds.Tp.Fd.Cells.{embed_fd, ff_frame_fd, fd_byte, fd_slice}

pub encode_ff_fd_lem :
    (can_id : ℕ) (bytes : List ℕ) (total_len : ℕ)
    → 62 < total_len
    → total_len < 4294967296
    → encode_ff_fd false can_id bytes total_len ≡ tp_ok (ff_frame_fd can_id bytes total_len)
unfolding encode_ff_fd
encode_ff_fd_lem can_id bytes total_len lo hi = elim (Bool-cases (leb total_len 4095)) [
  | inl short ↦
      let high : bit_and (total_len / 2 ^ 8) 0x0F ≡ total_len / 256 =
        ground (arith, short, bit_and_15 (total_len / 2 ^ 8)) in
      let (nib, _, _) = or_nibble (total_len / 256) (ground (arith, short)) in
      rw high (rw (nib, bit_and_255 total_len) (ground (arith, short)))
  | inr long ↦
      let top : bit_and (total_len / 2 ^ 24) 0xFF ≡ total_len / 16777216 =
        omega (arith, bit_and_255 (total_len / 2 ^ 24)) in
      rw
        (
          top,
          bit_and_255 (total_len / 2 ^ 16),
          bit_and_255 (total_len / 2 ^ 8),
          bit_and_255 total_len,
        )
        (ground (arith, long))
]

-- The first bytes of a message, read back from behind a header.
read_back :
    (header bytes : List ℕ) (n : ℕ)
    → length header + n ≤ 64
    → n ≤ length bytes
    → slice (fd_data (header ++ take n bytes)) (length header) n ≡ take n bytes
read_back header bytes n fits enough =
    let all : length (take n bytes) ≡ n = omega (arith, length-take n bytes) in
    ap (λ k. slice (fd_data (header ++ take n bytes)) (length header) k) (sym all)
    ∙ fd_slice header (take n bytes) (omega (arith, all))

-- Four bytes, put together with `<<` and `|`.
four_bytes :
    (a b c d : ℕ)
    → b < 256
    → c < 256
    → d < 256
    → bit_or (bit_or (bit_or (a * 2 ^ 24) (b * 2 ^ 16)) (c * 2 ^ 8)) d
      ≡ a * 16777216 + b * 65536 + c * 256 + d
four_bytes a b c d hb hc hd =
    let one : bit_or (a * 2 ^ 24) (b * 2 ^ 16) ≡ (a * 256 + b) * 2 ^ 16 =
      omega (arith, bit_or_shifted 24 a (b * 2 ^ 16)) in
    let two : bit_or ((a * 256 + b) * 2 ^ 16) (c * 2 ^ 8) ≡ ((a * 256 + b) * 256 + c) * 2 ^ 8 =
      omega (arith, bit_or_shifted 16 (a * 256 + b) (c * 2 ^ 8)) in
    let three : bit_or (((a * 256 + b) * 256 + c) * 2 ^ 8) d ≡ ((a * 256 + b) * 256 + c) * 256 + d =
      omega (arith, bit_or_shifted 8 ((a * 256 + b) * 256 + c) d) in
    rw (one, two) (omega (arith, three))

-- The header of a first frame, from its bytes.
type_by_byte :
    (frame : CanfdFrame)
    → 0 < frame.len
    → 16 ≤ data_byte frame 0
    → data_byte frame 0 < 32
    → frame_type_fd frame ≡ frame_ff
unfolding frame_type_fd
type_by_byte frame some_len lo hi = ground (arith, bit_and_15 (data_byte frame 0 / 2 ^ 4))

ff_header_regular :
    (frame : CanfdFrame) (total_len : ℕ)
    → frame.len ≡ 64
    → data_byte frame 0 ≡ 0x10 + total_len / 256
    → data_byte frame 1 ≡ total_len % 256
    → 62 < total_len
    → total_len ≤ 4095
    → ff_header frame ≡ tp_ok (total_len, 2, 62)
unfolding ff_header
ff_header_regular frame total_len full b0 b1 lo hi =
    let low : bit_and (data_byte frame 0) 0x0F ≡ total_len / 256 =
      omega (arith, bit_and_15 (data_byte frame 0)) in
    let sum : bit_or (total_len / 256 * 2 ^ 8) (total_len % 256) ≡ total_len =
      bit_or_shifted 8 (total_len / 256) (total_len % 256) (omega arith) ∙ omega arith in
    rw (low, b1) (ground (arith, sum))

ff_header_extended :
    (frame : CanfdFrame) (total_len : ℕ)
    → frame.len ≡ 64
    → data_byte frame 0 ≡ 0x10
    → data_byte frame 1 ≡ 0
    → data_byte frame 2 ≡ total_len / 16777216
    → data_byte frame 3 ≡ total_len / 65536 % 256
    → data_byte frame 4 ≡ total_len / 256 % 256
    → data_byte frame 5 ≡ total_len % 256
    → 4095 < total_len
    → ff_header frame ≡ tp_ok (total_len, 6, 58)
unfolding ff_header
ff_header_extended frame total_len full b0 b1 b2 b3 b4 b5 lo =
    let sum =
      four_bytes (total_len / 16777216) (total_len / 65536 % 256) (total_len / 256 % 256)
        (total_len % 256) (omega arith) (omega arith) (omega arith) in
    rw (b0, b1, b2, b3, b4, b5) (rw sum (ground arith))

-- A first frame is decoded by its header.
decode_by_header :
    (frame : CanfdFrame) (total_len data_offset embed buf_size : ℕ)
    → frame_type_fd frame ≡ frame_ff
    → ff_header frame ≡ tp_ok (total_len, data_offset, embed)
    → embed ≤ buf_size
    → decode_ff_fd false frame buf_size ≡ tp_ok (total_len, slice frame.bytes data_offset embed)
unfolding decode_ff_fd
decode_by_header frame total_len data_offset embed buf_size t header room =
    let roomy : ltb buf_size embed ≡ false = ground arith in rw (decode_ff_fd, t, header, roomy)

decode_ff_regular :
    (can_id : ℕ) (bytes : List ℕ) (total_len buf_size : ℕ)
    → 62 < total_len
    → total_len ≤ 4095
    → total_len ≤ length bytes
    → 62 ≤ buf_size
    → let frame =
        fd_frame_of can_id 64 ((0x10 + total_len / 256) ∷ total_len % 256 ∷ take 62 bytes) in
      (frame_type_fd frame ≡ frame_ff)
      × (decode_ff_fd false frame buf_size ≡ tp_ok (total_len, take 62 bytes))
decode_ff_regular can_id bytes total_len buf_size lo hi enough room =
    let header : List ℕ = (0x10 + total_len / 256) ∷ total_len % 256 ∷ [] in
    let cells = header ++ take 62 bytes in
    let frame = fd_frame_of can_id 64 cells in
    let b0 = fd_byte cells 0 (omega arith) in
    let t = type_by_byte frame (omega arith) (omega (arith, b0)) (omega (arith, b0)) in
    (
      t,
      decode_by_header frame total_len 2 62 buf_size t
            (ff_header_regular frame total_len refl b0 (fd_byte cells 1 (omega arith)) lo hi) room
          ∙ ap (λ out. tp_ok (total_len, out))
              (read_back header bytes 62 (omega arith) (omega arith)),
    )

decode_ff_extended :
    (can_id : ℕ) (bytes : List ℕ) (total_len buf_size : ℕ)
    → 4095 < total_len
    → total_len ≤ length bytes
    → 58 ≤ buf_size
    → let frame = fd_frame_of can_id 64 (
        0x10
        ∷ 0
        ∷ total_len / 16777216
        ∷ total_len / 65536 % 256
        ∷ total_len / 256 % 256
        ∷ total_len % 256
        ∷ take 58 bytes) in
      (frame_type_fd frame ≡ frame_ff)
      × (decode_ff_fd false frame buf_size ≡ tp_ok (total_len, take 58 bytes))
decode_ff_extended can_id bytes total_len buf_size lo enough room =
    let header : List ℕ =
      0x10
      ∷ 0
      ∷ total_len / 16777216
      ∷ total_len / 65536 % 256
      ∷ total_len / 256 % 256
      ∷ total_len % 256
      ∷ [] in
    let cells = header ++ take 58 bytes in
    let frame = fd_frame_of can_id 64 cells in
    let b0 = fd_byte cells 0 (omega arith) in
    let t = type_by_byte frame (omega arith) (omega (arith, b0)) (omega (arith, b0)) in
    (
      t,
      decode_by_header frame total_len 6 58 buf_size t
            (ff_header_extended frame total_len refl b0 (fd_byte cells 1 (omega arith))
              (fd_byte cells 2 (omega arith)) (fd_byte cells 3 (omega arith))
              (fd_byte cells 4 (omega arith)) (fd_byte cells 5 (omega arith)) lo)
            room
          ∙ ap (λ out. tp_ok (total_len, out))
              (read_back header bytes 58 (omega arith) (omega arith)),
    )

pub decode_ff_fd_lem :
    (can_id : ℕ) (bytes : List ℕ) (buf_size : ℕ)
    → 62 < length bytes
    → length bytes ≤ buf_size
    → (frame_type_fd (ff_frame_fd can_id bytes (length bytes)) ≡ frame_ff)
      × (decode_ff_fd false (ff_frame_fd can_id bytes (length bytes)) buf_size
          ≡ tp_ok (length bytes, take (embed_fd (length bytes)) bytes))
decode_ff_fd_lem can_id bytes buf_size lo room = elim (Bool-cases (leb (length bytes) 4095)) [
  | inl short ↦ rw short (
      decode_ff_regular can_id bytes (length bytes) buf_size lo (ground (arith, short))
        (omega arith) (omega arith))
  | inr long ↦ rw long (
      decode_ff_extended can_id bytes (length bytes) buf_size (ground (arith, long)) (omega arith)
        (ground (arith, long)))
]
