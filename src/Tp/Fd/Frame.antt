-- ===== src/Tp/Fd/Frame.antt =====
-- The other CAN FD frames of src/tp/iso_tp.c, encoded and decoded.
use mathlib.Core.Path.{subst}
use uds.Base.{
  ℕ, ◌+◌, ◌/◌, ◌≤◌, ◌<◌, ◌≡◌, ◌≢◌, sym, ap, ◌∙◌, bit_and, false, List, [], ◌∷◌, length, slice, leb,
  arith, length-take, length-drop, drop, All, All-take, All-drop, inl, inr, Bool-cases,
}
use uds.Base.Bits.{IsByte, bit_and_15, or_nibble}
use uds.Can.{CanfdFrame}
use uds.Tp.{tp_ok, tp_err, err_inprogress, frame_sf, frame_cf}
use uds.Tp.Link.{IsLink}
use uds.Tp.Fd.{
  frame_type_fd, sf_header, encode_sf_fd, encode_cf_fd, encode_fc_fd, decode_sf_fd, decode_cf_fd,
  decode_fc_fd, fd,
}
use uds.Tp.Fd.Cells.{sf_frame_fd, cf_frame_fd, fc_frame_fd, fd_byte, fd_slice}

pub encode_sf_fd_lem :
    (can_id : ℕ) (bytes : List ℕ)
    → 0 < length bytes
    → length bytes ≤ 62
    → encode_sf_fd false can_id bytes ≡ tp_ok (sf_frame_fd can_id bytes)
unfolding encode_sf_fd
encode_sf_fd_lem can_id bytes pos fits = ground arith

pub decode_sf_fd_lem :
    (can_id : ℕ) (bytes : List ℕ) (buf_size : ℕ)
    → 0 < length bytes
    → length bytes ≤ 62
    → length bytes ≤ buf_size
    → (frame_type_fd (sf_frame_fd can_id bytes) ≡ frame_sf)
      × (decode_sf_fd false (sf_frame_fd can_id bytes) buf_size ≡ tp_ok bytes)
unfolding decode_sf_fd sf_header frame_type_fd
decode_sf_fd_lem can_id bytes buf_size pos fits room = elim (Bool-cases (leb (length bytes) 7)) [
  | inl short ↦ rw short (
      ground (
        arith,
        short,
        bit_and_15 (length bytes),
        bit_and_15 (length bytes / 16),
        fd_byte (length bytes ∷ bytes) 0 (omega arith),
        fd_slice (length bytes ∷ []) bytes (omega arith),
      ))
  | inr long ↦ rw long (
      ground (
        arith,
        long,
        fd_byte (0 ∷ length bytes ∷ bytes) 0 (omega arith),
        fd_byte (0 ∷ length bytes ∷ bytes) 1 (omega arith),
        fd_slice (0 ∷ length bytes ∷ []) bytes (omega arith),
      ))
]

pub encode_cf_fd_lem :
    (can_id : ℕ) (bytes : List ℕ) (sn : ℕ)
    → 0 < length bytes
    → length bytes ≤ 63
    → sn < 16
    → encode_cf_fd false can_id bytes sn ≡ tp_ok (cf_frame_fd can_id bytes sn)
unfolding encode_cf_fd
encode_cf_fd_lem can_id bytes sn pos fits small =
    let low : bit_and sn 0x0F ≡ sn = omega (arith, bit_and_15 sn) in
    let (_, nib, _) = or_nibble sn small in rw low (rw nib (ground arith))

pub decode_cf_fd_lem :
    (can_id : ℕ) (bytes : List ℕ) (sn buf_size : ℕ)
    → 0 < length bytes
    → length bytes ≤ 63
    → sn < 16
    → length bytes ≤ buf_size
    → (frame_type_fd (cf_frame_fd can_id bytes sn) ≡ frame_cf)
      × (decode_cf_fd false (cf_frame_fd can_id bytes sn) buf_size (length bytes)
          ≡ tp_ok (sn, bytes))
unfolding decode_cf_fd frame_type_fd
decode_cf_fd_lem can_id bytes sn buf_size pos fits small room = ground (
  arith,
  bit_and_15 (0x20 + sn),
  bit_and_15 ((0x20 + sn) / 16),
  fd_byte ((0x20 + sn) ∷ bytes) 0 (omega arith),
  fd_slice ((0x20 + sn) ∷ []) bytes (omega arith),
)

pub decode_cf_fd-sn :
    (can_id : ℕ) (bytes : List ℕ) (sn buf_size max_data : ℕ)
    → 0 < length bytes
    → length bytes ≤ 63
    → sn < 16
    → 0 < max_data
    → max_data ≤ 63
    → max_data ≤ buf_size
    → (got : List ℕ) × (decode_cf_fd false (cf_frame_fd can_id bytes sn) buf_size max_data
        ≡ tp_ok (sn, got))
unfolding decode_cf_fd frame_type_fd
decode_cf_fd-sn can_id bytes sn buf_size max_data pos fits small some_data most room = (
  slice (cf_frame_fd can_id bytes sn).bytes 1 max_data,
  ground (
    arith,
    bit_and_15 (0x20 + sn),
    bit_and_15 ((0x20 + sn) / 16),
    fd_byte ((0x20 + sn) ∷ bytes) 0 (omega arith),
  ),
)

pub fc_fd_lem :
    (can_id fs bs stmin : ℕ)
    → fs ≤ 2
    → (encode_fc_fd false can_id fs bs stmin ≡ tp_ok (fc_frame_fd can_id fs bs stmin))
      × (decode_fc_fd false (fc_frame_fd can_id fs bs stmin) ≡ tp_ok (fs, bs, stmin))
unfolding encode_fc_fd decode_fc_fd frame_type_fd
fc_fd_lem can_id fs bs stmin small =
    let (_, _, nib) = or_nibble fs (omega arith) in
    (
      rw nib (ground arith),
      ground (
        arith,
        bit_and_15 (0x30 + fs),
        bit_and_15 ((0x30 + fs) / 16),
        fd_byte ((0x30 + fs) ∷ bs ∷ stmin ∷ []) 0 (omega arith),
        fd_byte ((0x30 + fs) ∷ bs ∷ stmin ∷ []) 1 (omega arith),
        fd_byte ((0x30 + fs) ∷ bs ∷ stmin ∷ []) 2 (omega arith),
      ),
    )

pub decode_cf_fd_own :
    (frame : CanfdFrame) (buf_size max_data : ℕ)
    → decode_cf_fd false frame buf_size max_data ≢ tp_err err_inprogress
unfolding decode_cf_fd
decode_cf_fd_own frame buf_size max_data = ground arith

pub decode_fc_fd_own : (frame : CanfdFrame) → decode_fc_fd false frame ≢ tp_err err_inprogress
unfolding decode_fc_fd
decode_fc_fd_own frame = ground arith

pub length-decode_cf_fd :
    (frame : CanfdFrame) (buf_size max_data sn : ℕ) (bytes : List ℕ)
    → length frame.bytes ≡ 64
    → decode_cf_fd false frame buf_size max_data ≡ tp_ok (sn, bytes)
    → length bytes ≡ max_data
unfolding decode_cf_fd
length-decode_cf_fd frame buf_size max_data sn bytes full h =
    let taken : bytes ≡ slice frame.bytes 1 max_data = ground arith in
    let fits : max_data ≤ 63 = ground arith in
    ap length taken
    ∙ omega (arith, length-take max_data (drop 1 frame.bytes), length-drop 1 frame.bytes, full)

pub decode_cf_fd-bytes :
    (frame : CanfdFrame) (buf_size max_data sn : ℕ) (bytes : List ℕ)
    → All IsByte frame.bytes
    → decode_cf_fd false frame buf_size max_data ≡ tp_ok (sn, bytes)
    → All IsByte bytes
unfolding decode_cf_fd
decode_cf_fd-bytes frame buf_size max_data sn bytes all h =
    let taken : bytes ≡ slice frame.bytes 1 max_data = ground arith in
    subst (All IsByte) (sym taken)
      (All-take IsByte max_data (drop 1 frame.bytes) (All-drop IsByte 1 frame.bytes all))

-- The frames of CAN FD keep what the transfers rely on.
abbrev pub fd-IsLink : IsLink fd
fd-IsLink = record {
  cf = cf_frame_fd;
  fc = fc_frame_fd;
  cf_bytes_pos = omega arith;
  enc_cf_lem = encode_cf_fd_lem;
  dec_cf_lem = decode_cf_fd_lem;
  dec_cf_sn = decode_cf_fd-sn;
  fc_lem = fc_fd_lem;
  dec_cf_own = decode_cf_fd_own;
  dec_fc_own = decode_fc_fd_own;
  cells = λ frame. frame.bytes;
  n_cells = 64;
  dec_cf_length = length-decode_cf_fd;
  dec_cf_bytes = decode_cf_fd-bytes;
}
