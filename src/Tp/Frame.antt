-- ===== src/Tp/Frame.antt =====
-- The frames of src/tp/iso_tp.c, encoded and decoded.
use mathlib.Core.Path.{subst}
use uds.Base.{
  ℕ, ◌+◌, ◌*◌, ◌/◌, ◌%◌, ◌^◌, ◌≤◌, ◌<◌, ◌≡◌, ◌≢◌, sym, ap, ◌∙◌, bit_and, bit_or, false, List, [],
  ◌∷◌, length, take, pad, arith, take-pad, length-take, length-drop, slice, drop, All, All-take,
  All-drop,
}
use uds.Base.Bits.{IsByte, bit_and_15, bit_and_255, bit_or_shifted, or_nibble}
use uds.Can.{CanFrame}
use uds.Tp.Link.{IsLink, classic}
use uds.Tp.{
  tp_ok, tp_err, err_inprogress, frame_sf, frame_ff, frame_cf, frame_type, frame_of, encode_sf,
  encode_ff, encode_cf, encode_fc, decode_sf, decode_ff, decode_cf, decode_fc,
}

-- The frames that the encoders make.
abbrev pub sf_frame : ℕ → List ℕ → CanFrame
sf_frame can_id bytes = frame_of can_id (1 + length bytes) (length bytes ∷ bytes)

abbrev pub ff_frame : ℕ → List ℕ → ℕ → CanFrame
ff_frame can_id bytes total_len =
    frame_of can_id 8 ((0x10 + total_len / 256) ∷ total_len % 256 ∷ take 6 bytes)

abbrev pub cf_frame : ℕ → List ℕ → ℕ → CanFrame
cf_frame can_id bytes sn = frame_of can_id 8 ((0x20 + sn) ∷ bytes)

abbrev pub fc_frame : ℕ → ℕ → ℕ → ℕ → CanFrame
fc_frame can_id fs bs stmin = frame_of can_id 3 ((0x30 + fs) ∷ bs ∷ stmin ∷ [])

pub encode_sf_lem :
    (can_id : ℕ) (bytes : List ℕ)
    → 0 < length bytes
    → length bytes ≤ 7
    → encode_sf false can_id bytes ≡ tp_ok (sf_frame can_id bytes)
unfolding encode_sf
encode_sf_lem can_id bytes pos fits = ground arith

pub decode_sf_lem :
    (can_id : ℕ) (bytes : List ℕ) (buf_size : ℕ)
    → 0 < length bytes
    → length bytes ≤ 7
    → length bytes ≤ buf_size
    → (frame_type (sf_frame can_id bytes) ≡ frame_sf)
      × (decode_sf false (sf_frame can_id bytes) buf_size ≡ tp_ok bytes)
unfolding decode_sf frame_type
decode_sf_lem can_id bytes buf_size pos fits room =
    ground
      (arith, bit_and_15 (length bytes), bit_and_15 (length bytes / 16), take-pad 7 0 bytes fits)

pub encode_ff_lem :
    (can_id : ℕ) (bytes : List ℕ) (total_len : ℕ)
    → 8 ≤ total_len
    → total_len ≤ 4095
    → encode_ff false can_id bytes total_len ≡ tp_ok (ff_frame can_id bytes total_len)
unfolding encode_ff
encode_ff_lem can_id bytes total_len lo hi =
    let high : bit_and (total_len / 2 ^ 8) 0x0F ≡ total_len / 256 =
      omega (arith, bit_and_15 (total_len / 2 ^ 8)) in
    let (nib, _, _) = or_nibble (total_len / 256) (omega arith) in
    rw high (rw (nib, bit_and_255 total_len) (ground arith))

pub decode_ff_lem :
    (can_id : ℕ) (bytes : List ℕ) (total_len buf_size : ℕ)
    → 8 ≤ total_len
    → total_len ≤ 4095
    → 6 ≤ length bytes
    → 6 ≤ buf_size
    → (frame_type (ff_frame can_id bytes total_len) ≡ frame_ff)
      × (decode_ff false (ff_frame can_id bytes total_len) buf_size
          ≡ tp_ok (total_len, take 6 bytes))
unfolding decode_ff frame_type
decode_ff_lem can_id bytes total_len buf_size lo hi enough room =
    let sum : bit_or (bit_and (0x10 + total_len / 256) 0x0F * 2 ^ 8) (total_len % 256) ≡ total_len =
      ap (λ h. bit_or (h * 2 ^ 8) (total_len % 256)) {x = bit_and (0x10 + total_len / 256) 0x0F}
        {y = total_len / 256} (omega (arith, bit_and_15 (0x10 + total_len / 256)))
      ∙ bit_or_shifted 8 (total_len / 256) (total_len % 256) (omega arith)
      ∙ omega arith in
    let six : length (take 6 bytes) ≡ 6 = omega (arith, length-take 6 bytes) in
    let first : take 6 (pad 6 0 (take 6 bytes)) ≡ take 6 bytes =
      ap (λ n. take n (pad 6 0 (take 6 bytes))) (sym six)
      ∙ take-pad 6 0 (take 6 bytes) (omega (arith, six)) in
    ground (arith, sum, first, bit_and_15 ((0x10 + total_len / 256) / 16))

pub encode_cf_lem :
    (can_id : ℕ) (bytes : List ℕ) (sn : ℕ)
    → 0 < length bytes
    → length bytes ≤ 7
    → sn < 16
    → encode_cf false can_id bytes sn ≡ tp_ok (cf_frame can_id bytes sn)
unfolding encode_cf
encode_cf_lem can_id bytes sn pos fits small =
    let low : bit_and sn 0x0F ≡ sn = omega (arith, bit_and_15 sn) in
    let (_, nib, _) = or_nibble sn small in rw low (rw nib (ground arith))

pub decode_cf_lem :
    (can_id : ℕ) (bytes : List ℕ) (sn buf_size : ℕ)
    → 0 < length bytes
    → length bytes ≤ 7
    → sn < 16
    → length bytes ≤ buf_size
    → (frame_type (cf_frame can_id bytes sn) ≡ frame_cf)
      × (decode_cf false (cf_frame can_id bytes sn) buf_size (length bytes) ≡ tp_ok (sn, bytes))
unfolding decode_cf frame_type
decode_cf_lem can_id bytes sn buf_size pos fits small room =
    ground (arith, bit_and_15 (0x20 + sn), bit_and_15 ((0x20 + sn) / 16), take-pad 7 0 bytes fits)

pub decode_cf-sn :
    (can_id : ℕ) (bytes : List ℕ) (sn buf_size max_data : ℕ)
    → 0 < length bytes
    → length bytes ≤ 7
    → sn < 16
    → 0 < max_data
    → max_data ≤ 7
    → max_data ≤ buf_size
    → (got : List ℕ) × (decode_cf false (cf_frame can_id bytes sn) buf_size max_data
        ≡ tp_ok (sn, got))
unfolding decode_cf frame_type
decode_cf-sn can_id bytes sn buf_size max_data pos fits small some_data most room = (
  slice (cf_frame can_id bytes sn).bytes 1 max_data,
  ground (arith, bit_and_15 (0x20 + sn), bit_and_15 ((0x20 + sn) / 16)),
)

pub fc_lem :
    (can_id fs bs stmin : ℕ)
    → fs ≤ 2
    → (encode_fc false can_id fs bs stmin ≡ tp_ok (fc_frame can_id fs bs stmin))
      × (decode_fc false (fc_frame can_id fs bs stmin) ≡ tp_ok (fs, bs, stmin))
unfolding encode_fc decode_fc frame_type
fc_lem can_id fs bs stmin small =
    let (_, _, nib) = or_nibble fs (omega arith) in
    (rw nib (ground arith), ground (arith, bit_and_15 (0x30 + fs), bit_and_15 ((0x30 + fs) / 16)))

pub decode_cf_own :
    (frame : CanFrame) (buf_size max_data : ℕ)
    → decode_cf false frame buf_size max_data ≢ tp_err err_inprogress
unfolding decode_cf
decode_cf_own frame buf_size max_data = ground arith

pub decode_fc_own : (frame : CanFrame) → decode_fc false frame ≢ tp_err err_inprogress
unfolding decode_fc
decode_fc_own frame = ground arith

pub length-decode_cf :
    (frame : CanFrame) (buf_size max_data sn : ℕ) (bytes : List ℕ)
    → length frame.bytes ≡ 8
    → decode_cf false frame buf_size max_data ≡ tp_ok (sn, bytes)
    → length bytes ≡ max_data
unfolding decode_cf
length-decode_cf frame buf_size max_data sn bytes full h =
    let taken : bytes ≡ slice frame.bytes 1 max_data = ground arith in
    let fits : max_data ≤ 7 = ground arith in
    ap length taken
    ∙ omega (arith, length-take max_data (drop 1 frame.bytes), length-drop 1 frame.bytes, full)

pub decode_cf-bytes :
    (frame : CanFrame) (buf_size max_data sn : ℕ) (bytes : List ℕ)
    → All IsByte frame.bytes
    → decode_cf false frame buf_size max_data ≡ tp_ok (sn, bytes)
    → All IsByte bytes
unfolding decode_cf
decode_cf-bytes frame buf_size max_data sn bytes all h =
    let taken : bytes ≡ slice frame.bytes 1 max_data = ground arith in
    subst (All IsByte) (sym taken)
      (All-take IsByte max_data (drop 1 frame.bytes) (All-drop IsByte 1 frame.bytes all))

-- The frames of classic CAN keep what the transfers rely on.
abbrev pub classic-IsLink : IsLink classic
classic-IsLink = record {
  cf = cf_frame;
  fc = fc_frame;
  cf_bytes_pos = omega arith;
  enc_cf_lem = encode_cf_lem;
  dec_cf_lem = decode_cf_lem;
  dec_cf_sn = decode_cf-sn;
  fc_lem = fc_lem;
  dec_cf_own = decode_cf_own;
  dec_fc_own = decode_fc_own;
  cells = λ frame. frame.bytes;
  n_cells = 8;
  dec_cf_length = length-decode_cf;
  dec_cf_bytes = decode_cf-bytes;
}
