-- ===== src/Tp/Link.antt =====
-- src/tp/iso_tp.c: what its transfers over classic CAN and over CAN FD have in common. The loops of
-- uds_tp_send and uds_tp_send_fd, and those of uds_tp_recv and uds_tp_recv_fd, are the same but for the
-- functions on frames that they call, which are fields of a `Link`.
use uds.Base.{ℕ, ◌≤◌, ◌<◌, ◌≡◌, ◌≢◌, false, List, length, All}
use uds.Base.Bits.{IsByte}
use uds.Can.{CanFrame, frame_size}
use uds.Tp.{
  FrameType, frame_cf, TpResult, tp_ok, tp_err, err_inprogress, frame_type, encode_cf, encode_fc,
  decode_cf, decode_fc, cf_data_bytes,
}

pub record Link (F : Type 0) : Type 0 where
  pub size : ℕ
  pub cf_bytes : ℕ
  pub type_of : F → FrameType
  pub enc_cf : ℕ → List ℕ → ℕ → TpResult F
  pub enc_fc : ℕ → ℕ → ℕ → ℕ → TpResult F
  pub dec_cf : F → ℕ → ℕ → TpResult (ℕ × List ℕ)
  pub dec_fc : F → TpResult (ℕ × ℕ × ℕ)

-- The functions of uds_tp_send and uds_tp_recv.
abbrev pub classic : Link CanFrame
classic = record {
  size = frame_size;
  cf_bytes = cf_data_bytes;
  type_of = frame_type;
  enc_cf = encode_cf false;
  enc_fc = encode_fc false;
  dec_cf = decode_cf false;
  dec_fc = decode_fc false;
}

-- What the transfers rely on: the encoders make the frames `cf` and `fc`, and the decoders read them.
pub record IsLink {F : Type 0} (l : Link F) : Type 0 where
  pub cf : ℕ → List ℕ → ℕ → F
  pub fc : ℕ → ℕ → ℕ → ℕ → F
  pub cf_bytes_pos : 0 < l.cf_bytes
  pub enc_cf_lem :
      (can_id : ℕ) (bytes : List ℕ) (sn : ℕ)
      → 0 < length bytes
      → length bytes ≤ l.cf_bytes
      → sn < 16
      → l.enc_cf can_id bytes sn ≡ tp_ok (cf can_id bytes sn)
  pub dec_cf_lem :
      (can_id : ℕ) (bytes : List ℕ) (sn buf_size : ℕ)
      → 0 < length bytes
      → length bytes ≤ l.cf_bytes
      → sn < 16
      → length bytes ≤ buf_size
      → (l.type_of (cf can_id bytes sn) ≡ frame_cf)
        × (l.dec_cf (cf can_id bytes sn) buf_size (length bytes) ≡ tp_ok (sn, bytes))
  -- The sequence number is read whatever number of bytes the receiver wants.
  pub dec_cf_sn :
      (can_id : ℕ) (bytes : List ℕ) (sn buf_size max_data : ℕ)
      → 0 < length bytes
      → length bytes ≤ l.cf_bytes
      → sn < 16
      → 0 < max_data
      → max_data ≤ l.cf_bytes
      → max_data ≤ buf_size
      → (got : List ℕ) × (l.dec_cf (cf can_id bytes sn) buf_size max_data ≡ tp_ok (sn, got))
  pub fc_lem :
      (can_id fs bs stmin : ℕ)
      → fs ≤ 2
      → (l.enc_fc can_id fs bs stmin ≡ tp_ok (fc can_id fs bs stmin))
        × (l.dec_fc (fc can_id fs bs stmin) ≡ tp_ok (fs, bs, stmin))
  -- No error of the decoders stands for a loop without fuel.
  pub dec_cf_own :
      (frame : F) (buf_size max_data : ℕ) → l.dec_cf frame buf_size max_data ≢ tp_err err_inprogress
  pub dec_fc_own : (frame : F) → l.dec_fc frame ≢ tp_err err_inprogress
  -- The data array of a frame; the bytes that are decoded are taken from it, as many as are asked for.
  pub cells : F → List ℕ
  pub n_cells : ℕ
  pub dec_cf_length :
      (frame : F) (buf_size max_data sn : ℕ) (bytes : List ℕ)
      → length (cells frame) ≡ n_cells
      → l.dec_cf frame buf_size max_data ≡ tp_ok (sn, bytes)
      → length bytes ≡ max_data
  pub dec_cf_bytes :
      (frame : F) (buf_size max_data sn : ℕ) (bytes : List ℕ)
      → All IsByte (cells frame)
      → l.dec_cf frame buf_size max_data ≡ tp_ok (sn, bytes)
      → All IsByte bytes
