-- ===== src/Tp/Fd/Decoded.antt =====
-- What the decoders of CAN FD frames in src/tp/iso_tp.c return: lengths that the buffer holds.
use mathlib.Core.Path.{subst}
use uds.Base.{inl, inr, ℕ, ◌≤◌, ◌<◌, ◌≡◌, ◌≢◌, sym, ap, ◌∙◌, false, List, length, slice, All, arith}
use uds.Base.Bits.{IsByte, bit_and_15}
use uds.Can.{CanfdFrame}
use uds.Tp.{tp_ok, tp_err, err_inprogress}
use uds.Tp.Fd.{sf_header, ff_header, decode_sf_fd, decode_ff_fd, data_byte}
use uds.Tp.Fd.Frame.{fd-IsLink}
use uds.Tp.Outcome.{TpResult-cases}
use uds.Tp.Reception.{IsWhole}
use uds.Tp.Limits.{length-slice, All-slice}

-- The header of a single frame announces 1 to 62 bytes.
sf_header_bounds :
    (frame : CanfdFrame)
    → (sf_header frame ≢ tp_err err_inprogress)
      × ((len at : ℕ) → sf_header frame ≡ tp_ok (len, at) → (0 < len) × (len ≤ 62) × (at ≤ 2))
unfolding sf_header
sf_header_bounds frame =
    (λ h. ground (arith, h), λ len at h. ground (arith, h, bit_and_15 (data_byte frame 0)))

-- Bytes that fit a buffer.
abbrev pub BytesFd : ℕ → List ℕ → Type 0
BytesFd buf_size m = (0 < length m) × (length m ≤ buf_size) × All IsByte m

pub decode_sf_fd_limits :
    (frame : CanfdFrame) (buf_size : ℕ)
    → IsWhole fd-IsLink frame
    → (decode_sf_fd false frame buf_size ≢ tp_err err_inprogress)
      × ((m : List ℕ) → decode_sf_fd false frame buf_size ≡ tp_ok m → BytesFd buf_size m)
unfolding decode_sf_fd
decode_sf_fd_limits frame buf_size (full, all) =
    let (own, bounds) = sf_header_bounds frame in
    elim (TpResult-cases (sf_header frame)) [
      | inr (e, failed) ↦ (λ h. ground (arith, h, failed, own), λ m h. ground (arith, h, failed))
      | inl ((len, at), read) ↦
          let (pos, most, near) = bounds len at read in
          (
            λ h. ground (arith, h, read),
            λ m h.
                let room : len ≤ buf_size = ground (arith, h, read) in
                let taken : m ≡ slice frame.bytes at len = ground (arith, h, read) in
                let size : length m ≡ len =
                  ap length taken
                  ∙ length-slice frame.bytes at len 64 full (omega (arith, most, near)) in
                (
                  omega (arith, pos, size),
                  omega (arith, room, size),
                  subst (All IsByte) (sym taken) (All-slice frame.bytes at len all),
                ),
          )
    ]

-- The header of a first frame announces at least one byte.
ff_header_bounds :
    (frame : CanfdFrame)
    → (ff_header frame ≢ tp_err err_inprogress)
      × ((total at embed : ℕ) → ff_header frame ≡ tp_ok (total, at, embed) → 0 < total)
unfolding ff_header
ff_header_bounds frame = (λ h. ground (arith, h), λ total at embed h. ground (arith, h))

pub decode_ff_fd_limits :
    (frame : CanfdFrame) (buf_size : ℕ)
    → All IsByte frame.bytes
    → (decode_ff_fd false frame buf_size ≢ tp_err err_inprogress)
      × ((total : ℕ) (bytes : List ℕ)
          → decode_ff_fd false frame buf_size ≡ tp_ok (total, bytes)
          → (0 < total) × All IsByte bytes)
unfolding decode_ff_fd
decode_ff_fd_limits frame buf_size all =
    let (own, bounds) = ff_header_bounds frame in
    elim (TpResult-cases (ff_header frame)) [
      | inr (e, failed) ↦
          (λ h. ground (arith, h, failed, own), λ total bytes h. ground (arith, h, failed))
      | inl ((total', at, embed), read) ↦
          let pos = bounds total' at embed read in
          (
            λ h. ground (arith, h, read),
            λ total bytes h.
                let taken : bytes ≡ slice frame.bytes at embed = ground (arith, h, read) in
                (
                  ground (arith, h, read, pos),
                  subst (All IsByte) (sym taken) (All-slice frame.bytes at embed all),
                ),
          )
    ]
