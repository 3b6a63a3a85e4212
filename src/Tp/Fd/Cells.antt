-- ===== src/Tp/Fd/Cells.antt =====
-- The CAN FD frames that the encoders of src/tp/iso_tp.c make, and their data arrays.
use uds.Base.{
  ℕ, ◌+◌, ◌/◌, ◌%◌, ◌≤◌, ◌<◌, ◌≡◌, List, [], ◌∷◌, length, get_or, take, slice, ◌++◌, leb,
  if◌then◌else◌, get_or-pad, slice-pad,
}
use uds.Can.{CanfdFrame}
use uds.Tp.Fd.{fd_data, fd_frame_of}

-- The frames that the encoders make.
abbrev pub sf_frame_fd : ℕ → List ℕ → CanfdFrame
sf_frame_fd can_id bytes =
    if leb (length bytes) 7
    then fd_frame_of can_id (1 + length bytes) (length bytes ∷ bytes)
    else fd_frame_of can_id (2 + length bytes) (0 ∷ length bytes ∷ bytes)

-- The bytes of a message that its first frame holds: 62, or 58 behind a length of 32 bits.
abbrev pub embed_fd : ℕ → ℕ
embed_fd total_len = if leb total_len 4095 then 62 else 58

abbrev pub ff_frame_fd : ℕ → List ℕ → ℕ → CanfdFrame
ff_frame_fd can_id bytes total_len =
    if leb total_len 4095
    then fd_frame_of can_id 64 ((0x10 + total_len / 256) ∷ total_len % 256 ∷ take 62 bytes)
    else fd_frame_of can_id 64 (
        0x10
        ∷ 0
        ∷ total_len / 16777216
        ∷ total_len / 65536 % 256
        ∷ total_len / 256 % 256
        ∷ total_len % 256
        ∷ take 58 bytes)

abbrev pub cf_frame_fd : ℕ → List ℕ → ℕ → CanfdFrame
cf_frame_fd can_id bytes sn = fd_frame_of can_id (1 + length bytes) ((0x20 + sn) ∷ bytes)

abbrev pub fc_frame_fd : ℕ → ℕ → ℕ → ℕ → CanfdFrame
fc_frame_fd can_id fs bs stmin = fd_frame_of can_id 3 ((0x30 + fs) ∷ bs ∷ stmin ∷ [])

-- The first bytes of a data array, and what stands behind its header.
pub fd_byte : (bytes : List ℕ) (i : ℕ) → i < 64 → get_or (fd_data bytes) i 0 ≡ get_or bytes i 0
unfolding fd_data
fd_byte bytes i h = get_or-pad 64 i 0 bytes h

pub fd_slice :
    (header bytes : List ℕ)
    → length header + length bytes ≤ 64
    → slice (fd_data (header ++ bytes)) (length header) (length bytes) ≡ bytes
unfolding fd_data
fd_slice header bytes h = slice-pad 64 0 header bytes h
