-- ===== src/Tp/Gap.antt =====
-- The loops of uds_tp_recv and uds_tp_recv_fd in src/tp/iso_tp.c, where consecutive frames are lost.
use mathlib.Core.Path.{subst}
use uds.Base.{
  ℕ, zero, suc, ◌+◌, ◌-◌, ◌%◌, ◌≤◌, ◌<◌, ◌≡◌, ◌≢◌, refl, sym, ap, ◌∙◌, true, List, [], ◌∷◌, ◌++◌,
  length, take, drop, ltb, if◌then◌else◌, arith, length-take,
}
use uds.Can.{Bus, Arrival, reads}
use uds.Tp.{tp_err, err_sequence, TpConfig}
use uds.Tp.Link.{Link, IsLink}
use uds.Tp.Segments.{cf_frames, arriving}
use uds.Tp.Receive.{open_block, recv_cf, recv_rest}
use uds.Tp.Due.{IsDue, recv_frame_lem}
use uds.Tp.Reassembly.{open_block_lem, recv_rest-step, length-moved}

-- The frames but for `lost` of them, behind the first `kept`.
abbrev pub without : {F : Type 0} → ℕ → ℕ → List F → List F
without zero lost frames = drop lost frames
without (suc kept) lost [] = []
without (suc kept) lost (f ∷ frames) = f ∷ without kept lost frames

module _ {F : Type 0} {l : Link F} (w : IsLink l) where
  -- The first frame behind some that are lost.
  abbrev Behind : ℕ → ℕ → ℕ → List F → Type 0
  Behind can_id sn lost frames =
      (bytes : List ℕ) × (more : List F) × (0 < length bytes)
      × (length bytes ≤ l.cf_bytes)
      × (drop lost frames ≡ w.cf can_id bytes ((sn + lost) % 16) ∷ more)

  cf_frames-drop :
      (lost n can_id : ℕ) (rest : List ℕ) (sn : ℕ)
      → sn < 16
      → lost < length (cf_frames w n can_id rest sn)
      → Behind can_id sn lost (cf_frames w n can_id rest sn)
  unfolding cf_frames
  cf_frames-drop lost zero can_id rest sn small more = absurd (omega arith)
  cf_frames-drop lost (suc n) can_id [] sn small more = absurd (omega arith)
  cf_frames-drop zero (suc n) can_id (b ∷ more) sn small some_left =
      let len = length-take l.cf_bytes (b ∷ more) in
      let pos = w.cf_bytes_pos in
      let same : sn ≡ (sn + 0) % 16 = omega arith in
      let later = cf_frames w n can_id (drop l.cf_bytes (b ∷ more)) ((sn + 1) % 16) in
      (
        take l.cf_bytes (b ∷ more),
        later,
        omega (arith, len, pos),
        omega (arith, len),
        ap (λ k. w.cf can_id (take l.cf_bytes (b ∷ more)) k ∷ later) same,
      )
  cf_frames-drop (suc lost) (suc n) can_id (b ∷ more) sn small some_left =
      let (bytes, later, pos, fits, is) =
        cf_frames-drop lost n can_id (drop l.cf_bytes (b ∷ more)) ((sn + 1) % 16) (omega arith)
          (omega arith) in
      let same : ((sn + 1) % 16 + lost) % 16 ≡ (sn + suc lost) % 16 = omega arith in
      (bytes, later, pos, fits, is ∙ ap (λ k. w.cf can_id bytes k ∷ later) same)

  -- A consecutive frame with another sequence number.
  recv_cf-sequence :
      (total_len buf_size received sn other can_id : ℕ) (bytes : List ℕ) (bus : Bus F)
      (later : List (Arrival F))
      → IsDue (reads l.size (w.cf can_id bytes other) ∷ later) bus
      → 0 < length bytes
      → length bytes ≤ l.cf_bytes
      → received < total_len
      → total_len ≤ buf_size
      → other < 16
      → other ≢ sn
      → (recv_cf l total_len buf_size received sn bus).0 ≡ tp_err err_sequence
  unfolding recv_cf
  recv_cf-sequence total_len buf_size received sn other can_id bytes bus later d pos fits short room
        small wrong =
      let e = recv_frame_lem w bus (w.cf can_id bytes other) later d in
      let left : ℕ = total_len - received in
      let chunk : ℕ = if ltb l.cf_bytes left then l.cf_bytes else left in
      let cf_pos = w.cf_bytes_pos in
      let bounds : (0 < chunk) × (chunk ≤ l.cf_bytes) × (chunk ≤ buf_size - received) =
        ground arith in
      let (t, _) = w.dec_cf_lem can_id bytes other (length bytes) pos fits small (omega arith) in
      let (got, dec) =
        w.dec_cf_sn can_id bytes other (buf_size - received) chunk pos fits small bounds.0 bounds.1
          bounds.2 in
      ground (arith, e, t, dec)

  -- The loop ends at the first frame behind the gap.
  recv_rest-behind :
      (n : ℕ) (cfg : TpConfig) (tx_id can_id total_len buf_size : ℕ) (buf bytes : List ℕ)
      (sn other bs_count : ℕ) (bus : Bus F) (later : List (Arrival F))
      → IsDue (reads l.size (w.cf can_id bytes other) ∷ later) bus
      → 0 < length bytes
      → length bytes ≤ l.cf_bytes
      → length buf < total_len
      → total_len ≤ buf_size
      → other < 16
      → other ≢ sn
      → (recv_rest l (suc n) cfg tx_id total_len buf_size buf sn bs_count bus).0
        ≡ tp_err err_sequence
  unfolding recv_rest
  recv_rest-behind n cfg tx_id can_id total_len buf_size buf bytes sn other bs_count bus later d pos
        fits short room small wrong =
      let more_due : ltb (length buf) total_len ≡ true = ground arith in
      let (granted, d', _) =
        open_block_lem w n bus cfg tx_id bs_count 0 []
          (reads l.size (w.cf can_id bytes other) ∷ later) d in
      let e =
        recv_cf-sequence total_len buf_size (length buf) sn other can_id bytes
          (open_block l cfg tx_id bs_count bus).1 later d' pos fits short room small wrong in
      rw (recv_rest, more_due, granted, e) refl

  pub recv_rest-gap :
      (kept lost n : ℕ) (cfg : TpConfig) (tx_id can_id total_len buf_size : ℕ) (buf rest : List ℕ)
      (sn bs_count : ℕ) (bus : Bus F) (later : List (Arrival F))
      → IsDue (arriving l.size (without kept lost (cf_frames w n can_id rest sn)) ++ later) bus
      → 0 < lost
      → lost < 16
      → kept + lost < length (cf_frames w n can_id rest sn)
      → total_len ≡ length buf + length rest
      → total_len ≤ buf_size
      → sn < 16
      → (recv_rest l n cfg tx_id total_len buf_size buf sn bs_count bus).0 ≡ tp_err err_sequence
  unfolding cf_frames
  recv_rest-gap kept lost zero cfg tx_id can_id total_len buf_size buf rest sn bs_count bus later d
        gap few some_left total room small =
      absurd (omega arith)
  recv_rest-gap kept lost (suc n) cfg tx_id can_id total_len buf_size buf [] sn bs_count bus later d
        gap few some_left total room small =
      absurd (omega arith)
  recv_rest-gap zero lost (suc n) cfg tx_id can_id total_len buf_size buf (b ∷ more) sn bs_count bus
        later d gap few some_left total room small =
      let (bytes, frames, pos, fits, is) =
        cf_frames-drop lost (suc n) can_id (b ∷ more) sn small (omega arith) in
      let d' : IsDue
          (reads l.size (w.cf can_id bytes ((sn + lost) % 16)) ∷ (arriving l.size frames ++ later))
          bus =
        subst (λ f. IsDue (arriving l.size f ++ later) bus) is d in
      recv_rest-behind n cfg tx_id can_id total_len buf_size buf bytes sn ((sn + lost) % 16)
        bs_count bus (arriving l.size frames ++ later) d' pos fits (omega arith) room (omega arith)
        (omega arith)
  recv_rest-gap (suc kept) lost (suc n) cfg tx_id can_id total_len buf_size buf (b ∷ more) sn
        bs_count bus later d gap few some_left total room small =
      let left = drop l.cf_bytes (b ∷ more) in
      let frames = without kept lost (cf_frames w n can_id left ((sn + 1) % 16)) in
      let (bus', count, d', _, step) =
        recv_rest-step w n cfg tx_id can_id total_len buf_size buf b more sn bs_count bus
          (arriving l.size frames ++ later) d total room small in
      rw step (
        recv_rest-gap kept lost n cfg tx_id can_id total_len buf_size
          (buf ++ take l.cf_bytes (b ∷ more)) left ((sn + 1) % 16) count bus' later d' gap few
          (omega arith) (total ∙ sym (length-moved w buf (b ∷ more))) room (omega arith))
