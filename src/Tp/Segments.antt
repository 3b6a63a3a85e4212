-- ===== src/Tp/Segments.antt =====
-- The frames that ISO-TP cuts a message into, as a list: what src/tp/iso_tp.c sends and receives.
use uds.Base.{
  ℕ, zero, suc, ◌+◌, ◌%◌, ◌^◌, ◌&&◌, ltb, Bool, ◌≤◌, ◌≡◌, refl, ap, ◌∙◌, List, [], ◌∷◌, ◌++◌,
  length, take, drop, leb, if◌then◌else◌, arith, length-drop, append_assoc,
}
use uds.Can.{CanFrame, Arrival, reads}
use uds.Tp.Link.{Link, IsLink}
use uds.Tp.Frame.{sf_frame, ff_frame, classic-IsLink}

-- The frames arrive one after the other, each in a whole read of `size` bytes.
abbrev pub arriving : {F : Type 0} → ℕ → List F → List (Arrival F)
arriving size [] = []
arriving size (f ∷ frames) = reads size f ∷ arriving size frames

-- The block of `bs` frames is over after `count` of them; 0 stands for no limit.
abbrev pub is_over : ℕ → ℕ → Bool
is_over bs count = ltb 0 bs && leb bs count

module _ {F : Type 0} {l : Link F} (w : IsLink l) where
  -- Full consecutive frames, the last one shorter, with sequence numbers that wrap at 16.
  unfoldable pub cf_frames : ℕ → ℕ → List ℕ → ℕ → List F
  cf_frames zero can_id rest sn = []
  cf_frames (suc n) can_id [] sn = []
  cf_frames (suc n) can_id (b ∷ more) sn =
      w.cf can_id (take l.cf_bytes (b ∷ more)) sn
      ∷ cf_frames n can_id (drop l.cf_bytes (b ∷ more)) ((sn + 1) % 16)

  -- More fuel than bytes changes nothing.
  pub cf_frames-fuel :
      (n m can_id : ℕ) (rest : List ℕ) (sn : ℕ)
      → length rest ≤ n
      → length rest ≤ m
      → cf_frames n can_id rest sn ≡ cf_frames m can_id rest sn
  unfolding cf_frames
  cf_frames-fuel zero zero can_id [] sn le le' = refl
  cf_frames-fuel zero (suc m) can_id [] sn le le' = refl
  cf_frames-fuel (suc n) zero can_id [] sn le le' = refl
  cf_frames-fuel (suc n) (suc m) can_id [] sn le le' = refl
  cf_frames-fuel zero m can_id (b ∷ more) sn le le' = absurd (omega arith)
  cf_frames-fuel (suc n) zero can_id (b ∷ more) sn le le' = absurd (omega arith)
  cf_frames-fuel (suc n) (suc m) can_id (b ∷ more) sn le le' =
      let pos = w.cf_bytes_pos in
      ap (◌∷◌ (w.cf can_id (take l.cf_bytes (b ∷ more)) sn)) (
        cf_frames-fuel n m can_id (drop l.cf_bytes (b ∷ more)) ((sn + 1) % 16)
          (omega (arith, length-drop l.cf_bytes (b ∷ more)))
          (omega (arith, length-drop l.cf_bytes (b ∷ more))))

  -- The frames of what is left, one frame on.
  pub cf_frames-step :
      (can_id b : ℕ) (more : List ℕ) (sn : ℕ) (sent : List F)
      → (sent ++ (w.cf can_id (take l.cf_bytes (b ∷ more)) sn ∷ []))
          ++ cf_frames
              (length (drop l.cf_bytes (b ∷ more)))
              can_id
              (drop l.cf_bytes (b ∷ more))
              ((sn + 1) % 16)
        ≡ sent ++ cf_frames (length (b ∷ more)) can_id (b ∷ more) sn
  unfolding cf_frames
  cf_frames-step can_id b more sn sent =
      let pos = w.cf_bytes_pos in
      append_assoc sent (w.cf can_id (take l.cf_bytes (b ∷ more)) sn ∷ []) _
      ∙ ap (λ frames. sent ++ (w.cf can_id (take l.cf_bytes (b ∷ more)) sn ∷ frames))
          (cf_frames-fuel (length (drop l.cf_bytes (b ∷ more))) (length more) can_id
            (drop l.cf_bytes (b ∷ more)) ((sn + 1) % 16) (omega arith)
            (omega (arith, length-drop l.cf_bytes (b ∷ more))))

  -- The flow control frames that are due in front of what is left, where `count` frames of the block
  -- have been sent: one where the block is over and there is more.
  unfoldable pub refills : ℕ → ℕ → ℕ → ℕ → List ℕ → ℕ → List F
  refills zero can_id bs stmin rest count = []
  refills (suc n) can_id bs stmin [] count = []
  refills (suc n) can_id bs stmin (b ∷ more) count =
      if is_over bs count
      then w.fc can_id 0 bs stmin ∷ refills n can_id bs stmin (drop l.cf_bytes (b ∷ more)) 1
      else refills n can_id bs stmin (drop l.cf_bytes (b ∷ more)) ((count + 1) % 2 ^ 8)

-- A single frame, or a first frame and consecutive frames.
unfoldable pub segment : ℕ → List ℕ → List CanFrame
segment can_id message =
    if leb (length message) 7
    then sf_frame can_id message ∷ []
    else ff_frame can_id message (length message)
      ∷ cf_frames classic-IsLink (length message) can_id (drop 6 message) 1
