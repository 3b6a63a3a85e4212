-- ===== src/Transfer/Blocks.antt =====
-- src/bootloader/flash_services.c, the download branch of uds_svc_transfer_data: blocks one after the
-- other.
use uds.Base.{
  ℕ, ◌+◌, ◌%◌, ◌^◌, ◌≤◌, ◌<◌, ◌≡◌, inl, inr, refl, ap, ap₂, ◌∙◌, false, some, List, [], ◌∷◌, ◌++◌,
  length, All, Any, Option-cases, arith, length-append,
}
use uds.Core.{Reply, positive}
use uds.Flash.{Region, Flash, ok, find_region, flash_write, flash_max_size, patch, peek}
use uds.Flash.Ranges.{IsInside, InDevice, find_region-All, find_region-Any}
use uds.Flash.Memory.{peek-add, peek-agree, peek-patch}
use uds.Transfer.{Xfer, xfer_download, write_block, transfer_data, next_seq}
use uds.Transfer.Requests.{Any-InDevice}

-- No region is write-protected, as in the simulated ECU.
abbrev pub IsOpen : Region → Type 0
IsOpen r = r.protected ≡ false

-- A part of a range that a region holds lies in that region.
pub Any-part :
    (regions : List Region) (address len at n : ℕ)
    → address ≤ at
    → at + n ≤ address + len
    → 0 < n
    → Any (λ r. IsInside r address len) regions
    → Any (λ r. IsInside r at n) regions
Any-part [] address len at n lo hi pos i = absurd i
Any-part (r ∷ regions) address len at n lo hi pos (inl i) = inl (omega arith)
Any-part (r ∷ regions) address len at n lo hi pos (inr i) =
    inr (Any-part regions address len at n lo hi pos i)

-- A write into an open region is done.
flash_write-open :
    (flash : Flash) (address : ℕ) (bytes : List ℕ)
    → All IsOpen flash.regions
    → 0 < length bytes
    → length bytes < 2 ^ 32
    → Any (λ r. IsInside r address (length bytes)) flash.regions
    → flash_write false flash address bytes
      ≡ (ok, record flash { cells = patch flash.cells address bytes })
unfolding flash_write
flash_write-open flash address bytes open_all pos small i =
    elim (Option-cases (find_region flash.regions address (length bytes))) [
      | inl missing ↦ absurd ((find_region-Any flash.regions address (length bytes)).1 i missing)
      | inr (r, found) ↦
          let e : length bytes % 2 ^ 32 ≡ length bytes = omega arith in
          ground (
            arith,
            e,
            found,
            find_region-All IsOpen flash.regions address (length bytes) r open_all found,
          )
    ]

-- A download in progress on a flash device with open regions.
pub record IsLoading (x : Xfer) (flash : Flash) : Type 0 where
  pub downloads : x.mode ≡ xfer_download
  pub all_open : All IsOpen flash.regions
  pub all_in : All InDevice flash.regions
  pub ranged : Any (λ r. IsInside r x.address x.total_length) flash.regions

-- The session and the device after a block.
abbrev advance : Xfer → List ℕ → Xfer
advance x bytes = record x {
  transferred = x.transferred + length bytes;
  block_seq = next_seq x.block_seq;
}

abbrev loaded : Flash → ℕ → List ℕ → Flash
loaded flash address bytes = record flash { cells = patch flash.cells address bytes }

write_block_lem :
    (x : Xfer) (flash : Flash) (seq : ℕ) (bytes : List ℕ) (resp_size : ℕ)
    → IsLoading x flash
    → 0 < length bytes
    → x.transferred + length bytes ≤ x.total_length
    → 2 ≤ resp_size
    → write_block x flash seq (some bytes) resp_size ≡ (
      positive (0x76 ∷ seq ∷ []),
      advance x bytes,
      loaded flash (x.address + x.transferred) bytes,
    )
unfolding write_block
write_block_lem x flash seq bytes resp_size l pos fits room = ground (arith, written, bound)
  where
    bound : x.address + x.total_length ≤ flash_max_size
    bound = Any-InDevice flash.regions x.address x.total_length l.all_in l.ranged

    sum : (x.address + x.transferred) % 2 ^ 32 ≡ x.address + x.transferred
    sum = omega (arith, bound)

    part : Any (λ r. IsInside r (x.address + x.transferred) (length bytes)) flash.regions
    part =
        Any-part flash.regions x.address x.total_length (x.address + x.transferred) (length bytes)
          (omega arith) (omega arith) pos l.ranged

    written :
        flash_write false flash ((x.address + x.transferred) % 2 ^ 32) bytes
        ≡ (ok, loaded flash (x.address + x.transferred) bytes)
    written = rw sum (
        flash_write-open flash (x.address + x.transferred) bytes l.all_open pos
          (omega (arith, bound)) part)

-- A tester sends the blocks one after the other, each with the next sequence counter.
unfoldable pub send_blocks : ℕ → List (List ℕ) → Xfer → Flash → ℕ → List Reply × Xfer × Flash
send_blocks seq [] x flash resp_size = ([], x, flash)
send_blocks seq (b ∷ blocks) x flash resp_size =
    let (r, x', flash') = transfer_data false x flash seq (some b) resp_size in
    let (rs, y, dev) = send_blocks (next_seq seq) blocks x' flash' resp_size in (r ∷ rs, y, dev)

-- The bytes of all blocks, and the replies that acknowledge them.
unfoldable pub joined : List (List ℕ) → List ℕ
joined [] = []
joined (b ∷ blocks) = b ++ joined blocks

unfoldable pub acknowledged : ℕ → List (List ℕ) → List Reply
acknowledged seq [] = []
acknowledged seq (b ∷ blocks) = positive (0x76 ∷ seq ∷ []) ∷ acknowledged (next_seq seq) blocks

abbrev pub IsBlock : List ℕ → Type 0
IsBlock b = 0 < length b

transfer_data-download :
    (x : Xfer) (flash : Flash) (bytes : List ℕ) (resp_size : ℕ)
    → x.mode ≡ xfer_download
    → transfer_data false x flash x.block_seq (some bytes) resp_size
      ≡ write_block x flash x.block_seq (some bytes) resp_size
unfolding transfer_data
transfer_data-download x flash bytes resp_size m = ground arith

-- What the blocks leave: they are all acknowledged, the download goes on, the bytes stand one after the other from where the
-- session stood, and no other byte has changed.
pub record Loaded (x : Xfer) (flash : Flash) (blocks : List (List ℕ))
    (out : List Reply × Xfer × Flash) : Type 0 where
  pub replies : out.0 ≡ acknowledged x.block_seq blocks
  pub downloads : out.1.mode ≡ xfer_download
  pub regions : out.2.regions ≡ flash.regions
  pub moved : out.1.transferred ≡ x.transferred + length (joined blocks)
  pub bytes : peek out.2.cells (x.address + x.transferred) (length (joined blocks)) ≡ joined blocks
  pub below : (a : ℕ) → a < x.address + x.transferred → out.2.cells a ≡ flash.cells a
  pub above :
      (a : ℕ)
      → x.address + x.transferred + length (joined blocks) ≤ a
      → out.2.cells a ≡ flash.cells a

pub send_blocks-Loaded :
    (blocks : List (List ℕ)) (x : Xfer) (flash : Flash) (resp_size : ℕ)
    → IsLoading x flash
    → All IsBlock blocks
    → x.transferred + length (joined blocks) ≤ x.total_length
    → 2 ≤ resp_size
    → Loaded x flash blocks (send_blocks x.block_seq blocks x flash resp_size)
unfolding send_blocks joined acknowledged peek
send_blocks-Loaded [] x flash resp_size l a fits room = record {
  replies = refl;
  downloads = l.downloads;
  regions = refl;
  moved = omega arith;
  bytes = refl;
  below = λ a lt. refl;
  above = λ a le. refl;
}
send_blocks-Loaded (b ∷ blocks) x flash resp_size l a fits room =
    let step =
      transfer_data-download x flash b resp_size l.downloads
      ∙ write_block_lem x flash x.block_seq b resp_size l a.0 (omega (arith, lens)) room in
    let rest =
      send_blocks-Loaded blocks (advance x b) (loaded flash (x.address + x.transferred) b) resp_size
        (record {
          downloads = l.downloads;
          all_open = l.all_open;
          all_in = l.all_in;
          ranged = l.ranged;
        })
        a.1 (omega (arith, lens)) room in
    let out =
      (send_blocks (next_seq x.block_seq) blocks (advance x b)
        (loaded flash (x.address + x.transferred) b) resp_size).2.cells in
    let here =
      peek-agree out (patch flash.cells (x.address + x.transferred) b) (x.address + x.transferred)
        (length b) (λ c lo hi. rest.below c (omega arith))
      ∙ peek-patch flash.cells b (x.address + x.transferred) in
    let there =
      ap (λ c. peek out c (length (joined blocks))) {x = x.address + x.transferred + length b}
        {y = x.address + (x.transferred + length b)} (omega arith)
      ∙ rest.bytes in
    rw step (record {
      replies = ap (◌∷◌ (positive (0x76 ∷ x.block_seq ∷ []))) rest.replies;
      downloads = rest.downloads;
      regions = rest.regions;
      moved = rest.moved ∙ omega (arith, lens);
      bytes =
          ap (peek out (x.address + x.transferred)) lens
          ∙ peek-add out (x.address + x.transferred) (length b) (length (joined blocks))
          ∙ ap₂ ◌++◌ here there;
      below = λ c lt. rest.below c (omega arith) ∙ ground arith;
      above = λ c le. rest.above c (omega (arith, lens)) ∙ ground (arith, lens);
    })
  where
    lens : length (b ++ joined blocks) ≡ length b + length (joined blocks)
    lens = length-append b (joined blocks)
