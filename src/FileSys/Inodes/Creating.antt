-- ===== src/FileSys/Inodes/Creating.antt =====
-- filesys/inode.c: inode_create, with what it leaves on the device.
use pintos_proj.Prelude.{
  ℕ, zero, suc, ◌+◌, ◌*◌, ◌%◌, ◌^◌, ◌≤◌, ◌<◌, ◌≡◌, refl, ◌∙◌, ap, ◌⊎◌, inl, inr, Bool, true, false,
  Option, none, some, ◌==◌, Bool-cases, Outcome, if◌then◌else◌, arith, ok, ◌>>=◌,
}
use mathlib.Core.Path.{fun_ext}
use pintos_proj.KernelLib.Bitmap.Single.{bit, IsValid}
use pintos_proj.KernelLib.Bitmap.Range.{within, IsRangeSet}
use pintos_proj.KernelLib.Bitmap.Scan.{IsFirstRun, NoRun}
use pintos_proj.FileSys.Bytes.{byte_of, word_from}
use pintos_proj.FileSys.Block.{Block, block_write}
use pintos_proj.FileSys.Inode.{InodeDisk, bytes_to_sectors}
use pintos_proj.FileSys.Store.{FileSystem, malloc, allocated}
use pintos_proj.FileSys.FreeMap.Allocate.{IsWritable, NotWritten, free_map_allocate-Allocates}
use pintos_proj.FileSys.Inodes.{
  inode_magic, encode_inode, decode_inode, clear_sectors, write_inode, inode_create,
}

word_bytes :
    (w : ℕ)
    → w < 2 ^ 32
    → byte_of w 0 + 256 * byte_of w 1 + 65536 * byte_of w 2 + 16777216 * byte_of w 3 ≡ w
unfolding byte_of
word_bytes w h = omega arith

-- For members that are 32-bit numbers, decode_inode gives back what encode_inode wrote.
decode_inode-encode_inode :
    (v : InodeDisk)
    → v.start < 2 ^ 32
    → v.length < 2 ^ 32
    → v.magic < 2 ^ 32
    → decode_inode (encode_inode v) ≡ v
unfolding decode_inode encode_inode word_from
decode_inode-encode_inode v h k l =
    rw (word_bytes v.start h, word_bytes v.length k, word_bytes v.magic l)

-- block_write of a sector of a device that may be written.
written : Block → ℕ → (ℕ → ℕ) → Block
written d sector buffer = record d {
  sectors = λ s. if sector == s then buffer else d.sectors s;
  write_cnt = (d.write_cnt + 1) % 2 ^ 64;
}

block_write-written :
    (d : Block) (sector : ℕ) (buffer : ℕ → ℕ)
    → d.foreign ≡ false
    → sector < d.size
    → block_write d sector buffer ≡ ok (written d sector buffer)
unfolding block_write written
block_write-written d sector buffer native small = ground arith

one_more :
    (n start j b : ℕ) (d : Block)
    → (if within (suc start) n j then 0 else (written d start (λ i. 0)).sectors j b)
      ≡ (if within start (suc n) j then 0 else d.sectors j b)
unfolding written
one_more n start j b d = elim (Bool-cases (start == j)) [
  | inl e ↦ rw e (ground (arith, e))
  | inr e ↦ rw e (ground (arith, e))
]

kept :
    (sector : ℕ) (buffer : ℕ → ℕ) (b : ℕ) (d : Block)
    → (written d sector buffer).sectors sector b ≡ buffer b
unfolding written
kept sector buffer b d = ground arith

-- The data sectors come to hold zeros, and the others what they held.
clear_sectors_lem :
    (n start : ℕ) (d : Block)
    → d.foreign ≡ false
    → start + n ≤ d.size
    → d.size ≤ 2 ^ 32
    → (d' : Block) × (clear_sectors n start d ≡ ok d')
      × ((j b : ℕ) → d'.sectors j b ≡ (if within start n j then 0 else d.sectors j b))
unfolding clear_sectors written
clear_sectors_lem zero start d native fits small = (d, refl, λ j b. ground arith)
clear_sectors_lem (suc n) start d native fits small =
    let place : start % 2 ^ 32 ≡ start = omega (arith, fits, small) in
    let d₁ = written d start (λ i. 0) in
    let (d', e, cleared) = clear_sectors_lem n (suc start) d₁ native (omega (arith, fits)) small in
    (
      d',
      ap (λ p. block_write d p (λ i. 0) >>= λ d₂. clear_sectors n (suc start) d₂) place
          ∙ (ap (λ o. o >>= λ d₂. clear_sectors n (suc start) d₂)
                (block_write-written d start (λ i. 0) native (omega (arith, fits)))
              ∙ e),
      λ j b. cleared j b ∙ one_more n start j b d,
    )

-- What inode_create comes to, with `n` data sectors.
abbrev pub Creates : ℕ → ℕ → ℕ → FileSystem → Outcome (FileSystem × Bool) → Type 0
Creates n sector length fs r =
    ((fs' : FileSystem) × (r ≡ ok (fs', false))
      × (NoRun fs.free_map 0 n false ⊎ NotWritten n fs)
      × ((j : ℕ) → bit fs'.free_map j ≡ bit fs.free_map j))
    ⊎ ((fs' : FileSystem) × (start : ℕ) × (r ≡ ok (fs', true))
        × IsFirstRun fs.free_map 0 n false start
        × IsRangeSet fs.free_map start n true fs'.free_map
        × (decode_inode (fs'.device.sectors sector)
            ≡ record { start = start; length = length; magic = inode_magic })
        × ((j b : ℕ) → j < n → fs'.device.sectors (start + j) b ≡ 0))

-- A free run does not have a sector that is in use.
outside :
    (fs : FileSystem) (n sector start : ℕ)
    → bit fs.free_map sector ≡ true
    → IsFirstRun fs.free_map 0 n false start
    → within start n sector ≡ false
outside fs n sector start used first = elim (Bool-cases (within start n sector)) [
  | inl y ↦
      let free : bit fs.free_map sector ≡ false =
        first.run sector (ground (arith, y)) (ground (arith, y)) in
      ground (arith, free, used)
  | inr no_place ↦ no_place
]

write_inode-Creates :
    (sector length : ℕ) (fs : FileSystem)
    → IsValid fs.free_map
    → 0 < length
    → length < 2 ^ 31
    → ((f : ℕ) → fs.free_map_file ≡ some f → IsWritable fs f)
    → fs.device.foreign ≡ false
    → fs.free_map.bit_cnt ≤ fs.device.size
    → fs.device.size ≤ 2 ^ 32
    → sector < fs.device.size
    → bit fs.free_map sector ≡ true
    → Creates (bytes_to_sectors length) sector length fs (write_inode sector length fs)
unfolding write_inode written
write_inode-Creates sector length fs v pos small w native covered fits place used =
    let n = bytes_to_sectors length in
    elim (free_map_allocate-Allocates n fs v (omega (arith, pos)) w) [
      | inl (fs', e, why, valid, bits) ↦ inl (fs', rw e refl, why, bits)
      | inr (fs', start, e, first, taken, wrote, same) ↦
          let v : InodeDisk = record { start = start; length = length; magic = inode_magic } in
          let d₁ = written fs'.device sector (encode_inode v) in
          let (d₂, e₂, cleared) =
            clear_sectors_lem n start d₁ (same.foreign ∙ native)
              (omega (arith, first.fits, covered, same.size)) (omega (arith, fits, same.size)) in
          inr (
            record fs' { device = d₂ },
            start,
            rw e (
                ap
                  (λ o. o >>= λ d.
                    clear_sectors n start d >>= λ d'. ok (record fs' { device = d' }, true))
                  (block_write-written fs'.device sector (encode_inode v) (same.foreign ∙ native)
                    (omega (arith, place, same.size)))
                ∙ ap (λ o. o >>= λ d'. ok (record fs' { device = d' }, true)) e₂),
            first,
            taken,
            ap decode_inode (
                  fun_ext (λ b.
                    cleared sector b
                    ∙ rw (outside fs n sector start used first)
                        (kept sector (encode_inode v) b fs'.device)))
                ∙ decode_inode-encode_inode v (omega (arith, first.fits, covered, fits, pos))
                    (omega (arith, small)) (omega arith),
            λ j b lt. cleared (start + j) b ∙ ground (arith, lt),
          )
    ]

-- With a valid free map that covers no more than the device, which may be written as may the file of the
-- map, if there is one, and has at most 2^32 sectors, and for a length of at least one byte,
-- below 2^31, and a sector that is in use: inode_create returns. Either it returns false, because there is no memory, no
-- run of free sectors is long enough or the map cannot be written, and every bit of the free map is as
-- it was. Or it returns true, just the first run of free sectors of the length is marked as used, what
-- inode_open then reads from the sector is an inode of that length with its data from the start of
-- that run, and the data sectors hold zeros.
pub inode_create-Creates :
    (sector length : ℕ) (fs : FileSystem)
    → IsValid fs.free_map
    → 0 < length
    → length < 2 ^ 31
    → ((f : ℕ) → fs.free_map_file ≡ some f → IsWritable fs f)
    → fs.device.foreign ≡ false
    → fs.free_map.bit_cnt ≤ fs.device.size
    → fs.device.size ≤ 2 ^ 32
    → sector < fs.device.size
    → bit fs.free_map sector ≡ true
    → ((malloc fs ≡ none) × (inode_create sector length fs ≡ ok (allocated fs, false)))
      ⊎ Creates
          (bytes_to_sectors length)
          sector
          length
          (allocated fs)
          (inode_create sector length fs)
unfolding inode_create
inode_create-Creates sector length fs v pos small w native covered fits place used =
    go (malloc fs) refl
  where
    go :
        (o : Option ℕ)
        → malloc fs ≡ o
        → ((malloc fs ≡ none) × (inode_create sector length fs ≡ ok (allocated fs, false)))
          ⊎ Creates
              (bytes_to_sectors length)
              sector
              length
              (allocated fs)
              (inode_create sector length fs)
    go none e = inl (e, rw (inode_create, e) refl)
    go (some p) e = inr (
        rw (inode_create, e)
          (write_inode-Creates sector length (allocated fs) v pos small
            (λ f q. record { on_device = (w f q).on_device; native = (w f q).native }) native
            covered fits place used))
