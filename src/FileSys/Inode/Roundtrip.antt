-- ===== src/FileSys/Inode/Roundtrip.antt =====
-- filesys/inode.c: reading a file after writing to it.
use pintos_proj.Prelude.{
  ℕ, ◌+◌, ◌-◌, ◌/◌, ◌%◌, ◌≤◌, ◌<◌, ◌≡◌, ap, ◌∙◌, ◌⊎◌, inl, inr, true, false, leb, ltb, ◌&&◌,
  if◌then◌else◌, arith, Outcome, ok, subst, le→leb, lt→ltb,
}
use pintos_proj.FileSys.Bytes.{Bytes}
use pintos_proj.FileSys.Block.{Block}
use pintos_proj.FileSys.Inode.{Inode, inode_length, inode_read_at, inode_write_at}
use pintos_proj.FileSys.Inode.Read.{
  IsOnDevice, Reads, IsOnDevice-size, content, inode_read_at-Reads,
}
use pintos_proj.FileSys.Inode.Write.{IsWritten, Writes, inode_write_at-Writes, position}

-- The bytes of the file after a write.
pub content-IsWritten :
    (ino : Inode) (d d' : Block) (buffer : Bytes) (offset n pos : ℕ)
    → IsWritten ino d buffer 0 offset n d'
    → content ino d' pos ≡ (
        if leb offset pos && ltb pos (offset + n) then buffer (pos - offset) else content ino d pos)
content-IsWritten ino d d' buffer offset n pos w =
    w.bytes (ino.inode_data.start + pos / 512) (pos % 512) (omega arith)
    ∙ rw (place, inside)
        (ap (λ j. if leb offset pos && ltb pos (offset + n) then buffer j else content ino d pos)
          (omega arith))
  where
    place : position ino (ino.inode_data.start + pos / 512) (pos % 512) ≡ pos
    place = omega arith

    inside : leb ino.inode_data.start (ino.inode_data.start + pos / 512) ≡ true
    inside = ground arith

-- Where the bounce buffer is there.
pub given {ℓ} : {A : Type ℓ} → (true ≡ false) ⊎ A → A
given (inl e) = absurd (ground (arith, e))
given (inr a) = a

whole_write :
    (ino : Inode) (d : Block) (buffer : Bytes) (size offset : ℕ) (r : Outcome (Block × ℕ))
    → offset + size ≤ inode_length ino
    → Writes true ino d buffer size offset 0 r
    → (d' : Block) × (r ≡ ok (d', size)) × IsWritten ino d buffer 0 offset size d'
whole_write ino d buffer size offset r fits (d', n, q, low, all, w) =
    let e : 0 + n ≡ size = omega (arith, given all) in
    (
      d',
      q ∙ ap (λ k. ok (d', k)) e,
      subst (λ k. IsWritten ino d buffer 0 offset k d') (omega (arith, given all)) w,
    )

whole_read :
    (ino : Inode) (d : Block) (space : Bytes) (size offset : ℕ) (r : Outcome (Block × Bytes × ℕ))
    → offset + size ≤ inode_length ino
    → Reads true ino d space size offset 0 r
    → (d' : Block) × (b : Bytes) × (r ≡ ok (d', b, size))
      × ((i : ℕ) → i < size → b i ≡ content ino d (offset + i))
whole_read ino d space size offset r fits (d', b, n, q, low, all, same, held) =
    let e : 0 + n ≡ size = omega (arith, given all) in
    (
      d',
      b,
      q ∙ ap (λ k. ok (d', b, k)) e,
      λ i h.
          let within : ltb i (0 + n) ≡ true = lt→ltb i (0 + n) (omega (arith, given all)) in
          let start : leb 0 i ≡ true = le→leb 0 i (omega arith) in
          held i ∙ rw (within, start) (ap (content ino d) (omega arith)),
    )

-- For a file whose sectors are on a device that may be written, where writes are not denied, the
-- range lies within the file and malloc gives the bounce buffers: inode_write_at writes all of the
-- range, and inode_read_at of the same range then returns all of it, with the bytes that were written.
pub read_after_write :
    (ino : Inode) (d : Block) (buffer space : Bytes) (size offset : ℕ)
    → IsOnDevice ino d
    → d.foreign ≡ false
    → ino.deny_write_cnt ≡ 0
    → offset + size ≤ inode_length ino
    → (d' : Block) × (d'' : Block) × (space' : Bytes) × (inode_write_at true ino d buffer size
          offset
        ≡ ok (d', size))
      × (inode_read_at true ino d' space size offset ≡ ok (d'', space', size))
      × ((i : ℕ) → i < size → space' i ≡ buffer i)
read_after_write ino d buffer space size offset v native allowed fits =
    let (d₁, q, w) =
      whole_write ino d buffer size offset _ fits
        (inode_write_at-Writes true ino d buffer size offset v native allowed) in
    let (d₂, b, r, held) =
      whole_read ino d₁ space size offset _ fits
        (inode_read_at-Reads true ino d₁ space size offset (IsOnDevice-size ino d d₁ w.size v)) in
    (
      d₁,
      d₂,
      b,
      q,
      r,
      λ i h.
          held i h ∙ content-IsWritten ino d d₁ buffer offset size (offset + i) w ∙ at_offset i h,
    )
  where
    at_offset :
        (i : ℕ)
        → i < size
        → (if leb offset (offset + i) && ltb (offset + i) (offset + size)
            then buffer (offset + i - offset)
            else content ino d (offset + i))
          ≡ buffer i
    at_offset i h =
        rw
          (
            le→leb offset (offset + i) (omega arith),
            lt→ltb (offset + i) (offset + size) (omega arith),
          )
          (ap buffer (omega arith))
