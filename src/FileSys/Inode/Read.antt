-- ===== src/FileSys/Inode/Read.antt =====
-- What inode_read_at reads.
use pintos_proj.Prelude.{
  ℕ, zero, suc, ◌+◌, ◌-◌, ◌/◌, ◌%◌, ◌^◌, ◌≤◌, ◌<◌, ◌≡◌, refl, sym, subst, ap, ◌∙◌, ◌⊎◌, inl, inr,
  Bool, true, false, ◌&&◌, some, none, min, leb, ltb, ◌==◌, if◌then◌else◌, arith, Outcome, ok,
  lt→ltb, Bool-cases,
}
use pintos_proj.FileSys.Bytes.{Bytes, memcpy}
use pintos_proj.FileSys.Block.{Block, block_read}
use pintos_proj.FileSys.Inode.{
  Inode, byte_to_sector, inode_length, chunk_size, read_chunk, read_loop, inode_read_at, whole,
}

-- The byte at a position of the file.
abbrev pub content : Inode → Block → ℕ → ℕ
content ino d pos = d.sectors (ino.inode_data.start + pos / 512) (pos % 512)

-- Every sector of the file is on the device.
abbrev pub IsOnDevice : Inode → Block → Type 0
IsOnDevice ino d =
    (d.size < 2 ^ 32)
    × ((pos : ℕ) → pos < inode_length ino → ino.inode_data.start + pos / 512 < d.size)

pub IsOnDevice-size :
    (ino : Inode) (d d' : Block) → d'.size ≡ d.size → IsOnDevice ino d → IsOnDevice ino d'
IsOnDevice-size ino d d' e (small, inside) = (
  subst (λ z. z < 2 ^ 32) (sym e) small,
  λ pos h. subst (λ z. ino.inode_data.start + pos / 512 < z) (sym e) (inside pos h),
)

pub byte_to_sector-in :
    (ino : Inode) (d : Block) (pos : ℕ)
    → IsOnDevice ino d
    → pos < inode_length ino
    → byte_to_sector ino pos ≡ ino.inode_data.start + pos / 512
unfolding byte_to_sector
byte_to_sector-in ino d pos (small, inside) h =
    rw (lt→ltb pos ino.inode_data.length h) (omega (arith, inside pos h))

-- A sector of the file is read.
pub block_read-in :
    (ino : Inode) (d : Block) (pos : ℕ)
    → IsOnDevice ino d
    → pos < inode_length ino
    → block_read d (byte_to_sector ino pos)
      ≡ ok (
        record d { read_cnt = (d.read_cnt + 1) % 2 ^ 64 },
        d.sectors (ino.inode_data.start + pos / 512),
      )
unfolding block_read
block_read-in ino d pos v h =
    rw (
      byte_to_sector-in ino d pos v h,
      lt→ltb (ino.inode_data.start + pos / 512) d.size (v.1 pos h),
    )

-- The buffer after `n` bytes of the file from `offset` on were put at `at`.
abbrev pub Holds : Inode → Block → Bytes → ℕ → ℕ → ℕ → Bytes → Type 0
Holds ino d buffer at offset n buffer' =
    (i : ℕ)
    → buffer' i
      ≡ (if leb at i && ltb i (at + n) then content ino d (offset + (i - at)) else buffer i)

-- A copy out of the sector of `offset` gives the bytes of the file.
memcpy-Holds :
    (ino : Inode) (d : Block) (buffer : Bytes) (at offset n : ℕ)
    → offset % 512 + n ≤ 512
    → Holds ino d buffer at offset n
        (memcpy buffer at (d.sectors (ino.inode_data.start + offset / 512)) (offset % 512) n)
unfolding memcpy
memcpy-Holds ino d buffer at offset n h i = elim (Bool-cases (leb at i && ltb i (at + n))) [
  | inl e ↦ rw e (
      let q : (offset + (i - at)) / 512 ≡ offset / 512 = ground (arith, e) in
      let r : (offset + (i - at)) % 512 ≡ offset % 512 + (i - at) = ground (arith, e) in
      rw (content, q, r))
  | inr e ↦ rw e
]

-- The device after sectors of it were read.
pub record IsReadOnly (d d' : Block) : Type 0 where
  pub sectors : d'.sectors ≡ d.sectors
  pub size : d'.size ≡ d.size
  pub foreign : d'.foreign ≡ d.foreign

pub chunk_size-le :
    (ino : Inode) (size offset : ℕ)
    → (chunk_size ino size offset ≤ size)
      × (chunk_size ino size offset ≤ inode_length ino - offset)
      × (offset % 512 + chunk_size ino size offset ≤ 512)
unfolding chunk_size
chunk_size-le ino size offset = (omega arith, omega arith, omega arith)

-- The state after one sector was read.
abbrev pub counted : Block → Block
counted d = record d { read_cnt = (d.read_cnt + 1) % 2 ^ 64 }

module _ (ino : Inode) (d : Block) (buffer : Bytes) (chunk offset at : ℕ) (v : IsOnDevice ino d)
    (pos : offset < inode_length ino) where
  -- The buffer after a round.
  abbrev copied : Bytes
  copied = memcpy buffer at (d.sectors (ino.inode_data.start + offset / 512)) (offset % 512) chunk

  read_whole :
      (bounce : Bool)
      → offset % 512 ≡ 0
      → chunk ≡ 512
      → read_chunk bounce ino d buffer chunk offset at ≡ ok (some (counted d, copied))
  unfolding read_chunk
  read_whole bounce ofs full = rw (ofs, full, block_read-in ino d offset v pos)

  read_part :
      whole offset chunk ≡ false
      → read_chunk true ino d buffer chunk offset at ≡ ok (some (counted d, copied))
  unfolding read_chunk
  read_part w = rw (w, block_read-in ino d offset v pos)

  -- One round of the loop reads the bytes of its chunk, or finds no bounce buffer.
  read_chunk_cases :
      (bounce : Bool)
      → ((bounce ≡ false) × (read_chunk bounce ino d buffer chunk offset at ≡ ok none))
        ⊎ (read_chunk bounce ino d buffer chunk offset at ≡ ok (some (counted d, copied)))
  unfolding read_chunk
  read_chunk_cases true = elim (Bool-cases (whole offset chunk)) [
    | inl w ↦ inr (read_whole true (ground (arith, w)) (ground (arith, w)))
    | inr w ↦ inr (read_part w)
  ]
  read_chunk_cases false = elim (Bool-cases (whole offset chunk)) [
    | inl w ↦ inr (read_whole false (ground (arith, w)) (ground (arith, w)))
    | inr w ↦ inl (refl, rw w)
  ]

-- Two pieces of the file, one after the other.
Holds-trans :
    (ino : Inode) (d d' : Block) (b b₁ b₂ : Bytes) (at offset m n : ℕ)
    → IsReadOnly d d'
    → Holds ino d b at offset m b₁
    → Holds ino d' b₁ (at + m) (offset + m) n b₂
    → Holds ino d b at offset (m + n) b₂
Holds-trans ino d d' b b₁ b₂ at offset m n r h₁ h₂ i = elim (Bool-cases (leb (at + m) i)) [
  | inl e ↦
      let p : offset + m + (i - (at + m)) ≡ offset + (i - at) = ground (arith, e) in
      ground
        (arith, h₁ i, h₂ i, ap (content ino d) p, same_content (offset + m + (i - (at + m))), e)
  | inr e ↦ ground (arith, h₁ i, h₂ i, e)
]
  where
    same_content : (pos : ℕ) → content ino d' pos ≡ content ino d pos
    same_content pos = ap (λ s. s (ino.inode_data.start + pos / 512) (pos % 512)) r.sectors

pub map_right {ℓ κ μ} : {A : Type ℓ} {B : Type κ} {C : Type μ} → A ⊎ B → (B → C) → A ⊎ C
map_right (inl a) f = inl a
map_right (inr b) f = inr (f b)

-- What the loop comes to: some bytes of the file from `offset` on are read, all that are asked for and
-- there are if the bounce buffer was given.
abbrev pub Reads : Bool → Inode → Block → Bytes → ℕ → ℕ → ℕ → Outcome (Block × Bytes × ℕ) → Type 0
Reads bounce ino d buffer size offset at r =
    (d' : Block) × (buffer' : Bytes) × (n : ℕ) × (r ≡ ok (d', buffer', at + n))
    × (n ≤ min size (inode_length ino - offset))
    × ((bounce ≡ false) ⊎ (n ≡ min size (inode_length ino - offset)))
    × IsReadOnly d d'
    × Holds ino d buffer at offset n buffer'

pub chunk_size-min :
    (ino : Inode) (size offset : ℕ)
    → chunk_size ino size offset ≡ min size (min (inode_length ino - offset) (512 - offset % 512))
unfolding chunk_size
chunk_size-min ino size offset = refl

module _ (fuel : ℕ) (bounce : Bool) (ino : Inode) (d : Block) (buffer : Bytes)
    (size offset at : ℕ) where
  abbrev chunk : ℕ
  chunk = chunk_size ino size offset

  loop_end :
      chunk == 0 ≡ true
      → read_loop (suc fuel) bounce ino d buffer size offset at ≡ ok (d, buffer, at)
  unfolding read_loop
  loop_end e = rw (read_loop, e)

  loop_stops :
      chunk == 0 ≡ false
      → read_chunk bounce ino d buffer chunk offset at ≡ ok none
      → read_loop (suc fuel) bounce ino d buffer size offset at ≡ ok (d, buffer, at)
  unfolding read_loop
  loop_stops e s = rw (read_loop, e, s)

  loop_round :
      (d' : Block) (buffer' : Bytes)
      → chunk == 0 ≡ false
      → read_chunk bounce ino d buffer chunk offset at ≡ ok (some (d', buffer'))
      → read_loop (suc fuel) bounce ino d buffer size offset at
        ≡ read_loop fuel bounce ino d' buffer' (size - chunk) (offset + chunk) (at + chunk)
  unfolding read_loop
  loop_round d' buffer' e s = rw (read_loop, e, s)

  -- The loop ends with no byte read, because there is none left or no bounce buffer.
  Reads-none :
      read_loop (suc fuel) bounce ino d buffer size offset at ≡ ok (d, buffer, at)
      → (bounce ≡ false) ⊎ (chunk ≡ 0)
      → Reads bounce ino d buffer size offset at
          (read_loop (suc fuel) bounce ino d buffer size offset at)
  Reads-none e z = (
    d,
    buffer,
    0,
    e ∙ ap (λ n. ok (d, buffer, n)) (omega arith),
    omega arith,
    map_right z (λ c. omega (arith, c, chunk_size-min ino size offset)),
    record { sectors = refl; size = refl; foreign = refl },
    λ i. ground arith,
  )

-- The first round, and the rounds after it.
Reads-round :
    (bounce : Bool) (ino : Inode) (d d' : Block) (buffer buffer' : Bytes) (size offset at c : ℕ)
    (r : Outcome (Block × Bytes × ℕ))
    → c ≡ chunk_size ino size offset
    → IsReadOnly d d'
    → Holds ino d buffer at offset c buffer'
    → Reads bounce ino d' buffer' (size - c) (offset + c) (at + c) r
    → Reads bounce ino d buffer size offset at r
Reads-round bounce ino d d' b b' size offset at c r e keep held
      (d'', b'', n, q, low, all, same, rest) =
    (
      d'',
      b'',
      c + n,
      q ∙ ap (λ m. ok (d'', b'', m)) (omega arith),
      omega (arith, chunk_size-min ino size offset),
      map_right all (λ a. omega (arith, a, chunk_size-min ino size offset)),
      record {
        sectors = same.sectors ∙ keep.sectors;
        size = same.size ∙ keep.size;
        foreign = same.foreign ∙ keep.foreign;
      },
      Holds-trans ino d d' b b' b'' at offset c n keep held rest,
    )

read_loop-Reads :
    (fuel : ℕ) (bounce : Bool) (ino : Inode) (d : Block) (buffer : Bytes) (size offset at : ℕ)
    → IsOnDevice ino d
    → size < fuel
    → Reads bounce ino d buffer size offset at (read_loop fuel bounce ino d buffer size offset at)
read_loop-Reads zero bounce ino d buffer size offset at v h = absurd (omega arith)
read_loop-Reads (suc fuel) bounce ino d buffer size offset at v h =
    let c = chunk_size ino size offset in
    let (le_size, le_left, room) = chunk_size-le ino size offset in
    elim (Bool-cases (c == 0)) [
      | inl e ↦
          Reads-none fuel bounce ino d buffer size offset at
            (loop_end fuel bounce ino d buffer size offset at e) (inr (ground (arith, e)))
      | inr e ↦
          let more : 0 < c = ground (arith, e) in
          elim (read_chunk_cases ino d buffer c offset at v (omega arith) bounce) [
            | inl (off, s) ↦
                Reads-none fuel bounce ino d buffer size offset at
                  (loop_stops fuel bounce ino d buffer size offset at e s) (inl off)
            | inr s ↦
                let b' = copied ino d buffer c offset at v (omega arith) in
                subst (Reads bounce ino d buffer size offset at)
                  (sym (loop_round fuel bounce ino d buffer size offset at (counted d) b' e s))
                  (Reads-round bounce ino d (counted d) buffer b' size offset at c _ refl
                    (record { sectors = refl; size = refl; foreign = refl })
                    (memcpy-Holds ino d buffer at offset c room)
                    (read_loop-Reads fuel bounce ino (counted d) b' (size - c) (offset + c) (at + c)
                      v (omega arith)))
          ]
    ]

-- For a file whose sectors are on the device, inode_read_at returns with the device's sectors as they
-- were. It puts the bytes of the file from the offset on at the start of the buffer and leaves the
-- rest of the buffer; if malloc gives the bounce buffer, these are as many bytes as are asked for, or
-- as many as the file has from the offset on if that is less.
pub inode_read_at-Reads :
    (bounce : Bool) (ino : Inode) (d : Block) (buffer : Bytes) (size offset : ℕ)
    → IsOnDevice ino d
    → Reads bounce ino d buffer size offset 0 (inode_read_at bounce ino d buffer size offset)
unfolding inode_read_at
inode_read_at-Reads bounce ino d buffer size offset v =
    read_loop-Reads (suc size) bounce ino d buffer size offset 0 v (omega arith)
