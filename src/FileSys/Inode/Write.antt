-- ===== src/FileSys/Inode/Write.antt =====
-- What inode_write_at writes.
use pintos_proj.Prelude.{
  ℕ, zero, suc, ◌+◌, ◌-◌, ◌*◌, ◌/◌, ◌%◌, ◌^◌, ◌≤◌, ◌<◌, ◌≡◌, refl, sym, subst, ap, ◌∙◌, ◌⊎◌, inl,
  inr, Bool, true, false, ◌&&◌, ◌||◌, some, none, min, leb, ltb, ◌==◌, if◌then◌else◌, arith,
  Outcome, ok, lt→ltb, Bool-cases,
}
use pintos_proj.FileSys.Bytes.{Bytes, memcpy}
use pintos_proj.FileSys.Block.{Block, block_write}
use pintos_proj.FileSys.Inode.{
  Inode, byte_to_sector, inode_length, chunk_size, fill_bounce, write_chunk, write_loop,
  inode_write_at, whole, sector_left,
}
use pintos_proj.FileSys.Inode.Read.{
  IsOnDevice, IsOnDevice-size, byte_to_sector-in, block_read-in, counted, chunk_size-le,
  chunk_size-min, map_right,
}

-- The position in the file of a byte of a sector, and whether it is one of the `n` bytes from `offset`
-- on.
abbrev pub position : Inode → ℕ → ℕ → ℕ
position ino s o = (s - ino.inode_data.start) * 512 + o

abbrev pub touched : Inode → ℕ → ℕ → ℕ → ℕ → Bool
touched ino offset n s o =
    leb ino.inode_data.start s
    && (leb offset (position ino s o) && ltb (position ino s o) (offset + n))

-- The device after `n` bytes of the buffer from `at` on were written at `offset` of the file: these
-- bytes of its sectors are new, and every other byte of every sector is as it was.
pub record IsWritten (ino : Inode) (d : Block) (buffer : Bytes) (at offset n : ℕ) (d' : Block)
    : Type 0 where
  pub size : d'.size ≡ d.size
  pub foreign : d'.foreign ≡ d.foreign
  pub bytes :
      (s o : ℕ)
      → o < 512
      → d'.sectors s o ≡ (
          if touched ino offset n s o
          then buffer (at + (position ino s o - offset))
          else d.sectors s o)

IsWritten-trans :
    (ino : Inode) (d d' d'' : Block) (b : Bytes) (at offset m n : ℕ)
    → IsWritten ino d b at offset m d'
    → IsWritten ino d' b (at + m) (offset + m) n d''
    → IsWritten ino d b at offset (m + n) d''
IsWritten-trans ino d d' d'' b at offset m n w₁ w₂ = record {
  size = w₂.size ∙ w₁.size;
  foreign = w₂.foreign ∙ w₁.foreign;
  bytes = joined;
}
  where
    joined :
        (s o : ℕ)
        → o < 512
        → d''.sectors s o ≡ (
            if touched ino offset (m + n) s o
            then b (at + (position ino s o - offset))
            else d.sectors s o)
    joined s o h = elim (Bool-cases (leb (offset + m) (position ino s o))) [
      | inl e ↦
          let p : at + m + (position ino s o - (offset + m)) ≡ at + (position ino s o - offset) =
            ground (arith, e) in
          ground (arith, w₁.bytes s o h, w₂.bytes s o h, ap b p, e)
      | inr e ↦ ground (arith, w₁.bytes s o h, w₂.bytes s o h, e)
    ]

-- A sector of the file is written.
abbrev pub put : Block → ℕ → Bytes → Block
put d sector buffer = record d {
  sectors = λ s. if sector == s then buffer else d.sectors s;
  write_cnt = (d.write_cnt + 1) % 2 ^ 64;
}

module _ (ino : Inode) (d : Block) (buffer : Bytes) (chunk offset at : ℕ) (v : IsOnDevice ino d)
    (native : d.foreign ≡ false) (pos : offset < inode_length ino) where
  abbrev here : ℕ
  here = ino.inode_data.start + offset / 512

  block_write-in :
      (d' : Block) (m : Bytes)
      → d'.size ≡ d.size
      → d'.foreign ≡ d.foreign
      → block_write d' (byte_to_sector ino offset) m ≡ ok (put d' here m)
  unfolding block_write
  block_write-in d' m e n =
      rw (byte_to_sector-in ino d offset v pos, e, lt→ltb here d.size (v.1 offset pos), n, native)

  -- A sector whose bytes from the offset on are the buffer's is the file with them written.
  put-IsWritten :
      (d' : Block) (m : Bytes)
      → d'.size ≡ d.size
      → d'.foreign ≡ d.foreign
      → d'.sectors ≡ d.sectors
      → 0 < chunk
      → offset % 512 + chunk ≤ 512
      → ((o : ℕ)
          → o < 512
          → m o ≡ (
              if leb (offset % 512) o && ltb o (offset % 512 + chunk)
              then buffer (at + (o - offset % 512))
              else d.sectors here o))
      → IsWritten ino d buffer at offset chunk (put d' here m)
  put-IsWritten d' m size foreign same more room new = record {
    size = size;
    foreign = foreign;
    bytes = bytes_put;
  }
    where
      other_sector : (s o : ℕ) → o < 512 → here == s ≡ false → touched ino offset chunk s o ≡ false
      other_sector s o h ne = ground (arith, ne)

      same_sector :
          (s o : ℕ)
          → here == s ≡ true
          → touched ino offset chunk s o ≡ (leb (offset % 512) o && ltb o (offset % 512 + chunk))
      same_sector s o e = ground (arith, e)

      distance :
          (s o : ℕ) → here == s ≡ true → at + (o - offset % 512) ≡ at + (position ino s o - offset)
      distance s o e = ground (arith, e)

      bytes_put :
          (s o : ℕ)
          → o < 512
          → (put d' here m).sectors s o ≡ (
              if touched ino offset chunk s o
              then buffer (at + (position ino s o - offset))
              else d.sectors s o)
      bytes_put s o h = elim (Bool-cases (here == s)) [
        | inl e ↦
            let eq : here ≡ s = ground (arith, e) in
            rw (e, same_sector s o e)
              (new o h ∙ ground (arith, ap buffer (distance s o e), ap (λ x. d.sectors x o) eq))
        | inr e ↦ rw (e, other_sector s o h e) (ap (λ f. f s o) same)
      ]

  write_whole :
      (bounce : Bool)
      → offset % 512 ≡ 0
      → chunk ≡ 512
      → (d' : Block) × (write_chunk bounce ino d buffer chunk offset at ≡ ok (some d'))
        × IsWritten ino d buffer at offset chunk d'
  unfolding write_chunk
  write_whole bounce ofs full = (
    put d here (λ i. buffer (at + i)),
    rw (ofs, full, block_write-in d (λ i. buffer (at + i)) refl refl),
    put-IsWritten d (λ i. buffer (at + i)) refl refl refl (omega arith) (omega arith)
        (λ o h. ground (arith, ofs, full)),
  )

  -- A chunk that is not a whole sector is copied into the sector that the file has.
  fill_bounce-in :
      whole offset chunk ≡ false
      → offset % 512 + chunk ≤ 512
      → fill_bounce ino d chunk offset ≡ ok (counted d, d.sectors here)
  unfolding fill_bounce
  fill_bounce-in w room =
      let t : (ltb 0 (offset % 512) || ltb chunk (sector_left offset)) ≡ true = ground (arith, w) in
      rw t (block_read-in ino d offset v pos)

  write_part :
      whole offset chunk ≡ false
      → 0 < chunk
      → offset % 512 + chunk ≤ 512
      → (d' : Block) × (write_chunk true ino d buffer chunk offset at ≡ ok (some d'))
        × IsWritten ino d buffer at offset chunk d'
  unfolding write_chunk memcpy
  write_part w more room =
      let m = memcpy (d.sectors here) (offset % 512) buffer at chunk in
      (
        put (counted d) here m,
        rw (w, fill_bounce-in w room, block_write-in (counted d) m refl refl),
        put-IsWritten (counted d) m refl refl refl more room (λ o h. refl),
      )

  write_chunk_cases :
      (bounce : Bool)
      → 0 < chunk
      → offset % 512 + chunk ≤ 512
      → ((bounce ≡ false) × (write_chunk bounce ino d buffer chunk offset at ≡ ok none))
        ⊎ ((d' : Block) × (write_chunk bounce ino d buffer chunk offset at ≡ ok (some d'))
            × IsWritten ino d buffer at offset chunk d')
  unfolding write_chunk
  write_chunk_cases true more room = elim (Bool-cases (whole offset chunk)) [
    | inl w ↦ inr (write_whole true (ground (arith, w)) (ground (arith, w)))
    | inr w ↦ inr (write_part w more room)
  ]
  write_chunk_cases false more room = elim (Bool-cases (whole offset chunk)) [
    | inl w ↦ inr (write_whole false (ground (arith, w)) (ground (arith, w)))
    | inr w ↦ inl (refl, rw w)
  ]

-- What the loop comes to.
abbrev pub Writes : Bool → Inode → Block → Bytes → ℕ → ℕ → ℕ → Outcome (Block × ℕ) → Type 0
Writes bounce ino d buffer size offset at r =
    (d' : Block) × (n : ℕ) × (r ≡ ok (d', at + n))
    × (n ≤ min size (inode_length ino - offset))
    × ((bounce ≡ false) ⊎ (n ≡ min size (inode_length ino - offset)))
    × IsWritten ino d buffer at offset n d'

module _ (fuel : ℕ) (bounce : Bool) (ino : Inode) (d : Block) (buffer : Bytes)
    (size offset at : ℕ) where
  abbrev piece : ℕ
  piece = chunk_size ino size offset

  loop_end :
      piece == 0 ≡ true → write_loop (suc fuel) bounce ino d buffer size offset at ≡ ok (d, at)
  unfolding write_loop
  loop_end e = rw (write_loop, e)

  loop_stops :
      piece == 0 ≡ false
      → write_chunk bounce ino d buffer piece offset at ≡ ok none
      → write_loop (suc fuel) bounce ino d buffer size offset at ≡ ok (d, at)
  unfolding write_loop
  loop_stops e s = rw (write_loop, e, s)

  loop_round :
      (d' : Block)
      → piece == 0 ≡ false
      → write_chunk bounce ino d buffer piece offset at ≡ ok (some d')
      → write_loop (suc fuel) bounce ino d buffer size offset at
        ≡ write_loop fuel bounce ino d' buffer (size - piece) (offset + piece) (at + piece)
  unfolding write_loop
  loop_round d' e s = rw (write_loop, e, s)

  -- The loop ends with no byte written.
  Writes-none :
      write_loop (suc fuel) bounce ino d buffer size offset at ≡ ok (d, at)
      → (bounce ≡ false) ⊎ (piece ≡ 0)
      → Writes bounce ino d buffer size offset at
          (write_loop (suc fuel) bounce ino d buffer size offset at)
  Writes-none e z = (
    d,
    0,
    e ∙ ap (λ n. ok (d, n)) (omega arith),
    omega arith,
    map_right z (λ c. omega (arith, c, chunk_size-min ino size offset)),
    record { size = refl; foreign = refl; bytes = λ s o h. ground arith },
  )

-- The rounds after the first, and the first.
Writes-round :
    (bounce : Bool) (ino : Inode) (d d' : Block) (buffer : Bytes) (size offset at c : ℕ)
    (r : Outcome (Block × ℕ))
    → c ≡ chunk_size ino size offset
    → 0 < c
    → IsWritten ino d buffer at offset c d'
    → Writes bounce ino d' buffer (size - c) (offset + c) (at + c) r
    → Writes bounce ino d buffer size offset at r
Writes-round bounce ino d d' buffer size offset at c r e more w (d'', n, q, low, all, rest) = (
  d'',
  c + n,
  q ∙ ap (λ m. ok (d'', m)) (omega arith),
  omega (arith, chunk_size-min ino size offset),
  map_right all (λ a. omega (arith, a, chunk_size-min ino size offset)),
  IsWritten-trans ino d d' d'' buffer at offset c n w rest,
)

write_loop-Writes :
    (fuel : ℕ) (bounce : Bool) (ino : Inode) (d : Block) (buffer : Bytes) (size offset at : ℕ)
    → IsOnDevice ino d
    → d.foreign ≡ false
    → size < fuel
    → Writes bounce ino d buffer size offset at (write_loop fuel bounce ino d buffer size offset at)
write_loop-Writes zero bounce ino d buffer size offset at v native h = absurd (omega arith)
write_loop-Writes (suc fuel) bounce ino d buffer size offset at v native h =
    let c = chunk_size ino size offset in
    let (le_size, le_left, room) = chunk_size-le ino size offset in
    elim (Bool-cases (c == 0)) [
      | inl e ↦
          Writes-none fuel bounce ino d buffer size offset at
            (loop_end fuel bounce ino d buffer size offset at e) (inr (ground (arith, e)))
      | inr e ↦
          let more : 0 < c = ground (arith, e) in
          elim (write_chunk_cases ino d buffer c offset at v native (omega arith) bounce more
            room) [
              | inl (off, s) ↦
                  Writes-none fuel bounce ino d buffer size offset at
                    (loop_stops fuel bounce ino d buffer size offset at e s) (inl off)
              | inr (d', s, w) ↦
                  subst (Writes bounce ino d buffer size offset at)
                    (sym (loop_round fuel bounce ino d buffer size offset at d' e s))
                    (Writes-round bounce ino d d' buffer size offset at c _ refl more w (
                      write_loop-Writes fuel bounce ino d' buffer (size - c) (offset + c) (at + c)
                        (IsOnDevice-size ino d d' w.size v) (w.foreign ∙ native) (omega arith)))
            ]
    ]

-- For a file whose sectors are on a device that may be written, where writes are not denied,
-- inode_write_at returns. It writes the first bytes of the buffer to the file at the offset, and every
-- other byte of the device keeps its value; if malloc gives the bounce buffer, it writes as many bytes
-- as are asked for, or as many as the file has from the offset on if that is less.
pub inode_write_at-Writes :
    (bounce : Bool) (ino : Inode) (d : Block) (buffer : Bytes) (size offset : ℕ)
    → IsOnDevice ino d
    → d.foreign ≡ false
    → ino.deny_write_cnt ≡ 0
    → Writes bounce ino d buffer size offset 0 (inode_write_at bounce ino d buffer size offset)
unfolding inode_write_at
inode_write_at-Writes bounce ino d buffer size offset v native allowed =
    let e : (ino.deny_write_cnt == 0) ≡ true = ground (arith, allowed) in
    rw e (write_loop-Writes (suc size) bounce ino d buffer size offset 0 v native (omega arith))
