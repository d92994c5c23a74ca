-- ===== src/Vm/Swap/Frames.antt =====
-- vm/swap.c: a frame written to the swap device and loaded again.
use native.Mathlib.Nat.{mod-eq_of_lt}
use pintos_proj.Prelude.{
  ℕ, zero, suc, ◌+◌, ◌*◌, ◌-◌, ◌/◌, ◌%◌, ◌^◌, ◌≤◌, ◌<◌, ◌≡◌, refl, ap, ◌∙◌, true, false, ◌&&◌, not,
  inl, inr, Bool-cases, none, some, ltb, leb, ◌==◌, if◌then◌else◌, arith, ok, ◌>>=◌,
}
use pintos_proj.FileSys.Bytes.{Bytes, memcpy}
use pintos_proj.FileSys.Block.{Block, block_read, block_write}
use pintos_proj.Vm.State.{Vm}
use pintos_proj.Vm.Swap.{
  write_sectors, read_sectors, write_frame_to_block, load_frame_from_block, memory_of, set_memory,
  acquire_swap_io, release_swap_io,
}

-- The sectors from `lo` to `hi` hold a frame that starts at `base` in the memory.
pub record IsWritten (lo hi base : ℕ) (m : Bytes) (d d' : Block) : Type 0 where
  pub size : d'.size ≡ d.size
  pub owner : d'.foreign ≡ d.foreign
  pub stored :
      (j b : ℕ)
      → d'.sectors j b
        ≡ (if leb lo j && ltb j hi then m (base + (j - lo) * 512 + b) else d.sectors j b)

-- The sector that is written first, and the others.
merged :
    (lo lo' n base base' : ℕ) (m : Bytes) (d : Block) (j b : ℕ)
    → lo' ≡ lo + 1
    → base' ≡ base + 512
    → (if leb lo' j && ltb j (lo' + n)
        then m (base' + (j - lo') * 512 + b)
        else (if lo == j then (λ b. m (base + b)) else d.sectors j) b)
      ≡ (if leb lo j && ltb j (lo + suc n) then m (base + (j - lo) * 512 + b) else d.sectors j b)
merged lo lo' n base base' m d j b p q = elim (Bool-cases (lo == j)) [
  | inl t ↦
      let e : lo ≡ j = ground (arith, t) in
      let out : (leb lo' j && ltb j (lo' + n)) ≡ false = ground (arith, e, p) in
      let now : (leb lo j && ltb j (lo + suc n)) ≡ true = ground (arith, e) in
      let at : base + (j - lo) * 512 + b ≡ base + b = omega (arith, e) in rw (out, t, now, at) refl
  | inr t ↦ elim (Bool-cases (leb lo' j && ltb j (lo' + n))) [
    | inl u ↦
        let now : (leb lo j && ltb j (lo + suc n)) ≡ true = ground (arith, u, p) in
        let at : base' + (j - lo') * 512 + b ≡ base + (j - lo) * 512 + b =
          ground (arith, u, p, q) in
        rw (u, now, at) refl
    | inr u ↦
        let now : (leb lo j && ltb j (lo + suc n)) ≡ false = ground (arith, u, p, t) in
        rw (u, t, now) refl
  ]
]

-- The device after a sector is written, and after one is read.
abbrev after_write : ℕ → Bytes → Block → Block
after_write q buffer d = record d {
  sectors = λ s. if q == s then buffer else d.sectors s;
  write_cnt = (d.write_cnt + 1) % 2 ^ 64;
}

abbrev after_read : Block → Block
after_read d = record d { read_cnt = (d.read_cnt + 1) % 2 ^ 64 }

block_write-ok :
    (d : Block) (q : ℕ) (buffer : Bytes)
    → q < d.size
    → d.foreign ≡ false
    → d.size ≤ 2 ^ 32
    → block_write d (q % 2 ^ 32) buffer ≡ ok (after_write q buffer d)
unfolding block_write
block_write-ok d q buffer h own k =
    let fits : ltb q d.size ≡ true = ground (arith, h) in
    let mine : not d.foreign ≡ true = ap not own in
    ap (λ r. block_write d r buffer) (mod-eq_of_lt (omega (arith, h, k))) ∙ rw (fits, mine) refl

block_read-ok :
    (d : Block) (q : ℕ)
    → q < d.size
    → d.size ≤ 2 ^ 32
    → block_read d (q % 2 ^ 32) ≡ ok (after_read d, d.sectors q)
unfolding block_read
block_read-ok d q h k =
    let fits : ltb q d.size ≡ true = ground (arith, h) in
    ap (λ r. block_read d r) (mod-eq_of_lt (omega (arith, h, k))) ∙ rw fits refl

pub write_sectors-IsWritten :
    (n i frame index : ℕ) (m : Bytes) (d : Block)
    → index + i + n ≤ d.size
    → d.size ≤ 2 ^ 32
    → d.foreign ≡ false
    → (d' : Block) × (write_sectors n i frame index m d ≡ ok d')
      × IsWritten (index + i) (index + i + n) (frame + i * 512) m d d'
unfolding write_sectors
write_sectors-IsWritten zero i frame index m d h k own =
    (d, refl, record { size = refl; owner = refl; stored = λ j b. ground arith })
write_sectors-IsWritten (suc n) i frame index m d h k own =
    let buffer : Bytes = λ b. m (frame + i * 512 + b) in
    let (d', e, w) =
      write_sectors-IsWritten n (i + 1) frame index m (after_write (index + i) buffer d)
        (omega (arith, h)) k own in
    (
      d',
      ap (λ r. r >>= λ d'. write_sectors n (i + 1) frame index m d')
            (block_write-ok d (index + i) buffer (omega (arith, h)) own k)
          ∙ e,
      record {
        size = w.size;
        owner = w.owner;
        stored = λ j b.
            w.stored j b
            ∙ merged (index + i) (index + (i + 1)) n (frame + i * 512) (frame + (i + 1) * 512) m d j
                b (omega arith) (omega arith);
      },
    )

-- The bytes from `lo` to `hi` are those of the sectors from `index` on, and the others as they were.
record IsRead (lo hi first : ℕ) (d : Block) (m m' : Bytes) : Type 0 where
  pub bytes :
      (a : ℕ)
      → m' a ≡ (
          if leb lo a && ltb a hi then d.sectors (first + (a - lo) / 512) ((a - lo) % 512) else m a)

-- The bytes of the sector that is read first, and the others.
joined :
    (lo lo' hi hi' q q' : ℕ) (m : Bytes) (d : Block) (a : ℕ)
    → lo' ≡ lo + 512
    → hi' ≡ hi
    → q' ≡ q + 1
    → lo' ≤ hi
    → (if leb lo' a && ltb a hi'
        then d.sectors (q' + (a - lo') / 512) ((a - lo') % 512)
        else memcpy m lo (d.sectors q) 0 512 a)
      ≡ (if leb lo a && ltb a hi then d.sectors (q + (a - lo) / 512) ((a - lo) % 512) else m a)
unfolding memcpy
joined lo lo' hi hi' q q' m d a x y z w = elim (Bool-cases (leb lo' a && ltb a hi')) [
  | inl t ↦
      let now : (leb lo a && ltb a hi) ≡ true = ground (arith, t, x, y) in
      let past : lo' ≤ a = ground (arith, t) in
      let sector : q' + (a - lo') / 512 ≡ q + (a - lo) / 512 = omega (arith, past, x, z) in
      let byte : (a - lo') % 512 ≡ (a - lo) % 512 = omega (arith, past, x) in
      rw (t, now, sector, byte) refl
  | inr t ↦ elim (Bool-cases (leb lo a && ltb a (lo + 512))) [
    | inl u ↦
        let now : (leb lo a && ltb a hi) ≡ true = ground (arith, u, x, w) in
        let low : a < lo + 512 = ground (arith, u) in
        let sector : q + (a - lo) / 512 ≡ q = omega (arith, low) in
        let byte : (a - lo) % 512 ≡ a - lo = omega (arith, low) in
        let start : 0 + (a - lo) ≡ a - lo = omega arith in rw (t, u, now, sector, byte, start) refl
    | inr u ↦
        let now : (leb lo a && ltb a hi) ≡ false = ground (arith, t, u, x, y) in rw (t, u, now) refl
  ]
]

read_sectors-IsRead :
    (n i frame index : ℕ) (m : Bytes) (d : Block)
    → index + i + n ≤ d.size
    → d.size ≤ 2 ^ 32
    → (m' : Bytes) × (d' : Block) × (read_sectors n i frame index m d ≡ ok (m', d'))
      × IsRead (frame + i * 512) (frame + (i + n) * 512) (index + i) d m m'
unfolding read_sectors memcpy
read_sectors-IsRead zero i frame index m d h k = (m, d, refl, record { bytes = λ a. ground arith })
read_sectors-IsRead (suc n) i frame index m d h k =
    let m₁ = memcpy m (frame + i * 512) (d.sectors (index + i)) 0 512 in
    let (m', d', e, r) =
      read_sectors-IsRead n (i + 1) frame index m₁ (after_read d) (omega (arith, h)) k in
    (
      m',
      d',
      ap
            (λ r. r >>= λ p.
              read_sectors n (i + 1) frame index (memcpy m (frame + i * 512) p.1 0 512) p.0)
            (block_read-ok d (index + i) (omega (arith, h)) k)
          ∙ e,
      record {
        bytes = λ a.
            r.bytes a
            ∙ joined (frame + i * 512) (frame + (i + 1) * 512) (frame + (i + suc n) * 512)
                (frame + (i + 1 + n) * 512) (index + i) (index + (i + 1)) m d a (omega arith)
                (omega arith) (omega arith) (omega arith);
      },
    )

-- A frame that is written to the swap device, on which the eight sectors from the index on lie, and
-- loaded into any frame later, whatever the memory then holds, is there as it was, and the rest of the
-- memory is as before the load. The index for the next page has gone up by eight, and the lock is free.
pub load_frame_from_block-write_frame_to_block :
    (frame frame' index : ℕ) (s : Vm) (d : Block)
    → s.global_swap_block ≡ some d
    → index + 8 ≤ d.size
    → d.size ≤ 2 ^ 32
    → d.foreign ≡ false
    → s.swap_io_holder ≡ none
    → (s₁ : Vm) × (write_frame_to_block frame index s ≡ ok s₁)
      × (s₁.curr_index ≡ (s.curr_index + 8) % 2 ^ 32)
      × ((m : Bytes)
          → (s₂ : Vm) × (load_frame_from_block frame' index (set_memory m s₁) ≡ ok (some s₂))
            × (s₂.swap_io_holder ≡ none)
            × ((a : ℕ)
                → memory_of s₂ a ≡ (
                    if leb frame' a && ltb a (frame' + 4096)
                    then memory_of s (frame + (a - frame'))
                    else m a)))
unfolding write_frame_to_block load_frame_from_block acquire_swap_io release_swap_io
load_frame_from_block-write_frame_to_block frame frame' index s d dev h k own free =
    let (d₁, e, w) =
      write_sectors-IsWritten 8 0 frame index (memory_of s) d (omega (arith, h)) k own in
    let s₁ = record s { global_swap_block = some d₁; curr_index = (s.curr_index + 8) % 2 ^ 32 } in
    (
      s₁,
      rw (dev, ◌>>=◌, e) refl,
      refl,
      λ m.
          let (m', d₂, e₂, r) =
            read_sectors-IsRead 8 0 frame' index m d₁ (omega (arith, h, w.size))
              (omega (arith, k, w.size)) in
          let self : (s.current_thread == s.current_thread) ≡ true = ground arith in
          (
            record (set_memory m' s₁) { global_swap_block = some d₂; swap_io_holder = none },
            rw (free, ◌>>=◌, e₂, ◌>>=◌, self) refl,
            refl,
            λ a. r.bytes a ∙ whole d₁ w m a,
          ),
    )
  where
    whole :
        (d₁ : Block)
        → IsWritten (index + 0) (index + 0 + 8) (frame + 0 * 512) (memory_of s) d d₁
        → (m : Bytes) (a : ℕ)
        → (if leb (frame' + 0 * 512) a && ltb a (frame' + (0 + 8) * 512)
            then d₁.sectors
                (index + 0 + (a - (frame' + 0 * 512)) / 512)
                ((a - (frame' + 0 * 512)) % 512)
            else m a)
          ≡ (if leb frame' a && ltb a (frame' + 4096)
              then memory_of s (frame + (a - frame'))
              else m a)
    whole d₁ w m a = elim (Bool-cases (leb frame' a && ltb a (frame' + 4096))) [
      | inl t ↦
          let now : (leb (frame' + 0 * 512) a && ltb a (frame' + (0 + 8) * 512)) ≡ true =
            ground (arith, t) in
          let lo : frame' ≤ a = ground (arith, t) in
          let hi : a < frame' + 4096 = ground (arith, t) in
          let j = index + 0 + (a - (frame' + 0 * 512)) / 512 in
          let inside : (leb (index + 0) j && ltb j (index + 0 + 8)) ≡ true =
            ground (arith, lo, hi) in
          let at : frame + 0 * 512 + (j - (index + 0)) * 512 + (a - (frame' + 0 * 512)) % 512
              ≡ frame + (a - frame') =
            omega (arith, lo, hi) in
          rw (now, t) (w.stored j ((a - (frame' + 0 * 512)) % 512) ∙ rw (inside, at) refl)
      | inr t ↦
          let now : (leb (frame' + 0 * 512) a && ltb a (frame' + (0 + 8) * 512)) ≡ false =
            ground (arith, t) in
          rw (now, t) refl
    ]
