-- ===== src/FileSys/FreeMap/Allocate.antt =====
-- What free_map_allocate and free_map_release do to the free map, whether or not it can be written to
-- its file.
use pintos_proj.Prelude.{
  ℕ, ◌+◌, ◌≤◌, ◌<◌, ◌≡◌, refl, sym, subst, ap, ◌∙◌, ◌⊎◌, inl, inr, Bool, true, false, Option, none,
  some, ◌==◌, Bool-cases, arith, Outcome, ok, ◌>>=◌,
}
use pintos_proj.KernelLib.Bitmap.{Bitmap, byte_cnt, bitmap_set_multiple}
use pintos_proj.KernelLib.Bitmap.Single.{bit, IsValid}
use pintos_proj.KernelLib.Bitmap.Range.{undone, all_set, Run, IsRangeSet, bitmap_set_multiple_lem}
use pintos_proj.KernelLib.Bitmap.Scan.{IsFirstRun, NoRun, bitmap_scan_and_flip_lem, differs}
use pintos_proj.FileSys.Bytes.{Bytes}
use pintos_proj.FileSys.Block.{Block}
use pintos_proj.FileSys.Inode.{Inode, inode_write_at}
use pintos_proj.FileSys.Inode.Read.{IsOnDevice, IsOnDevice-size}
use pintos_proj.FileSys.Inode.Write.{inode_write_at-Writes}
use pintos_proj.FileSys.Store.{FileSystem, malloc, allocated, is_some, write_at}
use pintos_proj.FileSys.FreeMap.{
  bytes_of, bitmap_write, write_or_undo, free_map_allocate, free_map_release, save_map,
}

-- The file that the free map is written to, if there is one, is on a device that may be written.
pub record IsWritable (fs : FileSystem) (f : ℕ) : Type 0 where
  pub on_device : IsOnDevice (fs.inodes (fs.files f).inode) fs.device
  pub native : fs.device.foreign ≡ false

-- What a release of sectors keeps, and a write to a file.
pub record IsSameButMap (fs fs' : FileSystem) : Type 0 where
  pub free_map_file : fs'.free_map_file ≡ fs.free_map_file
  pub inodes : fs'.inodes ≡ fs.inodes
  pub open_inodes : fs'.open_inodes ≡ fs.open_inodes
  pub files : fs'.files ≡ fs.files
  pub size : fs'.device.size ≡ fs.device.size
  pub foreign : fs'.device.foreign ≡ fs.device.foreign

abbrev pub IsSameMeta : FileSystem → FileSystem → Type 0
IsSameMeta fs fs' = (fs'.free_map ≡ fs.free_map) × IsSameButMap fs fs'

pub IsWritable-same :
    (fs fs' : FileSystem) (f : ℕ) → IsSameButMap fs fs' → IsWritable fs f → IsWritable fs' f
IsWritable-same fs fs' f same w = record {
  on_device =
      subst (λ g. IsOnDevice (fs'.inodes (g f).inode) fs'.device) (sym same.files)
        (subst (λ g. IsOnDevice (g (fs.files f).inode) fs'.device) (sym same.inodes)
          (IsOnDevice-size (fs.inodes (fs.files f).inode) fs.device fs'.device same.size
            w.on_device));
  native = same.foreign ∙ w.native;
}

write_returns :
    (bounce : Bool) (ino : Inode) (d : Block) (m : Bytes) (size offset : ℕ)
    → IsOnDevice ino d
    → d.foreign ≡ false
    → (d' : Block) × (n : ℕ) × (inode_write_at bounce ino d m size offset ≡ ok (d', n))
      × (d'.size ≡ d.size)
      × (d'.foreign ≡ d.foreign)
unfolding inode_write_at
write_returns bounce ino d m size offset v native = elim (Bool-cases (ino.deny_write_cnt == 0)) [
  | inl e ↦
      let (d', n, q, le, all, w) =
        inode_write_at-Writes bounce ino d m size offset v native (ground (arith, e)) in
      (d', 0 + n, q, w.size, w.foreign)
  | inr e ↦ (d, 0, rw e, refl, refl)
]

-- bitmap_write returns, whether all of the map was written or not.
pub bitmap_write_returns :
    (b : Bitmap) (f : ℕ) (fs : FileSystem)
    → IsWritable fs f
    → (fs' : FileSystem) × (written : Bool) × (bitmap_write b f fs ≡ ok (fs', written))
      × IsSameMeta fs fs'
unfolding bitmap_write write_at
bitmap_write_returns b f fs w =
    let (d, n, e, size, foreign) =
      write_returns (is_some (malloc fs)) (fs.inodes (fs.files f).inode) fs.device (bytes_of b.bits)
        (byte_cnt b.bit_cnt) 0 w.on_device w.native in
    (
      record (allocated fs) { device = d },
      n == byte_cnt b.bit_cnt,
      rw e,
      (
        refl,
        record {
          free_map_file = refl;
          inodes = refl;
          open_inodes = refl;
          files = refl;
          size = size;
          foreign = foreign;
        },
      ),
    )

-- The free map with the first free run of sectors marked as used is not written as a whole to the file.
abbrev pub NotWritten : ℕ → FileSystem → Type 0
NotWritten cnt fs =
    (f : ℕ) × (fs.free_map_file ≡ some f)
    × (sector : ℕ) × (b : Bitmap) × IsFirstRun fs.free_map 0 cnt false sector
    × IsRangeSet fs.free_map sector cnt true b
    × (fs₁ : FileSystem) × (bitmap_write b f (record fs { free_map = b }) ≡ ok (fs₁, false))

-- There is no file for the free map, or the new map is written as a whole, which leads to `fs'`.
abbrev pub Written : FileSystem → FileSystem → Type 0
Written fs fs' =
    ((fs.free_map_file ≡ none) × (fs' ≡ record fs { free_map = fs'.free_map }))
    ⊎ ((f : ℕ) × (fs.free_map_file ≡ some f)
        × (bitmap_write fs'.free_map f (record fs { free_map = fs'.free_map }) ≡ ok (fs', true)))

-- What free_map_allocate comes to.
abbrev pub Allocates : ℕ → FileSystem → Outcome (FileSystem × Option ℕ) → Type 0
Allocates cnt fs r =
    ((fs' : FileSystem) × (r ≡ ok (fs', none))
      × (NoRun fs.free_map 0 cnt false ⊎ NotWritten cnt fs)
      × IsValid fs'.free_map
      × ((j : ℕ) → bit fs'.free_map j ≡ bit fs.free_map j))
    ⊎ ((fs' : FileSystem) × (sector : ℕ) × (r ≡ ok (fs', some sector))
        × IsFirstRun fs.free_map 0 cnt false sector
        × IsRangeSet fs.free_map sector cnt true fs'.free_map
        × Written fs fs'
        × IsSameButMap fs fs')

module _ (cnt : ℕ) (fs : FileSystem) (b : Bitmap) (sector : ℕ)
    (first : IsFirstRun fs.free_map 0 cnt false sector)
    (taken : IsRangeSet fs.free_map sector cnt true b) where
  abbrev marked : FileSystem
  marked = record fs { free_map = b }

  abbrev take_back : FileSystem → Outcome (FileSystem × Option ℕ)
  take_back fs₁ = do
    b' ← bitmap_set_multiple fs₁.free_map sector cnt false
    ok (record fs₁ { free_map = b' }, none)

  undo :
      (fs₁ : FileSystem)
      → fs₁.free_map ≡ b
      → (fs₂ : FileSystem) × (take_back fs₁ ≡ ok (fs₂, none))
        × IsValid fs₂.free_map
        × ((j : ℕ) → bit fs₂.free_map j ≡ bit fs.free_map j)
  undo fs₁ e =
      let (b', s, r) =
        bitmap_set_multiple_lem b sector cnt false taken.valid
          (subst (λ n. sector + cnt ≤ n) (sym taken.size) first.fits) in
      (
        record fs₁ { free_map = b' },
        rw e (rw s),
        r.valid,
        undone fs.free_map b b' sector cnt first.run taken r,
      )

  write_or_undo-Allocates :
      (found : Option ℕ)
      → fs.free_map_file ≡ found
      → ((f : ℕ) → found ≡ some f → IsWritable fs f)
      → Allocates cnt fs (write_or_undo sector cnt found marked)
  unfolding write_or_undo
  write_or_undo-Allocates none same_file w = inr (
    marked,
    sector,
    refl,
    first,
    taken,
    inl (same_file, refl),
    record {
      free_map_file = refl;
      inodes = refl;
      open_inodes = refl;
      files = refl;
      size = refl;
      foreign = refl;
    },
  )
  write_or_undo-Allocates (some f) same_file w =
      let u : IsWritable marked f = record {
        on_device = (w f refl).on_device;
        native = (w f refl).native;
      } in
      let (fs₁, written, e, (kept, same)) = bitmap_write_returns b f marked u in
      elim (Bool-cases written) [
        | inl t ↦ inr (
          fs₁,
          sector,
          rw e (rw t),
          first,
          subst (IsRangeSet fs.free_map sector cnt true) (sym kept) taken,
          inr (
            f,
            same_file,
            subst (λ m. bitmap_write m f (record fs { free_map = m }) ≡ ok (fs₁, true)) (sym kept)
                (e ∙ ap (λ c. ok (fs₁, c)) t),
          ),
          record {
            free_map_file = same.free_map_file;
            inodes = same.inodes;
            open_inodes = same.open_inodes;
            files = same.files;
            size = same.size;
            foreign = same.foreign;
          },
        )
        | inr t ↦
            let (fs₂, q, valid, bits) = undo fs₁ kept in
            inl (
              fs₂,
              rw e (rw t q),
              inr (f, same_file, sector, b, first, taken, fs₁, e ∙ ap (λ c. ok (fs₁, c)) t),
              valid,
              bits,
            )
      ]

-- With a valid free map, and its file, if there is one, on a device that may be written: for at least
-- one sector free_map_allocate returns. Either no run of free sectors
-- is long enough, or there is a file and the write of the map, with the first run of free sectors
-- marked, to it fails, and every bit of the free map is as it was; or it returns the first run of free
-- sectors of that length, marks just these as used, and either there is no file, or the write of that
-- map to it succeeds and leads to the new state, in which the open inodes and the size of the device
-- are as before.
pub free_map_allocate-Allocates :
    (cnt : ℕ) (fs : FileSystem)
    → IsValid fs.free_map
    → 0 < cnt
    → ((f : ℕ) → fs.free_map_file ≡ some f → IsWritable fs f)
    → Allocates cnt fs (free_map_allocate cnt fs)
unfolding free_map_allocate
free_map_allocate-Allocates cnt fs v pos w =
    elim (bitmap_scan_and_flip_lem fs.free_map 0 cnt false v (omega arith) pos) [
      | inl (e, none_free) ↦ inl (fs, rw e, inl none_free, v, λ j. refl)
      | inr (sector, b, e, first, taken) ↦
          rw (e, differs fs.free_map sector cnt v first.fits pos)
            (write_or_undo-Allocates cnt fs b sector first taken fs.free_map_file refl w)
    ]

-- With a valid free map whose file is on a device that may be written, free_map_release of sectors
-- that are in use returns with just their bits cleared; that the map may not have been written to its
-- file has no effect.
pub free_map_release_lem :
    (sector cnt : ℕ) (fs : FileSystem) (f : ℕ)
    → IsValid fs.free_map
    → fs.free_map_file ≡ some f
    → IsWritable fs f
    → sector + cnt ≤ fs.free_map.bit_cnt
    → Run fs.free_map sector cnt true
    → (fs' : FileSystem) × (free_map_release sector cnt fs ≡ ok fs')
      × IsRangeSet fs.free_map sector cnt false fs'.free_map
      × IsSameButMap fs fs'
unfolding free_map_release save_map
free_map_release_lem sector cnt fs f v file w fits used =
    let (b, s, r) = bitmap_set_multiple_lem fs.free_map sector cnt false v fits in
    let u : IsWritable (record fs { free_map = b }) f = record {
      on_device = w.on_device;
      native = w.native;
    } in
    let (fs', written, e, (kept, same)) = bitmap_write_returns b f (record fs { free_map = b }) u in
    (
      fs',
      rw (all_set fs.free_map sector cnt v fits used, s)
          (ap (λ o. save_map o (record fs { free_map = b })) file ∙ rw e),
      subst (IsRangeSet fs.free_map sector cnt false) (sym kept) r,
      record {
        free_map_file = same.free_map_file;
        inodes = same.inodes;
        open_inodes = same.open_inodes;
        files = same.files;
        size = same.size;
        foreign = same.foreign;
      },
    )
