-- ===== src/FileSys/Inodes/Closing.antt =====
-- What inode_close does to the open inodes and to the free map.
use native.Mathlib.Decide.{ℕ_discrete}
use pintos_proj.Prelude.{
  ℕ, ◌+◌, ◌-◌, ◌≤◌, ◌<◌, ◌≡◌, ◌≢◌, sym, subst, ap, ◌∙◌, Bool, true, false, List, [], ◌∷◌, some,
  ◌==◌, ◌||◌, if◌then◌else◌, arith, ok, ◌>>=◌,
}
use pintos_proj.KernelLib.Bitmap.Single.{bit, IsValid}
use pintos_proj.KernelLib.Bitmap.Range.{Run, within}
use pintos_proj.FileSys.Inode.Read.{IsOnDevice}
use pintos_proj.FileSys.Inode.{Inode, bytes_to_sectors}
use pintos_proj.FileSys.Store.{FileSystem, set_inode}
use pintos_proj.FileSys.FreeMap.{free_map_release}
use pintos_proj.FileSys.FreeMap.Allocate.{IsWritable, IsWritable-same, free_map_release_lem}
use pintos_proj.FileSys.Inodes.{inode_close, close_last, deallocate, remove_inode}
use pintos_proj.FileSys.Inodes.Sharing.{IsApart, AreShared, update_self, update_other}

remove-IsApart :
    (f : ℕ → Inode) (s x i : ℕ) (xs : List ℕ) → IsApart f s x xs → IsApart f s x (remove_inode i xs)
unfolding IsApart remove_inode
remove-IsApart f s x i [] a = tt
remove-IsApart f s x i (y ∷ ys) (ne, differs, rest) = elim (ℕ_discrete y i) [
  | yes e ↦ let t : (y == i) ≡ true = ground (arith, e) in rw t rest
  | no n ↦
      let t : (y == i) ≡ false = ground (arith, n) in
      rw t (ne, differs, remove-IsApart f s x i ys rest)
]

remove-AreShared :
    (f : ℕ → Inode) (i : ℕ) (xs : List ℕ) → AreShared f xs → AreShared f (remove_inode i xs)
unfolding AreShared remove_inode
remove-AreShared f i [] a = tt
remove-AreShared f i (y ∷ ys) (used, apart, rest) = elim (ℕ_discrete y i) [
  | yes e ↦ let t : (y == i) ≡ true = ground (arith, e) in rw t rest
  | no n ↦
      let t : (y == i) ≡ false = ground (arith, n) in
      rw t (used, remove-IsApart f (f y).sector y i ys apart, remove-AreShared f i ys rest)
]

-- The state in which the last opener of an inode has gone.
abbrev let_go : ℕ → FileSystem → FileSystem
let_go i fs = record (set_inode i (record (fs.inodes i) { open_cnt = 0 }) fs) {
  open_inodes = remove_inode i fs.open_inodes;
}

-- What the last inode_close of an inode that was removed does.
close_eq :
    (i : ℕ) (fs : FileSystem)
    → (fs.inodes i).open_cnt ≡ 1
    → (fs.inodes i).removed ≡ true
    → inode_close (some i) fs ≡ (do
      fs' ← free_map_release (fs.inodes i).sector 1 (let_go i fs)
      free_map_release
          (fs.inodes i).inode_data.start
          (bytes_to_sectors (fs.inodes i).inode_data.length)
          fs')
unfolding inode_close close_last deallocate
close_eq i fs last gone =
    let v : Inode = record (fs.inodes i) { open_cnt = 0 } in
    let one : ((fs.inodes i).open_cnt == 1) ≡ true = ground (arith, last) in
    let zero_left : (fs.inodes i).open_cnt - 1 ≡ 0 = omega (arith, last) in
    rw one (
      ap (λ n. close_last i (set_inode i (record (fs.inodes i) { open_cnt = n }) fs)) zero_left
      ∙ (ap (λ x. deallocate x (let_go i fs)) (update_self fs.inodes i v) ∙ rw gone))

-- Two releases of sectors that are in use, of which the second does not have the first's sector.
release_twice :
    (sector start n f : ℕ) (fs : FileSystem)
    → IsValid fs.free_map
    → fs.free_map_file ≡ some f
    → IsWritable fs f
    → sector + 1 ≤ fs.free_map.bit_cnt
    → start + n ≤ fs.free_map.bit_cnt
    → Run fs.free_map sector 1 true
    → Run fs.free_map start n true
    → within start n sector ≡ false
    → (fs' : FileSystem) × ((do fs'' ← free_map_release sector 1 fs; free_map_release start n fs'')
        ≡ ok fs')
      × (fs'.open_inodes ≡ fs.open_inodes)
      × ((j : ℕ)
          → bit fs'.free_map j
            ≡ (if within start n j || (j == sector) then false else bit fs.free_map j))
release_twice sector start n f fs v file w in_map data_in used data_used outside =
    let (fs₁, e₁, r₁, k₁) = free_map_release_lem sector 1 fs f v file w in_map used in
    let still : (j : ℕ) → start ≤ j → j < start + n → bit fs₁.free_map j ≡ true =
      λ j lo hi. r₁.bits_are j ∙ still_used j lo hi in
    let (fs₂, e₂, r₂, k₂) =
      free_map_release_lem start n fs₁ f r₁.valid (k₁.free_map_file ∙ file)
        (IsWritable-same fs fs₁ f k₁ w) (omega (arith, r₁.size)) still in
    (
      fs₂,
      rw e₁ e₂,
      k₂.open_inodes ∙ k₁.open_inodes,
      λ j. r₂.bits_are j ∙ both j (bit fs₁.free_map j) (r₁.bits_are j),
    )
  where
    still_used :
        (j : ℕ)
        → start ≤ j
        → j < start + n
        → (if within sector 1 j then false else bit fs.free_map j) ≡ true
    still_used j lo hi =
        let e : within sector 1 j ≡ false = ground (arith, outside) in rw e (data_used j lo hi)

    both :
        (j : ℕ) (b : Bool)
        → b ≡ (if within sector 1 j then false else bit fs.free_map j)
        → (if within start n j then false else b)
          ≡ (if within start n j || (j == sector) then false else bit fs.free_map j)
    both j b e = ground (arith, e)

-- The last inode_close of an inode that was removed frees the sector of the inode and those of its
-- data, and no other: with a valid free map, whose file is another one on a device that may be written,
-- in which all these sectors are marked as used and the inode's own is not one of its data.
pub inode_close-frees :
    (i f : ℕ) (fs : FileSystem)
    → (fs.inodes i).open_cnt ≡ 1
    → (fs.inodes i).removed ≡ true
    → IsValid fs.free_map
    → fs.free_map_file ≡ some f
    → IsWritable fs f
    → (fs.files f).inode ≢ i
    → (fs.inodes i).sector < fs.free_map.bit_cnt
    → (fs.inodes i).inode_data.start + bytes_to_sectors (fs.inodes i).inode_data.length
      ≤ fs.free_map.bit_cnt
    → Run fs.free_map (fs.inodes i).sector 1 true
    → Run fs.free_map
        (fs.inodes i).inode_data.start
        (bytes_to_sectors (fs.inodes i).inode_data.length)
        true
    → within
        (fs.inodes i).inode_data.start
        (bytes_to_sectors (fs.inodes i).inode_data.length)
        (fs.inodes i).sector
      ≡ false
    → (fs' : FileSystem) × (inode_close (some i) fs ≡ ok fs')
      × (fs'.open_inodes ≡ remove_inode i fs.open_inodes)
      × ((j : ℕ)
          → bit fs'.free_map j ≡ (
              if within
                  (fs.inodes i).inode_data.start
                  (bytes_to_sectors (fs.inodes i).inode_data.length)
                  j
                || (j == (fs.inodes i).sector)
              then false
              else bit fs.free_map j))
inode_close-frees i f fs last gone v file w other in_map data_in used data_used outside =
    let v₁ = fs.inodes i in
    let (fs', e, kept, bits) =
      release_twice v₁.sector v₁.inode_data.start (bytes_to_sectors v₁.inode_data.length) f
        (let_go i fs) v file writable (omega arith) data_in used data_used outside in
    (fs', close_eq i fs last gone ∙ e, kept, bits)
  where
    writable : IsWritable (let_go i fs) f
    writable = record {
      on_device =
          subst (λ x. IsOnDevice x fs.device)
            (sym (update_other fs.inodes i (fs.files f).inode _ (λ e. other (sym e)))) w.on_device;
      native = w.native;
    }
