-- ===== src/FileSys/Inodes/Opening.antt =====
-- filesys/inode.c: what inode_open returns.
use pintos_proj.Prelude.{
  ℕ, ◌+◌, ◌<◌, ◌≡◌, ◌%◌, ◌^◌, refl, sym, subst, ap, ◌∙◌, ◌⊎◌, inl, inr, false, ◌∷◌, Option, none,
  some, Option-cases, lt→ltb, arith, Outcome, ok,
}
use pintos_proj.FileSys.Block.{block_read}
use pintos_proj.FileSys.Inode.{Inode}
use pintos_proj.FileSys.Store.{FileSystem, update, set_inode, malloc, allocated}
use pintos_proj.FileSys.Inodes.{find_open, inode_reopen, open_new, inode_open, decode_inode}
use pintos_proj.FileSys.Inodes.Sharing.{
  IsInUse, IsApart, AreShared, IsNotIn, IsIn, update_self, AreShared-update, AreShared-new,
  IsApart-new, find_open_cases, IsInUse-IsIn, one_of_sector, finds,
}

-- The inodes that are open, one for each sector.
abbrev pub IsSharing : FileSystem → Type 0
IsSharing fs = AreShared fs.inodes fs.open_inodes

-- malloc gives memory that no open inode is in.
abbrev pub IsFresh : FileSystem → Type 0
IsFresh fs = (p : ℕ) → malloc fs ≡ some p → IsNotIn p fs.open_inodes

-- An inode of the sector that is open, with one opener more than before; or a new one, with the
-- contents of the sector.
abbrev OpenedAs : FileSystem → ℕ → FileSystem → ℕ → Type 0
OpenedAs fs sector fs' i =
    (IsIn i fs.open_inodes
      × (fs'.open_inodes ≡ fs.open_inodes)
      × (fs'.inodes i ≡ record (fs.inodes i) { open_cnt = (fs.inodes i).open_cnt + 1 }))
    ⊎ ((fs'.open_inodes ≡ i ∷ fs.open_inodes)
        × (fs'.inodes i ≡ record {
          sector = sector;
          open_cnt = 1;
          removed = false;
          deny_write_cnt = 0;
          inode_data = decode_inode (fs.device.sectors sector);
        }))

abbrev pub Opens : ℕ → FileSystem → Outcome (FileSystem × Option ℕ) → Type 0
Opens sector fs r =
    ((r ≡ ok (allocated fs, none)) × (malloc fs ≡ none))
    ⊎ ((fs' : FileSystem) × (i : ℕ) × (r ≡ ok (fs', some i))
        × IsIn i fs'.open_inodes
        × ((fs'.inodes i).sector ≡ sector)
        × IsSharing fs'
        × OpenedAs fs sector fs' i)

module _ (sector : ℕ) (fs : FileSystem) (shared : IsSharing fs) where
  Opens-again :
      (i : ℕ)
      → find_open fs.inodes sector fs.open_inodes ≡ some i
      → IsIn i fs.open_inodes
      → (fs.inodes i).sector ≡ sector
      → Opens sector fs (inode_open sector fs)
  unfolding inode_open inode_reopen
  Opens-again i found m s =
      let u = IsInUse-IsIn fs.inodes i fs.open_inodes shared m in
      let v : Inode = record (fs.inodes i) { open_cnt = (fs.inodes i).open_cnt + 1 } in
      inr (
        set_inode i v fs,
        i,
        rw (inode_open, found),
        m,
        ap (λ w. w.sector) (update_self fs.inodes i v) ∙ s,
        AreShared-update fs.inodes i v fs.open_inodes refl
            (record { opened = omega arith; denied = omega (arith, u.denied) }) shared,
        inl (m, refl, update_self fs.inodes i v),
      )

  abbrev new_inode : Inode
  new_inode = record {
    sector = sector;
    open_cnt = 1;
    removed = false;
    deny_write_cnt = 0;
    inode_data = decode_inode (fs.device.sectors sector);
  }

  abbrev opened_new : ℕ → FileSystem
  opened_new i = set_inode i new_inode (record (allocated fs) {
    device = record (fs.device) { read_cnt = (fs.device.read_cnt + 1) % 2 ^ 64 };
    open_inodes = i ∷ fs.open_inodes;
  })

  Opens-new :
      (i : ℕ)
      → find_open fs.inodes sector fs.open_inodes ≡ none
      → malloc fs ≡ some i
      → IsNotIn i fs.open_inodes
      → IsApart fs.inodes sector i fs.open_inodes
      → sector < fs.device.size
      → Opens sector fs (inode_open sector fs)
  unfolding inode_open open_new block_read IsIn AreShared
  Opens-new i found given fresh apart on_device =
      let v = new_inode in
      let e = update_self fs.inodes i v in
      inr (
        opened_new i,
        i,
        rw (inode_open, found, given) (rw (lt→ltb sector fs.device.size on_device)),
        inl refl,
        ap (λ w. w.sector) e,
        (
          subst IsInUse (sym e) (record { opened = omega arith; denied = omega arith }),
          subst (λ s. IsApart (update fs.inodes i v) s i fs.open_inodes)
              (sym (ap (λ w. w.sector) e))
              (IsApart-new fs.inodes i v sector i fs.open_inodes fresh apart),
          AreShared-new fs.inodes i v fs.open_inodes fresh shared,
        ),
        inr (refl, e),
      )

-- For a sector on the device, where the open inodes are one for each sector and malloc gives memory of
-- its own, inode_open returns NULL if no inode of the sector is open and there is no memory. Otherwise
-- it returns an open inode of the sector: the one that was open, with one opener more, or a new one
-- with the contents of the sector; and the open inodes are still one for each sector.
pub inode_open-Opens :
    (sector : ℕ) (fs : FileSystem)
    → IsSharing fs
    → IsFresh fs
    → sector < fs.device.size
    → Opens sector fs (inode_open sector fs)
unfolding inode_open
inode_open-Opens sector fs shared fresh on_device =
    elim (find_open_cases fs.inodes sector fs.open_inodes) [
      | inl (i, found, m, s) ↦ Opens-again sector fs shared i found m s
      | inr (found, apart) ↦ elim (Option-cases (malloc fs)) [
        | inl e ↦ Opens-none found e
        | inr (i, e) ↦
            Opens-new sector fs shared i found e (fresh i e) (apart i (fresh i e)) on_device
      ]
    ]
  where
    Opens-none :
        find_open fs.inodes sector fs.open_inodes ≡ none
        → malloc fs ≡ none
        → Opens sector fs (inode_open sector fs)
    Opens-none found e = inl (rw (inode_open, found, e), e)

-- Where an inode of the sector is open, inode_open returns just that inode, and counts one opener
-- more.
pub inode_open-IsIn :
    (sector i : ℕ) (fs : FileSystem)
    → IsSharing fs
    → IsIn i fs.open_inodes
    → (fs.inodes i).sector ≡ sector
    → inode_open sector fs ≡ ok (inode_reopen i fs, some i)
unfolding inode_open
inode_open-IsIn sector i fs shared m s = elim (find_open_cases fs.inodes sector fs.open_inodes) [
  | inl (j, found, n, t) ↦
      let e : j ≡ i = one_of_sector fs.inodes j i fs.open_inodes shared n m (t ∙ sym s) in
      rw (inode_open, found) (ap (λ k. ok (inode_reopen k fs, some k)) e)
  | inr (found, apart) ↦ absurd (not_found found)
]
  where
    not_found : ¬ (find_open fs.inodes sector fs.open_inodes ≡ none)
    not_found e = finds fs.inodes sector i fs.open_inodes m s e
