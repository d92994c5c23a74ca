-- ===== src/FileSys/Mounted.antt =====
-- Runs of the file system on a small device, and the theorems of inode_open and the functions below it
-- at an input.
use pintos_proj.Prelude.{
  ok, some, List, [], ◌∷◌, true, false, ℕ, zero, suc, ◌+◌, ◌≤◌, ◌<◌, ◌≡◌, ◌⊎◌, none, false, refl,
  arith, ◌==◌, if◌then◌else◌, get_or, inl, inr, ◌||◌,
}
use pintos_proj.KernelLib.Bitmap.Single.{bit, IsValid}
use pintos_proj.KernelLib.Bitmap.Range.{Run, IsRangeSet, within}
use pintos_proj.FileSys.Inode.{Inode, bytes_to_sectors}
use pintos_proj.FileSys.Inode.Read.{IsOnDevice}
use pintos_proj.FileSys.Store.{FileSystem, malloc, allocated}
use pintos_proj.FileSys.FreeMap.{free_map_allocate, free_map_release}
use pintos_proj.FileSys.FreeMap.Allocate.{
  IsWritable, Allocates, IsSameButMap, free_map_allocate-Allocates, free_map_release_lem,
}
use pintos_proj.FileSys.Inodes.{inode_create, inode_open, inode_close, inode_reopen, remove_inode}
use pintos_proj.FileSys.Inodes.Sharing.{AreShared, IsApart, IsIn, IsNotIn}
use pintos_proj.FileSys.Inodes.Opening.{
  IsSharing, IsFresh, Opens, inode_open-Opens, inode_open-IsIn,
}
use pintos_proj.FileSys.Inodes.Creating.{Creates, inode_create-Creates}
use pintos_proj.FileSys.Inodes.Closing.{inode_close-frees}
use pintos_proj.FileSys.Directory.{lookup}
use pintos_proj.FileSys.Directory.Lookup.{LooksUp, lookup-LooksUp}

-- A file of 600 bytes in sectors 2 and 3, which was removed while it is open.
abbrev doomed : Inode
doomed = record {
  sector = 4;
  open_cnt = 1;
  removed = true;
  deny_write_cnt = 0;
  inode_data = record { start = 2; length = 600; magic = 0x494e4f44 };
}

-- A file of 100 bytes in sector 5, which is open twice.
abbrev shared : Inode
shared = record {
  sector = 1;
  open_cnt = 2;
  removed = false;
  deny_write_cnt = 0;
  inode_data = record { start = 5; length = 100; magic = 0x494e4f44 };
}

-- Two directory entries: `a`, which is not in use, and `ab` in sector 4, which is.
abbrev entries : List ℕ
entries =
    9 ∷ 0 ∷ 0 ∷ 0 ∷ 97 ∷ 0 ∷ 0 ∷ 0 ∷ 0 ∷ 0 ∷ 0 ∷ 0 ∷ 0 ∷ 0 ∷ 0 ∷ 0 ∷ 0 ∷ 0 ∷ 0 ∷ 0 ∷ 4 ∷ 0 ∷ 0 ∷ 0
    ∷ 97 ∷ 98 ∷ 0 ∷ 0 ∷ 0 ∷ 0 ∷ 0 ∷ 0 ∷ 0 ∷ 0 ∷ 0 ∷ 0 ∷ 0 ∷ 0 ∷ 0 ∷ 1 ∷ []

-- Sectors 0 to 4 are in use. Inode 5 is the removed file, every other one the shared file.
abbrev mounted : FileSystem
mounted = record {
  device = record {
    sectors = λ s o. get_or entries o 0;
    size = 40;
    foreign = false;
    read_cnt = 0;
    write_cnt = 0;
  };
  free_map = record { bit_cnt = 40; bits = 31 ∷ 0 ∷ [] };
  free_map_file = some 3;
  inodes = λ i. if i == 5 then doomed else shared;
  files = λ f. record { inode = 0; pos = 0; deny_write = false };
  dirs = λ p. record { inode = 0; pos = 0 };
  open_inodes = 0 ∷ 5 ∷ [];
  allocations = λ n. some (100 + n);
}

mounted-IsValid : IsValid mounted.free_map
mounted-IsValid = record { stored = omega arith; small = omega arith }

mounted-IsOnDevice : IsOnDevice shared mounted.device
mounted-IsOnDevice = (omega arith, λ pos h. omega arith)

mounted-IsWritable : (f : ℕ) → IsWritable mounted f
mounted-IsWritable f = record { on_device = mounted-IsOnDevice; native = refl }

bit_used : (j : ℕ) → j < 5 → bit mounted.free_map j ≡ true
unfolding bit
bit_used zero h = refl
bit_used (suc zero) h = refl
bit_used (suc (suc zero)) h = refl
bit_used (suc (suc (suc zero))) h = refl
bit_used (suc (suc (suc (suc zero)))) h = refl
bit_used (suc (suc (suc (suc (suc j))))) h = absurd (omega arith)

mounted-Run : (start cnt : ℕ) → start + cnt ≤ 5 → Run mounted.free_map start cnt true
mounted-Run start cnt h j lo hi = bit_used j (omega arith)

mounted-IsSharing : IsSharing mounted
unfolding AreShared IsApart
mounted-IsSharing = (
  record { opened = omega arith; denied = omega arith },
  (omega arith, omega arith, tt),
  (record { opened = omega arith; denied = omega arith }, tt, tt),
)

mounted-IsFresh : IsFresh mounted
unfolding IsNotIn
mounted-IsFresh p e = (λ q. ground (arith, e, q), (λ q. ground (arith, e, q), tt))

free_map_allocate-Allocates_example : Allocates 3 mounted (free_map_allocate 3 mounted)
free_map_allocate-Allocates_example =
    free_map_allocate-Allocates 3 mounted mounted-IsValid (omega arith)
      (λ f e. mounted-IsWritable f)

free_map_release_lem_example :
    (fs' : FileSystem) × (free_map_release 1 2 mounted ≡ ok fs')
    × IsRangeSet mounted.free_map 1 2 false fs'.free_map
    × IsSameButMap mounted fs'
free_map_release_lem_example =
    free_map_release_lem 1 2 mounted 3 mounted-IsValid refl (mounted-IsWritable 3) (omega arith)
      (mounted-Run 1 2 (omega arith))

inode_open-Opens_example : Opens 9 mounted (inode_open 9 mounted)
inode_open-Opens_example =
    inode_open-Opens 9 mounted mounted-IsSharing mounted-IsFresh (omega arith)

mounted-IsIn : IsIn 5 mounted.open_inodes
unfolding IsIn
mounted-IsIn = inr (inl refl)

inode_open-IsIn_example : inode_open 4 mounted ≡ ok (inode_reopen 5 mounted, some 5)
inode_open-IsIn_example = inode_open-IsIn 4 5 mounted mounted-IsSharing mounted-IsIn refl

inode_create-Creates_example :
    ((malloc mounted ≡ none) × (inode_create 3 1000 mounted ≡ ok (allocated mounted, false)))
    ⊎ Creates 2 3 1000 (allocated mounted) (inode_create 3 1000 mounted)
inode_create-Creates_example =
    inode_create-Creates 3 1000 mounted mounted-IsValid (omega arith) (omega arith)
      (λ f e. mounted-IsWritable f) refl (omega arith) (omega arith) (omega arith)
      (bit_used 3 (omega arith))

inode_close-frees_example :
    (fs' : FileSystem) × (inode_close (some 5) mounted ≡ ok fs')
    × (fs'.open_inodes ≡ remove_inode 5 (0 ∷ 5 ∷ []))
    × ((j : ℕ)
        → bit fs'.free_map j ≡ (
            if within 2 (bytes_to_sectors 600) j || (j == 4)
            then false
            else bit mounted.free_map j))
inode_close-frees_example =
    inode_close-frees 5 3 mounted refl refl mounted-IsValid refl (mounted-IsWritable 3)
      (λ e. ground (arith, e)) (omega arith) (omega arith) (mounted-Run 4 1 (omega arith))
      (mounted-Run 2 2 (omega arith)) refl

lookup-LooksUp_example :
    LooksUp 0 (97 ∷ 98 ∷ []) (λ i. 7) mounted (lookup 0 (97 ∷ 98 ∷ []) (λ i. 7) mounted)
lookup-LooksUp_example =
    lookup-LooksUp 0 (97 ∷ 98 ∷ []) (λ i. 7) mounted mounted-IsOnDevice (λ n. refl)
