-- ===== src/FileSys/Tests.antt =====
-- Runs on a small device, and each theorem at an input.
use pintos_proj.Prelude.{
  ◌>>=◌, Outcome, Option, none, some, [], ◌∷◌, ℕ, ◌+◌, ◌*◌, ◌%◌, ◌<◌, ◌≡◌, refl, true, false, arith,
  ok,
}
use pintos_proj.FileSys.Bytes.{Bytes}
use pintos_proj.FileSys.Block.{Block}
use pintos_proj.FileSys.Inode.{Inode, inode_read_at, inode_write_at}
use pintos_proj.FileSys.Inode.Read.{IsOnDevice, Reads, inode_read_at-Reads}
use pintos_proj.FileSys.Inode.Write.{Writes, inode_write_at-Writes}
use pintos_proj.FileSys.Store.{FileSystem}
use pintos_proj.FileSys.Calls.{filesys_init, filesys_create, filesys_open}
use pintos_proj.FileSys.Inode.Roundtrip.{read_after_write}

abbrev disk : Block
disk = record {
  sectors = λ s o. (7 * s + o) % 256;
  size = 10;
  foreign = false;
  read_cnt = 0;
  write_cnt = 0;
}

-- A file of 1200 bytes in sectors 2, 3 and 4.
abbrev file : Inode
file = record {
  sector = 1;
  open_cnt = 1;
  removed = false;
  deny_write_cnt = 0;
  inode_data = record { start = 2; length = 1200; magic = 0x494e4f44 };
}

abbrev space : Bytes
space i = 0

file-IsOnDevice : IsOnDevice file disk
file-IsOnDevice = (omega arith, λ pos h. omega arith)

inode_read_at-Reads_example :
    Reads true file disk space 700 600 0 (inode_read_at true file disk space 700 600)
inode_read_at-Reads_example = inode_read_at-Reads true file disk space 700 600 file-IsOnDevice

inode_write_at-Writes_example :
    Writes true file disk space 700 100 0 (inode_write_at true file disk space 700 100)
inode_write_at-Writes_example =
    inode_write_at-Writes true file disk space 700 100 file-IsOnDevice refl refl

read_after_write_example :
    (d' : Block) × (d'' : Block) × (space' : Bytes) × (inode_write_at true file disk
        (λ i. 9)
        700
        100
      ≡ ok (d', 700))
    × (inode_read_at true file d' space 700 100 ≡ ok (d'', space', 700))
    × ((i : ℕ) → i < 700 → space' i ≡ 9)
read_after_write_example =
    read_after_write file disk (λ i. 9) space 700 100 file-IsOnDevice refl refl (omega arith)

-- A device of 40 sectors with no file system on it, and memory for every allocation.
abbrev blank : FileSystem
blank = record {
  device = record { sectors = λ s o. 0; size = 40; foreign = false; read_cnt = 0; write_cnt = 0 };
  free_map = record { bit_cnt = 0; bits = [] };
  free_map_file = none;
  inodes = λ i. file;
  files = λ f. record { inode = 0; pos = 0; deny_write = false };
  dirs = λ p. record { inode = 0; pos = 0 };
  open_inodes = [];
  allocations = λ n. some (100 + n);
}

-- Formatting, creating a file of 600 bytes, and then opening it.
abbrev session : Outcome (Option ℕ)
session = do
  fs₁ ← filesys_init true (some blank.device) (some (0 ∷ 0 ∷ [])) blank
  (fs₂, created) ← filesys_create (97 ∷ 98 ∷ []) 600 space fs₁
  (fs₃, opened) ← filesys_open (97 ∷ 98 ∷ []) space fs₂
  ok (elim opened [
    | none ↦ none
    | some f ↦ some (fs₃.inodes (fs₃.files f).inode).inode_data.length
  ])
