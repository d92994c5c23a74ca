-- ===== src/FileSys/Directory.antt =====
-- filesys/directory.c. A name is the list of its characters before the null character, none of which
-- is 0. A `struct dir_entry` is 20 bytes of memory: the sector, 15 bytes for the name, and in_use. What
-- a local variable of that type holds before it is assigned is a parameter, `junk`.
pub mod Lookup
use pintos_proj.Prelude.{
  ℕ, zero, suc, ◌+◌, ◌-◌, ◌*◌, ◌/◌, ◌%◌, ◌^◌, Bool, true, false, not, ◌&&◌, ◌||◌, List, [], ◌∷◌,
  Option, none, some, ltb, ◌==◌, if◌then◌else◌, length, get_or, min, Outcome, ok, out_of_fuel,
  ◌>>=◌,
}
use pintos_proj.FileSys.Bytes.{Bytes, byte_of, word_from, memcpy}
use pintos_proj.FileSys.Inode.{Inode, inode_length}
use pintos_proj.FileSys.Store.{Dir, FileSystem, malloc, allocated, set_dir, read_at, write_at}
use pintos_proj.FileSys.FreeMap.{root_dir_sector}
use pintos_proj.FileSys.Inodes.{inode_open, inode_reopen, inode_close, inode_create, inode_remove}

abbrev pub name_max : ℕ
name_max = 14

abbrev pub sizeof_entry : ℕ
sizeof_entry = 20

-- The members of a struct dir_entry.
abbrev pub inode_sector_of : Bytes → ℕ
inode_sector_of e = word_from e 0

abbrev pub in_use : Bytes → Bool
in_use e = not (e 19 == 0)

-- `e.in_use = b`
unfoldable pub set_in_use : Bool → Bytes → Bytes
set_in_use b e i = if i == 19 then (if b then 1 else 0) else e i

-- `e.inode_sector = sector`
unfoldable pub set_inode_sector : ℕ → Bytes → Bytes
set_inode_sector sector e i = if ltb i 4 then byte_of sector i else e i

-- strcmp (name, m + at) == 0
unfoldable pub same_name : List ℕ → Bytes → ℕ → Bool
same_name [] m at = m at == 0
same_name (c ∷ cs) m at = (c == m at) && same_name cs m (at + 1)

-- strlcpy (m + at, name, size), for a size that is not 0.
unfoldable pub strlcpy : Bytes → ℕ → List ℕ → ℕ → Bytes
strlcpy m at name size i =
    let dst_len = min (length name) (size - 1) in
    if i == at + dst_len then 0 else memcpy m at (λ j. get_or name j 0) 0 dst_len i

-- dir_create
unfoldable pub dir_create : ℕ → ℕ → FileSystem → Outcome (FileSystem × Bool)
dir_create sector entry_cnt fs = inode_create sector (entry_cnt * sizeof_entry) fs

-- dir_open
unfoldable pub dir_open : Option ℕ → FileSystem → Outcome (FileSystem × Option ℕ)
dir_open none fs = ok (allocated fs, none)
dir_open (some i) fs = elim (malloc fs) [
  | none ↦ do fs' ← inode_close (some i) (allocated fs); ok (fs', none)
  | some p ↦ ok (set_dir p (record { inode = i; pos = 0 }) (allocated fs), some p)
]

-- dir_open_root
unfoldable pub dir_open_root : FileSystem → Outcome (FileSystem × Option ℕ)
dir_open_root fs = do (fs', i) ← inode_open root_dir_sector fs; dir_open i fs'

-- dir_reopen
unfoldable pub dir_reopen : ℕ → FileSystem → Outcome (FileSystem × Option ℕ)
dir_reopen p fs = dir_open (some (fs.dirs p).inode) (inode_reopen (fs.dirs p).inode fs)

-- dir_close
unfoldable pub dir_close : Option ℕ → FileSystem → Outcome FileSystem
dir_close none fs = ok fs
dir_close (some p) fs = inode_close (some (fs.dirs p).inode) fs

abbrev pub dir_get_inode : FileSystem → ℕ → ℕ
dir_get_inode fs p = (fs.dirs p).inode

-- The loop of `lookup` from the entry at `ofs` on: the entry that is found, and its offset.
unfoldable pub lookup_loop :
    ℕ → ℕ → (Bytes → Bool) → ℕ → Bytes → FileSystem → Outcome (FileSystem × Bytes × Option ℕ × ℕ)
lookup_loop zero i test ofs e fs = out_of_fuel
lookup_loop (suc fuel) i test ofs e fs = do
  (fs', e', n) ← read_at i e sizeof_entry ofs fs
  elim (n == sizeof_entry) [
    | false ↦ ok (fs', e', none, ofs)
    | true ↦ elim (test e') [
      | true ↦ ok (fs', e', some ofs, ofs)
      | false ↦ lookup_loop fuel i test (ofs + sizeof_entry) e' fs'
    ]
  ]

-- Each round but the last reads an entry of the file.
abbrev pub rounds : FileSystem → ℕ → ℕ
rounds fs i = suc (inode_length (fs.inodes i))

-- The test of `lookup`.
abbrev pub is_named : List ℕ → Bytes → Bool
is_named name e = in_use e && same_name name e 4

-- lookup
unfoldable pub lookup : ℕ → List ℕ → Bytes → FileSystem → Outcome (FileSystem × Option (Bytes × ℕ))
lookup p name junk fs = do
  let i = (fs.dirs p).inode
  (fs', e, found, ofs) ← lookup_loop (rounds fs i) i (is_named name) 0 junk fs
  elim found [ none ↦ ok (fs', none) | some at ↦ ok (fs', some (e, at)) ]

-- dir_lookup: the inode, or none.
unfoldable pub dir_lookup : ℕ → List ℕ → Bytes → FileSystem → Outcome (FileSystem × Option ℕ)
dir_lookup p name junk fs = do
  (fs', found) ← lookup p name junk fs
  elim found [ none ↦ ok (fs', none) | some (e, ofs) ↦ inode_open (inode_sector_of e) fs' ]

-- The end of dir_add, at the entry that was read last and its offset.
unfoldable pub write_slot : ℕ → List ℕ → ℕ → Bytes → ℕ → FileSystem → Outcome (FileSystem × Bool)
write_slot i name inode_sector e ofs fs = do
  let entry = set_inode_sector inode_sector (strlcpy (set_in_use true e) 4 name (name_max + 1))
  (fs', n) ← write_at i entry sizeof_entry ofs fs
  ok (fs', n == sizeof_entry)

-- dir_add
unfoldable pub dir_add : ℕ → List ℕ → ℕ → Bytes → FileSystem → Outcome (FileSystem × Bool)
dir_add p name inode_sector junk fs =
    if (length name == 0) || ltb name_max (length name) then ok (fs, false) else (do
      (fs', found) ← lookup p name junk fs
      elim found [
        | some entry ↦ ok (fs', false)
        | none ↦ do
          let i = (fs'.dirs p).inode
          (fs'', e, free, ofs) ← lookup_loop (rounds fs' i) i (λ e. not (in_use e)) 0 junk fs'
          write_slot i name inode_sector e ofs fs''
      ])

-- The part of dir_remove that has the entry and its inode open.
unfoldable pub erase_entry : ℕ → Bytes → ℕ → ℕ → FileSystem → Outcome (FileSystem × Bool)
erase_entry p e ofs i fs = do
  (fs', n) ← write_at (fs.dirs p).inode (set_in_use false e) sizeof_entry ofs fs
  let success = n == sizeof_entry
  fs'' ← inode_close (some i) (if success then inode_remove i fs' else fs')
  ok (fs'', success)

-- dir_remove
unfoldable pub dir_remove : ℕ → List ℕ → Bytes → FileSystem → Outcome (FileSystem × Bool)
dir_remove p name junk fs = do
  (fs', found) ← lookup p name junk fs
  elim found [
    | none ↦ ok (fs', false)
    | some (e, ofs) ↦ do
      (fs'', opened) ← inode_open (inode_sector_of e) fs'
      elim opened [ none ↦ ok (fs'', false) | some i ↦ erase_entry p e ofs i fs'' ]
  ]

-- The loop of dir_readdir: the entry in use that comes next.
unfoldable pub readdir_loop : ℕ → ℕ → Bytes → FileSystem → Outcome (FileSystem × Option Bytes)
readdir_loop zero p e fs = out_of_fuel
readdir_loop (suc fuel) p e fs = do
  let d = fs.dirs p
  (fs', e', n) ← read_at d.inode e sizeof_entry d.pos fs
  elim (n == sizeof_entry) [
    | false ↦ ok (fs', none)
    | true ↦ do
      let moved = set_dir p (record d { pos = d.pos + sizeof_entry }) fs'
      elim (in_use e') [ true ↦ ok (moved, some e') | false ↦ readdir_loop fuel p e' moved ]
  ]

-- dir_readdir, with the entry whose name it copies out.
unfoldable pub dir_readdir : ℕ → Bytes → FileSystem → Outcome (FileSystem × Option Bytes)
dir_readdir p junk fs = readdir_loop (rounds fs (fs.dirs p).inode) p junk fs
