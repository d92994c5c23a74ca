-- ===== src/FileSys/Directory/Lookup.antt =====
-- The search of a directory, entry by entry.
use std.Path.{fun_ext}
use pintos_proj.Prelude.{
  ℕ, zero, suc, ◌+◌, ◌-◌, ◌*◌, ◌/◌, ◌%◌, ◌≤◌, ◌<◌, ◌≡◌, refl, sym, subst, ap, ◌∙◌, ◌⊎◌, inl, inr,
  Bool, true, false, List, Option, none, some, leb, ltb, ◌==◌, if◌then◌else◌, Bool-cases, arith,
  Outcome, ok,
}
use pintos_proj.FileSys.Bytes.{Bytes}
use pintos_proj.FileSys.Block.{Block}
use pintos_proj.FileSys.Inode.{Inode, inode_length}
use pintos_proj.FileSys.Inode.Read.{
  IsOnDevice, IsOnDevice-size, content, Reads, inode_read_at-Reads,
}
use pintos_proj.FileSys.Inode.Roundtrip.{given}
use pintos_proj.FileSys.Store.{FileSystem, allocated, is_some, read_at}
use pintos_proj.FileSys.Directory.{lookup_loop, lookup, is_named, rounds, sizeof_entry}

-- The entry at an offset of the file, in memory that held `junk`.
abbrev pub entry_at : Inode → Block → Bytes → ℕ → Bytes
entry_at ino d junk ofs k = if ltb k 20 then content ino d (ofs + k) else junk k

-- What reading a file keeps.
pub record IsSameFiles (fs fs' : FileSystem) : Type 0 where
  pub sectors : fs'.device.sectors ≡ fs.device.sectors
  pub size : fs'.device.size ≡ fs.device.size
  pub inodes : fs'.inodes ≡ fs.inodes
  pub dirs : fs'.dirs ≡ fs.dirs
  pub open_inodes : fs'.open_inodes ≡ fs.open_inodes

-- There is memory for every bounce buffer.
abbrev pub HasMemory : FileSystem → Type 0
HasMemory fs = (n : ℕ) → is_some (fs.allocations n) ≡ true

whole_entry :
    (ino : Inode) (d : Block) (junk e : Bytes) (ofs : ℕ) (r : Outcome (Block × Bytes × ℕ))
    → ((k : ℕ) → 20 ≤ k → e k ≡ junk k)
    → ofs + 20 ≤ inode_length ino
    → Reads true ino d e 20 ofs 0 r
    → (d' : Block) × (r ≡ ok (d', entry_at ino d junk ofs, 20))
      × (d'.sectors ≡ d.sectors)
      × (d'.size ≡ d.size)
whole_entry ino d junk e ofs r beyond fits (d', e', n, q, low, all, same, held) = (
  d',
  q
      ∙ (ap (λ b. ok (d', b, 0 + n)) (fun_ext bytes)
          ∙ ap (λ m. ok (d', entry_at ino d junk ofs, m)) n_all),
  same.sectors,
  same.size,
)
  where
    n_all : 0 + n ≡ 20
    n_all = omega (arith, given all)

    bytes : (k : ℕ) → e' k ≡ entry_at ino d junk ofs k
    bytes k = elim (Bool-cases (ltb k 20)) [
      | inl t ↦
          let c : content ino d (ofs + (k - 0)) ≡ content ino d (ofs + k) =
            ap (content ino d) (omega arith) in
          held k ∙ ground (arith, c, n_all, t)
      | inr t ↦ held k ∙ ground (arith, beyond k (ground (arith, t)), n_all, t)
    ]

short_entry :
    (ino : Inode) (d : Block) (e : Bytes) (ofs : ℕ) (r : Outcome (Block × Bytes × ℕ))
    → inode_length ino < ofs + 20
    → Reads true ino d e 20 ofs 0 r
    → (d' : Block) × (e' : Bytes) × (n : ℕ) × (r ≡ ok (d', e', n))
      × ((n == sizeof_entry) ≡ false)
      × (d'.sectors ≡ d.sectors)
      × (d'.size ≡ d.size)
short_entry ino d e ofs r short (d', e', n, q, low, all, same, held) =
    (d', e', 0 + n, q, ground (arith, low), same.sectors, same.size)

-- Reading the entries of the file of `i`, from a state that has what `fs₀` has.
module _ (fs₀ : FileSystem) (i : ℕ) (v : IsOnDevice (fs₀.inodes i) fs₀.device) (junk : Bytes) where
  abbrev len : ℕ
  len = inode_length (fs₀.inodes i)

  abbrev pub entry : ℕ → Bytes
  entry ofs = entry_at (fs₀.inodes i) fs₀.device junk ofs

  entry_same :
      (fs : FileSystem) (ofs : ℕ)
      → IsSameFiles fs₀ fs
      → entry_at (fs.inodes i) fs.device junk ofs ≡ entry ofs
  entry_same fs ofs same =
      ap (λ g. entry_at (g i) fs.device junk ofs) same.inodes
      ∙ ap
          (λ s k.
            if ltb k 20
            then s ((fs₀.inodes i).inode_data.start + (ofs + k) / 512) ((ofs + k) % 512)
            else junk k)
          same.sectors

  on_device : (fs : FileSystem) → IsSameFiles fs₀ fs → IsOnDevice (fs.inodes i) fs.device
  on_device fs same =
      subst (λ g. IsOnDevice (g i) fs.device) (sym same.inodes)
        (IsOnDevice-size (fs₀.inodes i) fs₀.device fs.device same.size v)

  read_entry :
      (fs : FileSystem) (e : Bytes) (ofs : ℕ)
      → IsSameFiles fs₀ fs
      → HasMemory fs
      → ((k : ℕ) → 20 ≤ k → e k ≡ junk k)
      → ofs + 20 ≤ len
      → (fs' : FileSystem) × (read_at i e sizeof_entry ofs fs ≡ ok (fs', entry ofs, sizeof_entry))
        × IsSameFiles fs₀ fs'
        × HasMemory fs'
  unfolding read_at
  read_entry fs e ofs same memory beyond fits =
      let inode_same = ap (λ g. inode_length (g i)) same.inodes in
      let (d, q, sectors, size) =
        whole_entry (fs.inodes i) fs.device junk e ofs _ beyond (omega (arith, inode_same))
          (inode_read_at-Reads true (fs.inodes i) fs.device e 20 ofs (on_device fs same)) in
      (
        record (allocated fs) { device = d },
        rw (memory 0, q)
            (ap (λ b. ok (record (allocated fs) { device = d }, b, 20)) (entry_same fs ofs same)),
        record {
          sectors = sectors ∙ same.sectors;
          size = size ∙ same.size;
          inodes = same.inodes;
          dirs = same.dirs;
          open_inodes = same.open_inodes;
        },
        λ n. memory (n + 1),
      )

  read_short :
      (fs : FileSystem) (e : Bytes) (ofs : ℕ)
      → IsSameFiles fs₀ fs
      → HasMemory fs
      → len < ofs + 20
      → (fs' : FileSystem) × (e' : Bytes) × (n : ℕ) × (read_at i e sizeof_entry ofs fs
          ≡ ok (fs', e', n))
        × ((n == sizeof_entry) ≡ false)
        × IsSameFiles fs₀ fs'
        × HasMemory fs'
  unfolding read_at
  read_short fs e ofs same memory short =
      let inode_same = ap (λ g. inode_length (g i)) same.inodes in
      let (d, e', n, q, differs, sectors, size) =
        short_entry (fs.inodes i) fs.device e ofs _ (omega (arith, inode_same))
          (inode_read_at-Reads true (fs.inodes i) fs.device e 20 ofs (on_device fs same)) in
      (
        record (allocated fs) { device = d },
        e',
        n,
        rw (memory 0, q),
        differs,
        record {
          sectors = sectors ∙ same.sectors;
          size = size ∙ same.size;
          inodes = same.inodes;
          dirs = same.dirs;
          open_inodes = same.open_inodes;
        },
        λ k. memory (k + 1),
      )

  -- The first entry from `ofs` on that passes the test, or none.
  abbrev pub Searches : (Bytes → Bool) → ℕ → Outcome (FileSystem × Bytes × Option ℕ × ℕ) → Type 0
  Searches test ofs r =
      ((fs' : FileSystem) × (k : ℕ) × (r
          ≡ ok (fs', entry (ofs + 20 * k), some (ofs + 20 * k), ofs + 20 * k))
        × (ofs + 20 * k + 20 ≤ len)
        × (test (entry (ofs + 20 * k)) ≡ true)
        × ((j : ℕ) → j < k → test (entry (ofs + 20 * j)) ≡ false)
        × IsSameFiles fs₀ fs'
        × HasMemory fs')
      ⊎ ((fs' : FileSystem) × (e' : Bytes) × (last : ℕ) × (r ≡ ok (fs', e', none, last))
          × (len < last + 20)
          × ((j : ℕ) → ofs + 20 * j + 20 ≤ len → test (entry (ofs + 20 * j)) ≡ false)
          × IsSameFiles fs₀ fs'
          × HasMemory fs')

  -- Before the first entry that passes comes one that does not.
  not_before :
      (test : Bytes → Bool) (ofs m : ℕ)
      → test (entry ofs) ≡ false
      → ((j : ℕ) → j < m → test (entry (ofs + 20 + 20 * j)) ≡ false)
      → (j : ℕ) → j < suc m
      → test (entry (ofs + 20 * j)) ≡ false
  not_before test ofs m fails rest zero h = ap (λ o. test (entry o)) (omega arith) ∙ fails
  not_before test ofs m fails rest (suc j) h =
      ap (λ o. test (entry o)) (omega arith) ∙ rest j (omega arith)

  Searches-next :
      (test : Bytes → Bool) (ofs : ℕ) (r : Outcome (FileSystem × Bytes × Option ℕ × ℕ))
      → test (entry ofs) ≡ false
      → Searches test (ofs + 20) r
      → Searches test ofs r
  Searches-next test ofs r fails (inl (fs', k, q, fits, yes_k, before, same, memory)) =
      let p : ofs + 20 + 20 * k ≡ ofs + 20 * (suc k) = omega arith in
      inl (
        fs',
        suc k,
        q ∙ ap (λ o. ok (fs', entry o, some o, o)) p,
        omega arith,
        ap (λ o. test (entry o)) (sym p) ∙ yes_k,
        not_before test ofs k fails before,
        same,
        memory,
      )
  Searches-next test ofs r fails (inr (fs', e', last, q, short, all, same, memory)) = inr (
    fs',
    e',
    last,
    q,
    short,
    λ j fits. not_before test ofs j fails (λ m h. all m (omega arith)) j (omega arith),
    same,
    memory,
  )

  end_round :
      (fuel : ℕ) (test : Bytes → Bool) (ofs n : ℕ) (e e' : Bytes) (fs fs' : FileSystem)
      → read_at i e sizeof_entry ofs fs ≡ ok (fs', e', n)
      → (n == sizeof_entry) ≡ false
      → lookup_loop (suc fuel) i test ofs e fs ≡ ok (fs', e', none, ofs)
  unfolding lookup_loop
  end_round fuel test ofs n e e' fs fs' q differs = rw (lookup_loop, q) (ground (arith, differs))

  search_end :
      (fuel : ℕ) (test : Bytes → Bool) (ofs : ℕ) (e : Bytes) (fs : FileSystem)
      → IsSameFiles fs₀ fs
      → HasMemory fs
      → len < ofs + 20
      → Searches test ofs (lookup_loop (suc fuel) i test ofs e fs)
  unfolding lookup_loop
  search_end fuel test ofs e fs same memory short =
      let (fs', e', n, q, differs, same', memory') = read_short fs e ofs same memory short in
      inr (
        fs',
        e',
        ofs,
        end_round fuel test ofs n e e' fs fs' q differs,
        short,
        λ j fits. absurd (omega arith),
        same',
        memory',
      )

  search_found :
      (fuel : ℕ) (test : Bytes → Bool) (ofs : ℕ) (e : Bytes) (fs fs' : FileSystem)
      → read_at i e sizeof_entry ofs fs ≡ ok (fs', entry ofs, sizeof_entry)
      → test (entry ofs) ≡ true
      → ofs + 20 ≤ len
      → IsSameFiles fs₀ fs'
      → HasMemory fs'
      → Searches test ofs (lookup_loop (suc fuel) i test ofs e fs)
  unfolding lookup_loop
  search_found fuel test ofs e fs fs' q passes fits same memory =
      let p : ofs ≡ ofs + 20 * 0 = omega arith in
      inl (
        fs',
        0,
        rw (lookup_loop, q, passes) (ap (λ o. ok (fs', entry o, some o, o)) p),
        omega arith,
        ap (λ o. test (entry o)) (sym p) ∙ passes,
        λ j h. absurd (omega arith),
        same,
        memory,
      )

  search_round :
      (fuel : ℕ) (test : Bytes → Bool) (ofs : ℕ) (e : Bytes) (fs fs' : FileSystem)
      → read_at i e sizeof_entry ofs fs ≡ ok (fs', entry ofs, sizeof_entry)
      → test (entry ofs) ≡ false
      → lookup_loop (suc fuel) i test ofs e fs ≡ lookup_loop fuel i test (ofs + 20) (entry ofs) fs'
  unfolding lookup_loop
  search_round fuel test ofs e fs fs' q fails = rw (lookup_loop, q, fails)

  lookup_loop-Searches :
      (fuel : ℕ) (test : Bytes → Bool) (ofs : ℕ) (e : Bytes) (fs : FileSystem)
      → IsSameFiles fs₀ fs
      → HasMemory fs
      → ((k : ℕ) → 20 ≤ k → e k ≡ junk k)
      → len - ofs < fuel
      → Searches test ofs (lookup_loop fuel i test ofs e fs)
  lookup_loop-Searches zero test ofs e fs same memory beyond h = absurd (omega arith)
  lookup_loop-Searches (suc fuel) test ofs e fs same memory beyond h =
      elim (Bool-cases (leb (ofs + 20) len)) [
        | inr t ↦ search_end fuel test ofs e fs same memory (ground (arith, t))
        | inl t ↦
            let (fs', q, same', memory') =
              read_entry fs e ofs same memory beyond (ground (arith, t)) in
            elim (Bool-cases (test (entry ofs))) [
              | inl passes ↦
                  search_found fuel test ofs e fs fs' q passes (ground (arith, t)) same' memory'
              | inr fails ↦
                  subst (Searches test ofs) (sym (search_round fuel test ofs e fs fs' q fails)) (
                    Searches-next test ofs _ fails (
                      lookup_loop-Searches fuel test (ofs + 20) (entry ofs) fs' same' memory'
                        (λ k far. ground (arith, far)) (ground (arith, t))))
            ]
      ]

-- What `lookup` comes to: the first entry of the directory that is in use and has the name, with its
-- offset, or none.
abbrev pub LooksUp :
    ℕ → List ℕ → Bytes → (fs : FileSystem) → Outcome (FileSystem × Option (Bytes × ℕ)) → Type 0
LooksUp p name junk fs r =
    let ino = fs.inodes (fs.dirs p).inode in
    ((fs' : FileSystem) × (k : ℕ) × (r
        ≡ ok (fs', some (entry_at ino fs.device junk (20 * k), 20 * k)))
      × (20 * k + 20 ≤ inode_length ino)
      × (is_named name (entry_at ino fs.device junk (20 * k)) ≡ true)
      × ((j : ℕ) → j < k → is_named name (entry_at ino fs.device junk (20 * j)) ≡ false)
      × IsSameFiles fs fs')
    ⊎ ((fs' : FileSystem) × (r ≡ ok (fs', none))
        × ((j : ℕ)
            → 20 * j + 20 ≤ inode_length ino
            → is_named name (entry_at ino fs.device junk (20 * j)) ≡ false)
        × IsSameFiles fs fs')

-- For a directory whose file is on the device, with memory for the bounce buffers, `lookup` returns
-- the first entry of the file that is in use and has the name, and its offset, or nothing if there is
-- no such entry; no file, directory or inode is changed.
pub lookup-LooksUp :
    (p : ℕ) (name : List ℕ) (junk : Bytes) (fs : FileSystem)
    → IsOnDevice (fs.inodes (fs.dirs p).inode) fs.device
    → HasMemory fs
    → LooksUp p name junk fs (lookup p name junk fs)
unfolding lookup
lookup-LooksUp p name junk fs v memory =
    let i = (fs.dirs p).inode in
    let same : IsSameFiles fs fs = record {
      sectors = refl;
      size = refl;
      inodes = refl;
      dirs = refl;
      open_inodes = refl;
    } in
    elim (lookup_loop-Searches fs i v junk (rounds fs i) (is_named name) 0 junk fs same memory
      (λ k far. refl) (omega arith)) [
        | inl (fs', k, q, fits, passes, before, kept, memory') ↦
            let z : (j : ℕ) → 0 + 20 * j ≡ 20 * j = λ j. omega arith in
            inl (
              fs',
              k,
              rw q (ap (λ o. ok (fs', some (entry fs i v junk o, o))) (z k)),
              omega arith,
              ap (λ o. is_named name (entry fs i v junk o)) (sym (z k)) ∙ passes,
              λ j h. ap (λ o. is_named name (entry fs i v junk o)) (sym (z j)) ∙ before j h,
              kept,
            )
        | inr (fs', e', last, q, short, all, kept, memory') ↦
            let z : (j : ℕ) → 0 + 20 * j ≡ 20 * j = λ j. omega arith in
            inr (
              fs',
              rw q,
              λ j fits.
                  ap (λ o. is_named name (entry fs i v junk o)) (sym (z j)) ∙ all j (omega arith),
              kept,
            )
      ]
