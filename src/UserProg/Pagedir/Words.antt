-- ===== src/UserProg/Pagedir/Words.antt =====
-- userprog/pagedir.c: reading and writing the entries in memory.
use pintos_proj.Prelude.{
  ℕ, ◌+◌, ◌-◌, ◌*◌, ◌%◌, ◌^◌, ◌≤◌, ◌<◌, ◌≡◌, ◌≢◌, ◌⊎◌, inl, inr, true, false, ◌&&◌, ltb, leb,
  Bool-cases, arith,
}
use pintos_proj.FileSys.Bytes.{Bytes, word_from, byte_of}
use pintos_proj.UserProg.Pagedir.{put_word, Machine, entry_at, set_entry}

-- Two entries share no byte.
abbrev pub Disjoint : ℕ → ℕ → Type 0
Disjoint a b = (a + 4 ≤ b) ⊎ (b + 4 ≤ a)

word_from-put_word : (a e : ℕ) (m : Bytes) → e < 2 ^ 32 → word_from (put_word a e m) a ≡ e
unfolding word_from put_word byte_of
word_from-put_word a e m h =
    let b0 : (leb a a && ltb a (a + 4)) ≡ true = ground arith in
    let b1 : (leb a (a + 1) && ltb (a + 1) (a + 4)) ≡ true = ground arith in
    let b2 : (leb a (a + 2) && ltb (a + 2) (a + 4)) ≡ true = ground arith in
    let b3 : (leb a (a + 3) && ltb (a + 3) (a + 4)) ≡ true = ground arith in
    let k0 : a - a ≡ 0 = omega arith in
    let k1 : a + 1 - a ≡ 1 = omega arith in
    let k2 : a + 2 - a ≡ 2 = omega arith in
    let k3 : a + 3 - a ≡ 3 = omega arith in rw (b0, b1, b2, b3, k0, k1, k2, k3) (omega (arith, h))

put_word-outside : (a e : ℕ) (m : Bytes) (b : ℕ) → (b < a) ⊎ (a + 4 ≤ b) → put_word a e m b ≡ m b
unfolding put_word
put_word-outside a e m b (inl h) = ground (arith, h)
put_word-outside a e m b (inr h) = ground (arith, h)

word_from-put_word_apart :
    (a e : ℕ) (m : Bytes) (b : ℕ) → Disjoint a b → word_from (put_word a e m) b ≡ word_from m b
unfolding word_from
word_from-put_word_apart a e m b (inl h) = rw (
  put_word-outside a e m b (inr h),
  put_word-outside a e m (b + 1) (inr (omega (arith, h))),
  put_word-outside a e m (b + 2) (inr (omega (arith, h))),
  put_word-outside a e m (b + 3) (inr (omega (arith, h))),
)
word_from-put_word_apart a e m b (inr h) = rw (
  put_word-outside a e m b (inl (omega (arith, h))),
  put_word-outside a e m (b + 1) (inl (omega (arith, h))),
  put_word-outside a e m (b + 2) (inl (omega (arith, h))),
  put_word-outside a e m (b + 3) (inl (omega (arith, h))),
)

-- A write of an entry that fits, read back; and no other entry changes.
pub entry_at-set_entry : (a e : ℕ) (s : Machine) → e < 2 ^ 32 → entry_at (set_entry a e s) a ≡ e
entry_at-set_entry a e s h = word_from-put_word a e s.pages.memory h

pub entry_at-set_entry_apart :
    (a e : ℕ) (s : Machine) (b : ℕ) → Disjoint a b → entry_at (set_entry a e s) b ≡ entry_at s b
entry_at-set_entry_apart a e s b h = word_from-put_word_apart a e s.pages.memory b h

-- Entries of different pages, and different entries of a page.
pub pages_apart :
    (p q i k : ℕ)
    → p % 4096 ≡ 0
    → q % 4096 ≡ 0
    → p ≢ q
    → i < 1024
    → k < 1024
    → Disjoint (p + 4 * i) (q + 4 * k)
pages_apart p q i k a b ne h h' = elim (Bool-cases (ltb p q)) [
  | inl t ↦ inl (below t)
  | inr t ↦ inr (omega (arith, not_below t, ne))
]
  where
    below : ltb p q ≡ true → p + 4 * i + 4 ≤ q + 4 * k
    below t = let l : p < q = ground (arith, t) in omega (arith, l, a, b, h, h')

    not_below : ltb p q ≡ false → q ≤ p
    not_below t = ground (arith, t)

pub entries_apart : (p i k : ℕ) → i ≢ k → Disjoint (p + 4 * i) (p + 4 * k)
entries_apart p i k ne = elim (Bool-cases (ltb i k)) [
  | inl t ↦ inl (below t)
  | inr t ↦ inr (omega (arith, not_below t, ne))
]
  where
    below : ltb i k ≡ true → p + 4 * i + 4 ≤ p + 4 * k
    below t = let l : i < k = ground (arith, t) in omega (arith, l)

    not_below : ltb i k ≡ false → k ≤ i
    not_below t = ground (arith, t)

-- Memory that is the same at the four bytes of an entry.
pub word_from-same :
    (m m' : Bytes) (a : ℕ)
    → ((b : ℕ) → a ≤ b → b < a + 4 → m' b ≡ m b)
    → word_from m' a ≡ word_from m a
unfolding word_from
word_from-same m m' a e = rw (
  e a (omega arith) (omega arith),
  e (a + 1) (omega arith) (omega arith),
  e (a + 2) (omega arith) (omega arith),
  e (a + 3) (omega arith) (omega arith),
)

pub word_from-zero :
    (m : Bytes) (a : ℕ) → ((b : ℕ) → a ≤ b → b < a + 4 → m b ≡ 0) → word_from m a ≡ 0
unfolding word_from
word_from-zero m a e = rw (
  e a (omega arith) (omega arith),
  e (a + 1) (omega arith) (omega arith),
  e (a + 2) (omega arith) (omega arith),
  e (a + 3) (omega arith) (omega arith),
)
