-- ===== src/KernelLib/Bitmap.antt =====
-- lib/kernel/bitmap.c: a set of bits in an array of 32-bit words. `size_t` and `elem_type` have 32
-- bits here. Memory allocation is left out: bitmap_create gets the words that malloc returned.
pub mod Single
pub mod Range
pub mod Scan
mod Tests
use Prim.Native.Nat.{bit_and, bit_or, bit_xor}
use pintos_proj.Prelude.{
  ℕ, zero, suc, ◌+◌, ◌-◌, ◌*◌, ◌/◌, ◌%◌, ◌^◌, ◌≤◌, ◌<◌, Bool, true, false, not, List, [], ◌∷◌, ltb,
  leb, ◌==◌, if◌then◌else◌, get_or, set, length, replicate, Outcome, ok, panic, ◌>>=◌, ◌>>◌, assert,
}

-- struct bitmap
pub record Bitmap : Type 0 where
  pub bit_cnt : ℕ
  pub bits : List ℕ

abbrev pub elem_bits : ℕ
elem_bits = 32

abbrev pub word_mod : ℕ
word_mod = 2 ^ 32

-- BITMAP_ERROR is SIZE_MAX.
abbrev pub bitmap_error : ℕ
bitmap_error = word_mod - 1

abbrev pub elem_idx : ℕ → ℕ
elem_idx bit_idx = bit_idx / elem_bits

abbrev pub bit_mask : ℕ → ℕ
bit_mask bit_idx = 2 ^ (bit_idx % elem_bits)

-- DIV_ROUND_UP (bit_cnt, ELEM_BITS), whose sum wraps.
abbrev pub elem_cnt : ℕ → ℕ
elem_cnt bit_cnt = (bit_cnt + (elem_bits - 1)) % word_mod / elem_bits

abbrev pub byte_cnt : ℕ → ℕ
byte_cnt bit_cnt = 4 * elem_cnt bit_cnt

abbrev pub word_at : Bitmap → ℕ → ℕ
word_at b bit_idx = get_or b.bits (elem_idx bit_idx) 0

abbrev put_word : Bitmap → ℕ → ℕ → Bitmap
put_word b bit_idx w = record b { bits = set b.bits (elem_idx bit_idx) w }

unfoldable pub bitmap_mark : Bitmap → ℕ → Bitmap
bitmap_mark b bit_idx = put_word b bit_idx (bit_or (word_at b bit_idx) (bit_mask bit_idx))

-- `& ~mask`
unfoldable pub bitmap_reset : Bitmap → ℕ → Bitmap
bitmap_reset b bit_idx =
    put_word b bit_idx (bit_and (word_at b bit_idx) (word_mod - 1 - bit_mask bit_idx))

unfoldable pub bitmap_flip : Bitmap → ℕ → Bitmap
bitmap_flip b bit_idx = put_word b bit_idx (bit_xor (word_at b bit_idx) (bit_mask bit_idx))

unfoldable pub bitmap_set : Bitmap → ℕ → Bool → Outcome Bitmap
bitmap_set b idx value = do
  assert (ltb idx b.bit_cnt)
  ok (if value then bitmap_mark b idx else bitmap_reset b idx)

unfoldable pub bitmap_test : Bitmap → ℕ → Outcome Bool
bitmap_test b idx = do
  assert (ltb idx b.bit_cnt)
  ok (not (bit_and (word_at b idx) (bit_mask idx) == 0))

-- The assertions that START and START + CNT, a sum that wraps, lie within the bitmap.
abbrev pub check_range : Bitmap → ℕ → ℕ → Outcome (Unit {0})
check_range b start cnt = do
  assert (leb start b.bit_cnt)
  assert (leb ((start + cnt) % word_mod) b.bit_cnt)

-- The loop of bitmap_set_multiple, with `n` rounds to go from bit `i` on.
unfoldable pub set_range : ℕ → ℕ → Bool → Bitmap → Outcome Bitmap
set_range zero i value b = ok b
set_range (suc n) i value b = do b' ← bitmap_set b i value; set_range n (suc i) value b'

unfoldable pub bitmap_set_multiple : Bitmap → ℕ → ℕ → Bool → Outcome Bitmap
bitmap_set_multiple b start cnt value = do check_range b start cnt; set_range cnt start value b

unfoldable pub bitmap_set_all : Bitmap → Bool → Outcome Bitmap
bitmap_set_all b value = bitmap_set_multiple b 0 b.bit_cnt value

-- bitmap_create, with the words that malloc gave; their contents are what they are.
unfoldable pub bitmap_create : ℕ → List ℕ → Outcome Bitmap
bitmap_create bit_cnt words = bitmap_set_all (record { bit_cnt = bit_cnt; bits = words }) false

abbrev pub same : Bool → Bool → Bool
same true b = b
same false b = not b

-- The loop of bitmap_count.
unfoldable pub count_range : ℕ → ℕ → Bool → Bitmap → ℕ → Outcome ℕ
count_range zero i value b acc = ok acc
count_range (suc n) i value b acc = do
  t ← bitmap_test b i
  count_range n (suc i) value b (if same t value then acc + 1 else acc)

unfoldable pub bitmap_count : Bitmap → ℕ → ℕ → Bool → Outcome ℕ
bitmap_count b start cnt value = do check_range b start cnt; count_range cnt start value b 0

-- The loop of bitmap_contains, which stops at the first bit that is found.
unfoldable pub find_range : ℕ → ℕ → Bool → Bitmap → Outcome Bool
find_range zero i value b = ok false
find_range (suc n) i value b = do
  t ← bitmap_test b i
  let rest = find_range n (suc i) value b
  if same t value then ok true else rest

unfoldable pub bitmap_contains : Bitmap → ℕ → ℕ → Bool → Outcome Bool
bitmap_contains b start cnt value = do check_range b start cnt; find_range cnt start value b

unfoldable pub bitmap_any : Bitmap → ℕ → ℕ → Outcome Bool
bitmap_any b start cnt = bitmap_contains b start cnt true

unfoldable pub bitmap_none : Bitmap → ℕ → ℕ → Outcome Bool
bitmap_none b start cnt = do c ← bitmap_contains b start cnt true; ok (not c)

unfoldable pub bitmap_all : Bitmap → ℕ → ℕ → Outcome Bool
bitmap_all b start cnt = do c ← bitmap_contains b start cnt false; ok (not c)

-- The loop of bitmap_scan, with `n` places to try from `i` on.
unfoldable pub scan_from : ℕ → ℕ → ℕ → Bool → Bitmap → Outcome ℕ
scan_from zero i cnt value b = ok bitmap_error
scan_from (suc n) i cnt value b = do
  c ← bitmap_contains b i cnt (not value)
  let rest = scan_from n (suc i) cnt value b
  if c then rest else ok i

-- `last` is bit_cnt - cnt, so there are last + 1 - start places.
unfoldable pub bitmap_scan : Bitmap → ℕ → ℕ → Bool → Outcome ℕ
bitmap_scan b start cnt value = do
  assert (leb start b.bit_cnt)
  if leb cnt b.bit_cnt
      then scan_from (b.bit_cnt - cnt + 1 - start) start cnt value b
      else ok bitmap_error

unfoldable pub bitmap_scan_and_flip : Bitmap → ℕ → ℕ → Bool → Outcome (ℕ × Bitmap)
bitmap_scan_and_flip b start cnt value = do
  idx ← bitmap_scan b start cnt value
  if idx == bitmap_error
      then ok (idx, b)
      else (do b' ← bitmap_set_multiple b idx cnt (not value); ok (idx, b'))
