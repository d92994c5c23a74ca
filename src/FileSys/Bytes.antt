-- ===== src/FileSys/Bytes.antt =====
-- Memory as the source's buffers and structs see it: a function from an offset to a byte, with memcpy
-- and memset of lib/string.c, and the 32-bit little-endian numbers that structs are made of.
use pintos_proj.Prelude.{ℕ, ◌+◌, ◌-◌, ◌*◌, ◌/◌, ◌%◌, ◌^◌, ◌&&◌, leb, ltb, if◌then◌else◌}

abbrev pub Bytes : Type 0
Bytes = ℕ → ℕ

-- memcpy (dst + to, src + from, n), and the memory at dst.
unfoldable pub memcpy : Bytes → ℕ → Bytes → ℕ → ℕ → Bytes
memcpy dst to src from n i = if leb to i && ltb i (to + n) then src (from + (i - to)) else dst i

-- memset (dst, value, n)
unfoldable pub memset : Bytes → ℕ → ℕ → Bytes
memset dst value n i = if ltb i n then value else dst i

-- The byte at `i` of a 32-bit number, and the number at an offset.
unfoldable pub byte_of : ℕ → ℕ → ℕ
byte_of w i = w / 256 ^ i % 256

unfoldable pub word_from : Bytes → ℕ → ℕ
word_from m i = m i + 256 * m (i + 1) + 65536 * m (i + 2) + 16777216 * m (i + 3)
