-- ===== src/Word.antt =====
-- Machine words, byte memory and its big-endian accessors: the helpers at the top of src/mlx5.c.
-- A word is a native number with its wrap written out. Memory is a function from an offset to a
-- byte. `x & (2^k - 1)` is `low_bits x k`, `x >> k` is `shr x k`, and fields that do not overlap
-- are joined by `+` where the source has `|`.
pub mod Laws
pub mod Xor
use mlx_nic_driver.Base.{
  ℕ, zero, suc, ◌+◌, ◌-◌, ◌*◌, ◌/◌, ◌%◌, ◌^◌, Bool, ◌&&◌, ltb, leb, ◌==◌, if◌then◌else◌,
}
use mlx_nic_driver.Base.{bit_xor}

abbrev pub u8 : ℕ → ℕ
u8 n = n % 2 ^ 8

abbrev pub u16 : ℕ → ℕ
u16 n = n % 2 ^ 16

abbrev pub u32 : ℕ → ℕ
u32 n = n % 2 ^ 32

-- uint32_t a - b; `-` on ℕ stops at 0, so the modulus is added first.
abbrev pub sub32 : ℕ → ℕ → ℕ
sub32 a b = (a + 2 ^ 32 - b) % 2 ^ 32

abbrev pub low_bits : ℕ → ℕ → ℕ
low_bits x k = x % 2 ^ k

abbrev pub shr : ℕ → ℕ → ℕ
shr x k = x / 2 ^ k

abbrev pub Bytes : Type 0
Bytes = ℕ → ℕ

abbrev pub zeroed : Bytes
zeroed i = 0

-- p[off] = (uint8_t)v
abbrev pub put8 : ℕ → ℕ → Bytes → Bytes
put8 off v p i = if i == off then u8 v else p i

abbrev pub memset : ℕ → ℕ → ℕ → Bytes → Bytes
memset off v len p i = if leb off i && ltb i (off + len) then v else p i

-- memcpy(dst + off, src + from, len)
abbrev pub memcpy : ℕ → Bytes → ℕ → ℕ → Bytes → Bytes
memcpy off src from len p i = if leb off i && ltb i (off + len) then src (from + (i - off)) else p i

unfoldable pub put_be16 : ℕ → ℕ → Bytes → Bytes
put_be16 off v p = put8 (off + 1) v (put8 off (shr v 8) p)

unfoldable pub put_be32 : ℕ → ℕ → Bytes → Bytes
put_be32 off v p =
    put8 (off + 3) v (put8 (off + 2) (shr v 8) (put8 (off + 1) (shr v 16) (put8 off (shr v 24) p)))

unfoldable pub put_be64 : ℕ → ℕ → Bytes → Bytes
unfolding put_be32
put_be64 off v p = put_be32 (off + 4) (u32 v) (put_be32 off (u32 (shr v 32)) p)

unfoldable pub get_be16 : Bytes → ℕ → ℕ
get_be16 p off = u16 (p off * 2 ^ 8 + p (off + 1))

unfoldable pub get_be32 : Bytes → ℕ → ℕ
get_be32 p off = p off * 2 ^ 24 + p (off + 1) * 2 ^ 16 + p (off + 2) * 2 ^ 8 + p (off + 3)

unfoldable pub get_be64 : Bytes → ℕ → ℕ
unfolding get_be32
get_be64 p off = get_be32 p off * 2 ^ 32 + get_be32 p (off + 4)

-- The exclusive or of the `len` bytes from `off` on.
unfoldable pub xor8 : Bytes → ℕ → ℕ → ℕ
xor8 p off zero = 0
xor8 p off (suc len) = bit_xor (xor8 p off len) (p (off + len))

-- (uint8_t)~x
abbrev pub not8 : ℕ → ℕ
not8 x = 255 - u8 x
