-- ===== src/Word/Laws.antt =====
-- Round trips of the big-endian accessors, and what a write leaves alone.
use mlx_nic_driver.Base.{ℕ, ◌+◌, ◌/◌, ◌%◌, ◌^◌, ◌<◌, ◌≤◌, ◌≡◌, ◌⊎◌, arith}
use mlx_nic_driver.Word.{Bytes, put_be16, put_be32, put_be64, get_be16, get_be32, get_be64}

-- What `put_be16` stores, `get_be16` reads back.
pub get_be16-put_be16 : (p : Bytes) (off v : ℕ) → v < 2 ^ 16 → get_be16 (put_be16 off v p) off ≡ v
unfolding put_be16 get_be16
get_be16-put_be16 p off v h = ground arith

-- What `put_be32` stores, `get_be32` reads back.
pub get_be32-put_be32 : (p : Bytes) (off v : ℕ) → v < 2 ^ 32 → get_be32 (put_be32 off v p) off ≡ v
unfolding put_be32 get_be32
get_be32-put_be32 p off v h = ground arith

-- `put_be32` changes nothing outside its four bytes.
pub put_be32_outside :
    (p : Bytes) (off v i : ℕ) → (i < off) ⊎ (off + 4 ≤ i) → put_be32 off v p i ≡ p i
unfolding put_be32
put_be32_outside p off v i h = ground arith

pub put_be16_outside :
    (p : Bytes) (off v i : ℕ) → (i < off) ⊎ (off + 2 ≤ i) → put_be16 off v p i ≡ p i
unfolding put_be16
put_be16_outside p off v i h = ground arith

pub put_be64_outside :
    (p : Bytes) (off v i : ℕ) → (i < off) ⊎ (off + 8 ≤ i) → put_be64 off v p i ≡ p i
unfolding put_be64
put_be64_outside p off v i h = ground arith

pub get_be32_of_bytes :
    (p : Bytes) (off v : ℕ)
    → v < 2 ^ 32
    → p off ≡ v / 2 ^ 24 % 256
    → p (off + 1) ≡ v / 2 ^ 16 % 256
    → p (off + 2) ≡ v / 2 ^ 8 % 256
    → p (off + 3) ≡ v % 256
    → get_be32 p off ≡ v
unfolding get_be32
get_be32_of_bytes p off v h a b c d = omega arith

-- What `put_be64` stores, `get_be64` reads back.
pub get_be64-put_be64 : (p : Bytes) (off v : ℕ) → v < 2 ^ 64 → get_be64 (put_be64 off v p) off ≡ v
unfolding put_be64 get_be64
get_be64-put_be64 p off v h =
    let low =
      get_be32_of_bytes (put_be64 off v p) (off + 4) (v % 2 ^ 32) (omega arith) (ground arith)
        (ground arith) (ground arith) (ground arith) in
    let high =
      get_be32_of_bytes (put_be64 off v p) off (v / 2 ^ 32) (omega arith) (ground arith)
        (ground arith) (ground arith) (ground arith) in
    omega (arith, low, high)

-- A field depends on its own bytes alone.
pub get_be64_same :
    (p q : Bytes) (off : ℕ)
    → ((i : ℕ) → off ≤ i → i < off + 8 → p i ≡ q i)
    → get_be64 p off ≡ get_be64 q off
unfolding get_be64
get_be64_same p q off h = ground (
  arith,
  h off,
  h (off + 1),
  h (off + 2),
  h (off + 3),
  h (off + 4),
  h (off + 4 + 1),
  h (off + 4 + 2),
  h (off + 4 + 3),
)

pub get_be32_same :
    (p q : Bytes) (off : ℕ)
    → ((i : ℕ) → off ≤ i → i < off + 4 → p i ≡ q i)
    → get_be32 p off ≡ get_be32 q off
unfolding get_be32
get_be32_same p q off h = ground (arith, h off, h (off + 1), h (off + 2), h (off + 3))

pub get_be16_same :
    (p q : Bytes) (off : ℕ)
    → ((i : ℕ) → off ≤ i → i < off + 2 → p i ≡ q i)
    → get_be16 p off ≡ get_be16 q off
unfolding get_be16
get_be16_same p q off h = ground (arith, h off, h (off + 1))

-- What the accessors write are bytes.
pub put_be32-byte : (p : Bytes) (off v i : ℕ) → p i < 256 → put_be32 off v p i < 256
unfolding put_be32
put_be32-byte p off v i h = ground arith

pub put_be64-byte : (p : Bytes) (off v i : ℕ) → p i < 256 → put_be64 off v p i < 256
unfolding put_be64
put_be64-byte p off v i h = ground arith
