-- ===== src/Bench/Cells.antt =====
-- What single cells of a benchmark frame hold after the writes above its lower headers.
use mlx_nic_driver.Base.{◌⊎◌, ℕ, ◌+◌, ◌≡◌, ◌<◌, ◌≤◌, arith, List, length}
use mlx_nic_driver.Word.{Bytes, put_be16, put_be32, put_be64, u32, memcpy}
use mlx_nic_driver.Bench.{bench_header, renumber, bench_magic, payload_bytes}
use mlx_nic_driver.Word.Laws.{put_be32_outside, put_be16_outside}

-- A cell is outside what is written, or what was there does not count.
pub put_be16_cell :
    (p q : Bytes) (off v i : ℕ)
    → ((i < off) ⊎ (off + 2 ≤ i)) × (put_be16 off v p i ≡ p i) × (put_be16 off v q i ≡ q i)
      ⊎ (off ≤ i) × (i < off + 2) × (put_be16 off v p i ≡ put_be16 off v q i)
unfolding put_be16
put_be16_cell p q off v i = ground arith

pub put_be32_cell :
    (p q : Bytes) (off v i : ℕ)
    → ((i < off) ⊎ (off + 4 ≤ i)) × (put_be32 off v p i ≡ p i) × (put_be32 off v q i ≡ q i)
      ⊎ (off ≤ i) × (i < off + 4) × (put_be32 off v p i ≡ put_be32 off v q i)
unfolding put_be32
put_be32_cell p q off v i = ground arith

pub put_be64_cell :
    (p q : Bytes) (off v i : ℕ)
    → ((i < off) ⊎ (off + 8 ≤ i)) × (put_be64 off v p i ≡ p i) × (put_be64 off v q i ≡ q i)
      ⊎ (off ≤ i) × (i < off + 8) × (put_be64 off v p i ≡ put_be64 off v q i)
unfolding put_be64 put_be32
put_be64_cell p q off v i = ground arith

-- The cells of the writes that a frame from a template repeats.
pub middle_same :
    (off fl seq ns : ℕ) (r p : Bytes) (i : ℕ)
    → let l : Bytes = put_be64 (off + 12) ns (put_be32 (off + 8) seq (put_be16 (off + 6) fl r)) in
      let m : Bytes = put_be64 (off + 12) ns (put_be32 (off + 8) seq (put_be16 (off + 6) fl p)) in
      ((i < off + 6) ⊎ (off + 20 ≤ i)) × (l i ≡ r i) × (m i ≡ p i)
      ⊎ (off + 6 ≤ i) × (i < off + 20) × (l i ≡ m i)
middle_same off fl seq ns r p i = ground (
  arith,
  put_be16_cell r p (off + 6) fl i,
  put_be32_cell (put_be16 (off + 6) fl r) (put_be16 (off + 6) fl p) (off + 8) seq i,
  put_be64_cell (put_be32 (off + 8) seq (put_be16 (off + 6) fl r))
      (put_be32 (off + 8) seq (put_be16 (off + 6) fl p)) (off + 12) ns i,
)

-- The benchmark's header and payload.
pub upper_same :
    (off fl seq ns n fl0 seq0 ns0 : ℕ) (payload r p q : Bytes) (i : ℕ)
    → p i ≡ q i
    → r i ≡ memcpy (off + 24) payload 0 n (bench_header off fl0 seq0 ns0 n q) i
    → put_be64 (off + 12) ns (put_be32 (off + 8) seq (put_be16 (off + 6) fl r)) i
      ≡ memcpy (off + 24) payload 0 n (bench_header off fl seq ns n p) i
unfolding bench_header
upper_same off fl seq ns n fl0 seq0 ns0 payload r p q i same e =
    let top : Bytes → Bytes = λ b. put_be16 (off + 4) 1 (put_be32 off bench_magic b) in
    let middle : ℕ → ℕ → ℕ → Bytes → Bytes =
      λ f s t b. put_be64 (off + 12) t (put_be32 (off + 8) s (put_be16 (off + 6) f b)) in
    ground (
      arith,
      e,
      same,
      middle_same off fl seq ns r (top p) i,
      middle_same off fl0 seq0 ns0 (top q) (top q) i,
      put_be32_cell p q off bench_magic i,
      put_be16_cell (put_be32 off bench_magic p) (put_be32 off bench_magic q) (off + 4) 1 i,
      put_be32_cell (middle fl seq ns (top p)) (middle fl0 seq0 ns0 (top q)) (off + 20) (u32 n) i,
    )

pub bench_low :
    (payload : List ℕ) (seq ns fl : ℕ) (p : Bytes) (i : ℕ)
    → i < 42
    → memcpy 66
        (payload_bytes payload)
        0
        (length payload)
        (bench_header 42 fl seq ns (length payload) p)
        i
      ≡ p i
unfolding bench_header
bench_low payload seq ns fl p i h =
    let top : Bytes = put_be16 46 1 (put_be32 42 bench_magic p) in
    ground (
      arith,
      middle_same 42 fl seq ns top top i,
      put_be32_outside p 42 bench_magic i,
      put_be16_outside (put_be32 42 bench_magic p) 46 1 i,
      put_be32_outside (put_be64 54 ns (put_be32 50 seq (put_be16 48 fl top))) 62
          (u32 (length payload)) i,
    )

pub renumber_above : (seq : ℕ) (p : Bytes) (i : ℕ) → 36 ≤ i → renumber seq p i ≡ p i
unfolding renumber put_be16
renumber_above seq p i h = ground arith
