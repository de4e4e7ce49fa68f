-- ===== src/Bench/Checksum.antt =====
-- About `sample_ipv4_checksum` and the IPv4 header of the benchmark frames.
use mlx_nic_driver.Base.{
  ℕ, zero, suc, ◌+◌, ◌-◌, ◌*◌, ◌^◌, ◌≡◌, ◌≢◌, ◌<◌, ◌≤◌, ◌∙◌, ◌%◌, ◌⊎◌, sym, subst, Bool, arith,
  refl, ap, true, some, List,
}
use mlx_nic_driver.Word.{Bytes, get_be16, put_be16, put_be32, put_be64, u16, u32}
use mlx_nic_driver.Word.Laws.{get_be16_same}
use mlx_nic_driver.Bench.{
  sum_words, fold_carries, ipv4_checksum, ether_header, ip_header, udp_header, bench_header,
  bench_bytes, BenchOpts, bench_build_frame,
}
use mlx_nic_driver.Bench.Made.{build-Made}
use mlx_nic_driver.Frame.{Strtoul}

-- Two rounds are enough for a sum of 32 bits.
pub fold_carries_lem : (s : ℕ) → s < 2 ^ 32 → fold_carries 2 s < 2 ^ 16
unfolding fold_carries
fold_carries_lem s small = ground arith

-- The sum of the ten words of the IPv4 header at 14, by their bytes.
abbrev pub header_sum : Bytes → ℕ
header_sum f =
    256 * (f 14 + f 16 + f 18 + f 20 + f 22 + f 24 + f 26 + f 28 + f 30 + f 32)
    + (f 15 + f 17 + f 19 + f 21 + f 23 + f 25 + f 27 + f 29 + f 31 + f 33)

-- What RFC 791 asks of a header: in one's complement arithmetic of 16 bits its sum is all ones,
-- so in that of the numbers it is a multiple of 65535, and not 0.
abbrev pub IsChecked : Bytes → Type 0
IsChecked f = (0 < header_sum f) × (header_sum f % 65535 ≡ 0)

-- A sum of a few words with the complement of its folding on top.
complement_lem :
    (s : ℕ)
    → s < 2 ^ 20
    → (0 < s + (65535 - fold_carries 2 s)) × ((s + (65535 - fold_carries 2 s)) % 65535 ≡ 0)
unfolding fold_carries
complement_lem s small = (ground arith, ground arith)

sum_words-header_sum :
    (f : Bytes) → ((i : ℕ) → 14 ≤ i → i < 34 → f i < 256) → sum_words 10 f 14 ≡ header_sum f
unfolding sum_words get_be16
sum_words-header_sum f byte =
    let at : (i : ℕ) → i < 20 → f (14 + i) < 256 =
      λ i h. byte (14 + i) (omega arith) (omega arith) in
    omega (
      arith,
      at 0 (omega arith),
      at 1 (omega arith),
      at 2 (omega arith),
      at 3 (omega arith),
      at 4 (omega arith),
      at 5 (omega arith),
      at 6 (omega arith),
      at 7 (omega arith),
      at 8 (omega arith),
      at 9 (omega arith),
      at 10 (omega arith),
      at 11 (omega arith),
      at 12 (omega arith),
      at 13 (omega arith),
      at 14 (omega arith),
      at 15 (omega arith),
      at 16 (omega arith),
      at 17 (omega arith),
      at 18 (omega arith),
      at 19 (omega arith),
    )

get_be16_small : (p : Bytes) (off : ℕ) → get_be16 p off < 2 ^ 16
unfolding get_be16
get_be16_small p off = omega arith

pub sum_words_same :
    (words : ℕ) (p q : Bytes) (off : ℕ)
    → ((i : ℕ) → off ≤ i → i < off + 2 * words → p i ≡ q i)
    → sum_words words p off ≡ sum_words words q off
unfolding sum_words
sum_words_same zero p q off e = refl
sum_words_same (suc words) p q off e =
    let here = get_be16_same p q off (λ i lo hi. e i lo (omega (arith, hi))) in
    let rest = sum_words_same words p q (off + 2) (λ i lo hi. e i (omega arith) (omega arith)) in
    omega (arith, here, rest)

sum_words_small : (words : ℕ) (p : Bytes) (off : ℕ) → sum_words words p off ≤ words * 65535
unfolding sum_words
sum_words_small zero p off = omega arith
sum_words_small (suc words) p off =
    omega (arith, get_be16_small p off, sum_words_small words p (off + 2))

-- Ten words, one of them replaced.
ten_words :
    (p q : Bytes)
    → ((i : ℕ) → 14 ≤ i → i < 34 → i ≢ 24 → i ≢ 25 → p i ≡ q i)
    → get_be16 q 24 ≡ 0
    → sum_words 10 p 14 ≡ sum_words 10 q 14 + get_be16 p 24
unfolding sum_words
ten_words p q e zeros =
    let front : (i : ℕ) → 14 ≤ i → i < 24 → p i ≡ q i =
      λ i lo hi. e i lo (omega arith) (omega arith) (omega arith) in
    let back : (i : ℕ) → 26 ≤ i → i < 34 → p i ≡ q i =
      λ i lo hi. e i (omega arith) hi (omega arith) (omega arith) in
    let a = get_be16_same p q 14 (λ i lo hi. front i (omega (arith, lo)) (omega (arith, hi))) in
    let b = get_be16_same p q 16 (λ i lo hi. front i (omega (arith, lo)) (omega (arith, hi))) in
    let c = get_be16_same p q 18 (λ i lo hi. front i (omega (arith, lo)) (omega (arith, hi))) in
    let d = get_be16_same p q 20 (λ i lo hi. front i (omega (arith, lo)) (omega (arith, hi))) in
    let f = get_be16_same p q 22 (λ i lo hi. front i (omega (arith, lo)) (omega (arith, hi))) in
    let g = get_be16_same p q 26 (λ i lo hi. back i (omega (arith, lo)) (omega (arith, hi))) in
    let h = get_be16_same p q 28 (λ i lo hi. back i (omega (arith, lo)) (omega (arith, hi))) in
    let j = get_be16_same p q 30 (λ i lo hi. back i (omega (arith, lo)) (omega (arith, hi))) in
    let k = get_be16_same p q 32 (λ i lo hi. back i (omega (arith, lo)) (omega (arith, hi))) in
    omega (arith, zeros)

module _ (dst src : List ℕ) (ethertype : ℕ) (payload : List ℕ) (len seq send_ns flags cap : ℕ)
    (frame : Bytes) where
  abbrev header : Bytes
  header = ip_header len seq (ether_header dst src ethertype cap frame)

  abbrev built : Bytes
  built = bench_bytes true dst src ethertype payload len seq send_ns flags cap frame

  built-header : (i : ℕ) → 14 ≤ i → i < 34 → i ≢ 24 → i ≢ 25 → built i ≡ header i
  unfolding bench_bytes udp_header bench_header put_be16 put_be32 put_be64
  built-header i lo hi a b = ground arith

  built_checksum : get_be16 built 24 ≡ u16 (ipv4_checksum header 14 10)
  unfolding bench_bytes udp_header bench_header put_be16 put_be32 put_be64 get_be16
  built_checksum = ground arith

  header_blank : 98 ≤ cap → get_be16 header 24 ≡ 0
  unfolding ip_header ether_header put_be16 get_be16
  header_blank wide = ground arith

  header-byte : (i : ℕ) → 14 ≤ i → i < 34 → 98 ≤ cap → header i < 256
  unfolding ip_header ether_header put_be16
  header-byte i lo hi wide = ground arith

  checksum-byte : (i : ℕ) → (i ≡ 24) ⊎ (i ≡ 25) → built i < 256
  unfolding bench_bytes udp_header bench_header put_be16 put_be32 put_be64
  checksum-byte i h = ground arith

  built-byte : 98 ≤ cap → (i : ℕ) → 14 ≤ i → i < 34 → built i < 256
  built-byte wide i lo hi =
      let side : (i ≡ 24) ⊎ (i ≡ 25) ⊎ (i ≢ 24) × (i ≢ 25) = omega arith in
      ground (arith, side, checksum-byte i, built-header i lo hi, header-byte i lo hi wide)

  built_sum : 98 ≤ cap → IsChecked built
  unfolding ipv4_checksum
  built_sum wide =
      let s = sum_words 10 header 14 in
      let small : s < 2 ^ 20 = omega (arith, sum_words_small 10 header 14) in
      let folded : fold_carries 2 s < 2 ^ 16 = fold_carries_lem s (omega arith) in
      let whole : sum_words 10 built 14 ≡ s + get_be16 built 24 =
        ten_words built header built-header (header_blank wide) in
      let wrapped : u32 s ≡ s = omega arith in
      let sum : ipv4_checksum header 14 10 ≡ 65535 - fold_carries 2 s =
        ap (λ x. 65535 - fold_carries 2 x) wrapped in
      let check : get_be16 built 24 ≡ 65535 - fold_carries 2 s =
        omega (arith, built_checksum, sum, folded) in
      let bytes : header_sum built ≡ s + (65535 - fold_carries 2 s) =
        sym (sum_words-header_sum built (built-byte wide)) ∙ whole ∙ ap (λ c. s + c) check in
      rw bytes (complement_lem s small)

-- The IPv4 header of a benchmark frame that is built with UDP has the checksum that RFC 791 asks
-- for: the sum of its ten words, the checksum among them, is a positive multiple of 65535.
pub bench_build_frame_checksum :
    (strtoul : Strtoul) (opts : BenchOpts) (seq send_ns flags : ℕ) (frame : Bytes) (cap : ℕ)
    (f : Bytes) (len : ℕ)
    → opts.rss_udp ≡ true
    → bench_build_frame strtoul opts seq send_ns flags frame cap ≡ some (f, len)
    → IsChecked f
bench_build_frame_checksum strtoul opts seq send_ns flags frame cap f len udp e =
    let m = build-Made strtoul opts seq send_ns flags frame cap f len e in
    let parts : Bool → Bytes =
      λ b. bench_bytes b m.dst m.src m.et m.payload len seq send_ns flags cap frame in
    subst IsChecked (sym (m.bytes ∙ ap parts udp))
      (built_sum m.dst m.src m.et m.payload len seq send_ns flags cap frame m.room)
