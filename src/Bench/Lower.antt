-- ===== src/Bench/Lower.antt =====
-- The IPv4 and UDP headers of a frame made from a template.
use mlx_nic_driver.Base.{◌⊎◌, ℕ, ◌-◌, ◌≡◌, ◌<◌, ◌≤◌, arith, refl, ap}
use mlx_nic_driver.Word.{Bytes, put_be16, u16, u32}
use mlx_nic_driver.Bench.{ip_header, udp_header, renumber, ipv4_checksum, udp_port, fold_carries}
use mlx_nic_driver.Word.Laws.{put_be16_outside}
use mlx_nic_driver.Bench.Checksum.{sum_words_same}
use mlx_nic_driver.Bench.Cells.{put_be16_cell}

-- Only the number in an IPv4 header depends on it.
renumbered :
    (len s s0 : ℕ) (p : Bytes) (i : ℕ)
    → put_be16 18 (u16 s) (ip_header len s0 p) i ≡ ip_header len s p i
unfolding ip_header put_be16
renumbered len s s0 p i = ground arith

module _ (len seq seq0 : ℕ) (ether copied : Bytes) where
  abbrev pub ip : ℕ → Bytes
  ip s = ip_header len s ether

  abbrev pub udp : ℕ → Bytes
  udp s = udp_header len s (ip s)

  abbrev pub cleared : Bytes
  cleared = put_be16 24 0 (put_be16 18 (u16 seq) copied)

  -- What the UDP header leaves of the lower ones.
  udp_below : (s i : ℕ) → (i < 24) ⊎ (26 ≤ i) × (i < 34) → udp s i ≡ ip s i
  unfolding udp_header put_be16
  udp_below s i h = ground arith

  pub udp_above : (i : ℕ) → 36 ≤ i → udp seq i ≡ udp seq0 i
  unfolding udp_header
  udp_above i h =
      let low : ℕ → Bytes = λ t. put_be16 24 (ipv4_checksum (ip t) 14 10) (ip t) in
      let mid : ℕ → Bytes = λ t. put_be16 34 (udp_port t) (low t) in
      ground (
        arith,
        h,
        renumbered len seq seq0 ether i,
        put_be16_outside (ip seq0) 18 (u16 seq) i,
        put_be16_outside (ip seq) 24 (ipv4_checksum (ip seq) 14 10) i,
        put_be16_outside (ip seq0) 24 (ipv4_checksum (ip seq0) 14 10) i,
        put_be16_outside (low seq) 34 (udp_port seq) i,
        put_be16_outside (low seq0) 34 (udp_port seq0) i,
        put_be16_cell (mid seq) (mid seq0) 36 20000 i,
        put_be16_cell (put_be16 36 20000 (mid seq)) (put_be16 36 20000 (mid seq0)) 38
            (u16 (len - 14 - 20)) i,
      )

  -- Where the copy has the frame of `seq0`, it has the header of `seq` but for the checksum.
  renumbered_copy :
      (i : ℕ)
      → copied i ≡ udp seq0 i
      → (i < 24) ⊎ (26 ≤ i) × (i < 34)
      → put_be16 18 (u16 seq) copied i ≡ ip seq i
  renumbered_copy i e h = ground (
    arith,
    e,
    udp_below seq0 i h,
    put_be16_cell copied (ip seq0) 18 (u16 seq) i,
    renumbered len seq seq0 ether i,
  )

  blank : (i : ℕ) → (i ≡ 24) ⊎ (i ≡ 25) → ether i ≡ 0 → cleared i ≡ ip seq i
  unfolding ip_header put_be16
  blank i h e = ground (arith, e)

  -- The header that the second checksum is taken of is the one of a fresh frame.
  cleared_fresh :
      ((i : ℕ) → 14 ≤ i → i < 34 → copied i ≡ udp seq0 i)
      → ether 24 ≡ 0
      → ether 25 ≡ 0
      → (i : ℕ) → 14 ≤ i
      → i < 34
      → cleared i ≡ ip seq i
  cleared_fresh e a b i lo hi = ground (
    arith,
    renumbered_copy i (e i lo hi),
    blank i,
    a,
    b,
    put_be16_outside (put_be16 18 (u16 seq) copied) 24 0 i,
  )

  pub same_checksum :
      ((i : ℕ) → 14 ≤ i → i < 34 → copied i ≡ udp seq0 i)
      → ether 24 ≡ 0
      → ether 25 ≡ 0
      → ipv4_checksum cleared 14 10 ≡ ipv4_checksum (ip seq) 14 10
  unfolding ipv4_checksum
  same_checksum e a b =
      ap (λ s. 65535 - fold_carries 2 (u32 s))
        (sum_words_same 10 cleared (ip seq) 14 (cleared_fresh e a b))

  -- The headers below the benchmark's own.
  pub lower_same :
      ipv4_checksum cleared 14 10 ≡ ipv4_checksum (ip seq) 14 10
      → (i : ℕ) → i < 42
      → copied i ≡ udp seq0 i
      → renumber seq copied i ≡ udp seq i
  unfolding renumber udp_header
  lower_same c i lo e =
      let sum = ipv4_checksum cleared 14 10 in
      let low = put_be16 24 sum (ip seq) in
      let port = put_be16 34 (udp_port seq) in
      let top : put_be16 38 (u16 (len - 14 - 20)) (put_be16 36 20000 (port low)) i ≡ udp seq i =
        rw c refl in
      ground (
        arith,
        e,
        top,
        udp_above i,
        renumbered_copy i e,
        put_be16_outside (put_be16 18 (u16 seq) copied) 24 0 i,
        put_be16_outside copied 18 (u16 seq) i,
        put_be16_cell cleared (ip seq) 24 sum i,
        put_be16_cell (put_be16 24 sum cleared) low 34 (udp_port seq) i,
        put_be16_outside (port low) 36 20000 i,
        put_be16_outside (put_be16 36 20000 (port low)) 38 (u16 (len - 14 - 20)) i,
      )
