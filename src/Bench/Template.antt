-- ===== src/Bench/Template.antt =====
-- About frames made from a template, `sample_bench_build_from_template`.
use mlx_nic_driver.Base.{
  ◌⊎◌, ℕ, get_or, ◌+◌, ◌≡◌, ◌<◌, ◌≤◌, ◌∙◌, arith, refl, ap, Bool, true, false, some, List, length,
  inl, inr,
}
use mlx_nic_driver.Word.{Bytes, memcpy, memset}
use mlx_nic_driver.Frame.{Strtoul}
use mlx_nic_driver.Bench.{
  ether_header, ip_header, udp_header, bench_header, bench_bytes, bench_len, renumber,
  header_offset, payload_bytes, BenchOpts, bench_build_frame, bench_build_from_template,
}
use mlx_nic_driver.Word.Laws.{put_be16_outside}
use mlx_nic_driver.Bench.Made.{build-Made}
use mlx_nic_driver.Bench.Cells.{middle_same, upper_same, bench_low, renumber_above}
use mlx_nic_driver.Bench.Lower.{udp, udp_above, same_checksum, lower_same}

module _ (dst src : List ℕ) (et : ℕ) (payload : List ℕ) (len cap : ℕ) (frame buf : Bytes)
    (seq0 ns0 fl0 seq ns fl : ℕ) where
  abbrev ether : Bytes
  ether = ether_header dst src et cap frame

  abbrev template : Bool → Bytes
  template rss = bench_bytes rss dst src et payload len seq0 ns0 fl0 cap frame

  abbrev copy : Bool → Bytes
  copy rss = memcpy 0 (template rss) 0 len buf

  copy-template : (rss : Bool) (i : ℕ) → i < len → copy rss i ≡ template rss i
  copy-template rss i h = ground arith

  ether_blank : 98 ≤ cap → (i : ℕ) → 14 ≤ i → i < 98 → ether i ≡ 0
  unfolding ether_header
  ether_blank room i lo hi = ground (
    arith,
    put_be16_outside
        (memcpy 6 (λ k. get_or src k 0) 0 6
          (memcpy 0 (λ k. get_or dst k 0) 0 6 (memset 0 0 cap frame)))
        12 et i,
  )

  template_low : (i : ℕ) → i < 42 → template true i ≡ udp len seq seq0 ether ether seq0 i
  unfolding bench_bytes bench_header
  template_low i h =
      bench_low payload seq0 ns0 fl0 (udp_header len seq0 (ip_header len seq0 ether)) i h

  same_plain :
      (i : ℕ)
      → i < len
      → bench_build_from_template false (template false) len seq ns fl buf i
        ≡ bench_bytes false dst src et payload len seq ns fl cap frame i
  unfolding bench_bytes bench_build_from_template
  same_plain i h =
      upper_same 14 fl seq ns (length payload) fl0 seq0 ns0 (payload_bytes payload) (copy false)
        ether ether i refl (copy-template false i h)

  same_udp :
      98 ≤ cap
      → 42 ≤ len
      → (i : ℕ) → i < len
      → bench_build_from_template true (template true) len seq ns fl buf i
        ≡ bench_bytes true dst src et payload len seq ns fl cap frame i
  unfolding bench_bytes bench_build_from_template
  same_udp room long i h =
      let low = renumber seq (copy true) in
      let udp_of : ℕ → Bytes = λ t. udp_header len t (ip_header len t ether) in
      let copied : (k : ℕ) → k < len → copy true k ≡ template true k = copy-template true in
      let sum =
        same_checksum len seq seq0 ether (copy true)
          (λ k lo hi. copied k (omega (arith, long, hi)) ∙ template_low k (omega (arith, hi)))
          (ether_blank room 24 (omega arith) (omega arith))
          (ether_blank room 25 (omega arith) (omega arith)) in
      let side : (i < 42) ⊎ (42 ≤ i) = ground arith in
      elim side [
        | inl below ↦ ground (
          arith,
          below,
          middle_same 42 fl seq ns low low i,
          lower_same len seq seq0 ether (copy true) sum i below (copied i h ∙ template_low i below),
          bench_low payload seq ns fl (udp_of seq) i below,
        )
        | inr above ↦
            upper_same 42 fl seq ns (length payload) fl0 seq0 ns0 (payload_bytes payload) low
              (udp_of seq) (udp_of seq0) i
              (udp_above len seq seq0 ether (copy true) i (omega (arith, above)))
              (renumber_above seq (copy true) i (omega (arith, above)) ∙ copied i h)
      ]

  from_template_inside :
      (rss : Bool)
      → 98 ≤ cap
      → header_offset rss + 24 ≤ len
      → (i : ℕ) → i < len
      → bench_build_from_template rss (template rss) len seq ns fl buf i
        ≡ bench_bytes rss dst src et payload len seq ns fl cap frame i
  from_template_inside true room long i h = same_udp room (omega (arith, long)) i h
  from_template_inside false room long i h = same_plain i h

  from_template_outside :
      (rss : Bool)
      → header_offset rss + 24 ≤ len
      → (i : ℕ) → len ≤ i
      → bench_build_from_template rss (template rss) len seq ns fl buf i ≡ buf i
  unfolding bench_build_from_template
  from_template_outside true long i h = ground (
    arith,
    middle_same 42 fl seq ns (renumber seq (copy true)) (copy true) i,
    renumber_above seq (copy true) i,
  )
  from_template_outside false long i h =
      ground (arith, middle_same 14 fl seq ns (copy false) (copy false) i)

long_enough :
    (rss : Bool) (payload : List ℕ) (len : ℕ)
    → len ≡ bench_len rss payload
    → header_offset rss + 24 ≤ len
long_enough true payload len e = ground (arith, e)
long_enough false payload len e = ground (arith, e)

-- Where a frame is built once, it is built for every other sequence number, time and flags, with
-- the same length; and the frame made from the first as a template is, byte for byte, the one
-- that building it afresh gives, checksum included, with nothing written past its end.
pub bench_build_from_template_lem :
    (strtoul : Strtoul) (opts : BenchOpts) (seq0 ns0 fl0 : ℕ) (frame : Bytes) (cap : ℕ) (t : Bytes)
    (len : ℕ) (seq ns fl : ℕ) (buf : Bytes)
    → bench_build_frame strtoul opts seq0 ns0 fl0 frame cap ≡ some (t, len)
    → (f : Bytes) × (bench_build_frame strtoul opts seq ns fl frame cap ≡ some (f, len))
      × ((i : ℕ) → i < len → bench_build_from_template opts.rss_udp t len seq ns fl buf i ≡ f i)
      × ((i : ℕ) → len ≤ i → bench_build_from_template opts.rss_udp t len seq ns fl buf i ≡ buf i)
bench_build_from_template_lem strtoul opts seq0 ns0 fl0 frame cap t len seq ns fl buf e =
    let m = build-Made strtoul opts seq0 ns0 fl0 frame cap t len e in
    let bytes : Bool → Bytes =
      λ rss. bench_bytes rss m.dst m.src m.et m.payload len seq ns fl cap frame in
    let first : Bool → Bytes =
      λ rss. template m.dst m.src m.et m.payload len cap frame buf seq0 ns0 fl0 seq ns fl rss in
    let long : header_offset opts.rss_udp + 24 ≤ len =
      long_enough opts.rss_udp m.payload len m.size in
    let from : (i : ℕ)
        → bench_build_from_template opts.rss_udp t len seq ns fl buf i
          ≡ bench_build_from_template opts.rss_udp (first opts.rss_udp) len seq ns fl buf i =
      λ i. ap (λ g. bench_build_from_template opts.rss_udp g len seq ns fl buf i) m.bytes in
    (
      bytes opts.rss_udp,
      m.other seq ns fl,
      (λ i h.
          from i
          ∙ from_template_inside m.dst m.src m.et m.payload len cap frame buf seq0 ns0 fl0 seq ns fl
              opts.rss_udp m.room long i h),
      (λ i h.
          from i
          ∙ from_template_outside m.dst m.src m.et m.payload len cap frame buf seq0 ns0 fl0 seq ns
              fl opts.rss_udp long i h),
    )
