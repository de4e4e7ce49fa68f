-- ===== src/Frame/Build.antt =====
-- The frame that `build_tx_test_frame` builds.
use mlx_nic_driver.Base.{
  ℕ, ◌+◌, ◌-◌, ◌≤◌, ◌<◌, ◌≡◌, ◌≢◌, ◌∙◌, ap, arith, Bool, none, some, List, Option-cases, inl, inr,
  get_or,
}
use mlx_nic_driver.Word.{Bytes, memset, memcpy}
use mlx_nic_driver.Word.Laws.{put_be16_outside}
use mlx_nic_driver.Sq.{Sq, prepare_send_raw}
use mlx_nic_driver.Sq.Wqe.{prepare_send_raw_accepts}
use mlx_nic_driver.Frame.{
  Strtoul, Opts, or_default, parse_mac_addr, parse_ethertype16, payload_of, default_dst,
  default_src, padded, lay_out, build_tx_test_frame,
}

-- The parts of a frame that was built.
record Built (strtoul : Strtoul) (opts : Opts) (frame : Bytes) (cap : ℕ) (f : Bytes) (len : ℕ)
    : Type 0 where
  dst : List ℕ
  src : List ℕ
  et : ℕ
  payload : Bytes
  payload_len : ℕ
  dst_of : or_default parse_mac_addr default_dst opts.dst_mac ≡ some dst
  room : 98 ≤ cap
  short : padded (14 + payload_len) ≤ 98
  bytes : f ≡ lay_out dst src et payload payload_len cap frame
  size : len ≡ padded (14 + payload_len)

build-Built :
    (strtoul : Strtoul) (opts : Opts) (frame : Bytes) (cap : ℕ) (f : Bytes) (len : ℕ)
    → build_tx_test_frame strtoul opts frame cap ≡ some (f, len)
    → Built strtoul opts frame cap f len
unfolding build_tx_test_frame
build-Built strtoul opts frame cap f len e =
    elim (Option-cases (or_default parse_mac_addr default_dst opts.dst_mac)) [
      | inl bad ↦ absurd (ground (arith, bad))
      | inr (dst, d) ↦ elim (Option-cases (or_default parse_mac_addr default_src opts.src_mac)) [
        | inl bad ↦ absurd (ground (arith, bad, d))
        | inr (src, s) ↦
            elim (Option-cases (or_default (parse_ethertype16 strtoul) 0x88b5 opts.ethertype)) [
              | inl bad ↦ absurd (ground (arith, bad, d, s))
              | inr (et, t) ↦ elim (Option-cases (payload_of opts.payload_hex)) [
                | inl bad ↦ absurd (ground (arith, bad, d, s, t))
                | inr ((payload, payload_len), p) ↦ record {
                  dst = dst;
                  src = src;
                  et = et;
                  payload = payload;
                  payload_len = payload_len;
                  dst_of = d;
                  room = ground (arith, d, s, t, p);
                  short = ground (arith, d, s, t, p);
                  bytes = ground (arith, d, s, t, p);
                  size = ground (arith, d, s, t, p);
                }
              ]
            ]
      ]
    ]

-- A frame that is built has 60 to 98 bytes, so that the send path accepts it; it starts with the
-- destination address given, or the broadcast address; and no byte past the buffer is written.
pub build_tx_test_frame_lem :
    (strtoul : Strtoul) (opts : Opts) (frame : Bytes) (cap : ℕ) (f : Bytes) (len : ℕ) (tisn : ℕ)
    (completion : Bool) (sq : Sq)
    → build_tx_test_frame strtoul opts frame cap ≡ some (f, len)
    → (prepare_send_raw tisn f len completion sq ≢ none)
      × (60 ≤ len)
      × (len ≤ cap)
      × ((dst : List ℕ) × (or_default parse_mac_addr default_dst opts.dst_mac ≡ some dst)
          × ((i : ℕ) → i < 6 → f i ≡ get_or dst i 0))
      × ((i : ℕ) → cap ≤ i → f i ≡ frame i)
unfolding lay_out
build_tx_test_frame_lem strtoul opts frame cap f len tisn completion sq e =
    let b = build-Built strtoul opts frame cap f len e in
    let low : 60 ≤ len = ground (arith, b.size) in
    let high : len ≤ 98 = ground (arith, b.size, b.short) in
    let fits : 14 + b.payload_len ≤ 98 = ground (arith, b.short) in
    let at : (i : ℕ) → f i ≡ lay_out b.dst b.src b.et b.payload b.payload_len cap frame i =
      λ i. ap (λ g. g i) b.bytes in
    let addresses =
      memcpy 6 (λ i. get_or b.src i 0) 0 6
        (memcpy 0 (λ i. get_or b.dst i 0) 0 6 (memset 0 0 cap frame)) in
    (
      (prepare_send_raw_accepts tisn f len completion sq).1 (low, high),
      low,
      omega (arith, high, b.room),
      (
        b.dst,
        b.dst_of,
        (λ i h.
            let cell : 0 + (i - 0) ≡ i = omega arith in
            at i
            ∙ ground
                (arith, put_be16_outside addresses 12 b.et i, ap (λ k. get_or b.dst k 0) cell)),
      ),
      (λ i h. at i ∙ ground (arith, put_be16_outside addresses 12 b.et i, b.room)),
    )
