-- ===== src/Bench/Made.antt =====
-- The parts of a benchmark frame that `bench_build_frame` has built.
use mlx_nic_driver.Base.{ℕ, ◌≤◌, ◌≡◌, arith, some, List, Option-cases, inl, inr}
use mlx_nic_driver.Word.{Bytes}
use mlx_nic_driver.Frame.{Strtoul, mac_from, parse_ethertype16}
use mlx_nic_driver.Bench.{
  BenchOpts, bench_bytes, bench_len, bench_build_frame, sample_parse_payload_hex, frame_capacity,
}

-- The parts, which another sequence number, time or flags do not change.
pub record Made (strtoul : Strtoul) (opts : BenchOpts) (seq send_ns flags : ℕ) (frame : Bytes)
    (cap : ℕ) (f : Bytes) (len : ℕ) : Type 0 where
  pub dst : List ℕ
  pub src : List ℕ
  pub et : ℕ
  pub payload : List ℕ
  pub room : 98 ≤ cap
  pub size : len ≡ bench_len opts.rss_udp payload
  pub short : len ≤ 98
  pub bytes : f ≡ bench_bytes opts.rss_udp dst src et payload len seq send_ns flags cap frame
  pub other :
      (seq1 send_ns1 flags1 : ℕ)
      → bench_build_frame strtoul opts seq1 send_ns1 flags1 frame cap
        ≡ some (bench_bytes opts.rss_udp dst src et payload len seq1 send_ns1 flags1 cap frame, len)

pub build-Made :
    (strtoul : Strtoul) (opts : BenchOpts) (seq send_ns flags : ℕ) (frame : Bytes) (cap : ℕ)
    (f : Bytes) (len : ℕ)
    → bench_build_frame strtoul opts seq send_ns flags frame cap ≡ some (f, len)
    → Made strtoul opts seq send_ns flags frame cap f len
unfolding bench_build_frame
build-Made strtoul opts seq send_ns flags frame cap f len e =
    elim (Option-cases (mac_from 6 opts.dst_mac)) [
      | inl bad ↦ absurd (ground (arith, bad))
      | inr (dst, d) ↦ elim (Option-cases (mac_from 6 opts.src_mac)) [
        | inl bad ↦ absurd (ground (arith, bad, d))
        | inr (src, s) ↦ elim (Option-cases (parse_ethertype16 strtoul opts.ethertype)) [
          | inl bad ↦ absurd (ground (arith, bad, d, s))
          | inr (et, t) ↦
              elim (Option-cases (sample_parse_payload_hex opts.payload_hex frame_capacity)) [
                | inl bad ↦ absurd (ground (arith, bad, d, s, t))
                | inr (payload, p) ↦
                    let size : len ≡ bench_len opts.rss_udp payload = ground (arith, d, s, t, p) in
                    record {
                      dst = dst;
                      src = src;
                      et = et;
                      payload = payload;
                      room = ground (arith, d, s, t, p);
                      size = size;
                      short = ground (arith, d, s, t, p);
                      bytes = ground (arith, d, s, t, p);
                      other = λ seq1 send_ns1 flags1. ground (arith, d, s, t, p);
                    }
              ]
        ]
      ]
    ]
