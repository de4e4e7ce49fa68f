-- ===== src/Tests/Benchmark.antt =====
-- Tests of the benchmark frames.
use mlx_nic_driver.Base.{ℕ, ◌≡◌, ◌<◌, refl, true, none, some, [], ◌∷◌}
use mlx_nic_driver.Word.{Bytes, zeroed}
use mlx_nic_driver.Frame.{Strtoul, mac_from, mac_separator, hex_byte, hex_nibble, parse_ethertype16}
use mlx_nic_driver.Frame.Parse.{show_mac}
use mlx_nic_driver.Bench.{
  BenchOpts, bench_build_frame, bench_build_from_template, sample_parse_payload_hex,
  sample_payload_from,
}
use mlx_nic_driver.Bench.Checksum.{IsChecked, bench_build_frame_checksum}
use mlx_nic_driver.Bench.Template.{bench_build_from_template_lem}

-- A payload of two bytes, "be:ef".
abbrev opts : BenchOpts
opts = record {
  src_mac = show_mac (2 ∷ 0 ∷ 0 ∷ 0 ∷ 0 ∷ 1 ∷ []);
  dst_mac = show_mac (2 ∷ 0 ∷ 0 ∷ 0 ∷ 0 ∷ 2 ∷ []);
  ethertype = 48 ∷ [];
  payload_hex = some (98 ∷ 101 ∷ 58 ∷ 101 ∷ 102 ∷ []);
  rss_udp = true;
}

abbrev number : Strtoul
number s = (0x0800, [])

abbrev frame : Bytes
frame = elim (bench_build_frame number opts 70000 5 0 zeroed 98) [
  | none ↦ zeroed
  | some (f, len) ↦ f
]

built : bench_build_frame number opts 70000 5 0 zeroed 98 ≡ some (frame, 68)
unfolding bench_build_frame sample_parse_payload_hex sample_payload_from hex_byte hex_nibble
    mac_from mac_separator parse_ethertype16
built = refl

bench_build_frame_checksum_example : IsChecked frame
bench_build_frame_checksum_example =
    bench_build_frame_checksum number opts 70000 5 0 zeroed 98 frame 68 refl built

bench_build_from_template_lem_example :
    (f : Bytes) × (bench_build_frame number opts 70001 9 1 zeroed 98 ≡ some (f, 68))
    × ((i : ℕ) → i < 68 → bench_build_from_template true frame 68 70001 9 1 zeroed i ≡ f i)
bench_build_from_template_lem_example =
    let lem =
      bench_build_from_template_lem number opts 70000 5 0 zeroed 98 frame 68 70001 9 1 zeroed
        built in
    (lem.0, lem.1, lem.2)
