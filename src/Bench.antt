-- ===== src/Bench.antt =====
-- The benchmark frames of src/sample.c: `sample_bench_build_frame`,
-- `sample_bench_build_from_template` and `sample_ipv4_checksum`, with the parsers of their
-- options. The accessors `sample_put_be16` and so on are those of Word. Pointers are not NULL.
pub mod Checksum
pub mod Cells
pub mod Lower
pub mod Made
pub mod Template
use mlx_nic_driver.Base.{
  ℕ, zero, suc, ◌+◌, ◌-◌, ◌*◌, ◌%◌, ◌^◌, Bool, true, false, not, ◌&&◌, ◌||◌, Option, none, some,
  List, [], ◌∷◌, ltb, ◌==◌, if◌then◌else◌, length, get_or,
}
use mlx_nic_driver.Word.{
  Bytes, u16, u32, shr, low_bits, memset, memcpy, put8, put_be16, put_be32, put_be64, get_be16,
}
use mlx_nic_driver.Frame.{hex_byte, is_separator, mac_from, parse_ethertype16, Strtoul}

abbrev pub frame_capacity : ℕ
frame_capacity = 98

abbrev pub bench_magic : ℕ
bench_magic = 0x4d4c5842

abbrev pub bench_hdr_len : ℕ
bench_hdr_len = 24

-- The fields of `struct raw_bench_opts` that the frames depend on; an absent payload is NULL.
pub record BenchOpts : Type 0 where
  pub src_mac : List ℕ
  pub dst_mac : List ℕ
  pub ethertype : List ℕ
  pub payload_hex : Option (List ℕ)
  pub rss_udp : Bool

-- The loop of `sample_parse_payload_hex` with room for `room` bytes. `none` is -1.
unfoldable pub sample_payload_from : ℕ → List ℕ → Option (List ℕ)
sample_payload_from room [] = some []
sample_payload_from room (c ∷ []) = if is_separator c then some [] else none
sample_payload_from room (c ∷ d ∷ s) =
    let skipped = sample_payload_from room (d ∷ s) in
    let prefixed = sample_payload_from room s in
    let rest = sample_payload_from (room - 1) s in
    if is_separator c
    then skipped
    else if c == 48 && (d == 120 || d == 88)
    then prefixed
    else elim (hex_byte c d) [
      | none ↦ none
      | some byte ↦
          if room == 0 then none else elim rest [ none ↦ none | some bytes ↦ some (byte ∷ bytes) ]
    ]

unfoldable pub sample_parse_payload_hex : Option (List ℕ) → ℕ → Option (List ℕ)
sample_parse_payload_hex none max_len = some []
sample_parse_payload_hex (some s) max_len = sample_payload_from max_len s

abbrev pub header_offset : Bool → ℕ
header_offset rss_udp = if rss_udp then 14 + 20 + 8 else 14

-- The sum of `words` big-endian words from `off` on.
unfoldable pub sum_words : ℕ → Bytes → ℕ → ℕ
sum_words zero p off = 0
sum_words (suc words) p off = get_be16 p off + sum_words words p (off + 2)

-- The carries are folded in until there are none; `fuel` rounds at most.
unfoldable pub fold_carries : ℕ → ℕ → ℕ
fold_carries zero s = s
fold_carries (suc fuel) s =
    let rest = fold_carries fuel (low_bits s 16 + shr s 16) in if shr s 16 == 0 then s else rest

-- Of the `2 * words` bytes from `off` on. A sum of 32 bits folds in two rounds.
unfoldable pub ipv4_checksum : Bytes → (off words : ℕ) → ℕ
ipv4_checksum p off words = 65535 - fold_carries 2 (u32 (sum_words words p off))

-- The Ethernet header in a buffer of `cap` bytes.
unfoldable pub ether_header : (dst src : List ℕ) → (ethertype cap : ℕ) → Bytes → Bytes
ether_header dst src ethertype cap frame =
    put_be16 12 ethertype (
      memcpy 6 (λ i. get_or src i 0) 0 6
        (memcpy 0 (λ i. get_or dst i 0) 0 6 (memset 0 0 cap frame)))

-- The IPv4 header at 14, all but its checksum.
unfoldable pub ip_header : (len seq : ℕ) → Bytes → Bytes
ip_header len seq p =
    let fixed : Bytes = put8 23 17 (
      put8 22 64 (
        put_be16 20 0x4000
          (put_be16 18 (u16 seq) (put_be16 16 (u16 (len - 14)) (put8 14 0x45 p))))) in
    put8 33 5
      (put8 32 2 (put8 31 0 (put8 30 192 (put8 29 6 (put8 28 2 (put8 27 0 (put8 26 192 fixed)))))))

abbrev pub udp_port : ℕ → ℕ
udp_port seq = u16 (10000 + seq % 50000)

-- The checksum, and the UDP header at 34.
unfoldable pub udp_header : (len seq : ℕ) → Bytes → Bytes
udp_header len seq p =
    put_be16 38 (u16 (len - 14 - 20))
      (put_be16 36 20000 (put_be16 34 (udp_port seq) (put_be16 24 (ipv4_checksum p 14 10) p)))

-- The benchmark's own header at `off`.
unfoldable pub bench_header : (off flags seq send_ns payload_len : ℕ) → Bytes → Bytes
bench_header off flags seq send_ns payload_len p = put_be32 (off + 20) (u32 payload_len) (
    put_be64 (off + 12) send_ns (
      put_be32 (off + 8) seq
        (put_be16 (off + 6) flags (put_be16 (off + 4) 1 (put_be32 off bench_magic p)))))

abbrev pub payload_bytes : List ℕ → Bytes
payload_bytes payload i = get_or payload i 0

-- All that is written to the frame, for parsed options.
unfoldable pub bench_bytes :
    (rss_udp : Bool)
    → (dst src : List ℕ) → (ethertype : ℕ) → (payload : List ℕ) → (len seq send_ns flags cap : ℕ)
    → Bytes
    → Bytes
bench_bytes rss_udp dst src ethertype payload len seq send_ns flags cap frame =
    let ether : Bytes = ether_header dst src ethertype cap frame in
    let off : ℕ = header_offset rss_udp in
    let lower : Bytes = if rss_udp then udp_header len seq (ip_header len seq ether) else ether in
    memcpy (off + bench_hdr_len) (payload_bytes payload) 0 (length payload)
      (bench_header off flags seq send_ns (length payload) lower)

abbrev pub bench_len : Bool → List ℕ → ℕ
bench_len rss_udp payload =
    let len : ℕ = header_offset rss_udp + bench_hdr_len + length payload in
    if ltb len 60 then 60 else len

-- `none` is -1.
unfoldable pub bench_build_frame :
    Strtoul → BenchOpts → (seq send_ns flags : ℕ) → Bytes → (cap : ℕ) → Option (Bytes × ℕ)
bench_build_frame strtoul opts seq send_ns flags frame cap =
    if ltb cap frame_capacity then none else elim (mac_from 6 opts.dst_mac) [
      | none ↦ none
      | some dst ↦ elim (mac_from 6 opts.src_mac) [
        | none ↦ none
        | some src ↦ elim (parse_ethertype16 strtoul opts.ethertype) [
          | none ↦ none
          | some et ↦
              if opts.rss_udp && not (et == 0x0800)
              then none
              else elim (sample_parse_payload_hex opts.payload_hex frame_capacity) [
                | none ↦ none
                | some payload ↦
                    let len : ℕ = bench_len opts.rss_udp payload in
                    if ltb frame_capacity len
                    then none
                    else some (
                      bench_bytes opts.rss_udp dst src et payload len seq send_ns flags cap frame,
                      len,
                    )
              ]
        ]
      ]
    ]

-- The sequence number and the checksum of a copied frame.
unfoldable pub renumber : (seq : ℕ) → Bytes → Bytes
renumber seq p =
    let cleared : Bytes = put_be16 24 0 (put_be16 18 (u16 seq) p) in
    put_be16 34 (udp_port seq) (put_be16 24 (ipv4_checksum cleared 14 10) cleared)

unfoldable pub bench_build_from_template :
    (rss_udp : Bool) → (template : Bytes) → (template_len seq send_ns flags : ℕ) → Bytes → Bytes
unfolding renumber
bench_build_from_template rss_udp template template_len seq send_ns flags frame =
    let off : ℕ = header_offset rss_udp in
    let copied : Bytes = memcpy 0 template 0 template_len frame in
    let lower : Bytes = if rss_udp then renumber seq copied else copied in
    put_be64 (off + 12) send_ns (put_be32 (off + 8) seq (put_be16 (off + 6) flags lower))
