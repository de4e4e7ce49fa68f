-- ===== src/Tests/Frames.antt =====
-- Tests of the frame builder.
use mlx_nic_driver.Base.{◌≤◌, ◌≡◌, ◌≢◌, refl, arith, true, none, some, [], ◌∷◌}
use mlx_nic_driver.Word.{Bytes, zeroed}
use mlx_nic_driver.Sq.{prepare_send_raw}
use mlx_nic_driver.Frame.{
  Strtoul, Opts, parse_mac_addr, parse_payload_hex, build_tx_test_frame, payload_of, hex_byte,
  hex_nibble, payload_from,
}
use mlx_nic_driver.Frame.Parse.{show_mac, parse_mac_addr-show_mac}
use mlx_nic_driver.Frame.Build.{build_tx_test_frame_lem}
use mlx_nic_driver.Tests.{sq}

parse_mac_addr-show_mac_example :
    parse_mac_addr (show_mac (2 ∷ 0 ∷ 94 ∷ 16 ∷ 0 ∷ 255 ∷ []))
    ≡ some (2 ∷ 0 ∷ 94 ∷ 16 ∷ 0 ∷ 255 ∷ [])
parse_mac_addr-show_mac_example =
    parse_mac_addr-show_mac 2 0 94 16 0 255
      (omega arith, (omega arith, (omega arith, (omega arith, (omega arith, (omega arith, tt))))))

-- "0x01:fe"
payload_example :
    parse_payload_hex (48 ∷ 120 ∷ 48 ∷ 49 ∷ 58 ∷ 102 ∷ 101 ∷ []) 84 ≡ some (1 ∷ 254 ∷ [])
unfolding parse_payload_hex payload_from hex_byte hex_nibble
payload_example = refl

abbrev opts : Opts
opts = record { dst_mac = none; src_mac = none; ethertype = none; payload_hex = none }

abbrev no_number : Strtoul
no_number s = (0, s)

abbrev frame : Bytes
frame = elim (build_tx_test_frame no_number opts zeroed 98) [ none ↦ zeroed | some (f, len) ↦ f ]

built : build_tx_test_frame no_number opts zeroed 98 ≡ some (frame, 60)
unfolding build_tx_test_frame payload_of
built = refl

build_tx_test_frame_lem_example :
    (prepare_send_raw 3 frame 60 true sq ≢ none) × (60 ≤ 60) × (60 ≤ 98)
build_tx_test_frame_lem_example =
    let lem = build_tx_test_frame_lem no_number opts zeroed 98 frame 60 3 true sq built in
    (lem.0, lem.1, lem.2)
