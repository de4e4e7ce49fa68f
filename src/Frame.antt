-- ===== src/Frame.antt =====
-- Test frames: `parse_mac_addr`, `parse_ethertype16`, `parse_payload_hex` and
-- `build_tx_test_frame` of src/mlx5.c. A C string is the list of its bytes before the NUL.
-- strtoul is the C library's: it is an argument, which yields the value and what is left.
pub mod Parse
pub mod Build
use mlx_nic_driver.Base.{
  ℕ, zero, suc, ◌+◌, ◌-◌, ◌*◌, ◌%◌, ◌^◌, Bool, true, false, not, ◌&&◌, ◌||◌, Option, none, some,
  List, [], ◌∷◌, ltb, leb, ◌==◌, if◌then◌else◌, length, get_or,
}
use mlx_nic_driver.Word.{Bytes, memset, memcpy, put_be16}
use mlx_nic_driver.Sq.{tx_test_min_frame, tx_test_max_inline_frame}

abbrev pub between : ℕ → ℕ → ℕ → Bool
between lo hi c = leb lo c && leb c hi

-- `none` is -1.
unfoldable pub hex_nibble : ℕ → Option ℕ
hex_nibble c =
    if between 48 57 c
    then some (c - 48)
    else if between 97 102 c
    then some (c - 97 + 10)
    else if between 65 70 c
    then some (c - 65 + 10)
    else none

-- Two digits: (hi << 4) | lo.
unfoldable pub hex_byte : ℕ → ℕ → Option ℕ
hex_byte a b = elim (hex_nibble a) [
  | none ↦ none
  | some hi ↦ elim (hex_nibble b) [ none ↦ none | some lo ↦ some (hi * 2 ^ 4 + lo) ]
]

-- What stands between two bytes, with `left` bytes to come: a colon, but nothing after the last.
unfoldable pub mac_separator : ℕ → List ℕ → Option (List ℕ)
mac_separator zero s = some s
mac_separator (suc left) [] = none
mac_separator (suc left) (c ∷ s) = if c == 58 then some s else none

-- The loop with `left` bytes to go, and the test of the end.
unfoldable pub mac_from : ℕ → List ℕ → Option (List ℕ)
mac_from zero [] = some []
mac_from zero (c ∷ s) = none
mac_from (suc left) [] = none
mac_from (suc left) (a ∷ []) = none
mac_from (suc left) (a ∷ b ∷ s) = elim (hex_byte a b) [
  | none ↦ none
  | some byte ↦ elim (mac_separator left s) [
    | none ↦ none
    | some s' ↦ elim (mac_from left s') [ none ↦ none | some rest ↦ some (byte ∷ rest) ]
  ]
]

unfoldable pub parse_mac_addr : List ℕ → Option (List ℕ)
parse_mac_addr s = mac_from 6 s

abbrev pub Strtoul : Type 0
Strtoul = List ℕ → ℕ × List ℕ

unfoldable pub parse_ethertype16 : Strtoul → List ℕ → Option ℕ
parse_ethertype16 strtoul s =
    let (value, end) = strtoul s in
    if length end == length s || not (length end == 0) || ltb 0xffff value then none else some value

abbrev pub is_separator : ℕ → Bool
is_separator c = c == 58 || c == 32 || c == 95 || c == 45

-- The loop of `parse_payload_hex` with room for `room` bytes.
unfoldable pub payload_from : ℕ → List ℕ → Option (List ℕ)
payload_from room [] = some []
payload_from room (c ∷ []) = if is_separator c then some [] else none
payload_from room (c ∷ d ∷ s) =
    let skipped = payload_from room (d ∷ s) in
    let rest = payload_from (room - 1) s in
    if is_separator c then skipped else if room == 0 then none else elim (hex_byte c d) [
      | none ↦ none
      | some byte ↦ elim rest [ none ↦ none | some bytes ↦ some (byte ∷ bytes) ]
    ]

abbrev pub strip_prefix : List ℕ → List ℕ
strip_prefix [] = []
strip_prefix (c ∷ []) = c ∷ []
strip_prefix (c ∷ d ∷ s) = if c == 48 && (d == 120 || d == 88) then s else c ∷ d ∷ s

unfoldable pub parse_payload_hex : List ℕ → ℕ → Option (List ℕ)
parse_payload_hex s max_len = payload_from max_len (strip_prefix s)

-- `struct mlx5_tx_test_opts`; `none` is NULL.
pub record Opts : Type 0 where
  pub dst_mac : Option (List ℕ)
  pub src_mac : Option (List ℕ)
  pub ethertype : Option (List ℕ)
  pub payload_hex : Option (List ℕ)

-- "mlxnicd-tx-0001", then 0 to 0x1d.
abbrev pub default_payload : Bytes
default_payload i =
    if ltb i 15
    then get_or
        (109 ∷ 108 ∷ 120 ∷ 110 ∷ 105 ∷ 99 ∷ 100 ∷ 45 ∷ 116 ∷ 120 ∷ 45 ∷ 48 ∷ 48 ∷ 48 ∷ 49 ∷ []) i 0
    else if i == 15
    then 0
    else if ltb i 46
    then i - 16
    else 0

-- An option that is absent keeps its default.
abbrev pub or_default {ℓ} : {A : Type ℓ} → (List ℕ → Option A) → A → Option (List ℕ) → Option A
or_default parse default none = some default
or_default parse default (some s) = parse s

abbrev pub default_dst : List ℕ
default_dst = 0xff ∷ 0xff ∷ 0xff ∷ 0xff ∷ 0xff ∷ 0xff ∷ []

abbrev pub default_src : List ℕ
default_src = 2 ∷ 0 ∷ 0 ∷ 0 ∷ 0 ∷ 1 ∷ []

-- The payload's bytes and length.
unfoldable pub payload_of : Option (List ℕ) → Option (Bytes × ℕ)
payload_of none = some (default_payload, 46)
payload_of (some s) = elim (parse_payload_hex s 84) [
  | none ↦ none
  | some bytes ↦ some ((λ i. get_or bytes i 0), length bytes)
]

abbrev pub padded : ℕ → ℕ
padded len = if ltb len tx_test_min_frame then tx_test_min_frame else len

-- The bytes of the frame in a buffer of `cap` bytes.
unfoldable pub lay_out :
    (dst src : List ℕ) → (ethertype : ℕ) → Bytes → (payload_len cap : ℕ) → Bytes → Bytes
lay_out dst src ethertype payload payload_len cap frame = memcpy 14 payload 0 payload_len (
    put_be16 12 ethertype (
      memcpy 6 (λ i. get_or src i 0) 0 6
        (memcpy 0 (λ i. get_or dst i 0) 0 6 (memset 0 0 cap frame))))

-- `none` is -1.
unfoldable pub build_tx_test_frame : Strtoul → Opts → Bytes → ℕ → Option (Bytes × ℕ)
build_tx_test_frame strtoul opts frame cap =
    if ltb cap tx_test_max_inline_frame
    then none
    else elim (or_default parse_mac_addr default_dst opts.dst_mac) [
      | none ↦ none
      | some dst ↦ elim (or_default parse_mac_addr default_src opts.src_mac) [
        | none ↦ none
        | some src ↦ elim (or_default (parse_ethertype16 strtoul) 0x88b5 opts.ethertype) [
          | none ↦ none
          | some et ↦ elim (payload_of opts.payload_hex) [
            | none ↦ none
            | some (payload, payload_len) ↦
                if ltb tx_test_max_inline_frame (padded (14 + payload_len))
                then none
                else some
                    (lay_out dst src et payload payload_len cap frame, padded (14 + payload_len))
          ]
        ]
      ]
    ]
