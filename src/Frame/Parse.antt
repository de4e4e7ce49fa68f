-- ===== src/Frame/Parse.antt =====
-- About `parse_mac_addr`, with a printer of addresses.
use mlx_nic_driver.Base.{
  ℕ, suc, ◌+◌, ◌*◌, ◌/◌, ◌%◌, ◌^◌, ◌<◌, ◌≡◌, ◌∙◌, ap, refl, arith, some, List, [], ◌∷◌, ltb,
  if◌then◌else◌, length, All,
}
use mlx_nic_driver.Frame.{hex_nibble, hex_byte, mac_separator, mac_from, parse_mac_addr}

abbrev pub hex_digit : ℕ → ℕ
hex_digit d = if ltb d 10 then d + 48 else d + 87

hex_nibble-hex_digit : (d : ℕ) → d < 16 → hex_nibble (hex_digit d) ≡ some d
unfolding hex_nibble
hex_nibble-hex_digit d h = ground arith

hex_byte_nibbles :
    (a b hi lo : ℕ)
    → hex_nibble a ≡ some hi
    → hex_nibble b ≡ some lo
    → hex_byte a b ≡ some (hi * 2 ^ 4 + lo)
unfolding hex_byte
hex_byte_nibbles a b hi lo at_a at_b = ground (arith, at_a, at_b)

hex_byte_lem : (b : ℕ) → b < 256 → hex_byte (hex_digit (b / 16)) (hex_digit (b % 16)) ≡ some b
hex_byte_lem b h =
    let hi = hex_nibble-hex_digit (b / 16) (omega arith) in
    let lo = hex_nibble-hex_digit (b % 16) (omega arith) in
    let whole : b / 16 * 2 ^ 4 + b % 16 ≡ b = omega arith in
    hex_byte_nibbles (hex_digit (b / 16)) (hex_digit (b % 16)) (b / 16) (b % 16) hi lo
    ∙ ap some whole

-- The bytes in hexadecimal, with colons between them.
abbrev pub show_mac : List ℕ → List ℕ
show_mac [] = []
show_mac (b ∷ []) = hex_digit (b / 16) ∷ hex_digit (b % 16) ∷ []
show_mac (b ∷ c ∷ bs) = hex_digit (b / 16) ∷ hex_digit (b % 16) ∷ 58 ∷ show_mac (c ∷ bs)

mac_step :
    (left a b byte : ℕ) (s rest bytes : List ℕ)
    → hex_byte a b ≡ some byte
    → mac_separator left s ≡ some rest
    → mac_from left rest ≡ some bytes
    → mac_from (suc left) (a ∷ b ∷ s) ≡ some (byte ∷ bytes)
unfolding mac_from
mac_step left a b byte s rest bytes here colon later = ground (arith, here, colon, later)

mac_from-show_mac :
    (b : ℕ) (bs : List ℕ)
    → All (λ x. x < 256) (b ∷ bs)
    → mac_from (length (b ∷ bs)) (show_mac (b ∷ bs)) ≡ some (b ∷ bs)
unfolding mac_from mac_separator
mac_from-show_mac b [] fits =
    mac_step 0 (hex_digit (b / 16)) (hex_digit (b % 16)) b [] [] [] (hex_byte_lem b fits.0) refl
      refl
mac_from-show_mac b (c ∷ bs) fits =
    mac_step (length (c ∷ bs)) (hex_digit (b / 16)) (hex_digit (b % 16)) b (58 ∷ show_mac (c ∷ bs))
      (show_mac (c ∷ bs)) (c ∷ bs) (hex_byte_lem b fits.0) refl (mac_from-show_mac c bs fits.1)

-- Any six bytes, printed with two lower-case digits each and colons between them, are read back.
pub parse_mac_addr-show_mac :
    (a b c d e f : ℕ)
    → All (λ x. x < 256) (a ∷ b ∷ c ∷ d ∷ e ∷ f ∷ [])
    → parse_mac_addr (show_mac (a ∷ b ∷ c ∷ d ∷ e ∷ f ∷ [])) ≡ some (a ∷ b ∷ c ∷ d ∷ e ∷ f ∷ [])
unfolding parse_mac_addr
parse_mac_addr-show_mac a b c d e f fits = mac_from-show_mac a (b ∷ c ∷ d ∷ e ∷ f ∷ []) fits
