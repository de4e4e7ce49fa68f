-- ===== src/Word/Xor.antt =====
-- About `xor8` and the signature bytes.
use mlx_nic_driver.Base.{
  ℕ, zero, suc, ◌+◌, ◌-◌, ◌≤◌, ◌<◌, ◌≡◌, refl, ap, ◌∙◌, inl, inr, arith, Bool-cases, ltb-false,
  Bool, true, false, ltb, ltb→lt, ◌==◌, if◌then◌else◌, bit_xor, ==_iff,
}
use mlx_nic_driver.Word.{Bytes, xor8, not8}

-- A test that every number under `n` passes.
passed : (ℕ → Bool) → ℕ → Bool
passed test zero = true
passed test (suc n) = if test n then passed test n else false

passes_each : (test : ℕ → Bool) (n : ℕ) → passed test n ≡ true → (b : ℕ) → b < n → test b ≡ true
unfolding passed
passes_each test zero done b small = absurd (omega arith)
passes_each test (suc n) done b small =
    let here : test n ≡ true = ground arith in
    let rest : passed test n ≡ true = ground arith in
    elim (Bool-cases (ltb b n)) [
      | inl below ↦ passes_each test n rest b (ltb→lt b n below)
      | inr last ↦ let same : b ≡ n = omega (arith, ltb-false b n last) in ap test same ∙ here
    ]

complemented : passed (λ b. bit_xor b (255 - b) == 255) 256 ≡ true
unfolding passed
complemented = refl

signs_owner : passed (λ b. bit_xor (bit_xor (bit_xor b (255 - bit_xor b 1)) 0) 1 == 255) 256 ≡ true
unfolding passed
signs_owner = refl

zero_neutral : passed (λ b. bit_xor b 0 == b) 256 ≡ true
unfolding passed
zero_neutral = refl

pairs_of_bytes : passed (λ a. passed (λ b. ltb (bit_xor a b) 256) 256) 256 ≡ true
unfolding passed
pairs_of_bytes = refl

pub bit_xor-not8 : (b : ℕ) → b < 256 → bit_xor b (not8 b) ≡ 255
bit_xor-not8 b small =
    let byte : not8 b ≡ 255 - b = omega arith in
    rw byte ((==_iff (bit_xor b (255 - b)) 255).0 (passes_each _ 256 complemented b small))

pub bit_xor-zero : (b : ℕ) → b < 256 → bit_xor b 0 ≡ b
bit_xor-zero b small = (==_iff (bit_xor b 0) b).0 (passes_each _ 256 zero_neutral b small)

-- The three last bytes of a descriptor: the signature, 0 and the owner bit.
pub signed_tail : (b : ℕ) → b < 256 → bit_xor (bit_xor (bit_xor b (255 - bit_xor b 1)) 0) 1 ≡ 255
signed_tail b small = (==_iff _ 255).0 (passes_each _ 256 signs_owner b small)

pub bit_xor-byte : (a b : ℕ) → a < 256 → b < 256 → bit_xor a b < 256
bit_xor-byte a b small_a small_b =
    ltb→lt (bit_xor a b) 256
      (passes_each _ 256 (passes_each _ 256 pairs_of_bytes a small_a) b small_b)

-- The exclusive or of bytes is a byte.
pub xor8-byte :
    (p : Bytes) (off len : ℕ)
    → ((i : ℕ) → off ≤ i → i < off + len → p i < 256)
    → xor8 p off len < 256
unfolding xor8
xor8-byte p off zero bytes = omega arith
xor8-byte p off (suc len) bytes =
    bit_xor-byte (xor8 p off len) (p (off + len))
      (xor8-byte p off len (λ i lo hi. bytes i lo (omega arith)))
      (bytes (off + len) (omega arith) (omega arith))

-- It depends on those bytes alone.
pub xor8_same :
    (p q : Bytes) (off len : ℕ)
    → ((i : ℕ) → off ≤ i → i < off + len → p i ≡ q i)
    → xor8 p off len ≡ xor8 q off len
unfolding xor8
xor8_same p q off zero same = refl
xor8_same p q off (suc len) same =
    rw
      (
        xor8_same p q off len (λ i lo hi. same i lo (omega arith)),
        same (off + len) (omega arith) (omega arith),
      )
      refl

pub xor8-suc :
    (p : Bytes) (off len : ℕ) → xor8 p off (suc len) ≡ bit_xor (xor8 p off len) (p (off + len))
unfolding xor8
xor8-suc p off len = refl
