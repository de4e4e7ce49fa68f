-- ===== src/Sq/Wqe.antt =====
-- What `mlx5_sq_prepare_send_raw` writes for a frame, read back field by field.
use mlx_nic_driver.Base.{
  ℕ, ◌+◌, ◌*◌, ◌/◌, ◌%◌, ◌^◌, ◌≤◌, ◌<◌, ◌≡◌, ◌≢◌, ◌↔◌, ◌⊎◌, refl, arith, Bool, none, some,
  if◌then◌else◌,
}
use mlx_nic_driver.Word.{Bytes, get_be16, get_be32}
use mlx_nic_driver.Word.Laws.{get_be32_of_bytes}
use mlx_nic_driver.Sq.{Sq, prepare_send_raw, write_send_wqe, next_wqe}

-- A frame is accepted exactly when it has 60 to 98 bytes: the second check, that the WQE takes
-- two blocks, never fails.
pub prepare_send_raw_accepts :
    (tisn : ℕ) (frame : Bytes) (len : ℕ) (completion : Bool) (sq : Sq)
    → (prepare_send_raw tisn frame len completion sq ≢ none) ↔ ((60 ≤ len) × (len ≤ 98))
unfolding prepare_send_raw
prepare_send_raw_accepts tisn frame len completion sq = ((λ h. ground arith), (λ h. ground arith))

module _ (tisn sqn pi : ℕ) (frame : Bytes) (len : ℕ) (completion : Bool) (wqe : ℕ) (ring : Bytes)
    (min : 60 ≤ len) (max : len ≤ 98) where
  abbrev written : Bytes
  written = write_send_wqe tisn sqn pi frame len completion wqe ring

  written_frame : (i : ℕ) → i < len → written (wqe + 0x1e + i) ≡ frame i
  unfolding write_send_wqe
  written_frame i h = ground arith

  written_outside : (i : ℕ) → (i < wqe) ⊎ (wqe + 128 ≤ i) → written i ≡ ring i
  unfolding write_send_wqe
  written_outside i h = ground arith

  written_opcode : get_be32 written wqe ≡ pi % 2 ^ 16 * 256 + 0x0a
  unfolding write_send_wqe
  written_opcode =
      get_be32_of_bytes written wqe (pi % 2 ^ 16 * 256 + 0x0a) (omega arith) (ground arith)
        (ground arith) (ground arith) (ground arith)

  written_sqn : get_be32 written (wqe + 4) ≡ sqn % 2 ^ 24 * 256 + (len + 45) / 16
  unfolding write_send_wqe
  written_sqn =
      get_be32_of_bytes written (wqe + 4) (sqn % 2 ^ 24 * 256 + (len + 45) / 16) (omega arith)
        (ground arith) (ground arith) (ground arith) (ground arith)

  written_tisn : get_be32 written (wqe + 0x0c) ≡ tisn % 2 ^ 24
  unfolding write_send_wqe
  written_tisn =
      get_be32_of_bytes written (wqe + 0x0c) (tisn % 2 ^ 24) (omega arith) (ground arith)
        (ground arith) (ground arith) (ground arith)

  written_completion : written (wqe + 0x0b) ≡ (if completion then 8 else 0)
  unfolding write_send_wqe
  written_completion = ground arith

  written_length : get_be16 written (wqe + 0x1c) ≡ len
  unfolding write_send_wqe get_be16
  written_length = ground arith

-- An accepted frame, and what becomes of the queue.
pub prepare_send_raw-eq-some :
    (tisn : ℕ) (frame : Bytes) (len : ℕ) (completion : Bool) (sq : Sq) (sq' : Sq) (wqe : ℕ)
    → prepare_send_raw tisn frame len completion sq ≡ some (sq', wqe)
    → (60 ≤ len)
      × (len ≤ 98)
      × (wqe ≡ next_wqe sq)
      × (sq' ≡ record sq {
        ring = write_send_wqe tisn sq.sqn sq.prod_index frame len completion (next_wqe sq) sq.ring;
        prod_index = (sq.prod_index + 2) % 2 ^ 32;
      })
unfolding prepare_send_raw
prepare_send_raw-eq-some tisn frame len completion sq sq' wqe e =
    (ground arith, ground arith, ground arith, ground arith)

-- The WQE of an accepted frame. It stands at the slot of the producer index; a device that
-- reads it finds the opcode SEND with the low 16 bits of the index, the queue's number with the
-- segment count, the completion request, the TIS, the frame's length and the frame's bytes in
-- order, and no byte of the ring outside the slot's two blocks has changed. The producer index
-- grows by two, modulo 2^32.
pub prepare_send_raw_wqe :
    (tisn : ℕ) (frame : Bytes) (len : ℕ) (completion : Bool) (sq : Sq) (sq' : Sq) (wqe : ℕ)
    → prepare_send_raw tisn frame len completion sq ≡ some (sq', wqe)
    → (wqe ≡ sq.prod_index % 8192 * 64)
      × (get_be32 sq'.ring wqe ≡ sq.prod_index % 2 ^ 16 * 256 + 0x0a)
      × (get_be32 sq'.ring (wqe + 4) ≡ sq.sqn % 2 ^ 24 * 256 + (len + 45) / 16)
      × (sq'.ring (wqe + 0x0b) ≡ (if completion then 8 else 0))
      × (get_be32 sq'.ring (wqe + 0x0c) ≡ tisn % 2 ^ 24)
      × (get_be16 sq'.ring (wqe + 0x1c) ≡ len)
      × ((i : ℕ) → i < len → sq'.ring (wqe + 0x1e + i) ≡ frame i)
      × ((i : ℕ) → (i < wqe) ⊎ (wqe + 128 ≤ i) → sq'.ring i ≡ sq.ring i)
      × (sq'.prod_index ≡ (sq.prod_index + 2) % 2 ^ 32)
prepare_send_raw_wqe tisn frame len completion sq sq' wqe e =
    let (min, max, at, same) = prepare_send_raw-eq-some tisn frame len completion sq sq' wqe e in
    rw (at, same)
      (
        refl,
        written_opcode tisn sq.sqn sq.prod_index frame len completion (next_wqe sq) sq.ring min max,
        written_sqn tisn sq.sqn sq.prod_index frame len completion (next_wqe sq) sq.ring min max,
        written_completion tisn sq.sqn sq.prod_index frame len completion (next_wqe sq) sq.ring min
            max,
        written_tisn tisn sq.sqn sq.prod_index frame len completion (next_wqe sq) sq.ring min max,
        written_length tisn sq.sqn sq.prod_index frame len completion (next_wqe sq) sq.ring min max,
        written_frame tisn sq.sqn sq.prod_index frame len completion (next_wqe sq) sq.ring min max,
        written_outside tisn sq.sqn sq.prod_index frame len completion (next_wqe sq) sq.ring min
            max,
        refl,
      )
