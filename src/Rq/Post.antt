-- ===== src/Rq/Post.antt =====
-- What a run of `mlx5_rq_post_buffers` leaves in the ring, the page table and the doorbell.
use mlx_nic_driver.Base.{ℕ, ◌+◌, ◌*◌, ◌^◌, ◌≤◌, ◌<◌, ◌≡◌, ◌≢◌, ◌⊎◌, ◌∙◌, arith}
use mlx_nic_driver.Word.{Bytes, get_be32, get_be64, put_be32, put_be64}
use mlx_nic_driver.Word.Laws.{get_be32_of_bytes, get_be64-put_be64, get_be32_same, get_be64_same}
use mlx_nic_driver.Rq.{Rq, write_rx_wqe, post_wqe}

-- Every page that is there holds the buffer of its slot.
abbrev pub HasPages : Rq → Type 0
HasPages rq = (s : ℕ) → (rq.rx_pages s).addr ≢ 0 → (rq.rx_pages s).iova ≡ rq.rx_iova_base + s * 4096

-- The slot holds a receive WQE for its own buffer, which is there.
pub record IsPosted (mkey : ℕ) (rq : Rq) (s : ℕ) : Type 0 where
  pub present : (rq.rx_pages s).addr ≢ 0
  pub size : get_be32 rq.ring (s * 16) ≡ 0x80000800
  pub lkey : get_be32 rq.ring (s * 16 + 4) ≡ mkey
  pub buffer : get_be64 rq.ring (s * 16 + 8) ≡ rq.rx_iova_base + s * 4096

module _ (wqe mkey iova : ℕ) (ring : Bytes) where
  abbrev written : Bytes
  written = write_rx_wqe wqe mkey iova ring

  written_size : get_be32 written wqe ≡ 0x80000800
  unfolding write_rx_wqe put_be32 put_be64
  written_size =
      get_be32_of_bytes written wqe 0x80000800 (omega arith) (ground arith) (ground arith)
        (ground arith) (ground arith)

  written_lkey : mkey < 2 ^ 32 → get_be32 written (wqe + 4) ≡ mkey
  unfolding write_rx_wqe put_be32 put_be64
  written_lkey h =
      get_be32_of_bytes written (wqe + 4) mkey h (ground arith) (ground arith) (ground arith)
        (ground arith)

  written_buffer : iova < 2 ^ 64 → get_be64 written (wqe + 8) ≡ iova
  unfolding write_rx_wqe
  written_buffer h = get_be64-put_be64 _ (wqe + 8) iova h

  written_outside : (i : ℕ) → (i < wqe) ⊎ (wqe + 16 ≤ i) → written i ≡ ring i
  unfolding write_rx_wqe put_be32 put_be64
  written_outside i h = ground arith

-- A round posts the slot of the producer index, and steps it.
pub post_wqe-IsPosted :
    (mkey iova : ℕ) (rq : Rq) (s : ℕ)
    → mkey < 2 ^ 32
    → iova < 2 ^ 64
    → (rq.rx_pages s).addr ≢ 0
    → iova ≡ rq.rx_iova_base + s * 4096
    → IsPosted mkey (post_wqe s iova mkey rq) s
post_wqe-IsPosted mkey iova rq s key_fits fits present at = record {
  present = present;
  size = written_size (s * 16) mkey iova rq.ring;
  lkey = written_lkey (s * 16) mkey iova rq.ring key_fits;
  buffer = written_buffer (s * 16) mkey iova rq.ring fits ∙ at;
}

-- It leaves the other slots alone.
pub post_wqe_other :
    (mkey iova : ℕ) (rq : Rq) (s r : ℕ)
    → r ≢ s
    → IsPosted mkey rq r
    → IsPosted mkey (post_wqe s iova mkey rq) r
post_wqe_other mkey iova rq s r ne posted =
    let same = written_outside (s * 16) mkey iova rq.ring in
    record {
      present = posted.present;
      size = get_be32_same _ rq.ring (r * 16) (λ i lo hi. same i (ground arith)) ∙ posted.size;
      lkey = get_be32_same _ rq.ring (r * 16 + 4) (λ i lo hi. same i (ground arith)) ∙ posted.lkey;
      buffer =
          get_be64_same _ rq.ring (r * 16 + 8) (λ i lo hi. same i (ground arith)) ∙ posted.buffer;
    }
