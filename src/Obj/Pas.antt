-- ===== src/Obj/Pas.antt =====
-- What the creation commands tell the device of a send queue and of the RQ table.
use native.Mathlib.Nat.{add-zero, zero-add}
use mlx_nic_driver.Base.{
  ℕ, zero, suc, ◌+◌, ◌*◌, ◌%◌, ◌^◌, ◌≤◌, ◌<◌, ◌≡◌, ◌⊎◌, ◌∙◌, inl, inr, refl, arith,
}
use mlx_nic_driver.Word.{
  Bytes, get_be16, get_be32, get_be64, put_be16, put_be32, put_be64, put8, zeroed,
}
use mlx_nic_driver.Word.Laws.{
  get_be32-put_be32, get_be64-put_be64, get_be32_same, get_be64_same, put_be32_outside,
  put_be16_outside, put_be64_outside, get_be16_same, get_be16-put_be16,
}
use mlx_nic_driver.Dma.Laws.{fill_pas_lem}
use mlx_nic_driver.Rq.{Rq}
use mlx_nic_driver.Obj.{command}
use mlx_nic_driver.Obj.Sqs.{create_sq_in}
use mlx_nic_driver.Obj.Steer.{fill_rqt, create_rqt_in}

-- The fields of a send queue's creation.
pub record DescribesSq (uar pd tisn cqn dbr_iova ring_iova : ℕ) (inp : Bytes) : Type 0 where
  pub completion_queue : get_be32 inp 0x28 ≡ cqn % 2 ^ 24
  pub tis : get_be32 inp 0x4c ≡ tisn % 2 ^ 24
  pub protection_domain : get_be32 inp 0x58 ≡ pd % 2 ^ 24
  pub uar_page : get_be32 inp 0x5c ≡ uar % 2 ^ 24
  pub doorbell : get_be64 inp 0x60 ≡ dbr_iova
  pub log_sizes : (inp 0x71 ≡ 6) × (inp 0x73 ≡ 13)
  pub pages : (j : ℕ) → j < 128 → get_be64 inp (0x110 + j * 8) ≡ ring_iova + j * 4096
  pub end : (i : ℕ) → 0x510 ≤ i → inp i ≡ 0

-- The input of a send queue's creation names the completion queue, the TIS, the protection
-- domain and the UAR in 24 bits each, the doorbell record, 8192 blocks of 64 bytes, and the 128
-- pages of the ring in order; the list ends within the 0x510 bytes of the input.
pub create_sq_in_lem :
    (uar pd tisn cqn dbr_iova ring_iova : ℕ)
    → dbr_iova < 2 ^ 64
    → ring_iova + 128 * 4096 < 2 ^ 64
    → DescribesSq uar pd tisn cqn dbr_iova ring_iova
        (create_sq_in uar pd tisn cqn dbr_iova ring_iova)
unfolding create_sq_in
create_sq_in_lem uar pd tisn cqn dbr_iova ring_iova dbr_fits ring_fits =
    let a = put8 0x20 17 (command 0x904) in
    let b = put_be32 0x28 (cqn % 2 ^ 24) a in
    let c = put_be16 0x40 1 b in
    let d = put_be32 0x4c (tisn % 2 ^ 24) c in
    let e = put8 0x50 16 d in
    let f = put_be32 0x58 (pd % 2 ^ 24) e in
    let g = put_be32 0x5c (uar % 2 ^ 24) f in
    let h = put_be64 0x60 dbr_iova g in
    let wq = put8 0x73 13 (put8 0x71 6 h) in
    let all = create_sq_in uar pd tisn cqn dbr_iova ring_iova in
    let pas = fill_pas_lem 0x110 ring_iova 128 wq ring_fits in
    let head : (i : ℕ) → i < 0x110 → all i ≡ wq i = λ i lt. pas.1 i (inl (omega arith)) in
    let to_h : (i : ℕ) → i < 0x71 → all i ≡ h i = λ i lt. head i (omega arith) ∙ ground arith in
    let to_g : (i : ℕ) → i < 0x60 → all i ≡ g i =
      λ i lt. to_h i (omega arith) ∙ put_be64_outside g 0x60 dbr_iova i (inl lt) in
    let to_f : (i : ℕ) → i < 0x5c → all i ≡ f i =
      λ i lt. to_g i (omega arith) ∙ put_be32_outside f 0x5c (uar % 2 ^ 24) i (inl lt) in
    let to_d : (i : ℕ) → i < 0x50 → all i ≡ d i = λ i lt.
      to_f i (omega arith)
      ∙ put_be32_outside e 0x58 (pd % 2 ^ 24) i (inl (omega arith))
      ∙ ground arith in
    let to_b : (i : ℕ) → i < 0x40 → all i ≡ b i = λ i lt.
      to_d i (omega arith)
      ∙ put_be32_outside c 0x4c (tisn % 2 ^ 24) i (inl (omega arith))
      ∙ put_be16_outside b 0x40 1 i (inl lt) in
    record {
      completion_queue =
          get_be32_same all b 0x28 (λ i lo hi. to_b i (omega arith))
          ∙ get_be32-put_be32 a 0x28 (cqn % 2 ^ 24) (omega arith);
      tis =
          get_be32_same all d 0x4c (λ i lo hi. to_d i (omega arith))
          ∙ get_be32-put_be32 c 0x4c (tisn % 2 ^ 24) (omega arith);
      protection_domain =
          get_be32_same all f 0x58 (λ i lo hi. to_f i (omega arith))
          ∙ get_be32-put_be32 e 0x58 (pd % 2 ^ 24) (omega arith);
      uar_page =
          get_be32_same all g 0x5c (λ i lo hi. to_g i (omega arith))
          ∙ get_be32-put_be32 f 0x5c (uar % 2 ^ 24) (omega arith);
      doorbell =
          get_be64_same all h 0x60 (λ i lo hi. to_h i (omega arith))
          ∙ get_be64-put_be64 g 0x60 dbr_iova dbr_fits;
      log_sizes = (head 0x71 (omega arith) ∙ refl, head 0x73 (omega arith) ∙ refl);
      pages = pas.0;
      end = λ i lo.
          pas.1 i (inr (omega arith))
          ∙ ground (
            arith,
            put_be64_outside g 0x60 dbr_iova i,
            put_be32_outside f 0x5c (uar % 2 ^ 24) i,
            put_be32_outside e 0x58 (pd % 2 ^ 24) i,
            put_be32_outside c 0x4c (tisn % 2 ^ 24) i,
            put_be16_outside b 0x40 1 i,
            put_be32_outside a 0x28 (cqn % 2 ^ 24) i,
            put_be16_outside zeroed 0 0x904 i,
          );
    }

fill_rqt_outside :
    (left i n : ℕ) (rqs : ℕ → Rq) (p : Bytes) (x : ℕ)
    → (x < 0x110 + i * 4) ⊎ (0x110 + (i + left) * 4 ≤ x)
    → fill_rqt left i n rqs p x ≡ p x
unfolding fill_rqt
fill_rqt_outside zero i n rqs p x h = refl
fill_rqt_outside (suc left) i n rqs p x h =
    fill_rqt_outside left (i + 1) n rqs (put_be32 (0x110 + i * 4) ((rqs (i % n)).rqn % 2 ^ 24) p) x
      (omega arith)
    ∙ put_be32_outside p (0x110 + i * 4) ((rqs (i % n)).rqn % 2 ^ 24) x (omega arith)

fill_rqt_entry :
    (left i n : ℕ) (rqs : ℕ → Rq) (p : Bytes) (j : ℕ)
    → j < left
    → get_be32 (fill_rqt left i n rqs p) (0x110 + (i + j) * 4) ≡ (rqs ((i + j) % n)).rqn % 2 ^ 24
unfolding fill_rqt
fill_rqt_entry zero i n rqs p j h = absurd (omega arith)
fill_rqt_entry (suc left) i n rqs p zero h =
    let value = (rqs (i % n)).rqn % 2 ^ 24 in
    let here = put_be32 (0x110 + i * 4) value p in
    rw add-zero (
      get_be32_same (fill_rqt left (i + 1) n rqs here) here (0x110 + i * 4)
        (λ x lo hi. fill_rqt_outside left (i + 1) n rqs here x (inl (omega arith)))
      ∙ get_be32-put_be32 p (0x110 + i * 4) value (omega arith))
fill_rqt_entry (suc left) i n rqs p (suc j) h =
    let next : i + suc j ≡ i + 1 + j = omega arith in
    rw next (
      fill_rqt_entry left (i + 1) n rqs (put_be32 (0x110 + i * 4) ((rqs (i % n)).rqn % 2 ^ 24) p) j
        (omega arith))

-- The RQ table deals its 16 entries out to the `n` queues in turn: entry j holds the number of
-- queue j % n, in 24 bits, and both sizes say 16.
pub create_rqt_in_lem :
    (n : ℕ) (rqs : ℕ → Rq)
    → ((j : ℕ)
        → j < 16
        → get_be32 (create_rqt_in n rqs) (0x110 + j * 4) ≡ (rqs (j % n)).rqn % 2 ^ 24)
      × (get_be16 (create_rqt_in n rqs) 0x36 ≡ 16)
      × (get_be16 (create_rqt_in n rqs) 0x3a ≡ 16)
unfolding create_rqt_in
create_rqt_in_lem n rqs =
    let first = put_be16 0x36 16 (command 0x916) in
    let both = put_be16 0x3a 16 first in
    let all = fill_rqt 16 0 n rqs both in
    let head : (i : ℕ) → i < 0x110 → all i ≡ both i =
      λ i lt. fill_rqt_outside 16 0 n rqs both i (inl (omega arith)) in
    (
      (λ j lt. rw zero-add at (fill_rqt_entry 16 0 n rqs both j lt)),
      get_be16_same all first 0x36
            (λ i lo hi. head i (omega arith) ∙ put_be16_outside first 0x3a 16 i (inl (omega arith)))
          ∙ get_be16-put_be16 (command 0x916) 0x36 16 (omega arith),
      get_be16_same all both 0x3a (λ i lo hi. head i (omega arith))
          ∙ get_be16-put_be16 first 0x3a 16 (omega arith),
    )
