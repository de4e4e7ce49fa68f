-- ===== src/Tx/Sends.antt =====
-- A whole batch of `mlxnicd_tx_burst_q`, packet by packet.
use native.Mathlib.Nat.{add-zero}
use mlx_nic_driver.Base.{
  ℕ, zero, suc, ◌+◌, ◌-◌, ◌*◌, ◌%◌, ◌^◌, ◌≤◌, ◌<◌, ◌≡◌, ◌⊎◌, ◌∙◌, inl, inr, refl, arith, true, ◌==◌,
  Bool-cases, ltb, ltb→lt, ltb-false,
}
use mlx_nic_driver.Sq.{Sq}
use mlx_nic_driver.Tx.{Pkt, prepare_batch}
use mlx_nic_driver.Tx.Batch.{IsSend, Fits, IsSend-same, IsSend-index, Sent, prepare-Sent}

-- The batch from packet `i` on went through: packet i + j of the list stands in the j-th pair of
-- blocks from the producer index on, and only the last one of the batch asks for a completion.
pub record Sends (left i batch tisn : ℕ) (pkts : ℕ → Pkt) (sent last : ℕ) (sq : Sq) : Type 0 where
  pub after : Sq
  pub last' : ℕ
  pub result : prepare_batch left i batch tisn pkts sent last sq ≡ (true, after, last')
  pub index : after.prod_index ≡ (sq.prod_index + 2 * left) % 2 ^ 32
  pub posted :
      (j : ℕ)
      → j < left
      → IsSend tisn sq.sqn
          (sq.prod_index + 2 * j)
          (pkts (sent + (i + j)))
          (i + j + 1 == batch)
          after.ring
  pub outside :
      (x : ℕ)
      → ((j : ℕ)
          → j < left
          → (x < (sq.prod_index + 2 * j) % 8192 * 64)
            ⊎ ((sq.prod_index + 2 * j) % 8192 * 64 + 128 ≤ x))
      → after.ring x ≡ sq.ring x
  pub same : (after.cons_index ≡ sq.cons_index) × (after.sqn ≡ sq.sqn)
  pub last_none : left ≡ 0 → last' ≡ last
  pub last_at : 0 < left → last' ≡ (sq.prod_index + 2 * (left - 1)) % 8192 * 64

next_pkt : (sent i j : ℕ) → sent + (i + suc j) ≡ sent + (i + 1 + j)
next_pkt sent i j = omega arith

next_index : (i j : ℕ) → i + suc j ≡ i + 1 + j
next_index i j = omega arith

first_index : (n : ℕ) → n + 2 * 0 ≡ n
first_index n = omega arith

-- Later slots of a batch keep clear of the first one's two blocks.
apart_slots :
    (n j x : ℕ)
    → n % 2 ≡ 0
    → j + 1 < 4096
    → n % 8192 * 64 ≤ x
    → x < n % 8192 * 64 + 128
    → (x < ((n + 2) % 2 ^ 32 + 2 * j) % 8192 * 64)
      ⊎ (((n + 2) % 2 ^ 32 + 2 * j) % 8192 * 64 + 128 ≤ x)
apart_slots n j x even few lo hi =
    elim (Bool-cases (ltb (n % 8192) (((n + 2) % 2 ^ 32 + 2 * j) % 8192))) [
      | inl below ↦ inl (let h = ltb→lt _ _ below in omega arith)
      | inr above ↦ inr (let h = ltb-false _ _ above in omega arith)
    ]

next_wqe_index : (n j : ℕ) → ((n + 2) % 2 ^ 32 + 2 * j) % 2 ^ 16 ≡ (n + 2 * suc j) % 2 ^ 16
next_wqe_index n j = omega arith

-- One more packet in front.
Sends-suc :
    (left i batch tisn : ℕ) (pkts : ℕ → Pkt) (sent last : ℕ) (sq : Sq)
    → Fits (pkts (sent + i))
    → sq.prod_index % 2 ≡ 0
    → left < 4096
    → (one : Sent tisn (pkts (sent + i)) (i + 1 == batch) sq)
    → Sends left (i + 1) batch tisn pkts sent (sq.prod_index % 8192 * 64) one.after
    → Sends (suc left) i batch tisn pkts sent last sq
unfolding prepare_batch
Sends-suc left i batch tisn pkts sent last sq fits even few one rest = record {
  after = rest.after;
  last' = rest.last';
  result = rw (one.result, prepare_batch) rest.result;
  index = omega (arith, rest.index, one.index);
  posted = posted;
  outside = λ x apart.
      rest.outside x (λ j h. rw one.index (let a = apart (suc j) (omega arith) in omega arith))
      ∙ one.outside x (let a = apart 0 (omega arith) in omega arith);
  same = (rest.same.0 ∙ one.same.0, rest.same.1 ∙ one.same.1);
  last_none = λ h. absurd (omega arith);
  last_at = λ h. elim (Bool-cases (left == 0)) [
    | inl none_left ↦ ground (arith, rest.last_none (ground arith))
    | inr more ↦ ground (arith, rest.last_at (ground arith), one.index)
  ];
}
  where
    posted :
        (j : ℕ)
        → j < suc left
        → IsSend tisn sq.sqn
            (sq.prod_index + 2 * j)
            (pkts (sent + (i + j)))
            (i + j + 1 == batch)
            rest.after.ring
    posted zero h =
        rw (first_index, add-zero)
          (IsSend-same rest.after.ring fits
            (λ x lo hi.
              rest.outside x
                (λ j below. rw one.index (apart_slots sq.prod_index j x even (omega arith) lo hi)))
            one.sends)
    posted (suc j) h =
        let there = rest.posted j (omega arith) in
        rw (next_index i j) (
          IsSend-index (one.after.prod_index + 2 * j) (sq.prod_index + 2 * suc j)
            (rw one.index (next_wqe_index sq.prod_index j)) (rw one.same.1 at there))

pub batch-Sends :
    (left i batch tisn : ℕ) (pkts : ℕ → Pkt) (sent last : ℕ) (sq : Sq)
    → ((j : ℕ) → j < left → Fits (pkts (sent + (i + j))))
    → sq.prod_index < 2 ^ 32
    → sq.prod_index % 2 ≡ 0
    → left ≤ 4096
    → Sends left i batch tisn pkts sent last sq
unfolding prepare_batch
batch-Sends zero i batch tisn pkts sent last sq fits range even few = record {
  after = sq;
  last' = last;
  result = refl;
  index = omega arith;
  posted = λ j h. absurd (omega arith);
  outside = λ x h. refl;
  same = (refl, refl);
  last_none = λ h. refl;
  last_at = λ h. absurd (omega arith);
}
batch-Sends (suc left) i batch tisn pkts sent last sq fits range even few =
    let fits0 : Fits (pkts (sent + i)) = rw add-zero at (fits 0 (omega arith)) in
    let one = prepare-Sent tisn (pkts (sent + i)) (i + 1 == batch) sq fits0 in
    Sends-suc left i batch tisn pkts sent last sq fits0 even (omega arith) one (
      batch-Sends left (i + 1) batch tisn pkts sent (sq.prod_index % 8192 * 64) one.after
        (λ j h. rw next_pkt at (fits (suc j) (omega arith))) (omega (arith, one.index))
        (omega (arith, one.index)) (omega arith))
