-- ===== src/Tx/Batch.antt =====
-- What a batch of `mlxnicd_tx_burst_q` leaves in the send queue.
use mlx_nic_driver.Base.{
  ℕ, ◌+◌, ◌*◌, ◌/◌, ◌%◌, ◌^◌, ◌≤◌, ◌<◌, ◌≡◌, ◌⊎◌, ◌∙◌, inl, inr, arith, Bool, none, some,
  if◌then◌else◌, Option-cases,
}
use mlx_nic_driver.Word.{Bytes, get_be16, get_be32}
use mlx_nic_driver.Sq.{Sq, prepare_send_raw}
use mlx_nic_driver.Word.Laws.{get_be32_same, get_be16_same}
use mlx_nic_driver.Sq.Wqe.{prepare_send_raw_wqe, prepare_send_raw_accepts, prepare_send_raw-eq-some}
use mlx_nic_driver.Tx.{Pkt}

-- The blocks of the slot at index `pi` hold a WQE for the packet.
pub record IsSend (tisn sqn pi : ℕ) (pkt : Pkt) (completion : Bool) (ring : Bytes) : Type 0 where
  pub opcode : get_be32 ring (pi % 8192 * 64) ≡ pi % 2 ^ 16 * 256 + 0x0a
  pub queue : get_be32 ring (pi % 8192 * 64 + 4) ≡ sqn % 2 ^ 24 * 256 + (pkt.len + 45) / 16
  pub signalled : ring (pi % 8192 * 64 + 0x0b) ≡ (if completion then 8 else 0)
  pub tis : get_be32 ring (pi % 8192 * 64 + 0x0c) ≡ tisn % 2 ^ 24
  pub length : get_be16 ring (pi % 8192 * 64 + 0x1c) ≡ pkt.len
  pub frame : (i : ℕ) → i < pkt.len → ring (pi % 8192 * 64 + 0x1e + i) ≡ pkt.data_bytes i

-- A packet that the inline path accepts.
abbrev pub Fits : Pkt → Type 0
Fits pkt = (60 ≤ pkt.len) × (pkt.len ≤ 98)

pub IsSend-same :
    {tisn sqn pi : ℕ} {pkt : Pkt} {completion : Bool} {ring : Bytes} (other : Bytes)
    → Fits pkt
    → ((i : ℕ) → pi % 8192 * 64 ≤ i → i < pi % 8192 * 64 + 128 → other i ≡ ring i)
    → IsSend tisn sqn pi pkt completion ring
    → IsSend tisn sqn pi pkt completion other
IsSend-same {pi} {ring} other fits same s = record {
  opcode =
      get_be32_same other ring (pi % 8192 * 64) (λ i lo hi. same i (omega arith) (omega arith))
      ∙ s.opcode;
  queue =
      get_be32_same other ring (pi % 8192 * 64 + 4) (λ i lo hi. same i (omega arith) (omega arith))
      ∙ s.queue;
  signalled = same (pi % 8192 * 64 + 0x0b) (omega arith) (omega arith) ∙ s.signalled;
  tis =
      get_be32_same other ring (pi % 8192 * 64 + 0x0c)
        (λ i lo hi. same i (omega arith) (omega arith))
      ∙ s.tis;
  length =
      get_be16_same other ring (pi % 8192 * 64 + 0x1c)
        (λ i lo hi. same i (omega arith) (omega arith))
      ∙ s.length;
  frame = λ i h. same (pi % 8192 * 64 + 0x1e + i) (omega arith) (omega arith) ∙ s.frame i h;
}

-- One accepted packet.
pub record Sent (tisn : ℕ) (pkt : Pkt) (completion : Bool) (sq : Sq) : Type 0 where
  pub after : Sq
  pub result :
      prepare_send_raw tisn pkt.data_bytes pkt.len completion sq
      ≡ some (after, sq.prod_index % 8192 * 64)
  pub sends : IsSend tisn sq.sqn sq.prod_index pkt completion after.ring
  pub outside :
      (i : ℕ)
      → (i < sq.prod_index % 8192 * 64) ⊎ (sq.prod_index % 8192 * 64 + 128 ≤ i)
      → after.ring i ≡ sq.ring i
  pub index : after.prod_index ≡ (sq.prod_index + 2) % 2 ^ 32
  pub same : (after.cons_index ≡ sq.cons_index) × (after.sqn ≡ sq.sqn)

pub prepare-Sent :
    (tisn : ℕ) (pkt : Pkt) (completion : Bool) (sq : Sq) → Fits pkt → Sent tisn pkt completion sq
prepare-Sent tisn pkt completion sq fits =
    go (Option-cases (prepare_send_raw tisn pkt.data_bytes pkt.len completion sq))
  where
    go :
        (prepare_send_raw tisn pkt.data_bytes pkt.len completion sq ≡ none)
          ⊎ ((r : Sq × ℕ) × (prepare_send_raw tisn pkt.data_bytes pkt.len completion sq ≡ some r))
        → Sent tisn pkt completion sq
    go (inl e) =
        absurd ((prepare_send_raw_accepts tisn pkt.data_bytes pkt.len completion sq).1 fits e)
    go (inr (r, e)) =
        let w = prepare_send_raw_wqe tisn pkt.data_bytes pkt.len completion sq r.0 r.1 e in
        let shape = prepare_send_raw-eq-some tisn pkt.data_bytes pkt.len completion sq r.0 r.1 e in
        record {
          after = r.0;
          result = rw (← w.0) e;
          sends = record {
            opcode = rw (← w.0) w.1;
            queue = rw (← w.0) w.2;
            signalled = rw (← w.0) w.3;
            tis = rw (← w.0) w.4;
            length = rw (← w.0) w.5;
            frame = rw (← w.0) w.6;
          };
          outside = rw (← w.0) w.7;
          index = w.8;
          same = (ground (arith, shape), ground (arith, shape));
        }

-- Only the low 16 bits of the index matter.
pub IsSend-index :
    {tisn sqn : ℕ} (pi pi' : ℕ) {pkt : Pkt} {completion : Bool} {ring : Bytes}
    → pi % 2 ^ 16 ≡ pi' % 2 ^ 16
    → IsSend tisn sqn pi pkt completion ring
    → IsSend tisn sqn pi' pkt completion ring
IsSend-index pi pi' e s =
    let slot : pi' % 8192 ≡ pi % 8192 = omega arith in
    record {
      opcode = rw (slot, ← e) s.opcode;
      queue = rw slot s.queue;
      signalled = rw slot s.signalled;
      tis = rw slot s.tis;
      length = rw slot s.length;
      frame = rw slot s.frame;
    }
