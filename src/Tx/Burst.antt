-- ===== src/Tx/Burst.antt =====
-- About `mlxnicd_tx_burst_q` on a queue with room.
use mlx_nic_driver.Base.{
  ℕ, suc, ◌+◌, ◌-◌, ◌*◌, ◌%◌, ◌^◌, ◌≤◌, ◌<◌, ◌≡◌, ◌∙◌, refl, sym, ap, arith, true, some, ◌==◌, ◌∷◌,
}
use mlx_nic_driver.Word.{Bytes, u16, get_be32, get_be64, put_be32}
use mlx_nic_driver.Word.Laws.{get_be32-put_be32}
use mlx_nic_driver.Sq.{Sq, Bar, ring_send}
use mlx_nic_driver.Dev.{Dev, ok, has_tx, set_error}
use mlx_nic_driver.Tx.{
  Pkt, Tx, again, post_round, tx_round, tx_loop, tx_burst_q, used_wqebbs, batch_of, tx_start,
  store_tx,
}
use mlx_nic_driver.Tx.Batch.{IsSend, Fits}
use mlx_nic_driver.Tx.Sends.{batch-Sends}

ring_send_lem :
    (uar last : ℕ) (sq : Sq) (bar : Bar)
    → uar * 4096 + 0x800 + 8 ≤ bar.size
    → (sq' : Sq) × (ring_send uar last sq bar
        ≡ some (
          sq',
          record bar { doorbells = (uar * 4096 + 0x800, get_be64 sq.ring last) ∷ bar.doorbells },
        ))
      × (get_be32 sq'.dbr 4 ≡ sq.prod_index % 2 ^ 16)
      × (sq'.ring ≡ sq.ring)
      × (sq'.prod_index ≡ sq.prod_index)
      × (sq'.cons_index ≡ sq.cons_index)
unfolding ring_send
ring_send_lem uar last sq bar fits = (
  record sq { dbr = put_be32 4 (sq.prod_index % 2 ^ 16) sq.dbr },
  ground arith,
  get_be32-put_be32 sq.dbr 4 (sq.prod_index % 2 ^ 16) (omega arith),
  refl,
  refl,
  refl,
)

-- A queue that can take `nb` packets at once: fewer than 2^16 are asked for, all of them fit, the
-- doorbell register lies in BAR0, and the indices are even and at most a ring apart.
pub record HasRoom (uar : ℕ) (pkts : ℕ → Pkt) (nb : ℕ) (t : Tx) : Type 0 where
  pub start : t.sent ≡ 0
  pub some_pkts : 0 < nb
  pub range : t.sq.prod_index < 2 ^ 32
  pub even : t.sq.prod_index % 2 ≡ 0
  pub room : used_wqebbs t.sq + 2 * nb ≤ 8192
  pub fits : (j : ℕ) → j < nb → Fits (pkts j)
  pub bar_fits : uar * 4096 + 0x800 + 8 ≤ t.bar.size

-- What a whole burst leaves behind.
pub record Burst (uar tisn : ℕ) (pkts : ℕ → Pkt) (nb : ℕ) (t t' : Tx) : Type 0 where
  pub sent : t'.sent ≡ nb
  pub index : t'.sq.prod_index ≡ (t.sq.prod_index + 2 * nb) % 2 ^ 32
  pub cons : t'.sq.cons_index ≡ t.sq.cons_index
  pub posted :
      (j : ℕ)
      → j < nb
      → IsSend tisn t.sq.sqn (t.sq.prod_index + 2 * j) (pkts j) (j + 1 == nb) t'.sq.ring
  pub doorbell :
      t'.bar.doorbells
      ≡ (uar * 4096 + 0x800, get_be64 t'.sq.ring ((t.sq.prod_index + 2 * (nb - 1)) % 8192 * 64))
        ∷ t.bar.doorbells
  pub record_word : get_be32 t'.sq.dbr 4 ≡ t'.sq.prod_index % 2 ^ 16
  pub rest : (t'.cq ≡ t.cq) × (t'.now ≡ t.now)

post_round-Burst :
    (uar tisn : ℕ) (pkts : ℕ → Pkt) (nb : ℕ) (t : Tx)
    → HasRoom uar pkts nb t
    → (t' : Tx) × (post_round uar tisn pkts nb t ≡ again t') × Burst uar tisn pkts nb t t'
unfolding post_round
post_round-Burst uar tisn pkts nb t h =
    let at : (j : ℕ) → t.sent + (0 + j) ≡ j = λ j. omega (arith, h.start) in
    let fits : (j : ℕ) → j < nb → Fits (pkts (t.sent + (0 + j))) =
      λ j below. rw (at j) (h.fits j below) in
    let s = batch-Sends nb 0 nb tisn pkts t.sent 0 t.sq fits h.range h.even (omega arith) in
    let r = ring_send_lem uar s.last' s.after t.bar h.bar_fits in
    (
      record t {
        sent = u16 (t.sent + nb);
        sq = r.0;
        bar = record t.bar {
          doorbells = (uar * 4096 + 0x800, get_be64 s.after.ring s.last') ∷ t.bar.doorbells;
        };
      },
      rw (s.result, r.1) refl,
      record {
        sent = omega (arith, h.start);
        index = r.4 ∙ s.index;
        cons = r.5 ∙ s.same.0;
        posted = λ j below.
            let z : 0 + j ≡ j = omega arith in rw r.3 (rw z at (rw (at j) at (s.posted j below)));
        doorbell = rw (r.3, s.last_at h.some_pkts);
        record_word = r.2 ∙ ap (λ n. n % 2 ^ 16) (sym r.4);
        rest = (refl, refl);
      },
    )

-- A burst on an open queue that has room for all of its packets, each of 60 to 98 bytes, sends
-- them all: packet j stands in the j-th pair of blocks from the producer index on, only the last
-- one asks for a completion, the producer index grows by two for each packet, the doorbell record
-- gets its low 16 bits, and BAR0 gets one doorbell, the first eight bytes of the last WQE. It
-- polls nothing.
pub tx_loop-Burst :
    (fuel : ℕ) (views : ℕ → Bytes) (uar tisn : ℕ) (pkts : ℕ → Pkt) (nb : ℕ) (t : Tx)
    → HasRoom uar pkts nb t
    → (t' : Tx) × (tx_loop (suc (suc fuel)) uar tisn views pkts nb t ≡ some (true, t'))
      × Burst uar tisn pkts nb t t'
unfolding tx_loop tx_round
tx_loop-Burst fuel views uar tisn pkts nb t h =
    let (t', posts, b) = post_round-Burst uar tisn pkts nb t h in
    let whole : batch_of nb t ≡ nb = ground (arith, h.start, h.room) in
    let posts' : post_round uar tisn pkts (batch_of nb t) t ≡ again t' = rw whole posts in
    (t', ground (arith, posts', b.sent, h.start, h.room, h.some_pkts), b)

-- The call on an open device, with TX on, a queue that exists and at least one packet. If every
-- frame has 60 to 98 bytes, the ring has room for all of them at once, the producer index is even
-- and the doorbell lies within BAR0, then the call returns their number, clears the last error and
-- leaves the queue and BAR0 as `Burst` says.
pub tx_burst_q_sends :
    (fuel : ℕ) (views : ℕ → Bytes) (now : ℕ) (dev : Dev) (q : ℕ) (pkts : ℕ → Pkt) (nb : ℕ)
    → dev.started ≡ true
    → has_tx dev.config ≡ true
    → q < dev.queue_count
    → HasRoom dev.uar pkts nb (tx_start q now dev)
    → (t' : Tx) × (tx_burst_q (suc (suc fuel)) views now (some dev) q (some pkts) nb
        ≡ some (nb, some (set_error ok (store_tx q t' dev)), now))
      × Burst dev.uar dev.tisn pkts nb (tx_start q now dev) t'
unfolding tx_burst_q
tx_burst_q_sends fuel views now dev q pkts nb started tx exists h =
    let (t', sends, b) = tx_loop-Burst fuel views dev.uar dev.tisn pkts nb (tx_start q now dev) h in
    (t', ground (arith, sends, b.sent, b.rest, started, tx), b)
