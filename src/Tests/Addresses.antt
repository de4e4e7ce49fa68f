-- ===== src/Tests/Addresses.antt =====
-- Tests of the places of the regions.
use mlx_nic_driver.Base.{
  ℕ, zero, suc, ◌+◌, ◌*◌, ◌≤◌, ◌<◌, ◌≡◌, ◌↔◌, refl, ap, arith, true, some, List, [], ◌∷◌, length,
  get_elem?,
}
use mlx_nic_driver.Word.{put_be32, put_be64}
use mlx_nic_driver.Dma.{DmaPage, dma_page_alloc, dma_region_alloc}
use mlx_nic_driver.Cmd.{
  Ctx, cmd_exec, submit, collect, attach, wait_owner, start_desc, own_desc, sign_desc,
}
use mlx_nic_driver.Mbox.{setup_mailbox_chain, num_blocks_for_extra}
use mlx_nic_driver.Pages.{give_pages, max_fw_pages}
use mlx_nic_driver.Pages.Numbered.{Numbered, Fit}
use mlx_nic_driver.Obj.Cqs.{create_cq, alloc_cq_pages}
use mlx_nic_driver.Obj.Sqs.{create_sq, alloc_sq_pages}
use mlx_nic_driver.Layout.{sq_dbr, tx_packet, base}
use mlx_nic_driver.Life.Runtime.{QueueState, zeroed_queue}
use mlx_nic_driver.Life.Start.{Parts, make_tx_cq, make_sq}
use mlx_nic_driver.Life.Placed.{region_of, make_sq-At}
use mlx_nic_driver.Life.Apart.{In, Placed-apart, fw_page-tx_cq}
use mlx_nic_driver.Tests.{ctx, fw, cq}

abbrev parts : Parts
parts = record {
  uar = 1;
  pd = 2;
  tisn = 3;
  q_counter = 4;
  mkey = 0x100;
  eq = record {
    page = record { addr = 8192; iova = 0x07200000; len = 4096 };
    eqn = 1;
    valid = true;
  };
}

abbrev before : QueueState
before = record {
  queue = record zeroed_queue { tx_cq = record zeroed_queue.tx_cq { cq = cq } };
  ctx = ctx;
}

abbrev with_sq : QueueState
with_sq = (make_sq fw parts 0 before).1

made_sq : make_sq fw parts 0 before ≡ (true, with_sq)
unfolding make_sq create_sq alloc_sq_pages dma_region_alloc dma_page_alloc cmd_exec
    num_blocks_for_extra attach setup_mailbox_chain submit wait_owner put_be32 put_be64 collect
    sign_desc own_desc start_desc
made_sq = refl

abbrev with_cq : QueueState
with_cq = (make_tx_cq fw parts 0 before).1

made_cq : make_tx_cq fw parts 0 before ≡ (true, with_cq)
unfolding make_tx_cq create_cq alloc_cq_pages dma_region_alloc dma_page_alloc cmd_exec
    num_blocks_for_extra attach setup_mailbox_chain submit wait_owner put_be32 put_be64 collect
    sign_desc own_desc start_desc
made_cq = refl

-- The doorbell record of send queue 0 is not in its page for packets.
Placed-apart_example : ¬ In (region_of with_sq.queue.sq.dbr_page) 0x05081000
Placed-apart_example =
    let there = make_sq-At fw parts 0 before with_sq made_sq in
    let at : with_sq.queue.sq.tx_page.iova ≡ 0x05081000 = there.2.0 in
    let long : with_sq.queue.sq.tx_page.len ≡ 4096 = there.2.1 in
    Placed-apart 1 0 (tx_packet 0) (sq_dbr 0) (region_of with_sq.queue.sq.tx_page)
      (region_of with_sq.queue.sq.dbr_page) 0x05081000 (omega arith) (omega arith)
      (omega arith, with_sq, (fw, parts, before, made_sq), refl)
      (omega arith, with_sq, (fw, parts, before, made_sq), refl) (λ e. omega (arith, ap base e))
      (omega (arith, at), omega (arith, at, long))

-- The pages `n` and after, `count` of them.
pages_from : (n count : ℕ) → List DmaPage
pages_from n zero = []
pages_from n (suc count) =
    record { addr = 4096; iova = 0x03000000 + n * 4096; len = 4096 } ∷ pages_from (n + 1) count

pages_from-Numbered : (n count : ℕ) → Numbered n (pages_from n count)
unfolding pages_from
pages_from-Numbered n zero = tt
pages_from-Numbered n (suc count) = (refl, refl, pages_from-Numbered (n + 1) count)

length-pages_from : (n count : ℕ) → length (pages_from n count) ≡ count
unfolding pages_from
length-pages_from n zero = refl
length-pages_from n (suc count) = omega (arith, length-pages_from (n + 1) count)

-- A context with 4097 pages.
abbrev full : Ctx
full = record ctx { fw_pages = pages_from 0 4097 }

full-Fit : Fit full
full-Fit = record {
  numbered = pages_from-Numbered 0 4097;
  few = omega (arith, length-pages_from 0 4097);
}

abbrev last_page : DmaPage
last_page = record { addr = 4096; iova = 0x04000000; len = 4096 }

last_of_full : get_elem? (give_pages fw 0 0 full).1.fw_pages 4096 ≡ some last_page
unfolding give_pages pages_from
last_of_full = refl

fw_page-tx_cq_example :
    (4096 + 256 * 0 + 31 < max_fw_pages)
    × (((x : ℕ) × In (region_of last_page) x × In (region_of with_cq.queue.tx_cq.cq_page) x)
        ↔ ((4096 + 256 * 0 ≤ 4096) × (4096 < 4096 + 256 * 0 + 32)))
fw_page-tx_cq_example =
    fw_page-tx_cq 0 4096 (region_of last_page) (region_of with_cq.queue.tx_cq.cq_page) (omega arith)
      (omega arith, fw, 0, 0, full, last_page, full-Fit, last_of_full, refl)
      (omega arith, with_cq, (fw, parts, before, made_cq), refl)
