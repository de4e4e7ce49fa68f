-- ===== src/Life.antt =====
-- The life of a device: `struct mlx5_cmd_ctx` as it is opened and closed by `mlx5_cmd_ctx_open` and
-- `mlx5_cmd_ctx_close` of src/mlx5.c. The registers of BAR0 are not this program's code: what a
-- read yields is a stream, and the writes are a log.
pub mod Runtime
pub mod Cleanup
pub mod Start
pub mod Device
pub mod Placed
pub mod Apart
pub mod Registers
pub mod Opened
pub mod Stages
pub mod Opening
pub mod Account
pub mod Frugal
pub mod Queue
pub mod Dropped
pub mod Covers
pub mod Raised
pub mod Lowered
pub mod Undo
pub mod Bring
pub mod Balanced
use mlx_nic_driver.Base.{
  ℕ, zero, suc, ◌+◌, ◌*◌, ◌/◌, ◌%◌, ◌^◌, Bool, true, false, Option, none, some, List, [], ◌∷◌, ltb,
  ◌==◌, if◌then◌else◌,
}
use mlx_nic_driver.Word.{u32, zeroed, low_bits, shr}
use mlx_nic_driver.Dma.{DmaPage, Host, alloc_aligned_zero, vfio_dma_map, vfio_dma_unmap, free_block}
use mlx_nic_driver.Mbox.{mbox_size}
use mlx_nic_driver.Cmd.{Ctx}
use mlx_nic_driver.Vfio.{
  VfioDevice, no_device, Process, Kernel, vfio_device_open, vfio_device_close,
}
use mlx_nic_driver.Steps.{Step, ◌then◌, run}
use mlx_nic_driver.Ledger.{unmap_page, free_ptr}

-- `read k off` is what the k-th read yields if it is of the register at `off`; the writes are the
-- latest first.
pub record Regs : Type 0 where
  pub read : ℕ → ℕ → ℕ
  pub reads : ℕ
  pub writes : List (ℕ × ℕ)

abbrev pub mmio_read : ℕ → Regs → ℕ × Regs
mmio_read off r = (r.read r.reads off, record r { reads = r.reads + 1 })

abbrev pub mmio_write : (off v : ℕ) → Regs → Regs
mmio_write off v r = record r { writes = (off, v) ∷ r.writes }

-- The rest of `struct mlx5_cmd_ctx`, with what it stands on. 0 is NULL. Its three I/O addresses are
-- constants.
pub record Session : Type 0 where
  pub ctx : Ctx
  pub dev : VfioDevice
  pub process : Process
  pub regs : Regs
  pub cmdq : ℕ
  pub inbox : ℕ
  pub outbox : ℕ
  pub cmdq_h_orig : ℕ
  pub cmdq_l_sz_orig : ℕ

abbrev pub cmdq_iova : ℕ
cmdq_iova = 0x01000000

abbrev pub inbox_iova : ℕ
inbox_iova = 0x01800000

abbrev pub outbox_iova : ℕ
outbox_iova = 0x02000000

abbrev pub cmdq_size : ℕ
cmdq_size = 4096

-- memset(ctx, 0, sizeof(*ctx)), and the addresses, which nothing else sets.
abbrev pub cleared : Session → Session
cleared s = record {
  ctx = record s.ctx {
    desc = zeroed;
    inbox = zeroed;
    outbox = zeroed;
    inbox_iova = inbox_iova;
    outbox_iova = outbox_iova;
    token = 0;
    fw_pages = [];
  };
  dev = no_device;
  process = s.process;
  regs = s.regs;
  cmdq = 0;
  inbox = 0;
  outbox = 0;
  cmdq_h_orig = 0;
  cmdq_l_sz_orig = 0;
}

abbrev pub with_host : Host → Session → Session
with_host h s = record s { ctx = record s.ctx { host = h } }

abbrev pub with_regs : Regs → Session → Session
with_regs r s = record s { regs = r }

-- The loop of `wait_fw_ready` with `left` reads to go; the last read is for the message.
unfoldable pub wait_fw_ready : (left : ℕ) → Regs → Bool × Regs
wait_fw_ready zero r = (false, (mmio_read 0x1fc r).1)
wait_fw_ready (suc left) r =
    let (initializing, r') = mmio_read 0x1fc r in
    elim (shr initializing 31 == 0) [ true ↦ (true, r') | false ↦ wait_fw_ready left r' ]

-- 5000 ms in steps of 10 ms.
abbrev pub ready_reads : ℕ
ready_reads = 501

unfoldable pub check_cmdif : Step Session
check_cmdif s = let (cmdif, r) = mmio_read 0x004 s.regs in (shr cmdif 16 == 5, with_regs r s)

unfoldable pub await_ready : Step Session
await_ready s = let (ready, r) = wait_fw_ready ready_reads s.regs in (ready, with_regs r s)

abbrev pub set_cmdq : ℕ → Session → Session
set_cmdq a s = record s { cmdq = a }

abbrev pub set_inbox : ℕ → Session → Session
set_inbox a s = record s { inbox = a }

abbrev pub set_outbox : ℕ → Session → Session
set_outbox a s = record s { outbox = a }

-- `alloc_page` and `alloc_aligned_zero` into a field of the context, which is NULL before.
unfoldable pub alloc_into : (ℕ → Session → Session) → Step Session
unfolding alloc_aligned_zero
alloc_into set s =
    let (got, h) = alloc_aligned_zero s.ctx.host in
    elim got [ none ↦ (false, with_host h s) | some a ↦ (true, set a (with_host h s)) ]

unfoldable pub map_at : (iova len : ℕ) → Step Session
unfolding vfio_dma_map
map_at iova len s = let (mapped, h) = vfio_dma_map iova len s.ctx.host in (mapped, with_host h s)

-- The command queue's registers, saved and set.
unfoldable pub take_over : Step Session
take_over s =
    let (h_orig, r1) = mmio_read 0x010 s.regs in
    let (l_sz_orig, r2) = mmio_read 0x014 r1 in
    let full_driver : ℕ = shr l_sz_orig 12 * 2 ^ 12 + 0 * 2 ^ 8 + low_bits l_sz_orig 8 in
    let r3 : Regs =
      mmio_write 0x014 (u32 cmdq_iova)
        (mmio_write 0x010 (u32 (shr cmdq_iova 32)) (mmio_write 0x014 full_driver r2)) in
    (true, record s { regs = r3; cmdq_h_orig = h_orig; cmdq_l_sz_orig = l_sz_orig })

abbrev pub alloc_all : List (Step Session)
alloc_all = alloc_into set_cmdq ∷ alloc_into set_inbox ∷ alloc_into set_outbox ∷ []

abbrev pub map_all : List (Step Session)
map_all =
    map_at cmdq_iova cmdq_size ∷ map_at inbox_iova mbox_size ∷ map_at outbox_iova mbox_size ∷ []

abbrev pub open_steps : Step Session
open_steps = check_cmdif then await_ready then run alloc_all then run map_all then take_over

unfoldable pub unmap_pages : List DmaPage → Host → Host
unfolding vfio_dma_unmap
unmap_pages [] h = h
unmap_pages (p ∷ ps) h = unmap_pages ps (unmap_page p h)

unfoldable pub free_pages : List DmaPage → Host → Host
unfolding free_block
free_pages [] h = h
free_pages (p ∷ ps) h = free_pages ps (free_ptr p.addr h)

-- The three buffers of the context, as pages.
abbrev pub cmdq_page : Session → DmaPage
cmdq_page s = record { addr = s.cmdq; iova = cmdq_iova; len = cmdq_size }

abbrev pub inbox_page : Session → DmaPage
inbox_page s = record { addr = s.inbox; iova = inbox_iova; len = mbox_size }

abbrev pub outbox_page : Session → DmaPage
outbox_page s = record { addr = s.outbox; iova = outbox_iova; len = mbox_size }

abbrev pub unmap_all : Session → Host → Host
unmap_all s h =
    unmap_pages s.ctx.fw_pages
      (unmap_page (cmdq_page s) (unmap_page (inbox_page s) (unmap_page (outbox_page s) h)))

abbrev pub free_all : Session → Host → Host
free_all s h = free_pages s.ctx.fw_pages (free_ptr s.cmdq (free_ptr s.inbox (free_ptr s.outbox h)))

abbrev pub restored : Session → Regs
restored s = elim s.dev.bar0 [
  | none ↦ s.regs
  | some bar ↦ mmio_write 0x014 s.cmdq_l_sz_orig (mmio_write 0x010 s.cmdq_h_orig s.regs)
]

unfoldable pub ctx_close : Session → Session
unfolding unmap_pages free_pages vfio_dma_unmap free_block vfio_device_close
ctx_close s =
    let (dev, process) = vfio_device_close s.dev s.process in
    record (with_host (free_all s (unmap_all s s.ctx.host)) s) {
      regs = restored s;
      dev = dev;
      process = process;
    }

-- What follows the opening of the device.
abbrev pub close_failed : Bool × Session → Bool × Session
close_failed (true, s) = (true, s)
close_failed (false, s) = (false, ctx_close s)

unfoldable pub ctx_open : Kernel → Step Session
unfolding check_cmdif await_ready alloc_into map_at take_over
ctx_open kernel s =
    let (done, dev, process, written) = vfio_device_open kernel s.process in
    let s0 : Session = record (cleared s) { dev = dev; process = process } in
    if done then close_failed (open_steps s0) else (false, s0)
