-- ===== src/Ledger.antt =====
-- An account of what the program has from the allocator and the IOMMU: how often a block or a
-- region occurs in the host's lists, and how often in what the driver's structures point to.
pub mod Alloc
pub mod Sum
pub mod Call
pub mod Objects
pub mod Queues
pub mod Posts
pub mod Given
use mlx_nic_driver.Base.{
  ℕ, zero, suc, ◌+◌, ◌-◌, ◌≤◌, ◌<◌, ◌≡◌, ◌≢◌, refl, sym, subst, arith, Bool, true, false, ◌&&◌,
  Option, none, some, List, [], ◌∷◌, ◌++◌, ◌==◌, if◌then◌else◌, Bool-cases, inl, inr,
}
use mlx_nic_driver.Word.{Bytes}
use mlx_nic_driver.Dma.{
  DmaPage, no_page, Region, Host, alloc_aligned_zero, vfio_dma_map, vfio_dma_unmap, free_block,
  dma_region_alloc, dma_page_alloc, dma_page_free, erase_region, erase_block,
}
use mlx_nic_driver.Dma.Laws.{NonNull}
use mlx_nic_driver.Cmd.{Firmware, Ctx, cmd_exec}
use mlx_nic_driver.Obj.Clean.{cmd_exec_host}
use mlx_nic_driver.Pages.Numbered.{cmd_exec_fw_pages}

-- What is looked for.
pub data Probe : Type 0 where
  region : (iova len : ℕ) → Probe
  block : (addr : ℕ) → Probe

abbrev pub one_if : Bool → ℕ
one_if b = if b then 1 else 0

abbrev pub count_region : (iova len : ℕ) → List Region → ℕ
count_region iova len [] = 0
count_region iova len (r ∷ rs) = one_if (r.iova == iova && r.len == len) + count_region iova len rs

abbrev pub count_block : ℕ → List ℕ → ℕ
count_block a [] = 0
count_block a (b ∷ bs) = one_if (b == a) + count_block a bs

abbrev pub held : Probe → Host → ℕ
held (region iova len) h = count_region iova len h.mapped
held (block a) h = count_block a h.heap

-- A mapping that is due to be taken back, and a block.
abbrev pub mapping : Probe → DmaPage → ℕ
mapping (region iova len) p = if p.addr == 0 then 0 else one_if (p.iova == iova && p.len == len)
mapping (block a) p = 0

abbrev pub memory : Probe → ℕ → ℕ
memory (region iova len) addr = 0
memory (block a) addr = if addr == 0 then 0 else one_if (addr == a)

abbrev pub owns : Probe → DmaPage → ℕ
owns x p = mapping x p + memory x p.addr

-- How often the unmapping of a region was refused.
abbrev pub stuck : Probe → Host → ℕ
stuck (region iova len) h = count_region iova len h.refused
stuck (block a) h = 0

-- The driver answers for `n` of what is looked for, beyond the `b` blocks that others have, and
-- the regions that the IOMMU did not give up. A region that is not mapped is unmapped without
-- harm, so there `n` is a bound.
abbrev pub Ledger : Probe → (b n : ℕ) → Host → Type 0
Ledger (region iova len) b n h =
    NonNull h × (held (region iova len) h ≤ stuck (region iova len) h + n)
Ledger (block a) b n h = NonNull h × (held (block a) h ≡ b + n)

pub Ledger-sane : (x : Probe) (b n : ℕ) (h : Host) → Ledger x b n h → NonNull h
Ledger-sane (region iova len) b n h l = l.0
Ledger-sane (block a) b n h l = l.0

pub recount : (x : Probe) (b n m : ℕ) (h : Host) → n ≡ m → Ledger x b n h → Ledger x b m h
recount x b n m h e = subst (λ k. Ledger x b k h) e

count_region-erase_region :
    (i l j m : ℕ) (rs : List Region)
    → count_region i l (erase_region j m rs) ≡ count_region i l rs - one_if (j == i && m == l)
count_region-erase_region i l j m [] = ground arith
count_region-erase_region i l j m (r ∷ rs) = ground (arith, count_region-erase_region i l j m rs)

count_block-erase_block :
    (a c : ℕ) (bs : List ℕ) → count_block a (erase_block c bs) ≡ count_block a bs - one_if (c == a)
count_block-erase_block a c [] = ground arith
count_block-erase_block a c (b ∷ bs) = ground (arith, count_block-erase_block a c bs)

-- `if (p->addr != NULL) vfio_dma_unmap(...)`
abbrev pub unmap_page : DmaPage → Host → Host
unmap_page p h = if p.addr == 0 then h else (vfio_dma_unmap p.iova p.len h).1

-- free(NULL) does nothing.
abbrev pub free_ptr : ℕ → Host → Host
free_ptr a h = if a == 0 then h else free_block a h

pub unmap_page-Ledger :
    (x : Probe) (b n : ℕ) (p : DmaPage) (h : Host)
    → Ledger x b (mapping x p + n) h
    → Ledger x b n (unmap_page p h)
unfolding vfio_dma_unmap
unmap_page-Ledger (region i l) b n p h (sane, few) = (
  λ k a. ground (arith, sane k a),
  ground (arith, few, count_region-erase_region i l p.iova p.len h.mapped),
)
unmap_page-Ledger (block a) b n p h (sane, same) =
    (λ k a. ground (arith, sane k a), ground (arith, same))

pub free_ptr-Ledger :
    (x : Probe) (b n addr : ℕ) (h : Host)
    → Ledger x b (memory x addr + n) h
    → Ledger x b n (free_ptr addr h)
unfolding free_block
free_ptr-Ledger (region i l) b n addr h (sane, few) = elim (Bool-cases (addr == 0)) [
  | inl e ↦ rw e (sane, omega (arith, few))
  | inr e ↦ rw e (sane, omega (arith, few))
]
free_ptr-Ledger (block a) b n addr h (sane, same) = elim (Bool-cases (addr == 0)) [
  | inl e ↦ rw e (sane, ground arith)
  | inr e ↦ rw e (sane, ground (arith, count_block-erase_block a addr h.heap))
]

pub dma_page_free-Ledger :
    (x : Probe) (b n : ℕ) (p : DmaPage) (h : Host)
    → Ledger x b (owns x p + n) h
    → Ledger x b n (dma_page_free p h)
unfolding dma_page_free
dma_page_free-Ledger x b n p h l =
    let unmapped =
      unmap_page-Ledger x b (memory x p.addr + n) p h
        (recount x b (owns x p + n) (mapping x p + (memory x p.addr + n)) h (omega arith) l) in
    let freed = free_ptr-Ledger x b n p.addr (unmap_page p h) unmapped in
    elim (Bool-cases (p.addr == 0)) [ inl e ↦ rw e (rw e at freed) | inr e ↦ rw e (rw e at freed) ]

-- The account looks at the lists alone.
pub like :
    (x : Probe) (b n : ℕ) (h h' : Host)
    → NonNull h'
    → h'.mapped ≡ h.mapped
    → h'.heap ≡ h.heap
    → h'.refused ≡ h.refused
    → Ledger x b n h
    → Ledger x b n h'
like (region i l) b n h h' sane e f g (_, few) = (sane, rw (e, g) few)
like (block a) b n h h' sane e f g (_, same) = (sane, rw f same)

pub took :
    (x : Probe) (b n : ℕ) (p : DmaPage) (h : Host) (allocs maps : ℕ)
    → p.addr ≢ 0
    → Ledger x b n h
    → Ledger x b (owns x p + n) (record h {
      allocs = allocs;
      heap = p.addr ∷ h.heap;
      maps = maps;
      mapped = record { iova = p.iova; len = p.len } ∷ h.mapped;
    })
took (region i l) b n p h allocs maps ne (sane, few) = (sane, ground arith)
took (block a) b n p h allocs maps ne (sane, same) = (sane, ground arith)

-- An allocation that gives nothing changes nothing; one that gives a page adds the page.
abbrev Granted : Probe → (b n : ℕ) → Option DmaPage × Host → Type 0
Granted x b n (none, h) = Ledger x b n h
Granted x b n (some p, h) = Ledger x b (owns x p + n) h

pub dma_region_alloc-Granted :
    (x : Probe) (b n iova len : ℕ) (h : Host)
    → Ledger x b n h
    → Granted x b n (dma_region_alloc iova len h)
unfolding dma_region_alloc
dma_region_alloc-Granted x b n iova len h l = blocks (h.memalign h.allocs) refl
  where
    like_before :
        (h' : Host)
        → h'.mapped ≡ h.mapped
        → h'.heap ≡ h.heap
        → h'.refused ≡ h.refused
        → h'.memalign ≡ h.memalign
        → Granted x b n (none, h')
    like_before h' e f k g = like x b n h h' (rw g (Ledger-sane x b n h l)) e f k l

    maps :
        (a : ℕ)
        → h.memalign h.allocs ≡ some a
        → (ok : Bool) → h.map_ok h.maps ≡ ok
        → Granted x b n (dma_region_alloc iova len h)
    maps a e true e2 =
        let page : DmaPage = record { addr = a; iova = iova; len = len } in
        let host : Host = record h {
          allocs = h.allocs + 1;
          heap = a ∷ h.heap;
          maps = h.maps + 1;
          mapped = record { iova = iova; len = len } ∷ h.mapped;
        } in
        let result : dma_region_alloc iova len h ≡ (some page, host) = ground (arith, e, e2) in
        subst (Granted x b n) (sym result)
          (took x b n page h (h.allocs + 1) (h.maps + 1) (Ledger-sane x b n h l h.allocs a e) l)
    maps a e false e2 =
        let host : Host = record h { allocs = h.allocs + 1; maps = h.maps + 1 } in
        let result : dma_region_alloc iova len h ≡ (none, host) = ground (arith, e, e2) in
        subst (Granted x b n) (sym result) (like_before host refl refl refl refl)

    blocks : (o : Option ℕ) → h.memalign h.allocs ≡ o → Granted x b n (dma_region_alloc iova len h)
    blocks none e =
        let host : Host = record h { allocs = h.allocs + 1 } in
        let result : dma_region_alloc iova len h ≡ (none, host) = ground (arith, e) in
        subst (Granted x b n) (sym result) (like_before host refl refl refl refl)
    blocks (some a) e = maps a e (h.map_ok h.maps) refl

pub dma_page_alloc-Granted :
    (x : Probe) (b n iova : ℕ) (h : Host) → Ledger x b n h → Granted x b n (dma_page_alloc iova h)
unfolding dma_page_alloc
dma_page_alloc-Granted x b n iova h l = dma_region_alloc-Granted x b n iova 4096 h l
