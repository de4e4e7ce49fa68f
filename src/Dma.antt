-- ===== src/Dma.antt =====
-- DMA memory: `alloc_aligned_zero`, `mlx5_dma_region_alloc`, `mlx5_dma_page_free` and
-- `mlx5_fill_pas` of src/mlx5.c. The allocator and the IOMMU are not this program's code: their
-- answers are streams that the host carries.
pub mod Laws
use mlx_nic_driver.Base.{
  ℕ, zero, suc, ◌+◌, ◌*◌, ◌^◌, Bool, true, false, not, ◌&&◌, Option, none, some, List, [], ◌∷◌,
  ◌==◌, if◌then◌else◌,
}
use mlx_nic_driver.Word.{Bytes, put_be64}

abbrev pub page_size : ℕ
page_size = 4096

-- `struct mlx5_dma_page`; address 0 is NULL.
pub record DmaPage : Type 0 where
  pub addr : ℕ
  pub iova : ℕ
  pub len : ℕ

abbrev pub no_page : DmaPage
no_page = record { addr = 0; iova = 0; len = 0 }

pub record Region : Type 0 where
  pub iova : ℕ
  pub len : ℕ

-- `memalign k` is what the k-th call of posix_memalign yields, `map_ok k` whether the k-th
-- VFIO_IOMMU_MAP_DMA succeeds, and `unmap_ok k` whether the k-th VFIO_IOMMU_UNMAP_DMA does.
-- `mapped` lists the regions that the IOMMU maps, `heap` the blocks that are allocated, and
-- `refused` keeps a record of the regions that VFIO_IOMMU_UNMAP_DMA was refused for.
pub record Host : Type 0 where
  pub memalign : ℕ → Option ℕ
  pub map_ok : ℕ → Bool
  pub unmap_ok : ℕ → Bool
  pub allocs : ℕ
  pub maps : ℕ
  pub unmaps : ℕ
  pub mapped : List Region
  pub heap : List ℕ
  pub refused : List Region

abbrev pub erase_region : ℕ → ℕ → List Region → List Region
erase_region iova len [] = []
erase_region iova len (r ∷ rs) =
    if r.iova == iova && r.len == len then rs else r ∷ erase_region iova len rs

abbrev pub erase_block : ℕ → List ℕ → List ℕ
erase_block a [] = []
erase_block a (b ∷ bs) = if a == b then bs else b ∷ erase_block a bs

-- posix_memalign
unfoldable pub alloc_aligned_zero : Host → Option ℕ × Host
alloc_aligned_zero h = elim (h.memalign h.allocs) [
  | none ↦ (none, record h { allocs = h.allocs + 1 })
  | some a ↦ (some a, record h { allocs = h.allocs + 1; heap = a ∷ h.heap })
]

unfoldable pub vfio_dma_map : ℕ → ℕ → Host → Bool × Host
vfio_dma_map iova len h =
    if h.map_ok h.maps
    then (
      true,
      record h { maps = h.maps + 1; mapped = record { iova = iova; len = len } ∷ h.mapped },
    )
    else (false, record h { maps = h.maps + 1 })

-- A refused region stays mapped.
unfoldable pub vfio_dma_unmap : ℕ → ℕ → Host → Bool × Host
vfio_dma_unmap iova len h =
    if h.unmap_ok h.unmaps
    then (true, record h { unmaps = h.unmaps + 1; mapped = erase_region iova len h.mapped })
    else (
      false,
      record h { unmaps = h.unmaps + 1; refused = record { iova = iova; len = len } ∷ h.refused },
    )

unfoldable pub free_block : ℕ → Host → Host
free_block a h = record h { heap = erase_block a h.heap }

map_region : ℕ → ℕ → ℕ → Host → Option DmaPage × Host
unfolding vfio_dma_map free_block
map_region iova len a h =
    let (mapped, h') = vfio_dma_map iova len h in
    if mapped
    then (some (record { addr = a; iova = iova; len = len }), h')
    else (none, free_block a h')

-- `none` is the return of -1. The page has no address then; callers ask for nothing else of it.
unfoldable pub dma_region_alloc : ℕ → ℕ → Host → Option DmaPage × Host
unfolding map_region alloc_aligned_zero
dma_region_alloc iova len h =
    let (got, h') = alloc_aligned_zero h in
    elim got [ none ↦ (none, h') | some a ↦ map_region iova len a h' ]

unfoldable pub dma_page_alloc : ℕ → Host → Option DmaPage × Host
unfolding dma_region_alloc
dma_page_alloc iova h = dma_region_alloc iova page_size h

-- The page that the function leaves behind is `no_page`. The result of the unmapping is dropped:
-- the block is freed also when the region stays mapped.
unfoldable pub dma_page_free : DmaPage → Host → Host
unfolding vfio_dma_unmap free_block
dma_page_free p h =
    if not (p.addr == 0) then free_block p.addr (vfio_dma_unmap p.iova p.len h).1 else h

-- The loop at index `i`, with `left` rounds to go.
fill_pas_from : ℕ → ℕ → ℕ → ℕ → Bytes → Bytes
fill_pas_from zero i pas_off base p = p
fill_pas_from (suc left) i pas_off base p =
    fill_pas_from left (i + 1) pas_off base (put_be64 (pas_off + i * 8) (base + i * page_size) p)

unfoldable pub fill_pas : ℕ → ℕ → ℕ → Bytes → Bytes
unfolding fill_pas_from
fill_pas pas_off base page_count p = fill_pas_from page_count 0 pas_off base p
