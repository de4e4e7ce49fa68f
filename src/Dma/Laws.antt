-- ===== src/Dma/Laws.antt =====
-- About `mlx5_dma_region_alloc`, `mlx5_dma_page_free` and `mlx5_fill_pas`.
use mlx_nic_driver.Base.{
  ℕ, zero, suc, ◌+◌, ◌*◌, ◌^◌, ◌≤◌, ◌<◌, ◌≡◌, ◌≢◌, ◌⊎◌, inl, refl, ◌∙◌, none, some, arith, ◌∷◌,
  true, if◌then◌else◌,
}
use native.Mathlib.Nat.{add-zero, zero-add}
use mlx_nic_driver.Word.{Bytes, get_be64, put_be64}
use mlx_nic_driver.Word.Laws.{get_be64-put_be64, put_be64_outside, get_be64_same}
use mlx_nic_driver.Dma.{
  DmaPage, Host, dma_region_alloc, dma_page_alloc, dma_page_free, fill_pas, fill_pas_from,
}

-- posix_memalign yields no NULL.
abbrev pub NonNull : Host → Type 0
NonNull h = (k a : ℕ) → h.memalign k ≡ some a → a ≢ 0

-- VFIO_IOMMU_UNMAP_DMA is not refused.
abbrev pub Releases : Host → Type 0
Releases h = (k : ℕ) → h.unmap_ok k ≡ true

-- What the program has: its mapped regions and its blocks.
abbrev pub Same : Host → Host → Type 0
Same h h' = (h.mapped ≡ h'.mapped) × (h.heap ≡ h'.heap)

-- A region that the function hands out is the one asked for, at the address that the allocator
-- gave, and it is mapped. Freeing the page frees the block in any case; the mapping is taken back
-- where the IOMMU grants the unmapping, and stays where it refuses. The allocator yields no NULL.
pub dma_region_alloc-free :
    (iova len : ℕ) (h : Host) (p : DmaPage) (h' : Host)
    → NonNull h
    → dma_region_alloc iova len h ≡ (some p, h')
    → (p.iova ≡ iova)
      × (p.len ≡ len)
      × (p.addr ≢ 0)
      × (h'.mapped ≡ record { iova = iova; len = len } ∷ h.mapped)
      × ((dma_page_free p h').heap ≡ h.heap)
      × ((dma_page_free p h').mapped ≡ (if h.unmap_ok h.unmaps then h.mapped else h'.mapped))
unfolding dma_region_alloc dma_page_free
dma_region_alloc-free iova len h p h' nonnull e = (
  ground arith,
  ground arith,
  ground (arith, nonnull h.allocs p.addr),
  ground arith,
  ground (arith, nonnull h.allocs p.addr),
  ground (arith, nonnull h.allocs p.addr),
)

-- A refused region leaves no mapping and no block behind.
pub dma_region_alloc_refused :
    (iova len : ℕ) (h h' : Host) → dma_region_alloc iova len h ≡ (none, h') → Same h' h
unfolding dma_region_alloc
dma_region_alloc_refused iova len h h' e = (ground arith, ground arith)

pub dma_page_alloc-eq-some :
    (iova : ℕ) (h : Host) (p : DmaPage)
    → NonNull h
    → (dma_page_alloc iova h).0 ≡ some p
    → (p.iova ≡ iova) × (p.addr ≢ 0)
unfolding dma_page_alloc
dma_page_alloc-eq-some iova h p nonnull e = (ground arith, ground (arith, nonnull h.allocs p.addr))

pub dma_page_alloc-NonNull : (iova : ℕ) (h : Host) → NonNull h → NonNull (dma_page_alloc iova h).1
unfolding dma_page_alloc
dma_page_alloc-NonNull iova h nonnull k a = ground (arith, nonnull k a)

fill_pas_outside :
    (left i pas_off base : ℕ) (p : Bytes) (x : ℕ)
    → (x < pas_off + i * 8) ⊎ (pas_off + (i + left) * 8 ≤ x)
    → fill_pas_from left i pas_off base p x ≡ p x
unfolding fill_pas_from
fill_pas_outside zero i pas_off base p x h = refl
fill_pas_outside (suc left) i pas_off base p x h =
    fill_pas_outside left (i + 1) pas_off base (put_be64 (pas_off + i * 8) (base + i * 4096) p) x
      (omega arith)
    ∙ put_be64_outside p (pas_off + i * 8) (base + i * 4096) x (omega arith)

next_entry : (i j : ℕ) → i + suc j ≡ i + 1 + j
next_entry i j = omega arith

fill_pas_entry :
    (left i pas_off base : ℕ) (p : Bytes) (j : ℕ)
    → base + (i + left) * 4096 < 2 ^ 64
    → j < left
    → get_be64 (fill_pas_from left i pas_off base p) (pas_off + (i + j) * 8) ≡ base + (i + j) * 4096
unfolding fill_pas_from
fill_pas_entry zero i pas_off base p j fits h = elim h [ ]
fill_pas_entry (suc left) i pas_off base p zero fits h =
    let here = put_be64 (pas_off + i * 8) (base + i * 4096) p in
    rw add-zero (
      get_be64_same (fill_pas_from left (i + 1) pas_off base here) here (pas_off + i * 8)
        (λ x lo hi. fill_pas_outside left (i + 1) pas_off base here x (inl (omega arith)))
      ∙ get_be64-put_be64 p (pas_off + i * 8) (base + i * 4096) (omega arith))
fill_pas_entry (suc left) i pas_off base p (suc j) fits h = rw (next_entry i j) (
    fill_pas_entry left (i + 1) pas_off base (put_be64 (pas_off + i * 8) (base + i * 4096) p) j
      (omega arith) (omega arith))

-- The page list of a queue: entry j is the address of page j, and no byte outside the list
-- changes, for addresses below 2^64.
pub fill_pas_lem :
    (pas_off base count : ℕ) (p : Bytes)
    → base + count * 4096 < 2 ^ 64
    → ((j : ℕ)
        → j < count
        → get_be64 (fill_pas pas_off base count p) (pas_off + j * 8) ≡ base + j * 4096)
      × ((i : ℕ)
          → (i < pas_off) ⊎ (pas_off + count * 8 ≤ i)
          → fill_pas pas_off base count p i ≡ p i)
unfolding fill_pas
fill_pas_lem pas_off base count p fits = (
  λ j h. rw zero-add at (fill_pas_entry count 0 pas_off base p j (omega arith) h),
  λ i h. fill_pas_outside count 0 pas_off base p i (omega arith),
)

pub dma_region_alloc-NonNull :
    (iova len : ℕ) (h : Host) → NonNull h → NonNull (dma_region_alloc iova len h).1
unfolding dma_region_alloc
dma_region_alloc-NonNull iova len h nonnull k a = ground (arith, nonnull k a)

-- Where no unmapping is refused, freeing a page depends on what the program has, and on nothing
-- else of the host.
pub dma_page_free-Same :
    (p : DmaPage) (h h' : Host)
    → Releases h
    → Releases h'
    → Same h h'
    → Same (dma_page_free p h) (dma_page_free p h')
unfolding dma_page_free
dma_page_free-Same p h h' grants grants' same = (
  ground (arith, same, grants h.unmaps, grants' h'.unmaps),
  ground (arith, same, grants h.unmaps, grants' h'.unmaps),
)

pub dma_page_free-Releases : (p : DmaPage) (h : Host) → Releases h → Releases (dma_page_free p h)
unfolding dma_page_free
dma_page_free-Releases p h grants k = ground (arith, grants k)

pub dma_region_alloc-Releases :
    (iova len : ℕ) (h : Host) → Releases h → Releases (dma_region_alloc iova len h).1
unfolding dma_region_alloc
dma_region_alloc-Releases iova len h grants k = ground (arith, grants k)
