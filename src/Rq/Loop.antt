-- ===== src/Rq/Loop.antt =====
-- About the loop of `mlx5_rq_post_buffers`.
use mlx_nic_driver.Base.{
  ℕ, zero, suc, ◌+◌, ◌*◌, ◌%◌, ◌^◌, ◌≤◌, ◌<◌, ◌≡◌, ◌≢◌, ◌∙◌, refl, ap, subst, arith, Bool, true,
  false, if◌then◌else◌, inl, inr, Bool-cases, Option-cases, ◌==◌,
}
use native.Mathlib.Nat.{add-zero}
use mlx_nic_driver.Word.{get_be32, get_be64}
use mlx_nic_driver.Dma.{DmaPage, Host, dma_page_alloc}
use mlx_nic_driver.Dma.Laws.{NonNull, dma_page_alloc-eq-some, dma_page_alloc-NonNull}
use mlx_nic_driver.Rq.{Rq, set_page, post_wqe, post_one, post_loop}
use mlx_nic_driver.Rq.Post.{HasPages, IsPosted, post_wqe-IsPosted, post_wqe_other}

-- A round that did not return early: it posted the buffer `page` in the producer's slot.
record Round (mkey : ℕ) (rq : Rq) (rq' : Rq) (host' : Host) : Type 0 where
  page : DmaPage
  before : Rq
  present : page.addr ≢ 0
  at : page.iova ≡ rq.rx_iova_base + rq.prod_index % 4096 * 4096
  result : rq' ≡ post_wqe (rq.prod_index % 4096) page.iova mkey before
  same :
      (before.ring ≡ rq.ring)
      × (before.prod_index ≡ rq.prod_index)
      × (before.rx_iova_base ≡ rq.rx_iova_base)
      × (before.valid ≡ rq.valid)
  pages : (s : ℕ) → before.rx_pages s ≡ (if s == rq.prod_index % 4096 then page else rq.rx_pages s)
  sane : NonNull host'

abbrev page_iova : Rq → ℕ
page_iova rq = rq.rx_iova_base + rq.prod_index % 4096 * 4096

post_one-Round :
    (mkey : ℕ) (rq : Rq) (host : Host) (rq' : Rq) (host' : Host)
    → HasPages rq
    → NonNull host
    → post_one mkey rq host ≡ (true, rq', host')
    → Round mkey rq rq' host'
unfolding post_one
post_one-Round mkey rq host rq' host' has nonnull e =
    elim (Bool-cases ((rq.rx_pages (rq.prod_index % 4096)).addr == 0)) [
      | inr there ↦ record {
        page = rq.rx_pages (rq.prod_index % 4096);
        before = rq;
        present = ground arith;
        at = has (rq.prod_index % 4096) (ground arith);
        result = ground arith;
        same = (refl, refl, refl, refl);
        pages = λ s. ground arith;
        sane = λ k a. ground (arith, nonnull k a);
      }
      | inl missing ↦ elim (Option-cases (dma_page_alloc (page_iova rq) host).0) [
        | inl refused ↦ absurd (ground arith)
        | inr (p, ok) ↦ record {
          page = p;
          before = record rq { rx_pages = set_page (rq.prod_index % 4096) p rq.rx_pages };
          present = (dma_page_alloc-eq-some (page_iova rq) host p nonnull ok).1;
          at = (dma_page_alloc-eq-some (page_iova rq) host p nonnull ok).0;
          result = ground arith;
          same = (refl, refl, refl, refl);
          pages = λ s. refl;
          sane = λ k a. ground (arith, dma_page_alloc-NonNull (page_iova rq) host nonnull k a);
        }
      ]
    ]

-- What the loop needs: the pages are right, addresses and the key fit their fields.
pub record Ready (mkey : ℕ) (rq : Rq) (host : Host) : Type 0 where
  pub has : HasPages rq
  pub nonnull : NonNull host
  pub key_fits : mkey < 2 ^ 32
  pub index_fits : rq.prod_index < 2 ^ 32
  pub base_fits : rq.rx_iova_base + 4096 * 4096 < 2 ^ 64

Round-Ready :
    {mkey : ℕ} {rq rq' : Rq} {host host' : Host}
    → Ready mkey rq host
    → Round mkey rq rq' host'
    → Ready mkey rq' host'
Round-Ready {rq} ready r = record {
  has = λ s. rw r.result (ground (arith, r.pages s, ready.has s, r.at, r.present, r.same));
  nonnull = r.sane;
  key_fits = ready.key_fits;
  index_fits = rw r.result (omega arith);
  base_fits = rw r.result (ground (arith, r.same, ready.base_fits));
}

Round-IsPosted :
    {mkey : ℕ} {rq rq' : Rq} {host host' : Host}
    → Ready mkey rq host
    → Round mkey rq rq' host'
    → IsPosted mkey rq' (rq.prod_index % 4096)
Round-IsPosted {mkey} {rq} ready r = rw r.result (
    post_wqe-IsPosted mkey r.page.iova r.before (rq.prod_index % 4096) ready.key_fits
      (ground (arith, ready.base_fits, r.at))
      (ground (arith, r.present, r.pages (rq.prod_index % 4096))) (ground (arith, r.at, r.same)))

Round-keeps :
    {mkey : ℕ} {rq rq' : Rq} {host' : Host} (s : ℕ)
    → Round mkey rq rq' host'
    → s ≢ rq.prod_index % 4096
    → IsPosted mkey rq s
    → IsPosted mkey rq' s
Round-keeps {mkey} {rq} s r ne posted =
    let before_posted : IsPosted mkey r.before s = record {
      present = ground (arith, posted.present, r.pages s);
      size = ap (λ f. get_be32 f (s * 16)) r.same.0 ∙ posted.size;
      lkey = ap (λ f. get_be32 f (s * 16 + 4)) r.same.0 ∙ posted.lkey;
      buffer = ap (λ f. get_be64 f (s * 16 + 8)) r.same.0 ∙ ground (arith, posted.buffer, r.same);
    } in
    rw r.result (post_wqe_other mkey r.page.iova r.before (rq.prod_index % 4096) s ne before_posted)

Round-index :
    {mkey : ℕ} {rq rq' : Rq} {host' : Host}
    → Round mkey rq rq' host'
    → (rq'.prod_index ≡ (rq.prod_index + 1) % 2 ^ 32) × (rq'.valid ≡ rq.valid)
Round-index r = rw r.result (ground (arith, r.same))

-- The loop went through `n` rounds.
pub record Posts (n mkey : ℕ) (rq : Rq) (rq' : Rq) (host' : Host) : Type 0 where
  pub index : rq'.prod_index ≡ (rq.prod_index + n) % 2 ^ 32
  pub posted : (k : ℕ) → k < n → IsPosted mkey rq' ((rq.prod_index + k) % 4096)
  pub kept :
      (s : ℕ)
      → ((k : ℕ) → k < n → s ≢ (rq.prod_index + k) % 4096)
      → IsPosted mkey rq s
      → IsPosted mkey rq' s
  pub ready : Ready mkey rq' host'

next_slot : (p k : ℕ) → ((p + 1) % 2 ^ 32 + k) % 4096 ≡ (p + suc k) % 4096
next_slot p k = omega arith

Posts-suc :
    (n : ℕ) {mkey : ℕ} {rq mid rq' : Rq} {host host1 host' : Host}
    → n < 4096
    → Ready mkey rq host
    → Round mkey rq mid host1
    → Posts n mkey mid rq' host'
    → Posts (suc n) mkey rq rq' host'
Posts-suc n {mkey} {rq} {mid} {rq'} few ready r rest = record {
  index = omega (arith, rest.index, Round-index r);
  posted = λ k h. elim (Bool-cases (k == 0)) [
    | inl first ↦ first_slot k (ground arith)
    | inr later ↦ later_slot k h (ground arith)
  ];
  kept = λ s apart posted.
      rest.kept s
        (λ k h. rw ((Round-index r).0, next_slot rq.prod_index k) (apart (suc k) (omega arith)))
        (Round-keeps s r (rw add-zero at (apart 0 (omega arith))) posted);
  ready = rest.ready;
}
  where
    first_slot : (k : ℕ) → k ≡ 0 → IsPosted mkey rq' ((rq.prod_index + k) % 4096)
    first_slot k e =
        rw (e, add-zero)
          (rest.kept (rq.prod_index % 4096)
            (λ j h. rw ((Round-index r).0, next_slot rq.prod_index j) (ground arith))
            (Round-IsPosted ready r))

    later_slot : (k : ℕ) → k < suc n → k ≢ 0 → IsPosted mkey rq' ((rq.prod_index + k) % 4096)
    later_slot zero h ne = absurd (ne refl)
    later_slot (suc k) h ne =
        rw ((Round-index r).0, next_slot rq.prod_index k) at (rest.posted k (omega arith))

pub loop-Posts :
    (n mkey : ℕ) (rq : Rq) (host : Host) (rq' : Rq) (host' : Host)
    → n ≤ 4096
    → Ready mkey rq host
    → post_loop n mkey rq host ≡ (true, rq', host')
    → Posts n mkey rq rq' host'
unfolding post_loop
loop-Posts zero mkey rq host rq' host' few ready e =
    subst (λ (t : Bool × Rq × Host). Posts 0 mkey rq t.1 t.2) e
      (record {
        index = omega (arith, ready.index_fits);
        posted = λ k h. absurd (omega arith);
        kept = λ s apart posted. posted;
        ready = ready;
      })
loop-Posts (suc n) mkey rq host rq' host' few ready e =
    split (post_one mkey rq host) refl
      (λ mid host1. loop-Posts n mkey mid host1 rq' host' (omega arith))
  where
    split :
        (first : Bool × Rq × Host)
        → post_one mkey rq host ≡ first
        → ((mid : Rq) (host1 : Host)
            → Ready mkey mid host1
            → post_loop n mkey mid host1 ≡ (true, rq', host')
            → Posts n mkey mid rq' host')
        → Posts (suc n) mkey rq rq' host'
    split (false, mid, host1) at rest = absurd (ground arith)
    split (true, mid, host1) at rest =
        let r = post_one-Round mkey rq host mid host1 ready.has ready.nonnull at in
        Posts-suc n (omega arith) ready r (rest mid host1 (Round-Ready ready r) (ground arith))
