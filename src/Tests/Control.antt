-- ===== src/Tests/Control.antt =====
-- Tests of memory and the command interface.
use mlx_nic_driver.Base.{
  ◌+◌, ◌*◌, ◌%◌, ◌<◌, ◌≡◌, ◌≢◌, refl, arith, true, none, some, ◌==◌, if◌then◌else◌,
}
use mlx_nic_driver.Word.{Bytes, zeroed, get_be64, put_be64}
use mlx_nic_driver.Word.Laws.{get_be64-put_be64}
use mlx_nic_driver.Dma.{DmaPage, dma_region_alloc, dma_page_free, fill_pas}
use mlx_nic_driver.Dma.Laws.{
  NonNull, Same, dma_region_alloc-free, dma_region_alloc_refused, fill_pas_lem,
}
use mlx_nic_driver.Mbox.{setup_mailbox_chain, copy_from_mailbox_chain, num_blocks_for_extra}
use mlx_nic_driver.Mbox.Copy.{copy_from_mailbox_chain-setup_mailbox_chain}
use mlx_nic_driver.Mbox.Signed.{IsBlock, setup_mailbox_chain-IsBlock}
use mlx_nic_driver.Cmd.{Answer, Ctx, cmd_exec, submit, collect, take_token}
use mlx_nic_driver.Cmd.Token.{take_token_lem}
use mlx_nic_driver.Cmd.Reply.{submit_outcome}
use mlx_nic_driver.Cmd.Request.{IsRequest, cmd_exec-IsRequest}
use mlx_nic_driver.Tests.{host, full_host, fw, ctx}

host-NonNull : NonNull host
host-NonNull k a e = ground arith

abbrev region : DmaPage
region = record { addr = 4096; iova = 0x04000000; len = 131072 }

granted :
    dma_region_alloc 0x04000000 131072 host
    ≡ (some region, (dma_region_alloc 0x04000000 131072 host).1)
unfolding dma_region_alloc
granted = refl

dma_region_alloc-free_example :
    (region.len ≡ 131072)
    × Same (dma_page_free region (dma_region_alloc 0x04000000 131072 host).1) host
dma_region_alloc-free_example =
    let lem =
      dma_region_alloc-free 0x04000000 131072 host region
        (dma_region_alloc 0x04000000 131072 host).1 host-NonNull granted in
    (lem.1, (lem.5, lem.4))

refused : dma_region_alloc 0 4096 full_host ≡ (none, (dma_region_alloc 0 4096 full_host).1)
unfolding dma_region_alloc
refused = refl

dma_region_alloc_refused_example : Same (dma_region_alloc 0 4096 full_host).1 full_host
dma_region_alloc_refused_example =
    dma_region_alloc_refused 0 4096 full_host (dma_region_alloc 0 4096 full_host).1 refused

fill_pas_lem_example : get_be64 (fill_pas 0x110 0x04000000 32 zeroed) (0x110 + 31 * 8) ≡ 0x0401f000
fill_pas_lem_example = (fill_pas_lem 0x110 0x04000000 32 zeroed (omega arith)).0 31 (omega arith)

get_be64-put_be64_example : get_be64 (put_be64 8 0x0123456789abcdef zeroed) 8 ≡ 0x0123456789abcdef
get_be64-put_be64_example = get_be64-put_be64 zeroed 8 0x0123456789abcdef (omega arith)

-- 1000 bytes in two blocks.
abbrev data_source : Bytes
data_source k = k % 251

abbrev chain : Bytes
chain = elim (setup_mailbox_chain 0x01800000 (some (data_source, 16)) 1000 7 zeroed) [
  | none ↦ zeroed
  | some m ↦ m
]

chained : setup_mailbox_chain 0x01800000 (some (data_source, 16)) 1000 7 zeroed ≡ some chain
unfolding setup_mailbox_chain num_blocks_for_extra
chained = refl

copy_from_mailbox_chain-setup_mailbox_chain_example :
    copy_from_mailbox_chain 1000 chain 16 zeroed (16 + 999) ≡ 1015 % 251
copy_from_mailbox_chain-setup_mailbox_chain_example =
    (copy_from_mailbox_chain-setup_mailbox_chain 0x01800000 data_source 16 1000 7 zeroed chain 16
        zeroed chained).0
      999 (omega arith)

setup_mailbox_chain-IsBlock_example : IsBlock chain 1 (num_blocks_for_extra 1000) 0x01800000 7
setup_mailbox_chain-IsBlock_example =
    (setup_mailbox_chain-IsBlock 0x01800000 (some (data_source, 16)) 1000 7 zeroed
        (λ i. omega arith) (omega arith) (omega arith)).1
      chain chained 1 (omega arith)

take_token_lem_example :
    ((take_token 255).0 ≢ 0)
    × ((take_token 255).0 < 256)
    × ((take_token 255).1 ≢ 0)
    × ((take_token (take_token 255).1).0 ≢ (take_token 255).0)
take_token_lem_example = take_token_lem 255 (omega arith)

cmd_exec-IsRequest_example :
    (sent : Ctx) × (cmd_exec fw data_source 600 16 ctx ≡ submit fw 16 sent)
    × IsRequest data_source 600 16 ctx sent
cmd_exec-IsRequest_example =
    cmd_exec-IsRequest fw data_source 600 16 ctx (λ i. omega arith) (omega arith) (omega arith)
      (omega arith) (omega arith) (omega arith)

abbrev ringing : Ctx
ringing = record ctx { desc = λ i. if i == 63 then 1 else 0 }

abbrev answer : Answer
answer = record { after = 12; desc = zeroed; outbox = zeroed }

submit_outcome_example : submit (λ n d i o. answer) 16 ringing ≡ (
  true,
  collect 16 zeroed zeroed,
  record ringing { desc = zeroed; outbox = zeroed; commands = 1 },
)
unfolding collect
submit_outcome_example =
    (submit_outcome (λ n d i o. answer) 16 ringing answer refl refl refl).0 (omega arith)
