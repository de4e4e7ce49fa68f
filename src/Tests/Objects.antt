-- ===== src/Tests/Objects.antt =====
-- Tests of the objects, the firmware's pages, the addresses and the configuration.
use mlx_nic_driver.Base.{
  ℕ, ◌+◌, ◌*◌, ◌%◌, ◌^◌, ◌≤◌, ◌<◌, ◌≡◌, ◌↔◌, ◌⊎◌, refl, arith, true, false, Option, some, length,
}
use mlx_nic_driver.Word.{Bytes, get_be16, get_be32, put_be32, put_be64}
use mlx_nic_driver.Dma.{DmaPage}
use mlx_nic_driver.Dma.Laws.{NonNull}
use mlx_nic_driver.Mbox.{setup_mailbox_chain, num_blocks_for_extra}
use mlx_nic_driver.Cmd.{
  Ctx, attach, wait_owner, start_desc, own_desc, sign_desc, cmd_exec, submit, collect,
}
use mlx_nic_driver.Obj.{id24, exec_done}
use mlx_nic_driver.Obj.Ids.{Eq, create_pa_mkey, create_pa_mkey_in, destroy_mkey}
use mlx_nic_driver.Obj.Cqs.{create_cq}
use mlx_nic_driver.Obj.Clean.{IsClean, create_cq-IsClean}
use mlx_nic_driver.Obj.Names.{destroy_mkey-create_pa_mkey}
use mlx_nic_driver.Obj.Pas.{DescribesSq, create_sq_in_lem, create_rqt_in_lem}
use mlx_nic_driver.Obj.Sqs.{create_sq_in}
use mlx_nic_driver.Obj.Steer.{create_rqt_in}
use mlx_nic_driver.Pages.{give_pages}
use mlx_nic_driver.Pages.Numbered.{Fit, give_pages-Fit}
use mlx_nic_driver.Dev.{ok, state, set_error, configure, defaulted, has_tx, has_rx}
use mlx_nic_driver.Dev.Configure.{IsRunnable, configure_accepts, configure_outcome}
use mlx_nic_driver.Tests.{host, rq, dev, config, fw, ctx}

host-NonNull : NonNull host
host-NonNull k a e = ground arith

abbrev region : DmaPage
region = record { addr = 4096; iova = 0x07200000; len = 4096 }

abbrev eq : Eq
eq = record { page = region; eqn = 4; valid = true }

create_cq-IsClean_example : IsClean fw ctx (create_cq fw 1 eq 0x04000000 0x04040000 ctx)
create_cq-IsClean_example =
    create_cq-IsClean fw fw 1 eq 0x04000000 0x04040000 ctx host-NonNull (λ k. refl)

-- What the firmware's object number 0x33 makes of a memory key.
abbrev keyed : Option ℕ × Ctx
keyed = create_pa_mkey fw 5 ctx

key_made : keyed ≡ (some 0x3300, keyed.1)
unfolding create_pa_mkey cmd_exec submit attach collect wait_owner setup_mailbox_chain
    num_blocks_for_extra put_be32 put_be64 get_be32 start_desc own_desc sign_desc
key_made = refl

destroy_mkey-create_pa_mkey_example :
    (inp : Bytes) × (destroy_mkey fw 0x3300 keyed.1 ≡ exec_done fw inp 16 keyed.1)
    × (get_be16 inp 0 ≡ 0x202)
    × (get_be32 inp 8 ≡ id24 (cmd_exec fw (create_pa_mkey_in 5) 0x110 16 ctx).1)
    × (0x3300 % 256 ≡ 0)
    × (0x3300 < 2 ^ 32)
destroy_mkey-create_pa_mkey_example =
    destroy_mkey-create_pa_mkey fw fw 5 0x3300 ctx keyed.1 key_made

create_sq_in_lem_example :
    DescribesSq 1 2 3 4 0x05080000 0x05000000 (create_sq_in 1 2 3 4 0x05080000 0x05000000)
create_sq_in_lem_example =
    create_sq_in_lem 1 2 3 4 0x05080000 0x05000000 (omega arith) (omega arith)

create_rqt_in_lem_example :
    get_be32 (create_rqt_in 3 (λ q. record rq { rqn = 100 + q })) (0x110 + 5 * 4) ≡ 102
create_rqt_in_lem_example =
    (create_rqt_in_lem 3 (λ q. record rq { rqn = 100 + q })).0 5 (omega arith)

ctx-Fit : Fit ctx
ctx-Fit = record { numbered = tt; few = omega arith }

give_pages-Fit_example :
    Fit (give_pages fw 0 3 ctx).1
    × (((give_pages fw 0 3 ctx).0 ≡ false) ⊎ (length (give_pages fw 0 3 ctx).1.fw_pages ≡ 3))
give_pages-Fit_example = give_pages-Fit fw 0 3 ctx ctx-Fit

configure_accepts_example :
    ((configure (some (record dev { started = false })) (some config)).0 ≡ true) ↔ (
      (false ≡ false) × ((has_tx config ≡ true) ⊎ (has_rx config ≡ true)) × (4096 ≤ 4096) × (1 ≤ 8))
configure_accepts_example = configure_accepts (record dev { started = false }) config

configure_outcome_example :
    (((configure (some dev) (some config)).0 ≡ true)
      × IsRunnable (defaulted config)
      × ((configure (some dev) (some config)).1
          ≡ some (set_error ok (record dev { config = defaulted config }))))
    ⊎ (((configure (some dev) (some config)).0 ≡ false)
        × ((configure (some dev) (some config)).1 ≡ some (set_error state dev)))
configure_outcome_example = configure_outcome dev config
