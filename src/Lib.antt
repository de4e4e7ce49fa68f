-- ===== src/Lib.antt =====
-- A userspace driver for mlx5 network cards: it drives the card through VFIO, without a kernel
-- driver. This library models its core, src/mlx5.c with src/mlx5_priv.h and include/mlxnicd.h,
-- and the opening of the card in src/vfio.c.
--
-- The parts, from the bottom up, and the files that model them:
--
--   Word     the big-endian accessors of device memory and `xor8`. Memory is a function from an
--            offset to a byte; a machine word is a number with its wrap written out.
--   Dma      pages for the device: `alloc_aligned_zero`, `mlx5_dma_region_alloc`,
--            `mlx5_dma_page_free`, `mlx5_fill_pas`. The C library's allocator and the IOMMU behind
--            `vfio_dma_map` and `vfio_dma_unmap` are streams of answers in the record `Host`, which
--            also keeps what is mapped and what is allocated. A region whose unmapping is refused
--            stays mapped and is noted in `refused`.
--   Cq       completion queues: `mlx5_poll_cq_once_mode`, `mlx5_poll_cq`, whose counter of
--            milliseconds is an `int` and wraps as one. The device writes the ring while the driver
--            polls it, so the ring is a stream of views, one for each poll.
--   Sq       send queues: `mlx5_sq_prepare_send_raw`, `mlx5_sq_ring_send`, `mlx5_sq_reclaim_cqe`,
--            `mlx5_sq_poll_tx_cq`. BAR0 keeps the list of doorbells written to it.
--   Rq       receive queues: `mlx5_rq_post_buffers`, `mlx5_rx_poll_one`.
--   Mbox     the mailboxes of the command interface: `setup_mailbox_chain`,
--            `copy_from_mailbox_chain` and the signatures. Mbox/Follow reads a chain as the
--            firmware does, by the pointers in its blocks.
--   Cmd      `mlx5_cmd_exec`. The firmware is an argument: a function from what it finds at a
--            doorbell to its answer and to the number of reads after which that is there.
--   Obj      the objects of the device, made by commands: the functions `mlx5_ctx_alloc_*`,
--            `mlx5_ctx_create_*`, `mlx5_ctx_modify_*`, `mlx5_ctx_destroy_*` and those of receive
--            steering, one file for each kind (Ids, Cqs, Sqs, Rqs, Steer).
--   Pages    `mlx5_ctx_give_pages`.
--   Layout   a table of the fixed I/O addresses of all these parts together. Life/Placed relates it
--            to the regions that the calls map, Life/Apart draws the conclusions.
--   Dev      the handle of include/mlxnicd.h: its configuration and last error.
--   Tx, Rx   the datapath of the API: `mlxnicd_tx_burst_q`, `mlxnicd_tx_flush_q`,
--            `mlxnicd_rx_burst_q`, `mlxnicd_rx_release_q` and their variants for queue 0.
--   Vfio     `vfio_device_open`, `vfio_device_close` and `vfio_enable_bus_master` of src/vfio.c. The
--            kernel's answers to the system calls are an argument; the descriptors that the process
--            has are its state.
--   Steps    sequences of calls that stop at the first failure, as `goto out` does, and clean-ups
--            that go on after one.
--   Life     the device from end to end: `mlx5_cmd_ctx_open` and `mlx5_cmd_ctx_close`,
--            `mlx5_test_runtime_cleanup` (Life/Cleanup), the calls of `mlxnicd_dev_start` in their
--            order (Life/Start), and `mlxnicd_dev_open`, `_start`, `_stop` and `_close`
--            (Life/Device). The registers of BAR0 are a stream of reads and a log of writes.
--   Ledger   the account that the proofs about Life keep: how often a region or a block occurs in
--            the host's lists, and how often in what the structures point to.
--   Frame    the test frames: `parse_mac_addr`, `parse_payload_hex`, `build_tx_test_frame`. strtoul
--            is an argument.
--   Bench    the frames of the benchmarks in src/sample.c: `sample_bench_build_frame`,
--            `sample_bench_build_from_template`, `sample_ipv4_checksum`. A sum of 32 bits folds in
--            two rounds, which is the fuel of `fold_carries`.
--   Tests    concrete data, and the theorems at concrete inputs.
--
-- A function that changes a C structure takes its record and yields the new one; a return code is a
-- Boolean (true is 0) or an option (none is -1), beside the state that it leaves. Prints, barriers
-- and sleeps are left out: they do not change the state that is modelled.
--
-- Loops over an array are structural recursion. The loops that wait for the device run on fuel, and
-- the outer `none` of their result says that it ran out: `poll_loop` needs one unit for each poll,
-- and (t + 2) * 1000001 are enough for a timeout of t ms
-- below INT_MAX; `wait_fuel` is that number for the 1000 ms
-- of a transmit wait. `tx_loop` needs one unit for each round; two are enough for a burst that has
-- room. The polling of a command is bounded in the source, by 1000000 reads, and needs no fuel.
--
-- A structure that the source splits between the datapath and the set-up is split here too: `Cq`,
-- `Sq` and `Rq` hold what the datapath uses, `CqRes`, `SqRes` and `RqRes` add the pages.
--
-- `Handle` of Life/Device is `struct mlxnicd_dev` with the whole runtime; `Dev` is the same structure
-- as the datapath sees it. `wait_fw_ready` reads the register 501 times at most, which are its
-- 5000 ms in steps of 10 ms.
--
-- Not modelled: query commands whose results are only printed; binding and restoring a driver in
-- src/vfio.c and the sysfs files of src/pci.c, which are system calls; src/main.c, src/raw.c,
-- the rest of src/sample.c, src/mlx5_debug.c, peer and examples, which are programs on top.
pub mod Base
pub mod Word
pub mod Dma
pub mod Cq
pub mod Sq
pub mod Rq
pub mod Mbox
pub mod Cmd
pub mod Obj
pub mod Pages
pub mod Layout
pub mod Dev
pub mod Tx
pub mod Rx
pub mod Vfio
pub mod Steps
pub mod Ledger
pub mod Life
pub mod Bench
pub mod Frame
pub mod Tests
