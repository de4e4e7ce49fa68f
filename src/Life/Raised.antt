-- ===== src/Life/Raised.antt =====
-- About the account over a start, call by call.
use mlx_nic_driver.Base.{
  ℕ, zero, suc, ◌+◌, ◌≡◌, ◌<◌, refl, sym, subst, ap, arith, Bool, true, false, Option, none, some,
  if◌then◌else◌,
}
use mlx_nic_driver.Cmd.{Firmware, Ctx}
use mlx_nic_driver.Obj.Setup.{
  enable_hca, set_issi, query_pages, query_pages_for_give, query_dtor, query_paos,
  query_hca_cap_raw, set_hca_cap_raw,
}
use mlx_nic_driver.Obj.Ids.{init_hca}
use mlx_nic_driver.Vfio.{Process}
use mlx_nic_driver.Steps.{Step, Keeps, Moves, run, run-Keeps, then-Moves, when-Moves, ◌then◌, when}
use mlx_nic_driver.Ledger.{Probe, owns, recount}
use mlx_nic_driver.Ledger.Call.{owns_list}
use mlx_nic_driver.Ledger.Objects.{create_eq-Paying}
use mlx_nic_driver.Ledger.Sum.{sum, sum_changed}
use mlx_nic_driver.Ledger.Given.{give_pages-Paid}
use mlx_nic_driver.Life.Runtime.{
  QueueState, Runtime, exec_step, done_step, set_queue, with_ctx, at_queue,
}
use mlx_nic_driver.Life.Start.{
  give_asked, page_phase, boot, numbers, make_eq, parts, make_queue, make_queues, queues_of,
  steering, bring_up, set_cap,
}
use mlx_nic_driver.Life.Account.{
  owns_queue, owns_buffers, Holdings, holdings, Quiet-Keeps, All-Quiet, exec_step-Quiet,
  done_step-Quiet, set_queue_same, set_queue_other, set_queue_all,
}
use mlx_nic_driver.Life.Frugal
use mlx_nic_driver.Life.Account
use mlx_nic_driver.Life.Queue.{IsTidy, make_queue-Moves}
use mlx_nic_driver.Life.Bring.{numbers-Quiet, steering-Quiet, set_cap-Quiet}
use mlx_nic_driver.Life.Covers.{
  buffers, IsBlank, owned, Fresh, Upto, Full, blank_sum, Fresh-Upto, Upto-Full,
}

module _ (x : Probe) (b : ℕ) (p0 : Process) where
  module _ (fw : Firmware) where
    abbrev IsFresh : Runtime → Type 0
    IsFresh rt = Fresh x b p0 (holdings rt)

    give_asked-Keeps : (asked : Option (ℕ × ℕ)) → Keeps IsFresh (give_asked fw asked)
    give_asked-Keeps none rt fresh = fresh
    give_asked-Keeps (some (id, num)) rt (l, e, blank, closes) = (
      give_pages-Paid x b (buffers x b p0 (holdings rt)) fw id num rt.session.ctx l,
      e,
      blank,
      closes,
    )

    ask-Keeps :
        (phase : Bool)
        → Keeps IsFresh (exec_step (λ rt. query_pages_for_give fw phase) (give_asked fw))
    ask-Keeps phase rt fresh =
        let (asked, ctx) = query_pages_for_give fw phase rt.session.ctx in
        give_asked-Keeps asked (with_ctx ctx rt) (
          Quiet-Keeps (Fresh x b p0) (exec_step (λ rt. query_pages_for_give fw phase) keep_none)
            (exec_step-Quiet (λ rt. query_pages_for_give fw phase) keep_none
              (λ rt. Frugal.query_pages_for_give-Frugal fw phase) (λ a rt. refl))
            rt fresh)
      where
        keep_none : Option (ℕ × ℕ) → Step Runtime
        keep_none asked rt = (true, rt)

    call-Keeps :
        (f : Runtime → Ctx → Bool × Ctx)
        → ((rt : Runtime) → Account.Frugal (f rt))
        → Keeps IsFresh (exec_step f done_step)
    call-Keeps f frugal =
        Quiet-Keeps (Fresh x b p0) (exec_step f done_step)
          (exec_step-Quiet f done_step frugal done_step-Quiet)

    phase-Keeps : (phase : Bool) → Keeps IsFresh (run (page_phase fw phase))
    phase-Keeps phase = run-Keeps IsFresh (page_phase fw phase) (
      call-Keeps (λ rt. query_pages fw phase) (λ rt. Frugal.query_pages-Frugal fw phase),
      (ask-Keeps phase, tt),
    )

    boot-Keeps : Keeps IsFresh (run (boot fw))
    boot-Keeps =
        let enable = call-Keeps (λ rt. enable_hca fw) (λ rt. Frugal.enable_hca-Frugal fw) in
        let issi = call-Keeps (λ rt. set_issi fw) (λ rt. Frugal.set_issi-Frugal fw) in
        let dtor = call-Keeps (λ rt. query_dtor fw) (λ rt. Frugal.query_dtor-Frugal fw) in
        let cap =
          Quiet-Keeps (Fresh x b p0) (exec_step (λ rt. query_hca_cap_raw fw 1 4096) set_cap) (
            exec_step-Quiet (λ rt. query_hca_cap_raw fw 1 4096) set_cap
              (λ rt. Frugal.query_hca_cap_raw-Frugal fw 1 4096) set_cap-Quiet) in
        let set =
          call-Keeps (λ rt. set_hca_cap_raw fw 0 rt.hca_cap 4096)
            (λ rt. Frugal.set_hca_cap_raw-Frugal fw 0 rt.hca_cap 4096) in
        let hca = call-Keeps (λ rt. init_hca fw) (λ rt. Frugal.init_hca-Frugal fw) in
        let paos = call-Keeps (λ rt. query_paos fw 1) (λ rt. Frugal.query_paos-Frugal fw 1) in
        run-Keeps IsFresh (boot fw) (
          enable,
          (issi, (phase-Keeps true, (dtor, (cap, (set, (phase-Keeps false, (hca, (paos, tt)))))))),
        )

    numbers-Keeps : (tx rx : Bool) → Keeps IsFresh (run (numbers fw tx rx))
    numbers-Keeps tx rx =
        run-Keeps IsFresh (numbers fw tx rx)
          (All-Quiet (Fresh x b p0) (numbers fw tx rx) (numbers-Quiet fw tx rx))

    make_eq-Moves : Moves IsFresh (λ rt. Upto x b p0 0 (holdings rt)) (make_eq fw)
    unfolding make_eq
    make_eq-Moves rt (l, e, blank, closes) =
        let h = holdings (make_eq fw rt).1 in
        let made = create_eq-Paying x b (buffers x b p0 h) fw rt.uar rt.session.ctx l in
        let none_yet = blank_sum x b p0 rt.queue_count rt.queues blank in
        (
          recount x b _
              (owns_list x h.purse.1
                + (buffers x b p0 h
                    + (owns x h.eq.page + sum rt.queue_count 0 (owned x b p0 rt.queues))))
              h.purse.0 (omega arith) made,
          (λ i lo. blank i),
          (λ i invalid. (blank i).3),
          closes,
        )

    abbrev IsFull : Runtime → Type 0
    IsFull rt = Full x b p0 (holdings rt)

    -- One queue of the loop.
    at_queue-Moves :
        (tx rx : Bool) (count q n : ℕ)
        → q < n
        → Moves
            (λ rt. Upto x b p0 q (holdings rt) × (rt.queue_count ≡ n))
            (λ rt. Upto x b p0 (q + 1) (holdings rt) × (rt.queue_count ≡ n))
            (λ rt. at_queue q (make_queue fw tx rx count (parts rt) q) rt)
    at_queue-Moves tx rx count q n low rt ((l, blank, tidy, closes), en) =
        let h = holdings rt in
        let others =
          buffers x b p0 h + (owns x h.eq.page + sum h.queue_count 0 (owned x b p0 h.queues)) in
        let s : QueueState = record { queue = rt.queues q; ctx = rt.session.ctx } in
        let (none_tx, none_sq, none_rx, none_rq) = blank q (omega arith) in
        let (paid, tidy_q) = make_queue-Moves x b others fw (parts rt) q tx rx count s (
          recount x b _ (owns_list x rt.session.ctx.fw_pages + (owns_queue x s.queue + others))
              rt.session.ctx.host (omega arith) l,
          none_tx,
          none_sq,
          none_rx,
          none_rq,
        ) in
        let s' = (make_queue fw tx rx count (parts rt) q s).1 in
        let queues' = set_queue q s'.queue rt.queues in
        let changed =
          sum_changed rt.queue_count 0 q (owned x b p0 rt.queues) (owned x b p0 queues')
            (omega arith) (omega (arith, en))
            (λ k apart. ap (owns_queue x) (sym (set_queue_other q s'.queue rt.queues k apart))) in
        let here : owned x b p0 queues' q ≡ owns_queue x s'.queue =
          ap (owns_queue x) (set_queue_same q s'.queue rt.queues) in
        let total =
          buffers x b p0 h + (owns x h.eq.page + sum rt.queue_count 0 (owned x b p0 queues')) in
        (
          (
            recount x b _ (owns_list x s'.ctx.fw_pages + total) s'.ctx.host
                (omega (arith, changed, here)) paid,
            (λ i lo.
                subst (IsBlank x b p0) (sym (set_queue_other q s'.queue rt.queues i (omega arith)))
                  (blank i (omega arith))),
            (λ i. set_queue_all (IsTidy x) q s'.queue rt.queues i tidy_q (λ apart. tidy i)),
            closes,
          ),
          en,
        )

    make_queues-Moves :
        (tx rx : Bool) (count left q n : ℕ)
        → q + left ≡ n
        → Moves
            (λ rt. Upto x b p0 q (holdings rt) × (rt.queue_count ≡ n))
            IsFull
            (make_queues fw tx rx count left q)
    unfolding make_queues
    make_queues-Moves tx rx count zero q n e rt (upto, en) = Upto-Full x b p0 q (holdings rt) upto
    make_queues-Moves tx rx count (suc left) q n e rt (upto, en) =
        go (at_queue q (make_queue fw tx rx count (parts rt) q) rt) refl
          (at_queue-Moves tx rx count q n (omega (arith, e)) rt (upto, en))
          (make_queues-Moves tx rx count left (q + 1) n (omega (arith, e)))
      where
        go :
            (t : Bool × Runtime)
            → at_queue q (make_queue fw tx rx count (parts rt) q) rt ≡ t
            → Upto x b p0 (q + 1) (holdings t.1) × (t.1.queue_count ≡ n)
            → Moves
                (λ r. Upto x b p0 (q + 1) (holdings r) × (r.queue_count ≡ n))
                IsFull
                (make_queues fw tx rx count left (q + 1))
            → IsFull (make_queues fw tx rx count (suc left) q rt).1
        go (true, rt') e2 up next =
            let result : make_queues fw tx rx count (suc left) q rt
                ≡ make_queues fw tx rx count left (q + 1) rt' =
              ground (arith, e2) in
            subst (λ t. IsFull t.1) (sym result) (next rt' up)
        go (false, rt') e2 up next =
            let result : make_queues fw tx rx count (suc left) q rt ≡ (false, rt') =
              ground (arith, e2) in
            subst (λ t. IsFull t.1) (sym result) (Upto-Full x b p0 (q + 1) (holdings rt') up.0)

    queues_of-Moves :
        (tx rx : Bool) (count : ℕ)
        → Moves (λ rt. Upto x b p0 0 (holdings rt)) IsFull (queues_of fw tx rx count)
    queues_of-Moves tx rx count rt upto =
        make_queues-Moves tx rx count rt.queue_count 0 rt.queue_count (omega arith) rt (upto, refl)

    steering-Keeps : (rx : Bool) → Moves IsFull IsFull (when rx (run (steering fw)))
    steering-Keeps rx =
        when-Moves IsFull IsFull rx (run (steering fw))
          (run-Keeps IsFull (steering fw)
            (All-Quiet (Full x b p0) (steering fw) (steering-Quiet fw)))
          (λ s p. p)

    -- However far a start comes, what it took is there to be given back.
    pub bring_up-Moves : (tx rx : Bool) (count : ℕ) → Moves IsFresh IsFull (bring_up fw tx rx count)
    unfolding bring_up
    bring_up-Moves tx rx count =
        let fresh_full : (rt : Runtime) → IsFresh rt → IsFull rt =
          λ rt p. Upto-Full x b p0 0 (holdings rt) (Fresh-Upto x b p0 (holdings rt) p) in
        let last = when rx (run (steering fw)) in
        let queues = queues_of fw tx rx count in
        then-Moves IsFresh IsFresh IsFull (run (boot fw))
          (run (numbers fw tx rx) then make_eq fw then queues then last) boot-Keeps
          (then-Moves IsFresh IsFresh IsFull (run (numbers fw tx rx))
            (make_eq fw then queues then last) (numbers-Keeps tx rx)
            (then-Moves IsFresh (λ rt. Upto x b p0 0 (holdings rt)) IsFull (make_eq fw)
              (queues then last) make_eq-Moves
              (then-Moves (λ rt. Upto x b p0 0 (holdings rt)) IsFull IsFull queues last
                (queues_of-Moves tx rx count) (steering-Keeps rx) (λ rt p. p))
              (λ rt p. Upto-Full x b p0 0 (holdings rt) p))
            fresh_full)
          fresh_full
