-- ===== src/Fs/Resources/Returns.antt =====
-- The run of fs_rdma_create_resources of src/c/transport.c to its end, where calls may fail.
use rdma_cpp.Common.{
  ℕ, zero, suc, ◌+◌, ◌*◌, ◌^◌, ◌<◌, ◌≤◌, ◌≡◌, ◌⊎◌, inl, inr, refl, set, false, Option, none, some,
  List, ◌∷◌, arith, if◌then◌else◌,
}
use rdma_cpp.Common.Cint.{ℤ, pos, minus_one, is_null}
use rdma_cpp.Common.Cmd.{ok, crash, call_for}
use rdma_cpp.Common.Cmd.Returns.{Triple, Triple-pure, Triple-if, Triple-bind, Triple-fact}
use rdma_cpp.Fs.Config.{Config, default_buf_depth, buf_size}
use rdma_cpp.Fs.Foreign.{Call, memalign, reg_mr}
use rdma_cpp.Fs.Context.{Ctx, Env, FsWorld, Fs}
use rdma_cpp.Fs.Resources.Success.{IsFresh}
use rdma_cpp.Fs.Resources.Failure.{release_all_lem}
use rdma_cpp.Fs.Resources.Stages.{
  Flow, go_on, goto_out, return_null, proceed, ◌&then◌, qp_rounds, mr_round, mr_rounds, acquire,
}
use rdma_cpp.Fs.Resources.{release_all, settle, create_resources}
use rdma_cpp.Fs.Holds.{Has, Holds, HasId, ask, look, change, store_lem}
use rdma_cpp.Fs.Resources.Steps.{
  Sized, open_stage_lem, port_stage_lem, pd_stage_lem, channel_stage_lem, cq_stage_lem,
  srq_stage_lem, qp_round_lem,
}

module _ {config : Config} where
  proceed_lem :
      (f : Flow) (rest : Fs Flow)
      → Triple (Sized config) rest (λ _. Sized config)
      → Triple (Sized config) (proceed f rest) (λ _. Sized config)
  unfolding proceed
  proceed_lem go_on rest h = h
  proceed_lem goto_out rest h = Triple-pure goto_out (λ w k. k)
  proceed_lem return_null rest h = Triple-pure return_null (λ w k. k)

  -- A stage before the rest.
  then_lem :
      {m rest : Fs Flow}
      → Triple (Sized config) m (λ _. Sized config)
      → Triple (Sized config) rest (λ _. Sized config)
      → Triple (Sized config) (m &then rest) (λ _. Sized config)
  then_lem {rest} hm hr = Triple-bind hm (λ f. proceed_lem f rest hr)

  qp_rounds_lem :
      (env : Env) (n i : ℕ)
      → i + n ≤ config.qp_count
      → Triple (Sized config) (qp_rounds env config n i) (λ _. Sized config)
  unfolding qp_rounds
  qp_rounds_lem env zero i le = Triple-pure go_on (λ w h. h)
  qp_rounds_lem env (suc n) i le =
      then_lem (qp_round_lem env config.connection_type i (omega (arith, le)))
        (qp_rounds_lem env n (i + 1) (omega (arith, le)))

  -- The answer of memalign, which does not run out.
  take_lem :
      (env : Env) (k : Call)
      → ((t : List Call) → is_null (env.ptr_of t k) ≡ false)
      → Triple (Sized config) (call_for env.ptr_of k) (λ p w. Sized config w × (is_null p ≡ false))
  unfolding call_for
  take_lem env k set = record {
    at = λ w h. (env.ptr_of w.trace k, record w { trace = k ∷ w.trace }, refl, (h, set w.trace));
  }

  module _ (env : Env)
      (room : (t : List Call)
        → is_null (env.ptr_of t (memalign env.page_size buf_size)) ≡ false) where
    mr_round_lem :
        (i : ℕ) → i < config.qp_count → Triple (Sized config) (mr_round env i) (λ _. Sized config)
    unfolding mr_round
    mr_round_lem i lt = Triple-bind look (λ c. Triple-fact (λ h.
        Triple-bind (take_lem env (memalign env.page_size buf_size) room) (λ p. Triple-fact (λ set.
          Triple-bind (store_lem i p h.buf lt) (λ buf. Triple-fact (λ sized.
            Triple-bind
              (change {G = IsFresh config} (λ c. record c { buf = buf })
                (λ c k. record { id = k.id; qp = k.qp; mr = k.mr; buf = sized }))
              (λ _.
                Triple-if (is_null p) crash _ (λ z. cc (z, set))
                  (λ _. Triple-bind (ask env.ptr_of (reg_mr c.pd p buf_size)) (λ mr.
                    Triple-bind (store_lem i mr h.mr lt) (λ mrs. Triple-fact (λ sized2.
                      Triple-bind
                        (change (λ c. record c { mr = mrs })
                          (λ c k. record { id = k.id; qp = k.qp; mr = sized2; buf = k.buf }))
                        (λ _.
                          Triple-pure (if is_null mr then goto_out else go_on)
                            (λ w k. k)))))))))))))

    mr_rounds_lem :
        (n i : ℕ)
        → i + n ≤ config.qp_count
        → Triple (Sized config) (mr_rounds env n i) (λ _. Sized config)
    unfolding mr_rounds
    mr_rounds_lem zero i le = Triple-pure go_on (λ w h. h)
    mr_rounds_lem (suc n) i le =
        then_lem (mr_round_lem i (omega (arith, le))) (mr_rounds_lem n (i + 1) (omega (arith, le)))

    acquire_lem :
        default_buf_depth * config.qp_count < 2 ^ 31
        → Triple (Sized config) (acquire env config) (λ _. Sized config)
    unfolding acquire
    acquire_lem small = then_lem (open_stage_lem env) (
        then_lem (port_stage_lem env) (
          then_lem (pd_stage_lem env) (
            then_lem (channel_stage_lem env) (
              then_lem (cq_stage_lem env small) (
                then_lem (srq_stage_lem env) (
                  then_lem (qp_rounds_lem env config.qp_count 0 (omega arith))
                    (mr_rounds_lem config.qp_count 0 (omega arith))))))))

-- 0, with the context as prepared as before, or -1 with a context that has its identifier.
abbrev pub Settled : Config → ℤ → FsWorld → Type 0
Settled config r w = ((r ≡ pos 0) × Sized config w) ⊎ ((r ≡ minus_one) × Holds HasId w)

release_sized_lem :
    (config : Config) → Triple (Sized config) (release_all config) (λ _. Holds HasId)
release_sized_lem config = record { at = λ w h. ran w.trace w.mem h }
  where
    ran :
        (t : List Call) (m : Option Ctx)
        → Has (IsFresh config) m
        → (u : Unit {0}) × (w' : FsWorld) × (release_all config (record { trace = t; mem = m })
            ≡ ok u w')
          × Holds HasId w'
    ran t none h = absurd h
    ran t (some c) h = (tt, _, release_all_lem config t c, h.id)

module _ {config : Config} where
  settle_lem : (f : Flow) → Triple (Sized config) (settle config f) (Settled config)
  unfolding settle
  settle_lem go_on = Triple-pure (pos 0) (λ w h. inl (refl, h))
  settle_lem goto_out =
      Triple-bind (release_sized_lem config) (λ _. Triple-pure minus_one (λ w h. inr (refl, h)))
  settle_lem return_null = Triple-pure (pos 0) (λ w h. inl (refl, h))

  pub create_resources-Settled :
      (env : Env)
      → ((t : List Call) → is_null (env.ptr_of t (memalign env.page_size buf_size)) ≡ false)
      → default_buf_depth * config.qp_count < 2 ^ 31
      → Triple (Sized config) (create_resources env config) (Settled config)
  unfolding create_resources
  create_resources-Settled env room small = Triple-bind (acquire_lem env room small) settle_lem
