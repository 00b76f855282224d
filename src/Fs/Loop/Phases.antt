-- ===== src/Fs/Loop/Phases.antt =====
-- The two phases of a context under the handlers of src/c/transport.c: open, as fs_rdma_create_ctx
-- leaves it, and shut, after its identifier was destroyed.
use rdma_cpp.Common.{
  ℕ, zero, suc, ◌+◌, ◌≤◌, ◌<◌, ◌≡◌, subst, ◌⊎◌, inr, refl, Bool, true, false, Option, none, some,
  List, ◌∷◌, count, arith,
}
use rdma_cpp.Common.Cint.{ℤ, Ptr}
use rdma_cpp.Common.Cmd.{ok, final, pure, call, call_for, ◌>>=◌, ◌>>◌}
use rdma_cpp.Common.Cmd.Keeps.{Keeps}
use rdma_cpp.Common.Cmd.Returns.{Triple, Triple-pure, Triple-bind}
use rdma_cpp.Fs.Config.{Config}
use rdma_cpp.Fs.Foreign.{Call, destroy_id, dealloc_pd, destroy_cq, free, dereg_mr, destroy_qp}
use rdma_cpp.Fs.Context.{Ctx, FsWorld, Fs, load_ctx}
use rdma_cpp.Fs.Frame.{Flag, Framed, Frame, log_frame}
use rdma_cpp.Fs.Holds.{Has, Holds, HasId, Has-map}
use rdma_cpp.Fs.Teardown.{handle_disconnect}
use rdma_cpp.Fs.Teardown.Effect.{world, call_if, arrays_calls, teardown_calls}
use rdma_cpp.Fs.Handlers.Failure.{handle_disconnect_lem}
use rdma_cpp.Fs.Resources.Success.{IsFresh}

abbrev is_close : Call → Bool
is_close (destroy_id _) = true
is_close _ = false

-- How often rdma_destroy_id was called.
abbrev pub closes : List Call → ℕ
closes t = count is_close t

abbrev pub AtLeast : ℕ → List Call → Type 0
AtLeast n t = n ≤ closes t

abbrev pub Any : ℕ → Type 0
Any _ = Unit {0}

pub AtLeast-cons : {n : ℕ} (k : Call) (t : List Call) → AtLeast n t → AtLeast n (k ∷ t)
AtLeast-cons k t h = omega (arith, h)

instance pub AtLeast-Frame : {n : ℕ} → Frame (Framed (AtLeast n) Any)
AtLeast-Frame = log_frame (λ k t q h. AtLeast-cons k t h) (λ n h. tt)

pub Any-all : (m : Option Ctx) → Flag Any m
Any-all none = tt
Any-all (some c) = tt

-- `F` holds of the context, after at least `n` such calls.
abbrev pub After : ℕ → (Ctx → Type 0) → FsWorld → Type 0
After n F w = Holds F w × (n ≤ closes w.trace)

module _ {A : Type 0} {F G : Ctx → Type 0} {m : Fs A} where
  -- A command that returns, and that keeps the calls.
  pub After-lift :
      (n : ℕ)
      → Triple (Holds F) m (λ _. Holds G)
      → Keeps (Framed (AtLeast n) Any) m
      → Triple (After n F) m (λ _. After n G)
  After-lift n h keeps = record {
    at = λ w (held, le).
        let (a, w', ran, q) = h.at w held in
        let kept : Framed (AtLeast n) Any w' =
          subst (λ r. Framed (AtLeast n) Any (final r)) ran
            (keeps.at w (record { log = le; flag = Any-all w.mem })) in
        (a, w', ran, (q, kept.log));
  }

module _ {F : Ctx → Type 0} {n : ℕ} where
  pub After-ask :
      {A : Type 0} (answer : List Call → Call → A) (k : Call)
      → Triple (After n F) (call_for answer k) (λ _. After n F)
  unfolding call_for
  After-ask answer k = record {
    at = λ w (h, le).
        (answer w.trace k, record w { trace = k ∷ w.trace }, refl, (h, AtLeast-cons k w.trace le));
  }

  pub After-tell : (k : Call) → Triple (After n F) (call k) (λ _. After n F)
  unfolding call
  After-tell k = record {
    at = λ w (h, le). (tt, record w { trace = k ∷ w.trace }, refl, (h, AtLeast-cons k w.trace le));
  }

  pub After-look : Triple (After n F) load_ctx (λ c w. After n F w × F c)
  unfolding load_ctx
  After-look = record { at = λ w (h, le). looked w.trace w.mem h le }
    where
      looked :
          (t : List Call) (m : Option Ctx)
          → Has F m
          → n ≤ closes t
          → (c : Ctx) × (w' : FsWorld) × (load_ctx (record { trace = t; mem = m }) ≡ ok c w')
            × (After n F w' × F c)
      looked t none h le = absurd h
      looked t (some c) h le = (c, world t c, refl, ((h, le), h))

closes-call_if : (p : Ptr) (k : Call) (t : List Call) → closes t ≤ closes (call_if p k t)
closes-call_if p k t = ground arith

closes-arrays_calls :
    (m : ℕ) (c : Ctx) (t : List Call) → closes t ≤ closes (arrays_calls m c.cm_id c.qp c.mr c.buf t)
closes-arrays_calls zero c t = omega arith
closes-arrays_calls (suc m) c t =
    let t1 = call_if c.qp.base (destroy_qp c.cm_id) t in
    let t2 = call_if c.mr.base (dereg_mr c.mr.base) t1 in
    omega (
      arith,
      closes-call_if c.qp.base (destroy_qp c.cm_id) t,
      closes-call_if c.mr.base (dereg_mr c.mr.base) t1,
      closes-call_if c.buf.base (free c.buf.base) t2,
    )

-- The identifier is destroyed where there is one.
closes-teardown_calls :
    (m : ℕ) (c : Ctx) (t : List Call) → HasId c → closes t < closes (teardown_calls m c t)
closes-teardown_calls m c t id =
    let t1 = arrays_calls m c.cm_id c.qp c.mr c.buf t in
    let t2 = call_if c.cq (destroy_cq c.cq) t1 in
    let t3 = call_if c.pd (dealloc_pd c.pd) t2 in
    let open_id : closes (call_if c.cm_id (destroy_id c.cm_id) t3) ≡ 1 + closes t3 = rw id refl in
    omega (
      arith,
      open_id,
      closes-arrays_calls m c t,
      closes-call_if c.cq (destroy_cq c.cq) t1,
      closes-call_if c.pd (dealloc_pd c.pd) t2,
    )

-- Open or shut, counted from `n` calls of rdma_destroy_id.
abbrev pub Open : Config → ℕ → FsWorld → Type 0
Open config n = After n (IsFresh config)

abbrev pub Shut : ℕ → FsWorld → Type 0
Shut n = After (suc n) (λ _. Unit {0})

abbrev pub Phase : Config → ℕ → FsWorld → Type 0
Phase config n w = Open config n w ⊎ Shut n w

module _ (config : Config) {n : ℕ} where
  -- fs_rdma_cm_handle_disconnect shuts a context that has its identifier.
  pub shut_lem : Triple (After n HasId) (handle_disconnect config) (λ _. Shut n)
  shut_lem = record { at = λ w (h, le). shut w.trace w.mem h le }
    where
      shut :
          (t : List Call) (m : Option Ctx)
          → Has HasId m
          → n ≤ closes t
          → (u : Unit {0}) × (w' : FsWorld) × (handle_disconnect config
                (record { trace = t; mem = m })
              ≡ ok u w')
            × Shut n w'
      shut t none h le = absurd h
      shut t (some c) h le = (
        tt,
        _,
        handle_disconnect_lem config t c,
        (tt, omega (arith, le, closes-teardown_calls config.qp_count c t h)),
      )

  pub Open-HasId : (w : FsWorld) → Open config n w → After n HasId w
  Open-HasId w (h, le) = (Has-map w.mem (λ c f. f.id) h, le)

  -- `fs_rdma_cm_handle_disconnect (); return ret;`
  pub give_up_lem :
      (ret : ℤ)
      → Triple (After n HasId) (do handle_disconnect config; pure ret) (λ _. Phase config n)
  unfolding ◌>>=◌
  give_up_lem ret = Triple-bind shut_lem (λ _. Triple-pure ret (λ w h. inr h))
