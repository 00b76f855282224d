-- ===== src/Fs/Handlers/Failure.antt =====
-- What the handlers of src/c/transport.c leave behind when they report a failure.
use rdma_cpp.Common.{
  ◌<◌, ◌≡◌, refl, ap, sym, ◌∙◌, subst, Bool, true, false, Option, none, some, List, ◌∷◌,
  if◌then◌else◌,
}
use rdma_cpp.Common.Cint.{ℤ, pos, null, is_null, is_set, is_neg}
use rdma_cpp.Common.Cmd.{ok, fault, final, and_then, and_then-eq-ok, pure, ◌>>=◌, ◌>>◌}
use rdma_cpp.Fs.Config.{Config, timeout_in_ms}
use rdma_cpp.Fs.Foreign.{Call, Event, resolve_route, connect, accept}
use rdma_cpp.Fs.Context.{Ctx, Env, FsWorld, Fs, load_ctx}
use rdma_cpp.Fs.Teardown.{handle_disconnect, release_pd, release_cm_id}
use rdma_cpp.Fs.Teardown.Effect.{
  world, torn_down, teardown_calls, teardown_lem, release_rounds_null, is_null-freed,
}
use rdma_cpp.Fs.Resources.{create_resources}
use rdma_cpp.Fs.Handlers.{
  handle_addr_resolved, handle_route_resolved, handle_connect_request, handle_connect_init,
  conn_param,
}

-- A context with no identifier, no protection domain and no `cq`, and with no arrays either if
-- there is a queue pair to make.
pub record IsTornDown (config : Config) (w : FsWorld) : Type 0 where
  pub ctx : Ctx
  pub held : w.mem ≡ some ctx
  pub cm_id : ctx.cm_id ≡ null
  pub pd : ctx.pd ≡ null
  pub cq : ctx.cq ≡ null
  pub qp : 0 < config.qp_count → is_null ctx.qp.base ≡ true
  pub mr : 0 < config.qp_count → is_null ctx.mr.base ≡ true
  pub buf : 0 < config.qp_count → is_null ctx.buf.base ≡ true

torn_down-IsTornDown :
    (config : Config) (t : List Call) (c : Ctx)
    → IsTornDown config (world t (torn_down config.qp_count c))
torn_down-IsTornDown config t c = record {
  ctx = torn_down config.qp_count c;
  held = refl;
  cm_id = refl;
  pd = refl;
  cq = refl;
  qp = is_null-freed config.qp_count c.qp;
  mr = is_null-freed config.qp_count c.mr;
  buf = is_null-freed config.qp_count c.buf;
}

handle_disconnect_null :
    (config : Config) (t : List Call)
    → handle_disconnect config (record { trace = t; mem = none })
      ≡ fault (record { trace = t; mem = none })
unfolding handle_disconnect
handle_disconnect_null config t =
    ap (λ r. and_then r (λ _. pure tt))
      (release_rounds_null config.qp_count t
        (λ _. release_pd >>= λ _. release_cm_id >>= λ _. pure (pos 0)))

pub handle_disconnect_lem :
    (config : Config) (t : List Call) (c : Ctx)
    → handle_disconnect config (world t c)
      ≡ ok tt (world (teardown_calls config.qp_count c t) (torn_down config.qp_count c))
unfolding handle_disconnect
handle_disconnect_lem config t c = ap (λ r. and_then r (λ _. pure tt)) (teardown_lem config t c)

handle_disconnect-IsTornDown :
    (config : Config) (t : List Call) (m : Option Ctx) {w' : FsWorld}
    → handle_disconnect config (record { trace = t; mem = m }) ≡ ok tt w'
    → IsTornDown config w'
handle_disconnect-IsTornDown config t none h = cc (handle_disconnect_null config t, h)
handle_disconnect-IsTornDown config t (some c) h =
    subst (IsTornDown config) (ap final (sym (handle_disconnect_lem config t c) ∙ h))
      (torn_down-IsTornDown config (teardown_calls config.qp_count c t) c)

-- The tail that the handlers share: `fs_rdma_cm_handle_disconnect (); return ret;`.
pub tail-IsTornDown :
    (config : Config) {A : Type 0} (a : A) (w : FsWorld) {b : A} {w' : FsWorld}
    → and_then (handle_disconnect config w) (λ _. pure a) ≡ ok b w'
    → IsTornDown config w'
unfolding ◌>>=◌
tail-IsTornDown config a w h =
    let (u, w1, e, e') = and_then-eq-ok (handle_disconnect config w) (λ _. pure a) h in
    subst (IsTornDown config) (ap final e') (handle_disconnect-IsTornDown config w.trace w.mem e)

-- `if (failed) { fs_rdma_cm_handle_disconnect (); return a; }`, before a rest that reports success
-- or tears down.
branch-IsTornDown :
    (config : Config) (failed : Bool) (a : ℤ) (rest : Fs ℤ) (w : FsWorld) {r : ℤ} {w' : FsWorld}
    → (if failed then (do handle_disconnect config; pure a) else rest) w ≡ ok r w'
    → (failed ≡ false → rest w ≡ ok r w' → IsTornDown config w')
    → IsTornDown config w'
unfolding ◌>>=◌
branch-IsTornDown config true a rest w h k = tail-IsTornDown config a w h
branch-IsTornDown config false a rest w h k = k refl h

-- A run that ends in `pure a` returns `a`.
result_of : {A : Type 0} {a b : A} (w : FsWorld) {w' : FsWorld} → pure a w ≡ ok b w' → b ≡ a
unfolding pure
result_of w h = cc

contradiction : {A : Type 0} {a b : ℤ} (f : ℤ → Bool) → f a ≡ false → b ≡ a → f b ≡ true → A
contradiction f fine same failed = cc (ap f same)

module _ (env : Env) (config : Config) (event : Event) (w w' : FsWorld) {r : ℤ} where
  -- Whenever fs_rdma_cm_handle_addr_resolved returns a failure, the context is torn down.
  pub handle_addr_resolved-IsTornDown :
      handle_addr_resolved env config event w ≡ ok r w' → is_set r ≡ true → IsTornDown config w'
  unfolding handle_addr_resolved
  handle_addr_resolved-IsTornDown h failed =
      branch-IsTornDown config (is_set (env.int_of w.trace (resolve_route event.id timeout_in_ms)))
        _ _ _ h λ fine done. contradiction is_set fine (result_of _ done) failed

  -- Whenever fs_rdma_cm_handle_route_resolved returns a failure, the context is torn down.
  pub handle_route_resolved-IsTornDown :
      handle_route_resolved env config event w ≡ ok r w' → is_set r ≡ true → IsTornDown config w'
  unfolding handle_route_resolved
  handle_route_resolved-IsTornDown h failed =
      let (ret, w1, _, h1) = and_then-eq-ok (create_resources env config w) _ h in
      branch-IsTornDown config (is_set ret) ret _ w1 h1 λ fine h2.
        let (c, w2, _, h3) = and_then-eq-ok (load_ctx w1) _ h2 in
        branch-IsTornDown config
          (is_set (env.int_of w2.trace (connect c.cm_id (conn_param config)))) _ _ _ h3
          λ fine' done. contradiction is_set refl (result_of _ done) failed

  -- Whenever fs_rdma_cm_handle_connect_request returns a failure, the context is torn down.
  pub handle_connect_request-IsTornDown :
      handle_connect_request env config event w ≡ ok r w' → is_set r ≡ true → IsTornDown config w'
  unfolding handle_connect_request
  handle_connect_request-IsTornDown h failed =
      let (ret, w1, _, h1) = and_then-eq-ok (create_resources env config w) _ h in
      branch-IsTornDown config (is_set ret) ret _ w1 h1 λ fine h2.
        let (c, w2, _, h3) = and_then-eq-ok (load_ctx w1) _ h2 in
        branch-IsTornDown config (is_neg (env.int_of w2.trace (accept c.cm_id (conn_param config))))
          _ _ _ h3
          λ fine' h4.
            let (i, w3, _, done) =
              and_then-eq-ok
                (handle_connect_init env event
                  (record w2 { trace = accept c.cm_id (conn_param config) ∷ w2.trace }))
                _ h4 in
            contradiction is_set refl (result_of _ done) failed
