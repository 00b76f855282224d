-- ===== src/Fs/Loop/Ends.antt =====
-- How fs_rdma_cm_event_handler of src/c/transport.c runs on a context that fs_rdma_create_ctx made.
use rdma_cpp.Common.{
  ℕ, suc, ◌*◌, ◌^◌, ◌≤◌, ◌<◌, ◌≡◌, ◌⊎◌, inl, inr, refl, subst, Bool, true, false, List, arith,
}
use rdma_cpp.Common.Cint.{ℤ, pos, minus_one, is_null, is_set, is_neg}
use rdma_cpp.Common.Cmd.{final, call}
use rdma_cpp.Common.Cmd.Returns.{
  Triple, Triple-pure, Triple-if, Triple-weaken, Triple-bind, Triple-fact, Triple-or,
}
use rdma_cpp.Fs.Config.{Config, default_buf_depth, buf_size}
use rdma_cpp.Fs.Foreign.{
  Call, Event, EventKind, addr_resolved, route_resolved, connect_request, established, addr_error,
  route_error, connect_error, unreachable, rejected, disconnected, unhandled, ack_cm_event,
  resolve_route, connect, accept, memalign,
}
use rdma_cpp.Fs.Config.{timeout_in_ms}
use rdma_cpp.Fs.Context.{Env, FsWorld, Fs}
use rdma_cpp.Fs.Frame.{Framed}
use rdma_cpp.Fs.Frame.Release.{handle_disconnect-Keeps}
use rdma_cpp.Fs.Frame.Acquire.{create_resources-Keeps}
use rdma_cpp.Fs.Frame.Handle.{handle_addr_resolved-Keeps, handle_connect_init-Keeps}
use rdma_cpp.Fs.Holds.{HasId}
use rdma_cpp.Fs.Teardown.{handle_disconnect}
use rdma_cpp.Fs.Resources.{create_resources}
use rdma_cpp.Fs.Resources.Returns.{create_resources-Settled}
use rdma_cpp.Fs.Handlers.{
  handle_addr_resolved, handle_route_resolved, handle_connect_request, handle_connect_init,
  handle_event_error, conn_param,
}
use rdma_cpp.Fs.Loop.{EventPtr, null_event, freed_event, dispatch, dispatch_error}
use rdma_cpp.Fs.Loop.Returns.{addr_resolved_lem, disconnect_lem, connect_init_lem, ack_last}
use rdma_cpp.Fs.Loop.Phases.{
  closes, AtLeast, Any, Any-all, AtLeast-Frame, After, After-lift, After-ask, After-tell,
  After-look, Open, Phase, shut_lem, Open-HasId, give_up_lem,
}

module _ (env : Env) (config : Config) {n : ℕ} where
  tell_lem : (k : Call) → Triple (Phase config n) (call k) (λ _. Phase config n)
  tell_lem k =
      Triple-or (Triple-weaken (After-tell k) (λ w h. h) (λ _ w h. inl h))
        (Triple-weaken (After-tell k) (λ w h. h) (λ _ w h. inr h))

  addr_lem :
      (e : Event)
      → Triple (Phase config n) (handle_addr_resolved env config e) (λ _. Phase config n)
  unfolding handle_addr_resolved
  addr_lem e =
      Triple-or
        (Triple-bind (After-ask env.int_of (resolve_route e.id timeout_in_ms)) (λ ret.
          Triple-if (is_set ret) _ _
            (λ _. Triple-weaken (give_up_lem config ret) (Open-HasId config) (λ _ w h. h))
            (λ _. Triple-pure ret (λ w h. inl h))))
        (Triple-weaken
          (After-lift (suc n) (addr_resolved_lem config env e)
            (handle_addr_resolved-Keeps env config e))
          (λ w h. h) (λ _ w h. inr h))

  up_lem : (e : Event) → Triple (Phase config n) (handle_connect_init env e) (λ _. Phase config n)
  up_lem e = Triple-or (Triple-weaken (still_open e) (λ w h. h) (λ _ w h. inl h)) (
      Triple-weaken
        (After-lift (suc n) (connect_init_lem env e (λ _ _. tt)) (handle_connect_init-Keeps env e))
        (λ w h. h) (λ _ w h. inr h))
    where
      still_open :
          (e : Event) → Triple (Open config n) (handle_connect_init env e) (λ _. Open config n)
      still_open e =
          After-lift n
            (connect_init_lem env e
              (λ c h. record { id = h.id; qp = h.qp; mr = h.mr; buf = h.buf }))
            (handle_connect_init-Keeps env e)

  -- fs_rdma_cm_handle_disconnect, in either phase.
  down_lem : Triple (Phase config n) (handle_disconnect config) (λ _. Phase config n)
  down_lem = Triple-or (Triple-weaken (shut_lem config) (Open-HasId config) (λ _ w h. inr h)) (
      Triple-weaken (After-lift (suc n) (disconnect_lem config) (handle_disconnect-Keeps config))
        (λ w h. h) (λ _ w h. inr h))

  error_lem : (e : Event) → Triple (Phase config n) (dispatch_error config e) (λ _. Phase config n)
  unfolding dispatch_error handle_event_error
  error_lem e = Triple-bind (tell_lem (ack_cm_event e)) (λ _.
      Triple-bind (Triple-bind down_lem (λ _. Triple-pure (pos 0) (λ w h. h)))
        (λ _. Triple-pure null_event (λ w h. h)))

-- What fs_rdma_create_resources leaves of an open context: 0 with it open, or -1 with its identifier.
abbrev Made : Config → ℕ → ℤ → FsWorld → Type 0
Made config n r w = ((r ≡ pos 0) × Open config n w) ⊎ ((r ≡ minus_one) × After n HasId w)

module _ (env : Env) (config : Config)
    (room : (t : List Call) → is_null (env.ptr_of t (memalign env.page_size buf_size)) ≡ false)
    (small : default_buf_depth * config.qp_count < 2 ^ 31) {n : ℕ} where
  made_lem : Triple (Open config n) (create_resources env config) (Made config n)
  made_lem = record {
    at = λ w (held, le).
        let (r, w', ran, q) = (create_resources-Settled env room small).at w held in
        let kept : Framed (AtLeast n) Any w' =
          subst (λ x. Framed (AtLeast n) Any (final x)) ran
            ((create_resources-Keeps {I = Framed (AtLeast n) Any} env config).at w
              (record { log = le; flag = Any-all w.mem })) in
        (
          r,
          w',
          ran,
          elim q [ inl (e, h) ↦ inl (e, (h, kept.log)) | inr (e, h) ↦ inr (e, (h, kept.log)) ],
        );
  }

  Made-HasId : (r : ℤ) (w : FsWorld) → Made config n r w → After n HasId w
  Made-HasId r w (inl (e, h)) = Open-HasId config w h
  Made-HasId r w (inr (e, h)) = h

  Made-Open : (r : ℤ) (w : FsWorld) → is_set r ≡ false → Made config n r w → Open config n w
  Made-Open r w z (inl (e, h)) = h
  Made-Open r w z (inr (e, h)) = cc (e, z)

  route_lem :
      (e : Event)
      → Triple (Open config n) (handle_route_resolved env config e) (λ _. Phase config n)
  unfolding handle_route_resolved
  route_lem e = Triple-bind made_lem (λ ret.
      Triple-if (is_set ret) _ _
        (λ _. Triple-weaken (give_up_lem config ret) (Made-HasId ret) (λ _ w h. h))
        (λ z.
          Triple-weaken
            (Triple-bind After-look (λ c. Triple-fact (λ _.
              Triple-bind (After-ask env.int_of (connect c.cm_id (conn_param config))) (λ ret.
                Triple-if (is_set ret) _ _
                  (λ _. Triple-weaken (give_up_lem config ret) (Open-HasId config) (λ _ w h. h))
                  (λ _. Triple-pure (pos 0) (λ w h. inl h))))))
            (λ w h. Made-Open ret w z h) (λ _ w h. h)))

  request_lem :
      (e : Event)
      → Triple (Open config n) (handle_connect_request env config e) (λ _. Phase config n)
  unfolding handle_connect_request
  request_lem e = Triple-bind made_lem (λ ret.
      Triple-if (is_set ret) _ _
        (λ _. Triple-weaken (give_up_lem config ret) (Made-HasId ret) (λ _ w h. h))
        (λ z.
          Triple-weaken
            (Triple-bind After-look (λ c. Triple-fact (λ _.
              Triple-bind (After-ask env.int_of (accept c.cm_id (conn_param config))) (λ ret.
                Triple-if (is_neg ret) _ _
                  (λ _. Triple-weaken (give_up_lem config ret) (Open-HasId config) (λ _ w h. h))
                  (λ _.
                    Triple-bind (Triple-weaken (up_lem env config e) (λ w h. inl h) (λ _ w h. h))
                      (λ _. Triple-pure (pos 0) (λ w h. h)))))))
            (λ w h. Made-Open ret w z h) (λ _ w h. h)))

-- The events whose handlers make the resources.
abbrev pub makes_resources : EventKind → Bool
makes_resources route_resolved = true
makes_resources connect_request = true
makes_resources _ = false

-- An event that makes the resources comes while no identifier was destroyed.
abbrev pub Calm : Config → ℕ → EventKind → FsWorld → Type 0
Calm config n kind w = Phase config n w × (makes_resources kind ≡ true → closes w.trace ≤ n)

-- A shut context has one call of rdma_destroy_id more.
Calm-Open :
    (config : Config) (n : ℕ) (kind : EventKind) (w : FsWorld)
    → makes_resources kind ≡ true
    → Calm config n kind w
    → Open config n w
Calm-Open config n kind w makes (inl h, le) = h
Calm-Open config n kind w makes (inr h, le) = absurd (omega (arith, h.1, le makes))

module _ (env : Env) (config : Config)
    (room : (t : List Call) → is_null (env.ptr_of t (memalign env.page_size buf_size)) ≡ false)
    (small : default_buf_depth * config.qp_count < 2 ^ 31) (prints : env.null_format ≡ true) {n : ℕ}
    (e : Event) where
  -- A case whose handler wants nothing of the order of events.
  any_phase :
      (kind : EventKind) {m : Fs EventPtr}
      → Triple (Phase config n) m (λ _. Phase config n)
      → Triple (Calm config n kind) m (λ _. Phase config n)
  any_phase kind h = Triple-weaken h (λ w p. p.0) (λ _ w p. p)

  told_lem : Triple (Phase config n) (call (ack_cm_event e)) (λ _. Phase config n)
  told_lem = tell_lem env config (ack_cm_event e)

  pub dispatch_lem :
      (kind : EventKind)
      → Triple (Calm config n kind) (dispatch env config e kind) (λ _. Phase config n)
  unfolding dispatch
  dispatch_lem addr_resolved = any_phase addr_resolved (ack_last e (addr_lem env config e) told_lem)
  dispatch_lem route_resolved =
      Triple-weaken (ack_last e (route_lem env config room small e) told_lem)
        (λ w. Calm-Open config n route_resolved w refl) (λ _ w p. p)
  dispatch_lem connect_request =
      Triple-weaken (ack_last e (request_lem env config room small e) told_lem)
        (λ w. Calm-Open config n connect_request w refl) (λ _ w p. p)
  dispatch_lem established = any_phase established (ack_last e (up_lem env config e) told_lem)
  dispatch_lem disconnected = any_phase disconnected (
      rw prints (
        Triple-bind (Triple-pure tt (λ w p. p)) (λ _.
          Triple-bind told_lem
            (λ _. Triple-bind (down_lem env config) (λ _. Triple-pure null_event (λ w p. p))))))
  dispatch_lem (unhandled k) =
      any_phase (unhandled k) (Triple-bind told_lem (λ _. Triple-pure freed_event (λ w p. p)))
  dispatch_lem addr_error = any_phase addr_error (error_lem env config e)
  dispatch_lem route_error = any_phase route_error (error_lem env config e)
  dispatch_lem connect_error = any_phase connect_error (error_lem env config e)
  dispatch_lem unreachable = any_phase unreachable (error_lem env config e)
  dispatch_lem rejected = any_phase rejected (error_lem env config e)
