-- ===== src/Connection/Server/Acks.antt =====
-- The events and the flag that rdma_server_connect of src/Connection.cc leaves.
use rdma_cpp.Common.{
  ℕ, ◌≡◌, ◌⊎◌, inl, inr, refl, subst, true, false, not, ◌&&◌, List, [], ◌∷◌, ◌==◌, if◌then◌else◌,
}
use rdma_cpp.Common.Cint.{ℤ, pos, Ptr, is_null, is_set}
use rdma_cpp.Common.Cmd.{ok, pure, call, get_mem, ◌>>=◌, ◌>>◌}
use rdma_cpp.Common.Cmd.Returns.{
  Triple, Triple-pure, Triple-if, Triple-weaken, Triple-bind, Triple-fact,
}
use rdma_cpp.Connection.Foreign.{
  connect_request, Event, Call, Env, check_add_port, bind_addr, listen, ack_cm_event, ctx_init,
  post_one_recv_wqe, post_recv_to_get_ah, create_ah_from_wc_recv, accept, destroy_id, freeaddrinfo,
}
use rdma_cpp.Connection.{Params, Conn, ConnWorld, is_kind, port_answer, conn_param, set_work}
use rdma_cpp.Connection.State.{fetched_events, acked_events}
use rdma_cpp.Connection.Server.{
  exchanges, accept_request, prepare_receive, serve_request, server_connect,
}
use rdma_cpp.Connection.Server.Serving.{
  Serving, ask, tell, look, watch, store, set_work_lem, take_context_lem, allocate_ctx_lem,
  fetch_lem,
}

-- The end of the server: 0 with every event acknowledged and the flag as before, or another result
-- with one event at most that was never acknowledged.
abbrev pub ServerEnds : Env → (work : ℕ) → ℤ → ConnWorld → Type 0
ServerEnds env work ret w =
    ((ret ≡ pos 0)
      × (fetched_events env w.trace ≡ acked_events w.trace)
      × (w.mem.work_rdma_cm ≡ work))
    ⊎ ((is_set ret ≡ true)
        × ((fetched_events env w.trace ≡ acked_events w.trace)
            ⊎ ((e : Event) × (fetched_events env w.trace ≡ e ∷ acked_events w.trace))))

module _ {env : Env} {id : Ptr} {work now : ℕ} where
  gives_up :
      (ret : ℤ)
      → is_set ret ≡ true
      → Triple (Serving env [] id now) (pure ret) (ServerEnds env work)
  gives_up ret bad = Triple-pure ret (λ w s. inr (bad, inl s.events))

  drops :
      (e : Event) (ret : ℤ)
      → is_set ret ≡ true
      → Triple (Serving env (e ∷ []) id now) (pure ret) (ServerEnds env work)
  drops e ret bad = Triple-pure ret (λ w s. inr (bad, inr (e, s.events)))

module _ {env : Env} (param : Params) {id : Ptr} {work : ℕ} (e : Event) where
  ack_lem :
      Triple (Serving env (e ∷ []) id work) (call (ack_cm_event e)) (λ _. Serving env [] id work)
  unfolding call
  ack_lem = record {
    at = λ w s. (
      tt,
      record w { trace = ack_cm_event e ∷ w.trace },
      refl,
      record { events = s.events; same_id = s.same_id; work_eq = s.work_eq },
    );
  }

  accept_request_lem :
      (res : Ptr) (qp_num : ℕ)
      → Triple
          (Serving env (e ∷ []) id work)
          (accept_request env param e res qp_num)
          (ServerEnds env work)
  unfolding accept_request
  accept_request_lem res qp_num = Triple-bind look (λ c. Triple-fact (λ _.
      Triple-bind
        (ask env.int_of (accept c.cm_id (conn_param param qp_num)) ((λ env t. refl), λ t. refl))
        (λ failed.
          Triple-if (is_set failed) _ _ (λ _. drops e (pos 1) refl)
            (λ _.
              Triple-if (not (c.work_rdma_cm == 0) && (param.is_ud && exchanges param)) _ _
                (λ _.
                  Triple-bind (ask env.int_of create_ah_from_wc_recv ((λ env t. refl), λ t. refl))
                    (λ failed.
                      Triple-if (is_set failed) _ _ (λ _. drops e (pos 1) refl) (λ _. end)))
                (λ _. end)))))
    where
      end :
          Triple
            (Serving env (e ∷ []) id work)
            (do
              c ← get_mem
              call (ack_cm_event e)
              call (destroy_id c.cm_id_control)
              call (freeaddrinfo res)
              pure (pos 0))
            (ServerEnds env work)
      end = Triple-bind look (λ c. Triple-fact (λ _. Triple-bind ack_lem (λ _.
          Triple-bind (tell (destroy_id c.cm_id_control) ((λ env t. refl), λ t. refl)) (λ _.
            Triple-bind (tell (freeaddrinfo res) ((λ env t. refl), λ t. refl))
              (λ _. Triple-pure (pos 0) (λ w s. inl (refl, s.events, s.work_eq)))))))

  prepare_receive_lem :
      Triple
        (Serving env (e ∷ []) id work)
        (prepare_receive env param)
        (λ _. Serving env (e ∷ []) id work)
  unfolding prepare_receive
  prepare_receive_lem = Triple-bind look (λ c. Triple-fact (λ _.
      Triple-if (c.work_rdma_cm == env.off) _ _
        (λ _. ask env.int_of post_one_recv_wqe ((λ env t. refl), λ t. refl))
        (λ _.
          Triple-if (param.is_ud && exchanges param) _ _
            (λ _. ask env.int_of post_recv_to_get_ah ((λ env t. refl), λ t. refl))
            (λ _. Triple-pure (pos 0) (λ w s. s)))))

module _ {env : Env} (param : Params) {id : Ptr} {work : ℕ} (e : Event) where
  serve_request_lem :
      (res : Ptr)
      → is_set env.failure ≡ true
      → is_null e.id ≡ false
      → Triple (Serving env (e ∷ []) id work) (serve_request env param e res) (ServerEnds env work)
  unfolding serve_request
  serve_request_lem res bad set = Triple-bind look (λ c. Triple-fact (λ (i, x).
      Triple-bind (store (record c { cm_id = e.id }) refl x) (λ _.
        Triple-bind (take_context_lem set) (λ _.
          Triple-bind
            (Triple-if (c.work_rdma_cm == env.on) _ _ (λ _. allocate_ctx_lem)
              (λ _. Triple-pure tt (λ w s. s)))
            (λ _. Triple-bind (set_work_lem {work = work} env.on) (λ _.
              Triple-bind (ask env.int_of ctx_init ((λ env t. refl), λ t. refl)) (λ failed.
                Triple-if (is_set failed) _ _ (λ _. drops e env.failure bad)
                  (λ _.
                    Triple-bind
                      (Triple-if param.is_ud _ _ (λ _. watch env.first_qp_num)
                        (λ _. Triple-pure 0 (λ w s. s)))
                      (λ qp_num. Triple-bind (restore c x) (λ _.
                        Triple-bind (prepare_receive_lem param e) (λ failed.
                          Triple-if (is_set failed) _ _ (λ _. drops e (pos 1) refl)
                            (λ _. accept_request_lem param e res qp_num))))))))))))
    where
      -- The flag is as it was at the event.
      restore :
          (c : Conn)
          → c.work_rdma_cm ≡ work
          → Triple
              (Serving env (e ∷ []) e.id env.on)
              (set_work c.work_rdma_cm)
              (λ _. Serving env (e ∷ []) e.id work)
      restore c x =
          Triple-weaken (set_work_lem c.work_rdma_cm) (λ w q. q)
            (λ r w q. subst (λ n. Serving env (e ∷ []) e.id n w) x q)

module _ {env : Env} (param : Params) (bad : is_set env.failure ≡ true) where
  -- After rdma_get_cm_event.
  take_request_lem :
      {id : Ptr} {work : ℕ} (failed : ℤ) (e : Event) (res : Ptr)
      → is_null e.id ≡ false
      → Triple
          (λ w.
            (is_set failed ≡ true → Serving env [] id work w)
            × (is_set failed ≡ false → Serving env (e ∷ []) id work w))
          (if is_set failed
            then pure (pos 1)
            else if not (is_kind e.kind connect_request)
            then pure (pos 1)
            else serve_request env param e res)
          (ServerEnds env work)
  take_request_lem failed e res set =
      Triple-if (is_set failed) _ _
        (λ z. Triple-weaken (gives_up (pos 1) refl) (λ w q. q.0 z) (λ r w q. q))
        (λ z.
          Triple-weaken
            (Triple-if (not (is_kind e.kind connect_request)) _ _ (λ _. drops e (pos 1) refl)
              (λ _. serve_request_lem param e res bad set))
            (λ w q. q.1 z) (λ r w q. q))

  server_connect_lem :
      {id : Ptr} {work : ℕ}
      → ((t : List Call) (k : Call) → is_null (env.event_of t k).id ≡ false)
      → Triple (Serving env [] id work) (server_connect env param) (ServerEnds env work)
  unfolding server_connect
  server_connect_lem set =
      Triple-bind
        (ask (port_answer env) (check_add_port param.port param.servername)
          ((λ env t. refl), λ t. refl))
        (λ found.
          Triple-if (is_set (found.0)) _ _ (λ _. gives_up env.failure bad)
            (λ _.
              Triple-if (not (env.is_inet (found.1))) _ _ (λ _. gives_up env.failure bad)
                (λ _. Triple-bind look (λ c. Triple-fact (λ _.
                  Triple-bind
                    (ask env.int_of (bind_addr c.cm_id_control _) ((λ env t. refl), λ t. refl))
                    (λ failed.
                      Triple-if (is_set failed) _ _ (λ _. gives_up (pos 1) refl)
                        (λ _.
                          Triple-bind
                            (ask env.int_of (listen c.cm_id_control) ((λ env t. refl), λ t. refl))
                            (λ failed.
                              Triple-if (is_set failed) _ _ (λ _. gives_up (pos 1) refl)
                                (λ _. Triple-bind (fetch_lem c.cm_channel set) (λ got.
                                  Triple-fact (λ filled.
                                    take_request_lem (got.0) (got.1) (found.1) filled)))))))))))

-- Let FAILURE be other than 0, and let the identifier of every event be set. On a context of which
-- every fetched event was acknowledged, rdma_server_connect returns. Where it returns 0, every
-- event that it fetched is acknowledged and the flag `work_rdma_cm` is as before; where it returns
-- another result, at most one event that it fetched was never acknowledged.
pub server_connect-ServerEnds :
    (env : Env) (param : Params) (w : ConnWorld)
    → is_set env.failure ≡ true
    → ((t : List Call) (k : Call) → is_null (env.event_of t k).id ≡ false)
    → fetched_events env w.trace ≡ acked_events w.trace
    → (ret : ℤ) × (w' : ConnWorld) × (server_connect env param w ≡ ok ret w')
      × ServerEnds env w.mem.work_rdma_cm ret w'
server_connect-ServerEnds env param w bad set settled =
    (server_connect_lem param bad set).at w
      (record { events = settled; same_id = refl; work_eq = refl })
