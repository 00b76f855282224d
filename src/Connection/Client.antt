-- ===== src/Connection/Client.antt =====
-- rdma_client_connect of src/Connection.cc: the events it acknowledges, the calls it retries, and
-- the flag that it restores.
use rdma_cpp.Common.{
  ℕ, subst, ◌==◌, ◌+◌, ◌%◌, ◌^◌, ◌≤◌, ◌≡◌, ◌≢◌, refl, ◌∙◌, false, not, [], ◌∷◌, count, Bool-cases,
  inl, inr, arith,
}
use rdma_cpp.Common.Cint.{ℤ, pos, is_null, is_set}
use rdma_cpp.Common.Cmd.{ok, pure, call_for, get_mem, put_mem, ◌>>=◌}
use rdma_cpp.Common.Cmd.Returns.{
  Triple-keep, Triple-fact, Triple, Triple-pure, Triple-if, Triple-weaken, Triple-bind,
}
use rdma_cpp.Connection.Foreign.{
  established, Event, Env, check_add_port, ctx_init, post_one_recv_wqe, create_ah, connect,
}
use rdma_cpp.Connection.{
  Params, ConnWorld, is_kind, port_answer, Resolved, gave_up, resolved, conn_param, take_handle,
  finish_connect, connect_resolved, after_route, after_addr, client_connect,
}
use rdma_cpp.Connection.State.{
  fetched_events, acked_events, is_attempt, State, State-le, Triple-call_for, Triple-get,
  Triple-fetch, Triple-ack, set_work_lem, take_context_lem,
}
use rdma_cpp.Connection.Loops.{
  neutral_lem, AfterLoop, lost, found, resolve_addr_loop_lem, resolve_route_loop_lem,
}

-- At the end: everything is acknowledged, and SUCCESS restores the flag.
abbrev pub IsEnd : Env → (most work : ℕ) → ℤ → ConnWorld → Type 0
IsEnd env most work ret w =
    (work' : ℕ) × State env most [] work' w × (ret ≡ env.success → work' ≡ work)

module _ {env : Env} (param : Params) {most work : ℕ} where
  -- A return where the flag is restored.
  restored_lem : (r : ℤ) → Triple (State env most [] work) (pure r) (IsEnd env most work)
  restored_lem r = Triple-pure r (λ w s. (work, s, λ _. refl))

  take_handle_lem :
      (e f : Event)
      → Triple
          (State env most (f ∷ []) work)
          (take_handle env param e)
          (λ _. State env most (f ∷ []) work)
  unfolding take_handle get_mem put_mem call_for pure ◌>>=◌
  take_handle_lem e f = record {
    at = λ w s. elim (Bool-cases param.is_ud) [
      | inr z ↦ (tt, w, rw z, s)
      | inl z ↦
          let k = create_ah e.ah_attr in
          (
            tt,
            record {
              trace = k ∷ w.trace;
              mem = record (w.mem) {
                rem_ud_qpn = e.qp_num;
                rem_ud_qkey = e.qkey;
                ah_0 = env.ptr_of w.trace k;
              };
            },
            rw (z, s.ah),
            record {
              events = s.events;
              attempts = omega (arith, s.attempts);
              id = s.id;
              ah = s.ah;
              work_eq = s.work_eq;
            },
          )
    ];
  }

  finish_connect_lem :
      Triple (State env most [] work) (finish_connect env param) (IsEnd env most work)
  unfolding finish_connect
  finish_connect_lem = Triple-bind Triple-get (λ c.
      Triple-bind
        (neutral_lem (connect c.cm_id (conn_param param 0)) (refl, (λ env t. refl), λ t. refl))
        (λ failed.
          Triple-if (is_set failed) _ _ (λ _. restored_lem env.failure)
            (λ _. Triple-bind (Triple-fetch c.cm_channel) (λ got.
              Triple-if (is_set (got.0)) _ _
                (λ z. Triple-weaken (restored_lem env.failure) (λ w q. q.0 z) (λ r w q. q))
                (λ z.
                  Triple-weaken
                    (Triple-if (not (is_kind (got.1.kind) established)) _ _
                      (λ _. Triple-bind (Triple-ack (got.1)) (λ _. restored_lem env.failure))
                      (λ _.
                        Triple-bind (take_handle_lem (got.1) (got.1))
                          (λ _. Triple-bind (Triple-ack (got.1)) (λ _. restored_lem env.success))))
                    (λ w q. q.1 z) (λ r w q. q))))))

module _ {env : Env} (param : Params) (differ : env.failure ≢ env.success) {most work : ℕ} where
  -- A FAILURE, whatever became of the flag.
  failure_lem :
      {work' : ℕ} → Triple (State env most [] work') (pure env.failure) (IsEnd env most work)
  failure_lem {work' = work'} =
      Triple-pure env.failure (λ w s. (work', s, λ same. absurd (differ same)))

  connect_resolved_lem :
      Triple (State env most [] work) (connect_resolved env param) (IsEnd env most work)
  unfolding connect_resolved
  connect_resolved_lem = Triple-bind take_context_lem (λ _. Triple-bind Triple-get (λ c.
      Triple-bind (Triple-keep (set_work_lem env.on)) (λ _.
        Triple-bind
          (Triple-keep (Triple-call_for env.int_of ctx_init (refl, (λ env t. refl), λ t. refl)))
          (λ failed. Triple-fact (λ same.
            Triple-if (is_set failed) _ _ (λ _. failure_lem)
              (λ _.
                Triple-bind
                  (Triple-weaken (set_work_lem c.work_rdma_cm) (λ w q. q)
                    (λ r w q. subst (λ x. State env most [] x w) same q))
                  (λ _.
                    Triple-if (c.work_rdma_cm == env.off) _ _
                      (λ _.
                        Triple-bind
                          (Triple-call_for env.int_of post_one_recv_wqe
                            (refl, (λ env t. refl), λ t. refl))
                          (λ failed.
                            Triple-if (is_set failed) _ _ (λ _. restored_lem param (pos 1))
                              (λ _. finish_connect_lem param)))
                      (λ _. finish_connect_lem param))))))))

  after_route_lem :
      (r : Resolved) (total : ℕ)
      → total ≤ most
      → Triple (AfterLoop env total work r) (after_route env param r) (IsEnd env most work)
  after_route_lem gave_up total le = record {
    at = λ w h. elim h [
      | lost e s ↦ failure_lem.at w (State-le w le s)
      | found n k e small room s ↦ cc e
    ];
  }
  after_route_lem (resolved n) total le = record {
    at = λ w h. elim h [
      | lost e s ↦ cc e
      | found n' k e small room s ↦
          connect_resolved_lem.at w (State-le w (omega (arith, small, le)) s)
    ];
  }

  after_addr_lem :
      (r : Resolved) (total : ℕ)
      → total + 1 ≤ most
      → Triple (AfterLoop env total work r) (after_addr env param r) (IsEnd env most work)
  after_addr_lem gave_up total le = record {
    at = λ w h. elim h [
      | lost e s ↦ failure_lem.at w (State-le w (omega (arith, le)) s)
      | found n k e small room s ↦ cc e
    ];
  }
  after_addr_lem (resolved n) total le = record {
    at = λ w h. elim h [
      | lost e s ↦ cc e
      | found n' k e small room s ↦
          let same : n ≡ n' = cc e in
          (Triple-bind (resolve_route_loop_lem n k (total + 1) (omega (arith, room, same)))
              (λ r. after_route_lem r (total + 1) le)).at
            w s
    ];
  }

  pub client_connect_lem :
      (start : ℕ)
      → start + env.num_of_retries + 1 ≤ most
      → Triple (State env start [] work) (client_connect env param) (IsEnd env most work)
  unfolding client_connect
  client_connect_lem start le =
      Triple-bind
        (Triple-call_for (port_answer env) (check_add_port param.port param.servername)
          (refl, (λ env t. refl), λ t. refl))
        (λ found.
          Triple-if (is_set (found.0)) _ _ (λ _. fails)
            (λ _.
              Triple-if (not (env.is_inet (found.1))) _ _ (λ _. fails)
                (λ _.
                  Triple-bind
                    (resolve_addr_loop_lem
                      (record { address = found.1; sin_port = env.htons (param.port % 2 ^ 16) })
                      env.num_of_retries start (start + env.num_of_retries) (omega arith))
                    (λ r. after_addr_lem r (start + env.num_of_retries) (omega (arith, le))))))
    where
      fails : Triple (State env start [] work) (pure env.failure) (IsEnd env most work)
      fails = Triple-weaken failure_lem (λ w s. State-le w (omega (arith, le)) s) (λ r w q. q)

-- Let FAILURE differ from SUCCESS. On a context whose identifier and array `ah` are set, and of
-- which every fetched event was acknowledged, rdma_client_connect returns, and on every path: each
-- event that it fetched is acknowledged, once and in order; it calls rdma_resolve_addr and
-- rdma_resolve_route at most NUM_OF_RETRIES + 1 times in all; and where it returns SUCCESS, the
-- flag `work_rdma_cm` is as before.
pub client_connect-acks :
    (env : Env) (param : Params) (w : ConnWorld)
    → env.failure ≢ env.success
    → is_null w.mem.cm_id ≡ false
    → is_null w.mem.ah ≡ false
    → fetched_events env w.trace ≡ acked_events w.trace
    → (ret : ℤ) × (w' : ConnWorld) × (client_connect env param w ≡ ok ret w')
      × ((fetched_events env w'.trace ≡ acked_events w'.trace)
          × (count is_attempt w'.trace ≤ count is_attempt w.trace + env.num_of_retries + 1)
          × (ret ≡ env.success → w'.mem.work_rdma_cm ≡ w.mem.work_rdma_cm))
client_connect-acks env param w differ id ah settled =
    let (ret, w', ran, (work', s, restores)) =
      client_lem.at w
        (record { events = settled; attempts = omega arith; id = id; ah = ah; work_eq = refl }) in
    (ret, w', ran, (s.events, omega (arith, s.attempts), λ good. s.work_eq ∙ restores good))
  where
    client_lem :
        Triple
          (State env (count is_attempt w.trace) [] w.mem.work_rdma_cm)
          (client_connect env param)
          (IsEnd env (count is_attempt w.trace + env.num_of_retries + 1) w.mem.work_rdma_cm)
    client_lem = client_connect_lem param differ (count is_attempt w.trace) (omega arith)
