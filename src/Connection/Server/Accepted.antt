-- ===== src/Connection/Server/Accepted.antt =====
-- rdma_server_connect of src/Connection.cc where nothing fails and a request comes in.
use rdma_cpp.Common.{
  ℕ, ◌%◌, ◌^◌, ◌≡◌, inl, inr, refl, ap, ◌∙◌, subst, Bool, true, false, List, [], ◌∷◌, ◌==◌, not,
  ◌&&◌, Bool-cases, if◌then◌else◌,
}
use rdma_cpp.Common.Cint.{pos, Ptr, is_null}
use rdma_cpp.Common.Cmd.{ok, pure, call, call_for, observe, get_mem, put_mem, ◌>>=◌}
use rdma_cpp.Connection.Foreign.{
  connect_request, Event, SockAddr, Call, Env, check_add_port, bind_addr, listen, get_cm_event,
  ack_cm_event, ctx_init, alloc_ctx, post_one_recv_wqe, post_recv_to_get_ah, create_ah_from_wc_recv,
  accept, destroy_id, freeaddrinfo,
}
use rdma_cpp.Connection.{Params, Conn, ConnWorld, take_context, set_work, conn_param}
use rdma_cpp.Connection.Flaky.{at}
use rdma_cpp.Connection.Server.{
  exchanges, accept_request, prepare_receive, allocate_ctx, serve_request, server_connect,
}

-- The identifiers whose request was accepted.
abbrev pub accepted : List Call → List Ptr
accepted [] = []
accepted (accept id _ ∷ t) = id ∷ accepted t
accepted (k ∷ t) = accepted t

-- The calls of foreign code succeed, and the event after rdma_listen is a request.
pub record Requests (env : Env) : Type 0 where
  pub ints : (t : List Call) (k : Call) → env.int_of t k ≡ pos 0
  pub inet : (p : Ptr) → env.is_inet p ≡ true
  pub request :
      (id channel : Ptr) (t : List Call)
      → (env.event_of (listen id ∷ t) (get_cm_event channel)).kind ≡ connect_request
  pub request_id :
      (id channel : Ptr) (t : List Call)
      → is_null (env.event_of (listen id ∷ t) (get_cm_event channel)).id ≡ false

-- The request `event` was accepted, and no other after those of the identifiers `before`; it was
-- acknowledged, the listening identifier was destroyed and the list `res` freed, in this order; and
-- the flag is as before.
pub record IsAccepted (listener work : ℕ) (res : Ptr) (before : List Ptr) (w : ConnWorld)
    : Type 0 where
  pub event : Event
  pub earlier : List Call
  pub newest : w.trace ≡ freeaddrinfo res ∷ destroy_id listener ∷ ack_cm_event event ∷ earlier
  pub kind : event.kind ≡ connect_request
  pub id_eq : w.mem.cm_id ≡ event.id
  pub work_eq : w.mem.work_rdma_cm ≡ work
  pub accepts : accepted w.trace ≡ event.id ∷ before

module _ (env : Env) (good : Requests env) (param : Params) where
  open good use {ints, inet, request, request_id}

  accept_lem :
      (event : Event) (res : Ptr) (qp_num : ℕ) (t : List Call) (c : Conn)
      → event.kind ≡ connect_request
      → c.cm_id ≡ event.id
      → (w : ConnWorld) × (accept_request env param event res qp_num (at t c) ≡ ok (pos 0) w)
        × IsAccepted c.cm_id_control c.work_rdma_cm res (accepted t) w
  unfolding accept_request get_mem call_for call pure ◌>>=◌
  accept_lem event res qp_num t c kind id =
      let up = accept c.cm_id (conn_param param qp_num) ∷ t in
      elim (Bool-cases (not (c.work_rdma_cm == 0) && (param.is_ud && exchanges param))) [
        | inl e ↦ (
          at
              (freeaddrinfo res
                ∷ destroy_id c.cm_id_control
                ∷ ack_cm_event event
                ∷ create_ah_from_wc_recv
                ∷ up)
              c,
          simp (ints, e),
          record {
            event = event;
            earlier = create_ah_from_wc_recv ∷ up;
            newest = refl;
            kind = kind;
            id_eq = id;
            work_eq = refl;
            accepts = ap (λ i. i ∷ accepted t) id;
          },
        )
        | inr e ↦ (
          at (freeaddrinfo res ∷ destroy_id c.cm_id_control ∷ ack_cm_event event ∷ up) c,
          simp (ints, e),
          record {
            event = event;
            earlier = up;
            newest = refl;
            kind = kind;
            id_eq = id;
            work_eq = refl;
            accepts = ap (λ i. i ∷ accepted t) id;
          },
        )
      ]

  prepare_lem :
      (t : List Call) (c : Conn)
      → (t' : List Call) × (prepare_receive env param (at t c) ≡ ok (pos 0) (at t' c))
        × (accepted t' ≡ accepted t)
  unfolding prepare_receive get_mem call_for pure ◌>>=◌
  prepare_lem t c = elim (Bool-cases (c.work_rdma_cm == env.off)) [
    | inl e ↦ (post_one_recv_wqe ∷ t, simp (ints, e), refl)
    | inr e ↦ elim (Bool-cases (param.is_ud && exchanges param)) [
      | inl f ↦ (post_recv_to_get_ah ∷ t, simp (ints, e, f), refl)
      | inr f ↦ (t, simp (e, f), refl)
    ]
  ]

  allocate_lem :
      (b : Bool) (t : List Call) (c : Conn)
      → (t' : List Call) × (a : Ptr) × ((if b then allocate_ctx env else pure tt) (at t c)
          ≡ ok tt (at t' (record c { ah = a })))
        × (accepted t' ≡ accepted t)
  unfolding allocate_ctx get_mem put_mem observe call pure ◌>>=◌
  allocate_lem true t c = (alloc_ctx ∷ t, env.ah_of (alloc_ctx ∷ t), refl, refl)
  allocate_lem false t c = (t, c.ah, refl, refl)

  qp_num_lem :
      (b : Bool) (w : ConnWorld)
      → (q : ℕ) × ((if b then observe env.first_qp_num else pure 0) w ≡ ok q w)
  unfolding observe pure
  qp_num_lem true w = (env.first_qp_num w.trace, refl)
  qp_num_lem false w = (0, refl)

  serve_lem :
      (event : Event) (res : Ptr) (t : List Call) (c : Conn)
      → event.kind ≡ connect_request
      → is_null event.id ≡ false
      → (w : ConnWorld) × (serve_request env param event res (at t c) ≡ ok (pos 0) w)
        × IsAccepted c.cm_id_control c.work_rdma_cm res (accepted t) w
  unfolding serve_request take_context set_work get_mem put_mem observe call_for call pure ◌>>=◌
  serve_lem event res t c kind id =
      let c2 : Conn = record c { cm_id = event.id; context = env.verbs_of event.id t } in
      let (t1, a, made, same1) = allocate_lem (c.work_rdma_cm == env.on) t c2 in
      let t2 = ctx_init ∷ t1 in
      let c4 : Conn = record c2 { ah = a; work_rdma_cm = env.on } in
      let (q, chose) = qp_num_lem param.is_ud (at t2 c4) in
      let c5 : Conn = record c2 { ah = a } in
      let (t3, ready, same2) = prepare_lem t2 c5 in
      let (w, ran, done) = accept_lem event res q t3 c5 kind refl in
      let as_before : accepted t3 ≡ accepted t = same2 ∙ same1 in
      (
        w,
        simp (id, made, ints, chose, ready) ran,
        subst (λ ids. IsAccepted c.cm_id_control c.work_rdma_cm res ids w) as_before done,
      )

-- If every call succeeds and the event after rdma_listen is a request with an identifier, then
-- rdma_server_connect returns 0 from any state. It accepted the request, by its identifier and
-- once, and no other; it acknowledged it, and only after that the listening identifier was
-- destroyed and the list that check_add_port found was freed; the identifier of the context is that
-- of the request, and `work_rdma_cm` is as before.
pub server_connect-IsAccepted :
    (env : Env) (param : Params) (w : ConnWorld)
    → Requests env
    → (w' : ConnWorld) × (server_connect env param w ≡ ok (pos 0) w')
      × IsAccepted w.mem.cm_id_control w.mem.work_rdma_cm
          (env.ptr_of w.trace (check_add_port param.port param.servername))
          (accepted w.trace)
          w'
unfolding server_connect get_mem call_for ◌>>=◌
server_connect-IsAccepted env param w good =
    let c = w.mem in
    let k = check_add_port param.port param.servername in
    let res = env.ptr_of w.trace k in
    let sin : SockAddr = record { address = res; sin_port = env.htons (param.port % 2 ^ 16) } in
    let t1 = listen c.cm_id_control ∷ bind_addr c.cm_id_control sin ∷ k ∷ w.trace in
    let e = env.event_of t1 (get_cm_event c.cm_channel) in
    let kind =
      good.request c.cm_id_control c.cm_channel (bind_addr c.cm_id_control sin ∷ k ∷ w.trace) in
    let id =
      good.request_id c.cm_id_control c.cm_channel (bind_addr c.cm_id_control sin ∷ k ∷ w.trace) in
    let (w', ran, done) =
      serve_lem env good param e res (get_cm_event c.cm_channel ∷ t1) c kind id in
    (w', simp (good.ints, good.inet, kind) ran, done)
