-- ===== src/Connection/Up.antt =====
-- The result of rdma_client_connect of src/Connection.cc where nothing fails but resolutions.
use rdma_cpp.Common.{
  ℕ, ◌+◌, ◌-◌, ◌%◌, ◌^◌, ◌≤◌, ◌<◌, ◌≡◌, ◌⊎◌, inl, inr, refl, true, false, List, ◌∷◌, count, ltb,
  lt→ltb, le→ltb, ◌==◌, Bool-cases, arith, if◌then◌else◌,
}
use rdma_cpp.Common.Cint.{is_null}
use rdma_cpp.Common.Cmd.{ok, pure, call, call_for, observe, get_mem, put_mem, ◌>>=◌}
use rdma_cpp.Connection.Foreign.{
  established, Event, SockAddr, Call, Env, check_add_port, get_cm_event, ack_cm_event, connect,
  create_ah, ctx_init, post_one_recv_wqe,
}
use rdma_cpp.Connection.{
  Params, Conn, ConnWorld, conn_param, take_handle, finish_connect, take_context, set_work,
  connect_resolved, client_connect,
}
use rdma_cpp.Connection.Flaky.{
  is_addr, is_route, Flaky, at, after_failures-early, after_failures-late, addr_loop_lem,
  route_loop_lem,
}

-- The connection is up: the newest call acknowledges an ESTABLISHED event, whose numbers are in the
-- parameters where the type of the connection is UD; the identifier and the flag are as before.
pub record IsUp (param : Params) (id work : ℕ) (w : ConnWorld) : Type 0 where
  pub event : Event
  pub earlier : List Call
  pub newest : w.trace ≡ ack_cm_event event ∷ earlier
  pub kind : event.kind ≡ established
  pub id_eq : w.mem.cm_id ≡ id
  pub work_eq : w.mem.work_rdma_cm ≡ work
  pub qpn : param.is_ud ≡ true → w.mem.rem_ud_qpn ≡ event.qp_num
  pub qkey : param.is_ud ≡ true → w.mem.rem_ud_qkey ≡ event.qkey

module _ (env : Env) {a b : ℕ} (flaky : Flaky env a b) (param : Params) where
  open flaky use {ints, inet, connect_kind}

  finish_lem :
      (t : List Call) (c : Conn)
      → is_null c.ah ≡ false
      → (w : ConnWorld) × (finish_connect env param (at t c) ≡ ok env.success w)
        × IsUp param c.cm_id c.work_rdma_cm w
  unfolding finish_connect take_handle get_mem put_mem call_for call pure ◌>>=◌
  finish_lem t c array =
      let k = connect_kind c.cm_id c.cm_channel (conn_param param 0) t in
      let up = connect c.cm_id (conn_param param 0) ∷ t in
      let e = env.event_of up (get_cm_event c.cm_channel) in
      let got = get_cm_event c.cm_channel ∷ up in
      elim (Bool-cases param.is_ud) [
        | inl ud ↦ (
          at (ack_cm_event e ∷ create_ah e.ah_attr ∷ got) (record c {
            rem_ud_qpn = e.qp_num;
            rem_ud_qkey = e.qkey;
            ah_0 = env.ptr_of got (create_ah e.ah_attr);
          }),
          simp (ints, k, ud, array),
          record {
            event = e;
            earlier = create_ah e.ah_attr ∷ got;
            newest = refl;
            kind = k;
            id_eq = refl;
            work_eq = refl;
            qpn = λ h. refl;
            qkey = λ h. refl;
          },
        )
        | inr other ↦ (
          at (ack_cm_event e ∷ got) c,
          simp (ints, k, other),
          record {
            event = e;
            earlier = got;
            newest = refl;
            kind = k;
            id_eq = refl;
            work_eq = refl;
            qpn = λ h. cc (h, other);
            qkey = λ h. cc (h, other);
          },
        )
      ]

  resolved_lem :
      (t : List Call) (c : Conn)
      → is_null c.cm_id ≡ false
      → is_null c.ah ≡ false
      → (w : ConnWorld) × (connect_resolved env param (at t c) ≡ ok env.success w)
        × IsUp param c.cm_id c.work_rdma_cm w
  unfolding connect_resolved take_context set_work get_mem put_mem observe call_for call pure ◌>>=◌
  resolved_lem t c id array =
      let c1 : Conn = record c { context = env.verbs_of c.cm_id t } in
      elim (Bool-cases (c.work_rdma_cm == env.off)) [
        | inl off ↦
            let (w, ran, up) = finish_lem (post_one_recv_wqe ∷ ctx_init ∷ t) c1 array in
            (w, simp (id, ints, off) ran, up)
        | inr on ↦
            let (w, ran, up) = finish_lem (ctx_init ∷ t) c1 array in
            (w, simp (id, ints, on) ran, up)
      ]

le_or_lt : (n d : ℕ) → (n ≤ d) ⊎ (d < n)
le_or_lt n d = elim (Bool-cases (ltb d n)) [
  | inl e ↦ inr (ground arith)
  | inr e ↦ inl (ground arith)
]

-- If the first `a` resolutions of the address and the first `b` of the route end in an error event
-- and nothing else fails, then rdma_client_connect, on a context whose identifier and array `ah` are
-- set and that has resolved nothing yet, returns SUCCESS where `a + b` is below NUM_OF_RETRIES, and
-- FAILURE where it is not. After SUCCESS the connection is up: the newest call acknowledges an
-- ESTABLISHED event, whose numbers are in the parameters where the type of the connection is UD, and
-- the identifier and `work_rdma_cm` are as before.
pub client_connect-IsUp :
    (env : Env) (a b : ℕ) (param : Params) (w : ConnWorld)
    → Flaky env a b
    → count is_addr w.trace ≡ 0
    → count is_route w.trace ≡ 0
    → is_null w.mem.cm_id ≡ false
    → is_null w.mem.ah ≡ false
    → (w' : ConnWorld) × (client_connect env param w
        ≡ ok (if ltb (a + b) env.num_of_retries then env.success else env.failure) w')
      × (a + b < env.num_of_retries → IsUp param w.mem.cm_id w.mem.work_rdma_cm w')
unfolding client_connect call_for pure ◌>>=◌
client_connect-IsUp env a b param w flaky no_addr no_route id array =
    let c = w.mem in
    let n = env.num_of_retries in
    let k = check_add_port param.port param.servername in
    let res = env.ptr_of w.trace k in
    let sin : SockAddr = record { address = res; sin_port = env.htons (param.port % 2 ^ 16) } in
    let (t1, first, same) =
      addr_loop_lem env flaky c sin n a (k ∷ w.trace) (omega (arith, no_addr)) in
    let (t2, second) = route_loop_lem env flaky c (n - a) b t1 (omega (arith, no_route, same)) in
    elim (le_or_lt n a) [
      | inl few ↦
          let late = le→ltb (a + b) n (omega (arith, few)) in
          (
            at t1 c,
            simp (flaky.ints, flaky.inet, first, after_failures-late n a few, late),
            λ h. absurd (omega (arith, h, few)),
          )
      | inr many ↦ elim (le_or_lt (n - a) b) [
        | inl few ↦
            let late = le→ltb (a + b) n (omega (arith, few, many)) in
            (
              at t2 c,
              simp (
                flaky.ints,
                flaky.inet,
                first,
                after_failures-early n a many,
                second,
                after_failures-late (n - a) b few,
                late,
              ),
              λ h. absurd (omega (arith, h, few, many)),
            )
        | inr more ↦
            let early = lt→ltb (a + b) n (omega (arith, more)) in
            let (w', ran, up) = resolved_lem env flaky param t2 c id array in
            (
              w',
              simp
                  (
                    flaky.ints,
                    flaky.inet,
                    first,
                    after_failures-early n a many,
                    second,
                    after_failures-early (n - a) b more,
                    early,
                  )
                  ran,
              λ h. up,
            )
      ]
    ]
