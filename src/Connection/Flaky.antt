-- ===== src/Connection/Flaky.antt =====
-- The retry loops of rdma_client_connect of src/Connection.cc where resolutions may fail and
-- everything else succeeds.
use rdma_cpp.Common.{
  ℕ, zero, suc, ◌+◌, ◌-◌, ◌≤◌, ◌<◌, ◌≡◌, refl, ap, ◌∙◌, Bool, true, false, List, ◌∷◌, count, ltb,
  lt→ltb, le→ltb, arith, if◌then◌else◌,
}
use rdma_cpp.Common.Cint.{pos, Ptr}
use rdma_cpp.Common.Cmd.{ok, pure, call, call_for, get_mem, ◌>>=◌}
use rdma_cpp.Connection.Foreign.{
  addr_resolved, addr_error, route_resolved, route_error, established, SockAddr, ConnParam, Call,
  Env, resolve_addr, resolve_route, get_cm_event, ack_cm_event, connect,
}
use rdma_cpp.Connection.{
  Conn, ConnWorld, Resolved, gave_up, resolved, await, resolve_addr_loop, resolve_route_loop,
}

abbrev pub is_addr : Call → Bool
is_addr (resolve_addr _ _) = true
is_addr _ = false

abbrev pub is_route : Call → Bool
is_route (resolve_route _) = true
is_route _ = false

-- The first `a` resolutions of the address and the first `b` of the route end in an error event,
-- and nothing else fails.
pub record Flaky (env : Env) (a b : ℕ) : Type 0 where
  pub ints : (t : List Call) (k : Call) → env.int_of t k ≡ pos 0
  pub inet : (p : Ptr) → env.is_inet p ≡ true
  pub addr_kind :
      (id channel : Ptr) (sin : SockAddr) (t : List Call)
      → (env.event_of (resolve_addr id sin ∷ t) (get_cm_event channel)).kind
        ≡ (if ltb (count is_addr t) a then addr_error else addr_resolved)
  pub route_kind :
      (id channel : Ptr) (t : List Call)
      → (env.event_of (resolve_route id ∷ t) (get_cm_event channel)).kind
        ≡ (if ltb (count is_route t) b then route_error else route_resolved)
  pub connect_kind :
      (id channel : Ptr) (param : ConnParam) (t : List Call)
      → (env.event_of (connect id param ∷ t) (get_cm_event channel)).kind ≡ established

abbrev pub at : List Call → Conn → ConnWorld
at t c = record { trace = t; mem = c }

-- What a loop of `n` rounds comes to where `d` resolutions fail.
abbrev pub after_failures : (n d : ℕ) → Resolved
after_failures zero d = gave_up
after_failures (suc n) zero = resolved (suc n)
after_failures (suc n) (suc d) = after_failures n d

-- After the call `k`, an event is fetched and acknowledged.
abbrev answered : Env → Conn → Call → List Call → List Call
answered env c k t =
    ack_cm_event (env.event_of (k ∷ t) (get_cm_event c.cm_channel))
    ∷ get_cm_event c.cm_channel
    ∷ k
    ∷ t

module _ (env : Env) {a b : ℕ} (flaky : Flaky env a b) (c : Conn) where
  open flaky use {ints, inet, addr_kind, route_kind, connect_kind}

  pub addr_loop_lem :
      (sin : SockAddr) (n d : ℕ) (t : List Call)
      → count is_addr t + d ≡ a
      → (t' : List Call) × (resolve_addr_loop env sin n (at t c)
          ≡ ok (after_failures n d) (at t' c))
        × (count is_route t' ≡ count is_route t)
  unfolding resolve_addr_loop await get_mem call_for call pure ◌>>=◌
  addr_loop_lem sin zero d t e = (t, refl, refl)
  addr_loop_lem sin (suc n) zero t e =
      let k = addr_kind c.cm_id c.cm_channel sin t in
      let late = le→ltb (count is_addr t) a (omega (arith, e)) in
      (answered env c (resolve_addr c.cm_id sin) t, simp (ints, k, late), omega arith)
  addr_loop_lem sin (suc n) (suc d) t e =
      let k = addr_kind c.cm_id c.cm_channel sin t in
      let early = lt→ltb (count is_addr t) a (omega (arith, e)) in
      let (t', ran, same) =
        addr_loop_lem sin n d (answered env c (resolve_addr c.cm_id sin) t) (omega (arith, e)) in
      (t', simp (ints, k, early) ran, omega (arith, same))

  pub route_loop_lem :
      (n d : ℕ) (t : List Call)
      → count is_route t + d ≡ b
      → (t' : List Call) × (resolve_route_loop env n (at t c) ≡ ok (after_failures n d) (at t' c))
  unfolding resolve_route_loop await get_mem call_for call pure ◌>>=◌
  route_loop_lem zero d t e = (t, refl)
  route_loop_lem (suc n) zero t e =
      let k = route_kind c.cm_id c.cm_channel t in
      let late = le→ltb (count is_route t) b (omega (arith, e)) in
      (answered env c (resolve_route c.cm_id) t, simp (ints, k, late))
  route_loop_lem (suc n) (suc d) t e =
      let k = route_kind c.cm_id c.cm_channel t in
      let early = lt→ltb (count is_route t) b (omega (arith, e)) in
      let (t', ran) =
        route_loop_lem n d (answered env c (resolve_route c.cm_id) t) (omega (arith, e)) in
      (t', simp (ints, k, early) ran)

pub after_failures-early : (n d : ℕ) → d < n → after_failures n d ≡ resolved (n - d)
after_failures-early zero d h = absurd (omega (arith, h))
after_failures-early (suc n) zero h = ap resolved (omega arith)
after_failures-early (suc n) (suc d) h =
    after_failures-early n d (omega (arith, h)) ∙ ap resolved (omega arith)

pub after_failures-late : (n d : ℕ) → n ≤ d → after_failures n d ≡ gave_up
after_failures-late zero d h = refl
after_failures-late (suc n) zero h = absurd (omega (arith, h))
after_failures-late (suc n) (suc d) h = after_failures-late n d (omega (arith, h))
