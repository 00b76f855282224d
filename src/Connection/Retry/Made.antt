-- ===== src/Connection/Retry/Made.antt =====
-- The calls of create_rdma_resources and destroy_rdma_resources of src/Connection.cc, counted.
use rdma_cpp.Common.{ℕ, zero, suc, ◌≡◌, Bool, true, false, List, ◌∷◌, count, arith}
use rdma_cpp.Common.Cmd.{call, call_for, observe, get_mem, put_mem}
use rdma_cpp.Common.Cmd.Keeps.{Keeps, keeps_rules}
use rdma_cpp.Connection.Foreign.{
  EventKind, Event, SockAddr, Call, Env, create_rdma_resources, destroy_rdma_resources,
}
use rdma_cpp.Connection.{
  Params, Conn, ConnWorld, Con, Resolved, gave_up, resolved, await, resolve_addr_loop,
  resolve_route_loop, take_handle, finish_connect, take_context, set_work, connect_resolved,
  after_route, after_addr, client_connect,
}

abbrev pub is_create : Call → Bool
is_create create_rdma_resources = true
is_create _ = false

abbrev pub is_destroy : Call → Bool
is_destroy destroy_rdma_resources = true
is_destroy _ = false

-- So many calls of the one, and so many of the other.
pub record Made (created destroyed : ℕ) (w : ConnWorld) : Type 0 where
  pub create_count : count is_create w.trace ≡ created
  pub destroy_count : count is_destroy w.trace ≡ destroyed

module _ {c d : ℕ} where
  Made-other :
      (k : Call)
      → is_create k ≡ false
      → is_destroy k ≡ false
      → (w : ConnWorld) → Made c d w
      → Made c d (record w { trace = k ∷ w.trace })
  Made-other k hc hd w h = record {
    create_count = rw hc (omega (arith, h.create_count));
    destroy_count = rw hd (omega (arith, h.destroy_count));
  }

  call-Keeps : (k : Call) → is_create k ≡ false → is_destroy k ≡ false → Keeps (Made c d) (call k)
  unfolding call
  call-Keeps k hc hd = record { at = λ w h. Made-other k hc hd w h }

  pub call_for-Keeps :
      {A : Type 0} (answer : List Call → Call → A) (k : Call)
      → is_create k ≡ false
      → is_destroy k ≡ false
      → Keeps (Made c d) (call_for answer k)
  unfolding call_for
  call_for-Keeps answer k hc hd = record { at = λ w h. Made-other k hc hd w h }

  pub observe-Keeps : {A : Type 0} (answer : List Call → A) → Keeps (Made c d) (observe answer)
  unfolding observe
  observe-Keeps answer = record { at = λ w h. h }

  pub get_mem-Keeps : Keeps (Made c d) get_mem
  unfolding get_mem
  get_mem-Keeps = record { at = λ w h. h }

  pub put_mem-Keeps : (m : Conn) → Keeps (Made c d) (put_mem m)
  unfolding put_mem
  put_mem-Keeps m = record {
    at = λ w h. record { create_count = h.create_count; destroy_count = h.destroy_count };
  }

  ruleset made_rules =
      (keeps_rules, call-Keeps, call_for-Keeps, observe-Keeps, get_mem-Keeps, put_mem-Keeps)

  await-Keeps :
      (env : Env) (again done : EventKind) (n : ℕ) (rest : Con Resolved)
      → Keeps (Made c d) rest
      → Keeps (Made c d) (await env again done n rest)
  unfolding await
  await-Keeps env again done n rest h = search made_rules depth 9

  addr_loop-Keeps :
      (env : Env) (sin : SockAddr) (n : ℕ) → Keeps (Made c d) (resolve_addr_loop env sin n)
  unfolding resolve_addr_loop
  addr_loop-Keeps env sin zero = search made_rules
  addr_loop-Keeps env sin (suc n) =
      let rest = addr_loop-Keeps env sin n in search (made_rules, await-Keeps)

  route_loop-Keeps : (env : Env) (n : ℕ) → Keeps (Made c d) (resolve_route_loop env n)
  unfolding resolve_route_loop
  route_loop-Keeps env zero = search made_rules
  route_loop-Keeps env (suc n) =
      let rest = route_loop-Keeps env n in search (made_rules, await-Keeps)

  take_handle-Keeps :
      (env : Env) (param : Params) (e : Event) → Keeps (Made c d) (take_handle env param e)
  unfolding take_handle
  take_handle-Keeps env param e = search made_rules depth 9

  take_context-Keeps : (env : Env) → Keeps (Made c d) (take_context env)
  unfolding take_context
  take_context-Keeps env = search made_rules depth 9

  set_work-Keeps : (n : ℕ) → Keeps (Made c d) (set_work n)
  unfolding set_work
  set_work-Keeps n = search made_rules

  finish_connect-Keeps : (env : Env) (param : Params) → Keeps (Made c d) (finish_connect env param)
  unfolding finish_connect
  finish_connect-Keeps env param = search (made_rules, take_handle-Keeps) depth 12

  connect_resolved-Keeps :
      (env : Env) (param : Params) → Keeps (Made c d) (connect_resolved env param)
  unfolding connect_resolved
  connect_resolved-Keeps env param =
      search (made_rules, take_context-Keeps, set_work-Keeps, finish_connect-Keeps) depth 12

  after_route-Keeps :
      (env : Env) (param : Params) (r : Resolved) → Keeps (Made c d) (after_route env param r)
  after_route-Keeps env param gave_up = search made_rules
  after_route-Keeps env param (resolved n) = connect_resolved-Keeps env param

  after_addr-Keeps :
      (env : Env) (param : Params) (r : Resolved) → Keeps (Made c d) (after_addr env param r)
  after_addr-Keeps env param gave_up = search made_rules
  after_addr-Keeps env param (resolved n) = search (made_rules, route_loop-Keeps, after_route-Keeps)

  pub client_connect-Keeps :
      (env : Env) (param : Params) → Keeps (Made c d) (client_connect env param)
  unfolding client_connect
  client_connect-Keeps env param = search (made_rules, addr_loop-Keeps, after_addr-Keeps) depth 9
