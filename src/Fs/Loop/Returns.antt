-- ===== src/Fs/Loop/Returns.antt =====
-- The rounds of fs_rdma_cm_event_handler of src/c/transport.c, run to their end.
use rdma_cpp.Common.{◌==◌, ◌≡◌, Option, none, some, List, if◌then◌else◌}
use rdma_cpp.Common.Cint.{ℤ, pos, minus_one, is_set, is_neg}
use rdma_cpp.Common.Cmd.{ok, pure, call, ◌>>=◌, ◌>>◌}
use rdma_cpp.Common.Cmd.Returns.{Triple, Triple-pure, Triple-if, Triple-bind, Triple-fact}
use rdma_cpp.Fs.Config.{Config, timeout_in_ms}
use rdma_cpp.Fs.Foreign.{
  Call, Event, EventKind, route_resolved, connect_request, ack_cm_event, resolve_route, disconnect,
}
use rdma_cpp.Fs.Context.{Ctx, Env, FsWorld, Fs}
use rdma_cpp.Fs.Holds.{Has, Holds, Held, ask, tell, look, change}
use rdma_cpp.Fs.Teardown.{handle_disconnect}
use rdma_cpp.Fs.Resources.Success.{IsFresh}
use rdma_cpp.Fs.Handlers.Failure.{handle_disconnect_lem}
use rdma_cpp.Fs.Handlers.{handle_addr_resolved, handle_connect_init, handle_event_error}
use rdma_cpp.Fs.Loop.{freed_event}

module _ (config : Config) where
  pub disconnect_lem : {F : Ctx → Type 0} → Triple (Holds F) (handle_disconnect config) (λ _. Held)
  disconnect_lem {F} = record { at = λ w h. ran w.trace w.mem h }
    where
      ran :
          (t : List Call) (m : Option Ctx)
          → Has F m
          → (u : Unit {0}) × (w' : FsWorld) × (handle_disconnect config
                (record { trace = t; mem = m })
              ≡ ok u w')
            × Held w'
      ran t none h = absurd h
      ran t (some c) h = (tt, _, handle_disconnect_lem config t c, tt)

  -- `fs_rdma_cm_handle_disconnect (); return ret;`
  give_up_lem :
      {F : Ctx → Type 0} (ret : ℤ)
      → Triple (Holds F) (do handle_disconnect config; pure ret) (λ _. Held)
  unfolding ◌>>=◌
  give_up_lem ret = Triple-bind disconnect_lem (λ _. Triple-pure ret (λ w h. h))

  pub addr_resolved_lem :
      (env : Env) (event : Event) → Triple Held (handle_addr_resolved env config event) (λ _. Held)
  unfolding handle_addr_resolved
  addr_resolved_lem env event =
      Triple-bind (ask env.int_of (resolve_route event.id timeout_in_ms))
        (λ ret. Triple-if (is_set ret) _ _ (λ _. give_up_lem ret) (λ _. Triple-pure ret (λ w h. h)))

  pub event_error_lem : Triple Held (handle_event_error config) (λ _. Held)
  unfolding handle_event_error
  event_error_lem = Triple-bind disconnect_lem (λ _. Triple-pure (pos 0) (λ w h. h))

pub connect_init_lem :
    {F : Ctx → Type 0} (env : Env) (event : Event)
    → ((c : Ctx) → F c → F (record c { connected = 1 }))
    → Triple (Holds F) (handle_connect_init env event) (λ _. Holds F)
unfolding handle_connect_init
connect_init_lem {F} env event keep = Triple-bind look (λ c. Triple-fact (λ _.
    let ret =
      if event.id == c.cm_id
      then (if c.connected == 1 then minus_one else env.stale_ret)
      else minus_one in
    Triple-if (is_neg ret) _ _
      (λ _. Triple-bind (tell (disconnect c.cm_id)) (λ _. Triple-pure ret (λ w h. h)))
      (λ _.
        Triple-bind (change {G = F} (λ c. record c { connected = 1 }) keep)
          (λ _. Triple-pure ret (λ w h. h)))))

-- A case of the switch that acknowledges last.
pub ack_last :
    {A : Type 0} {P Q : FsWorld → Type 0} (event : Event) {m : Fs A}
    → Triple P m (λ _. Q)
    → Triple Q (call (ack_cm_event event)) (λ _. Q)
    → Triple P (do m; call (ack_cm_event event); pure freed_event) (λ _. Q)
unfolding ◌>>=◌
ack_last event h told =
    Triple-bind h (λ _. Triple-bind told (λ _. Triple-pure freed_event (λ w k. k)))

-- What a round needs of the context: ROUTE_RESOLVED and CONNECT_REQUEST make the resources of a
-- fresh context, the other events need none of it.
abbrev pub Needs : EventKind → Config → Ctx → Type 0
Needs route_resolved config c = IsFresh config c
Needs connect_request config c = IsFresh config c
Needs _ config c = Unit {0}
