-- ===== src/Gf/Tests.antt =====
-- Concrete runs of src/Transport.cc and src/Qp.cc.
use rdma_cpp.Common.{
  ◌+◌, ◌≤◌, ◌≡◌, refl, Bool, true, false, none, some, List, [], ◌∷◌, count, length, leb, arith,
  Bool-cases, inl, inr, if◌then◌else◌,
}
use rdma_cpp.Common.Cint.{ℤ, pos, minus_one, is_set}
use rdma_cpp.Common.Cmd.{ok, final, ◌>>=◌}
use rdma_cpp.Gf.Foreign.{connect_request, disconnected, Call, get_cm_event}
use rdma_cpp.Gf.Loop.{LoopEnv, LoopWorld, gf_round, gf_cm_event_handler}
use rdma_cpp.Gf.Protocol.{Ends, start, gf_cm_event_handler-Ends}
use rdma_cpp.Gf.Tally.{fetched_events, acked_events, handlers, dues, gf_cm_event_handler-tally}
use rdma_cpp.Gf.Halts.{FailsAfter, gf_cm_event_handler-returns}
use rdma_cpp.Gf.Init.{InitEnv, InitWorld, gf_init}
use rdma_cpp.Gf.Init.Attached.{MakesCtx, IsTidy}
use rdma_cpp.Gf.Init.Registered.{InitEnds, gf_init-IsTidy}
use rdma_cpp.Gf.Qp.{QpEnv, QpWorld}

abbrev is_get : Call → Bool
is_get (get_cm_event _) = true
is_get _ = false

-- A request, then a disconnect, then no more events.
abbrev two_events : LoopEnv
two_events = record {
  int_of = λ t k. if leb 2 (count is_get t) then minus_one else pos 0;
  event_of = λ t k. record {
    kind = if leb 1 (count is_get t) then disconnected else connect_request;
    id = 7;
    context = 9;
  };
}

abbrev at_start : LoopWorld
at_start = record { trace = []; mem = tt }

fetched_le_gets : (env : LoopEnv) (t : List Call) → length (fetched_events env t) ≤ count is_get t
fetched_le_gets env [] = omega arith
fetched_le_gets env (get_cm_event ch ∷ t) =
    elim (Bool-cases (is_set (env.int_of t (get_cm_event ch)))) [
      | inl z ↦ rw z (omega (arith, fetched_le_gets env t))
      | inr z ↦ rw z (omega (arith, fetched_le_gets env t))
    ]
fetched_le_gets env (k ∷ t) = omega (arith, fetched_le_gets env t)

two_events-FailsAfter : FailsAfter two_events 2 2
two_events-FailsAfter t many = let gets = fetched_le_gets two_events t in ground (arith, gets)

gf_cm_event_handler-Ends_example : Ends two_events (gf_cm_event_handler two_events 2 5 at_start)
gf_cm_event_handler-Ends_example = gf_cm_event_handler-Ends two_events 2 5 at_start start

abbrev served : LoopWorld
served = final (gf_cm_event_handler two_events 2 3 at_start)

gf_cm_event_handler-tally_example :
    (acked_events served.trace ≡ fetched_events two_events served.trace)
    × (handlers served.trace ≡ dues (fetched_events two_events served.trace))
unfolding gf_cm_event_handler gf_round ◌>>=◌
gf_cm_event_handler-tally_example = gf_cm_event_handler-tally two_events 2 3 served refl

gf_cm_event_handler-returns_example :
    (w' : LoopWorld) × (gf_cm_event_handler two_events 2 3 at_start ≡ ok tt w')
gf_cm_event_handler-returns_example =
    gf_cm_event_handler-returns two_events 2 2 two_events-FailsAfter (λ t. refl)

abbrev init_env : InitEnv
init_env = record {
  int_of = λ t k. pos 0;
  ptr_of = λ t k. 100 + length t;
  ib_of = λ t m. elim m [ none ↦ some (record { device = 5; dlcount = 0 }) | some c ↦ some c ];
}

init_env-MakesCtx : MakesCtx init_env
init_env-MakesCtx = record {
  keeps = λ t c. refl;
  fresh = λ t c h. cc h;
  leaves = λ t fine. (record { device = 5; dlcount = 0 }, refl);
}

abbrev no_transports : InitWorld
no_transports = record { trace = []; mem = record { private = 0; ib = none; hooked = false } }

no_transports-IsTidy : IsTidy init_env [] no_transports
no_transports-IsTidy = record { memory = refl; unlocked = refl; once = refl; hooks = refl }

gf_init-IsTidy_example :
    (ret : ℤ) × (w' : InitWorld) × (gf_init init_env true no_transports ≡ ok ret w')
    × InitEnds init_env [] [] ret w'
gf_init-IsTidy_example =
    gf_init-IsTidy init_env true [] no_transports init_env-MakesCtx no_transports-IsTidy
      (λ c h. cc h)

-- Libraries that know no device.
abbrev no_device : QpEnv
no_device = record {
  int_of = λ t k. pos 0;
  ptr_of = λ t k. 3;
  device_of = λ t k. none;
  verbs_of = λ id t. 4;
  qp_of = λ id t. 5;
  qp_num_of = λ qp t. 6;
}

abbrev peer : QpWorld
peer = record {
  trace = [];
  mem = record {
    trans = 12;
    cm_id = 7;
    qp = 0;
    rdma_event_thread = 0;
    quota_set = 0;
    recv_count = 8;
    send_count = 8;
    recv_size = pos 4096;
    send_size = pos 4096;
    quota = pos 0;
    ioq_next = 0;
    ioq_prev = 0;
    local_lid = pos 0;
    local_psn = pos 0;
    local_qpn = pos 0;
    remote_lid = pos 0;
    remote_psn = pos 0;
    remote_qpn = pos 0;
    device = 0;
  };
}
