-- ===== src/Fs/Loop/Tests.antt =====
-- The theorems about the loop of fs_rdma_cm_event_handler of src/c/transport.c at concrete inputs.
use rdma_cpp.Common.{ℕ, zero, suc, ◌≡◌, []}
use rdma_cpp.Common.Cint.{ℤ, pos, minus_one}
use rdma_cpp.Fs.Config.{param}
use rdma_cpp.Fs.Foreign.{
  Call, EventKind, addr_resolved, route_resolved, established, connect, disconnected,
}
use rdma_cpp.Fs.Context.{Ctx, Env}
use rdma_cpp.Fs.Inputs.{prepared, obliging}
use rdma_cpp.Fs.Teardown.Effect.{world}
use rdma_cpp.Fs.Loop.{cm_event_handler}
use rdma_cpp.Fs.Loop.Session.{fetches}
use rdma_cpp.Fs.Loop.Phases.{closes}
use rdma_cpp.Fs.Loop.Once.{Once, cm_event_handler-Once}
use rdma_cpp.Common.{some}
use rdma_cpp.Common.Cmd.{final}

-- Libraries that succeed and deliver the events of a client.
abbrev kind_at : ℕ → EventKind
kind_at zero = addr_resolved
kind_at (suc zero) = route_resolved
kind_at _ = established

abbrev scripted : Env
scripted = record obliging { event_of = λ t k. record { kind = kind_at (fetches t); id = 7 } }

-- The peer refuses the connection; events of a resolved route come until the identifier is
-- destroyed, and disconnects after it.
abbrev until_closed : ℕ → EventKind
until_closed zero = route_resolved
until_closed (suc n) = disconnected

abbrev refused : Call → ℤ
refused (connect id _) = minus_one
refused k = pos 0

abbrev refusing : Env
refusing = record obliging {
  int_of = λ t k. refused k;
  event_of = λ t k. record { kind = until_closed (closes t); id = 7 };
}

cm_event_handler-Once_example :
    (c' : Ctx) × ((final (cm_event_handler refusing param 2 3 (world [] prepared))).mem ≡ some c')
    × Once 7 [] (final (cm_event_handler refusing param 2 3 (world [] prepared))).trace c'
cm_event_handler-Once_example = cm_event_handler-Once refusing param 2 3 [] prepared
