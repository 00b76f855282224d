-- ===== src/Fs/Inputs.antt =====
-- Environments and contexts for the tests of src/c/transport.c.
use rdma_cpp.Common.{refl, true, some, List, [], ◌∷◌}
use rdma_cpp.Common.Cint.{pos, Ptr, null}
use rdma_cpp.Fs.Config.{param}
use rdma_cpp.Fs.Resources.Success.{IsFresh}
use rdma_cpp.Fs.Foreign.{Call, addr_resolved, alloc_pd}
use rdma_cpp.Fs.Context.{Array, null_array, Ctx, Env}

-- A context before fs_rdma_create_ctx fills it, and after.
abbrev pub blank : Ctx
blank = record {
  cm_event_channel = 0;
  cm_id = 0;
  context = 0;
  channel = 0;
  pd = 0;
  mr = null_array;
  send_cq = 0;
  recv_cq = 0;
  buf = null_array;
  ah = 0;
  qp = null_array;
  srq = 0;
  sge_list = 0;
  recv_sge_list = 0;
  wr = 0;
  rwr = 0;
  connected = 0;
  cq = 0;
  content = 0;
}

abbrev pub live_array : Array
live_array = record { base = 20; slots = 0 ∷ [] }

abbrev pub prepared : Ctx
prepared = record blank {
  cm_event_channel = 2;
  cm_id = 7;
  mr = live_array;
  buf = live_array;
  qp = live_array;
}

-- Libraries that always succeed and deliver events of the identifier 7.
abbrev pub obliging : Env
obliging = record {
  int_of = λ t k. pos 0;
  ptr_of = λ t k. 9;
  event_of = λ t k. record { kind = addr_resolved; id = 7 };
  devices_of = λ t k. record {
    devices = some (record { handle = 3; name = "mlx4_0" } ∷ []);
    num_of_device = pos 1;
  };
  max_cqe_of = λ t k. 1024;
  qp_of = λ p t. 11;
  fresh = blank;
  stale = 0;
  stale_ret = pos 0;
  htons = λ n. n;
  page_size = 4096;
  null_format = true;
}

abbrev pub no_pd : List Call → Call → Ptr
no_pd t (alloc_pd _) = null
no_pd t k = 9

-- The same, but no protection domain is to be had.
abbrev pub without_pd : Env
without_pd = record obliging { ptr_of = no_pd }

pub prepared-IsFresh : IsFresh param prepared
prepared-IsFresh = record {
  id = refl;
  qp = record { live = refl; size = refl };
  mr = record { live = refl; size = refl };
  buf = record { live = refl; size = refl };
}
