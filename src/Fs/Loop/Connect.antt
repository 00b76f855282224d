-- ===== src/Fs/Loop/Connect.antt =====
-- A connection from fs_rdma_connect of src/c/transport.c to the ESTABLISHED event.
use rdma_cpp.Common.{◌^◌, ◌%◌, List, ◌∷◌, ℕ, replicate}
use rdma_cpp.Common.Cint.{Ptr}
use rdma_cpp.Fs.Config.{Config, timeout_in_ms}
use rdma_cpp.Fs.Foreign.{
  Call, malloc_ctx, create_event_channel, create_id, malloc_array, getaddrinfo, freeaddrinfo,
  resolve_addr,
}
use rdma_cpp.Fs.Context.{Array, Ctx, Env}
use rdma_cpp.Fs.Setup.{port_space}
use rdma_cpp.Fs.Resources.Loops.{Obliging}

module _ (env : Env) (config : Config) (t : List Call) where
  -- The calls up to rdma_create_id, and what it stores.
  abbrev channel : Ptr
  channel = env.ptr_of (malloc_ctx ∷ t) create_event_channel

  abbrev new_id_call : Call
  new_id_call = create_id channel (port_space config.connection_type)

  abbrev pub new_id : Ptr
  new_id = env.ptr_of (create_event_channel ∷ malloc_ctx ∷ t) new_id_call

  abbrev after_id : List Call
  after_id = new_id_call ∷ create_event_channel ∷ malloc_ctx ∷ t

  -- An array of ALLOCATE, after these calls.
  abbrev new_array : List Call → Array
  new_array t' = record {
    base = env.ptr_of t' (malloc_array config.qp_count);
    slots = replicate config.qp_count env.stale;
  }

  abbrev after_arrays : List Call
  after_arrays =
      malloc_array config.qp_count
      ∷ malloc_array config.qp_count
      ∷ malloc_array config.qp_count
      ∷ after_id

  abbrev new_ctx : Ctx
  new_ctx = record (env.fresh) {
    cm_event_channel = channel;
    cm_id = new_id;
    qp = new_array after_id;
    mr = new_array (malloc_array config.qp_count ∷ after_id);
    buf = new_array (malloc_array config.qp_count ∷ malloc_array config.qp_count ∷ after_id);
  }

  module _ (good : Obliging env) where
    open good use {ints, ptrs}

    -- The calls of fs_rdma_connect, newest first.
    abbrev after_connect : (ip_addr : Ptr) (port : ℕ) → List Call
    after_connect ip_addr port =
        let res = env.ptr_of after_arrays (getaddrinfo ip_addr port) in
        resolve_addr new_id (record { address = res; sin_port = env.htons (config.port % 2 ^ 16) })
          timeout_in_ms
        ∷ freeaddrinfo res
        ∷ getaddrinfo ip_addr port
        ∷ after_arrays
