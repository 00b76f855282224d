-- ===== src/Fs/Setup/Ends.antt =====
-- How fs_rdma_connect of src/c/transport.c ends.
use rdma_cpp.Common.{ℕ, ◌%◌, ◌^◌, ◌≡◌, ◌⊎◌, true, false, List, ◌∷◌}
use rdma_cpp.Common.Cint.{ℤ, pos, minus_one, Ptr, is_null, is_set}
use rdma_cpp.Common.Cmd.{Run, ok, fault, exited, out_of_fuel, call_for, ◌>>=◌}
use rdma_cpp.Fs.Config.{Config, timeout_in_ms}
use rdma_cpp.Fs.Foreign.{SockAddr, Call, malloc_array, getaddrinfo, freeaddrinfo, resolve_addr}
use rdma_cpp.Fs.Context.{Ctx, Env, FsWorld, Fs}
use rdma_cpp.Fs.Setup.{create_ctx, stored, take_address, created_id}
use rdma_cpp.Fs.Teardown.Effect.{world}

-- The newest call is a malloc for an array of the context, and it returned NULL.
abbrev pub OutOfMemory : Env → Config → FsWorld → Type 0
OutOfMemory env config w =
    (t : List Call) × (w.trace ≡ malloc_array config.qp_count ∷ t)
    × (is_null (env.ptr_of t (malloc_array config.qp_count)) ≡ true)

-- The newest call is a getaddrinfo that failed.
abbrev pub LookupFailed : Env → (ip_addr : Ptr) → (port : ℕ) → FsWorld → Type 0
LookupFailed env ip_addr port w =
    (t : List Call) × (w.trace ≡ getaddrinfo ip_addr port ∷ t)
    × (is_set (env.int_of t (getaddrinfo ip_addr port)) ≡ true)

-- The address that `res` leads to, with the port of the configuration.
abbrev pub configured : Env → Config → Ptr → SockAddr
configured env config res = record { address = res; sin_port = env.htons (config.port % 2 ^ 16) }

abbrev CreateEnds : Env → Config → Run FsWorld ℤ → Type 0
CreateEnds env config (ok r w) =
    ((r ≡ pos 0) × (t : List Call) × (c : Ctx) × (w ≡ world t c)) ⊎ (r ≡ minus_one)
CreateEnds env config (fault w) = ⊥
CreateEnds env config (exited w) = OutOfMemory env config w
CreateEnds env config (out_of_fuel w) = ⊥

-- A run of fs_rdma_connect from the state `w`.
module _ (env : Env) (config : Config) (ip_addr : Ptr) (port : ℕ) (w : FsWorld) where
  -- fs_rdma_create_ctx succeeded, and so did the lookup after it; its list was freed, and the result
  -- is the answer of rdma_resolve_addr for the identifier that was made, the newest call.
  abbrev pub Resolved : ℤ → FsWorld → Type 0
  Resolved r w' =
      (t : List Call) × (c : Ctx) × (res : Ptr) × (create_ctx env config w ≡ ok (pos 0) (world t c))
      × (is_set (env.int_of t (getaddrinfo ip_addr port)) ≡ false)
      × (res ≡ env.ptr_of t (getaddrinfo ip_addr port))
      × (r
          ≡ env.int_of (freeaddrinfo res ∷ getaddrinfo ip_addr port ∷ t)
              (resolve_addr c.cm_id (configured env config res) timeout_in_ms))
      × (w'
          ≡ world
              (resolve_addr c.cm_id (configured env config res) timeout_in_ms
                ∷ freeaddrinfo res
                ∷ getaddrinfo ip_addr port
                ∷ t)
              c)

  -- fs_rdma_create_ctx failed, and so no identifier was stored.
  abbrev pub NotCreated : Type 0
  NotCreated = (w1 : FsWorld) × (create_ctx env config w ≡ ok minus_one w1)

  abbrev pub ConnectEnds : Run FsWorld ℤ → Type 0
  ConnectEnds (ok r w') = Resolved r w'
  ConnectEnds (fault w') = LookupFailed env ip_addr port w' ⊎ NotCreated
  ConnectEnds (exited w') = OutOfMemory env config w'
  ConnectEnds (out_of_fuel w') = ⊥

  after_create : ℤ → Fs ℤ
  unfolding ◌>>=◌ created_id take_address
  after_create created = do
    found ← call_for (λ t k. (env.int_of t k, env.ptr_of t k)) (getaddrinfo ip_addr port)
    sin ← take_address env config (stored found)
    id ← created_id created
    call_for env.int_of (resolve_addr id sin timeout_in_ms)
