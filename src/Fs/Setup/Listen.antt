-- ===== src/Fs/Setup/Listen.antt =====
-- How fs_rdma_listen of src/c/transport.c ends.
use rdma_cpp.Common.{ℕ, ◌≡◌, inl, inr, refl, true, false, ◌∷◌, Bool-cases}
use rdma_cpp.Common.Cint.{ℤ, Ptr, is_neg}
use rdma_cpp.Common.Cmd.{Run, ok, fault, exited, out_of_fuel, ◌>>=◌}
use rdma_cpp.Fs.Config.{Config}
use rdma_cpp.Fs.Foreign.{getaddrinfo}
use rdma_cpp.Fs.Context.{Env, FsWorld, load_ctx}
use rdma_cpp.Fs.Setup.{take_address, listen_on}

-- A run of fs_rdma_listen from the state `w`.
module _ (env : Env) (ip_addr : Ptr) (port : ℕ) (w : FsWorld) where
  -- The result of the lookup, and the state after that call alone.
  abbrev lookup_ret : ℤ
  lookup_ret = env.int_of w.trace (getaddrinfo ip_addr port)

  abbrev only_looked_up : FsWorld
  only_looked_up = record w { trace = getaddrinfo ip_addr port ∷ w.trace }

  abbrev pub ListenEnds : Run FsWorld ℤ → Type 0
  ListenEnds (ok r w') = (is_neg lookup_ret ≡ true) × (r ≡ lookup_ret) × (w' ≡ only_looked_up)
  ListenEnds (fault w') = (is_neg lookup_ret ≡ false) × (w' ≡ only_looked_up)
  ListenEnds (exited w') = ⊥
  ListenEnds (out_of_fuel w') = ⊥

-- From any state fs_rdma_listen makes one call, the lookup, and never binds the identifier or
-- listens on it: where the lookup returns a negative number that is returned, with the context as
-- it was; everywhere else, also where the lookup succeeds, the code reads through `res`, which it
-- never set, and that is undefined behaviour.
pub listen_on-ListenEnds :
    (env : Env) (config : Config) (ip_addr : Ptr) (port : ℕ) (w : FsWorld)
    → ListenEnds env ip_addr port w (listen_on env config ip_addr port w)
unfolding listen_on take_address load_ctx ◌>>=◌
listen_on-ListenEnds env config ip_addr port w =
    elim (Bool-cases (is_neg (lookup_ret env ip_addr port w))) [
      | inl n ↦ rw n (n, refl, refl)
      | inr n ↦ rw n (n, refl)
    ]
