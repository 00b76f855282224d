-- ===== src/Reads/Tests.antt =====
-- Concrete runs of fs_rdma_do_reads of src/c/transport.c.
use rdma_cpp.Common.{ℕ, ◌+◌, ◌≡◌, ◌⊎◌, refl, true, Option, none, some, List, [], ◌∷◌, length, arith}
use rdma_cpp.Common.Cint.{ℤ, pos, minus_one}
use rdma_cpp.Common.Cmd.{ok, final, ◌>>=◌}
use rdma_cpp.Reads.Foreign.{Sge, rdma_read, SendWr, ReadChunk, Iovec, PostEnv, PostCall, post_send}
use rdma_cpp.Reads.{PostWorld, measure, build, push_vector, do_reads}
use rdma_cpp.Reads.Tiles.{tiles, targets, local_parts, remote_parts, build-tiles}
use rdma_cpp.Reads.Posts.{AllWithin, do_reads-AllWithin}
use rdma_cpp.Reads.Balance.{NamesBadWr, Owes}
use rdma_cpp.Reads.Refs.{do_reads-Owes}

abbrev refused : PostCall → ℤ
refused (post_send _ _) = pos 22
refused _ = pos 0

abbrev last_request : PostCall → Option ℕ
last_request (post_send _ (w ∷ ws)) = some (length ws)
last_request _ = none

-- ibv_post_send accepts all requests but the last.
abbrev last_refused : PostEnv
last_refused = record {
  int_of = λ t k. refused k;
  ptr_of = λ t k. 100 + length t;
  bad_wr_of = λ t k. last_request k;
  last_lkey = λ t. length t;
  iobuf_ptr = λ b. b + 1000;
}

last_refused-NamesBadWr : NamesBadWr last_refused
last_refused-NamesBadWr t sges [] b h = cc
last_refused-NamesBadWr t sges (w ∷ ws) b h = let same : length ws ≡ b = cc h in omega (arith, same)

abbrev two_chunks : List ReadChunk
two_chunks =
    record { rc_discrim = 1; rs_handle = 5; rs_length = 64; rs_offset = 4096 }
    ∷ record { rc_discrim = 1; rs_handle = 6; rs_length = 32; rs_offset = 8192 }
    ∷ record { rc_discrim = 0; rs_handle = 0; rs_length = 0; rs_offset = 0 }
    ∷ []

abbrev no_vec : Iovec
no_vec = record { iov_base = 0; iov_len = 0 }

abbrev new_post : PostWorld
new_post = record {
  trace = [];
  mem = record { fs_rdma_reads = 0; iobref = 0; count = 0; vector = no_vec ∷ no_vec ∷ no_vec ∷ [] };
}

do_reads-Owes_example :
    (ret : ℤ) × (w' : PostWorld) × (do_reads last_refused true 7 two_chunks new_post ≡ ok ret w')
    × (((ret ≡ pos 0) ⊎ (ret ≡ minus_one)) × Owes last_refused 0 w')
unfolding measure
do_reads-Owes_example =
    do_reads-Owes last_refused true 7 two_chunks 2 96 new_post last_refused-NamesBadWr refl
      (omega arith) refl

-- The second loop on the two chunks, from the buffer at 1000.
abbrev two_sges : List Sge
two_sges =
    record { addr = 1000; length = 64; lkey = 1 }
    ∷ record { addr = 1064; length = 32; lkey = 3 }
    ∷ []

abbrev two_requests : List SendWr
two_requests =
    record {
      wr_id = 7;
      sg_list = 0;
      next = some 1;
      num_sge = 1;
      opcode = rdma_read;
      signaled = true;
      remote_addr = 4096;
      rkey = 5;
    }
    ∷ record {
      wr_id = 7;
      sg_list = 1;
      next = some 2;
      num_sge = 1;
      opcode = rdma_read;
      signaled = true;
      remote_addr = 8192;
      rkey = 6;
    }
    ∷ []

build-tiles_example :
    (local_parts two_sges ≡ tiles 1000 two_chunks)
    × (remote_parts two_requests ≡ targets two_chunks)
unfolding build push_vector ◌>>=◌
build-tiles_example =
    build-tiles last_refused 7 two_chunks 1000 new_post
      (final (build last_refused 7 two_chunks 0 1000 [] [] 0 new_post)) {list = two_sges}
      {wr = two_requests} {total_ref = 2} refl

do_reads-AllWithin_example :
    AllWithin last_refused (final (do_reads last_refused true 7 two_chunks new_post)).trace
do_reads-AllWithin_example =
    do_reads-AllWithin last_refused true 7 two_chunks new_post (omega arith) tt

-- Nothing fails.
abbrev willing : PostEnv
willing = record last_refused { int_of = λ t k. pos 0; ptr_of = λ t k. 100 }
