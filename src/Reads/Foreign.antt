-- ===== src/Reads/Foreign.antt =====
-- What fs_rdma_do_reads of src/c/transport.c calls outside the repository: buffers, memory, the
-- registration of memory, the references of a post, and ibv_post_send.
use rdma_cpp.Common.{ℕ, Bool, Option, List}
use rdma_cpp.Common.Cint.{ℤ, Ptr}

-- `fs_rdma_read_chunk_t`, with its `rc_target`
pub record ReadChunk : Type 0 where
  pub rc_discrim : ℕ
  pub rs_handle : ℕ
  pub rs_length : ℕ
  pub rs_offset : ℕ

-- `struct iovec`
pub record Iovec : Type 0 where
  pub iov_base : Ptr
  pub iov_len : ℕ

-- `struct ibv_sge`
pub record Sge : Type 0 where
  pub addr : Ptr
  pub length : ℕ
  pub lkey : ℕ

-- `enum ibv_wr_opcode`, by the names after `IBV_WR_`
pub data Opcode : Type 0 where
  rdma_write rdma_write_with_imm send send_with_imm : Opcode
  rdma_read atomic_cmp_and_swp atomic_fetch_and_add : Opcode

-- `struct ibv_send_wr`; of `send_flags`, whether `IBV_SEND_SIGNALED` alone is set. `sg_list` and
-- `next` are indices into the arrays that they point into.
pub record SendWr : Type 0 where
  pub wr_id : Ptr
  pub sg_list : ℕ
  pub next : Option ℕ
  pub num_sge : ℕ
  pub opcode : Opcode
  pub signaled : Bool
  pub remote_addr : ℕ
  pub rkey : ℕ

pub data PostCall : Type 0 where
  iobuf_get2 : (size : ℕ) → PostCall
  iobuf_unref : Ptr → PostCall
  iobref_new : PostCall
  iobref_add : (iobref iobuf : Ptr) → PostCall
  calloc_sge : ℕ → PostCall
  calloc_wr : ℕ → PostCall
  free : Ptr → PostCall
  register_mr : Iovec → PostCall
  post_ref : PostCall
  post_unref : PostCall
  post_send : List Sge → List SendWr → PostCall

-- The answers of that code, each chosen from the calls before.
pub record PostEnv : Type 0 where
  pub int_of : List PostCall → PostCall → ℤ
  pub ptr_of : List PostCall → PostCall → Ptr
  -- the index of the request that a failed ibv_post_send stores in `bad_wr`, if it stores one
  pub bad_wr_of : List PostCall → PostCall → Option ℕ
  -- `post->ctx.mr[post->ctx.mr_count - 1]->lkey`
  pub last_lkey : List PostCall → ℕ
  -- `iobuf_ptr`
  pub iobuf_ptr : Ptr → Ptr
