-- ===== src/Reads.antt =====
-- fs_rdma_do_reads of src/c/transport.c.
pub mod Foreign
mod Balance
mod Build
mod Tiles
mod Bounds
mod Chain
mod Log
mod Posts
mod Post
mod Refs
mod Walk
mod Gather
mod Success
mod Delivers
mod Tests
use rdma_cpp.Common.{
  ℕ, zero, suc, ◌+◌, ◌-◌, ◌%◌, ◌^◌, Bool, true, false, Option, none, some, List, [], ◌∷◌, ◌++◌, ltb,
  ◌==◌, length, set, if◌then◌else◌,
}
use rdma_cpp.Common.Cint.{ℤ, pos, minus_one, is_set, is_minus_one, Ptr, null, is_null}
use rdma_cpp.Common.Cmd.{
  World, Cmd, pure, crash, call, call_for, observe, get_mem, put_mem, ◌>>=◌, ◌>>◌,
}
use Foreign.{
  ReadChunk, Iovec, Sge, rdma_read, SendWr, PostEnv, PostCall, iobuf_get2, iobuf_unref, iobref_new,
  iobref_add, calloc_sge, calloc_wr, free, register_mr, post_ref, post_unref, post_send,
}

-- `post->ctx`: `vector` is an array in it, whose size the repository does not fix.
pub record PostCtx : Type 0 where
  pub fs_rdma_reads : ℕ
  pub iobref : Ptr
  pub count : ℕ
  pub vector : List Iovec

abbrev pub PostWorld : Type 0
PostWorld = World PostCall PostCtx

abbrev pub Post : Type 0 → Type 0
Post A = Cmd PostWorld A

-- The first loop: how many chunks stand before the one that ends the array, and their length in
-- all, a `size_t`. An array with no end is read past its last chunk, and there is `none`.
unfoldable measure : List ReadChunk → ℕ → ℕ → Option (ℕ × ℕ)
measure [] i size = none
measure (c ∷ cs) i size =
    if c.rc_discrim == 0 then some (i, size) else measure cs (i + 1) ((size + c.rs_length) % 2 ^ 64)

-- What the code has in its variables at the label `out`.
pub record Out : Type 0 where
  pub ret : ℤ
  pub list : Ptr
  pub wr : Ptr
  pub total_ref : ℕ
  pub iobuf : Ptr

abbrev pub fail : Ptr → Ptr → ℕ → Out
fail list wr total_ref = record {
  ret = minus_one;
  list = list;
  wr = wr;
  total_ref = total_ref;
  iobuf = null;
}

-- What the second loop makes: the arrays `list` and `wr` with the chunks so far, or a failed
-- registration. Entry `i` is filled in round `i`.
pub data Built : Type 0 where
  built : (list : List Sge) (wr : List SendWr) (total_ref : ℕ) → Built
  unregistered : (total_ref : ℕ) → Built

-- `count = post->ctx.count++; post->ctx.vector[count] = …`, out of bounds undefined behaviour
unfoldable push_vector : Iovec → Post (Unit {0})
push_vector v = do
  p ← get_mem
  if ltb p.count (length p.vector)
      then put_mem (record p { count = p.count + 1; vector = set p.vector p.count v })
      else crash

-- `list[i]`, whose `length` is a `uint32_t`
abbrev pub sge : Iovec → ℕ → Sge
sge v lkey = record { addr = v.iov_base; length = v.iov_len % 2 ^ 32; lkey = lkey }

-- `wr[i]`; its `next` is `&wr[i + 1]`, and its `sg_list` is `&list[i]`.
abbrev pub read_wr : ℕ → Ptr → ReadChunk → SendWr
read_wr i post c = record {
  wr_id = post;
  sg_list = i;
  next = some (i + 1);
  num_sge = 1;
  opcode = rdma_read;
  signaled = true;
  remote_addr = c.rs_offset;
  rkey = c.rs_handle;
}

-- The second loop, over the chunks from `readch[i]` on.
unfoldable build :
    PostEnv
    → (post : Ptr) → List ReadChunk
    → (i : ℕ) → (ptr : Ptr) → List Sge
    → List SendWr
    → ℕ
    → Post Built
build env post [] i ptr list wr total_ref = crash
build env post (c ∷ cs) i ptr list wr total_ref =
    let v : Iovec = record { iov_base = ptr; iov_len = c.rs_length } in
    let round = (do
      push_vector v
      ret ← call_for env.int_of (register_mr v)
      if is_minus_one ret then pure (unregistered total_ref) else do
        lkey ← observe env.last_lkey
        call post_ref
        build env post cs (i + 1) (ptr + c.rs_length) (list ++ sge v lkey ∷ [])
            (wr ++ read_wr i post c ∷ []) (total_ref + 1)) in
    if c.rc_discrim == 0 then pure (built list wr total_ref) else round

-- `wr[i - 1].next = NULL`
unfoldable end_chain : List SendWr → List SendWr
end_chain [] = []
end_chain (w ∷ []) = record w { next = none } ∷ []
end_chain (w ∷ v ∷ ws) = w ∷ end_chain (v ∷ ws)

-- The loop after a failed post: a reference less for each request before `bad_wr`.
unfoldable forget_posted : (i reads bad_wr total_ref : ℕ) → ℕ
forget_posted i zero bad_wr total_ref = total_ref
forget_posted i (suc n) bad_wr total_ref =
    if i == bad_wr then total_ref else forget_posted (i + 1) n bad_wr (total_ref - 1)

-- What a failed ibv_post_send leads to.
abbrev after_failed : (list wr : Ptr) → (reads total_ref : ℕ) → (bad_wr : Option ℕ) → Out
after_failed list wr reads total_ref none = fail list wr total_ref
after_failed list wr reads total_ref (some bad) = fail list wr (forget_posted 0 reads bad total_ref)

-- The result of ibv_post_send, and what it has stored in `bad_wr`.
abbrev post_result : PostEnv → List PostCall → PostCall → ℤ × Option ℕ
post_result env t k = (env.int_of t k, env.bad_wr_of t k)

-- From the end of the second loop to `unlock`.
unfoldable post_list : PostEnv → (list wr : Ptr) → Built → Post Out
post_list env list wr (unregistered total_ref) = pure (fail list wr total_ref)
post_list env list wr (built sges wrs total_ref) = do
  got ← call_for (post_result env) (post_send sges (end_chain wrs))
  p ← get_mem
  pure (
      if is_set (got.0)
      then after_failed list wr p.fs_rdma_reads total_ref (got.1)
      else record { ret = got.0; list = list; wr = wr; total_ref = total_ref; iobuf = null })

-- The block that ends at `unlock`, with `ptr` at the data of the buffer.
unfoldable issue : PostEnv → Bool → (post : Ptr) → List ReadChunk → ℕ → (ptr : Ptr) → Post Out
issue env connected post readch n ptr =
    if connected
    then (do
      list ← call_for env.ptr_of (calloc_sge n)
      if is_null list then pure (fail null null 0) else do
        wr ← call_for env.ptr_of (calloc_wr n)
        if is_null wr
            then pure (fail list null 0)
            else do made ← build env post readch 0 ptr [] [] 0; post_list env list wr made)
    else pure (fail null null 0)

-- `while (total_ref-- > 0) fs_rdma_post_unref (post);`
unfoldable unref_posts : ℕ → Post (Unit {0})
unref_posts zero = pure tt
unref_posts (suc n) = do call post_unref; unref_posts n

-- `if (p) …`
abbrev unless_null : Ptr → Post (Unit {0}) → Post (Unit {0})
unless_null p m = if is_null p then pure tt else m

-- From `out` to the end.
unfoldable finish : Out → Post ℤ
finish o = do
  unless_null o.list (call (free o.list))
  unless_null o.wr (call (free o.wr))
  if is_minus_one o.ret
      then (do unref_posts o.total_ref; unless_null o.iobuf (call (iobuf_unref o.iobuf)))
      else pure tt
  pure o.ret

-- `post->ctx.iobref`, made when there is none; `NULL` when it cannot be made.
unfoldable take_iobref : PostEnv → Post Ptr
take_iobref env = do
  p ← get_mem
  if is_null p.iobref
      then (do
        made ← call_for env.ptr_of iobref_new
        put_mem (record p { iobref = made })
        pure made)
      else pure p.iobref

-- The part between the first loop and `out`, where there are `n` chunks of `size` bytes.
unfoldable read_chunks : PostEnv → Bool → (post : Ptr) → List ReadChunk → (n size : ℕ) → Post Out
read_chunks env connected post readch n size = if n == 0 then pure (fail null null 0) else do
  p ← get_mem
  put_mem (record p { fs_rdma_reads = n })
  iobuf ← call_for env.ptr_of (iobuf_get2 size)
  if is_null iobuf then pure (fail null null 0) else do
    iobref ← take_iobref env
    if is_null iobref then (do call (iobuf_unref iobuf); pure (fail null null 0)) else do
      call (iobref_add iobref iobuf)
      call (iobuf_unref iobuf)
      issue env connected post readch n (env.iobuf_ptr iobuf)

-- What the first loop leads to; an array with no end is read past its last chunk.
abbrev read_measured : PostEnv → Bool → Ptr → List ReadChunk → Option (ℕ × ℕ) → Post Out
read_measured env connected post readch none = crash
read_measured env connected post readch (some (n, size)) =
    read_chunks env connected post readch n size

-- fs_rdma_do_reads, of a peer that is `connected` or not.
unfoldable do_reads : PostEnv → Bool → (post : Ptr) → List ReadChunk → Post ℤ
do_reads env connected post readch = do
  o ← read_measured env connected post readch (measure readch 0 0)
  finish o
