-- ===== src/Fs/Teardown/Effect.antt =====
-- What fs_rdma_teardown of src/c/transport.c does to a context and which calls it makes.
use rdma_cpp.Common.{
  ℕ, zero, suc, ◌<◌, ◌≡◌, true, refl, some, none, List, ◌∷◌, arith, if◌then◌else◌,
}
use rdma_cpp.Common.Cint.{pos, Ptr, null, is_null}
use rdma_cpp.Common.Cmd.{ok, fault, and_then, ◌>>=◌}
use rdma_cpp.Fs.Config.{Config}
use rdma_cpp.Fs.Foreign.{Call, destroy_qp, dereg_mr, free, destroy_cq, dealloc_pd, destroy_id}
use rdma_cpp.Fs.Context.{Array, null_array, Ctx, FsWorld, Fs}
use rdma_cpp.Fs.Teardown.{
  release_qp, release_mr, release_buf, release_rounds, release_cq, release_pd, release_cm_id,
  teardown,
}

abbrev pub world : List Call → Ctx → FsWorld
world t c = record { trace = t; mem = some c }

-- A call that is made only where the pointer is set.
abbrev pub call_if : Ptr → Call → List Call → List Call
call_if p k t = if is_null p then t else k ∷ t

abbrev pub cleared : Array → Array
cleared a = if is_null a.base then a else null_array

abbrev pub freed : ℕ → Array → Array
freed zero a = a
freed (suc n) a = cleared a

-- The effect of the rounds: those after the first find nothing left.
abbrev pub arrays_freed : ℕ → Ctx → Ctx
arrays_freed n c = record c { qp = freed n c.qp; mr = freed n c.mr; buf = freed n c.buf }

-- The calls of the rounds, for the identifier and the three arrays.
abbrev pub arrays_calls : ℕ → Ptr → (qp mr buf : Array) → List Call → List Call
arrays_calls zero id qp mr buf t = t
arrays_calls (suc n) id qp mr buf t =
    call_if buf.base (free buf.base)
      (call_if mr.base (dereg_mr mr.base) (call_if qp.base (destroy_qp id) t))

-- `NULL` is what the guarded pointers hold afterwards, set or not.
abbrev pub torn_down : ℕ → Ctx → Ctx
torn_down n c = record (arrays_freed n c) { cq = null; pd = null; cm_id = null }

abbrev pub teardown_calls : ℕ → Ctx → List Call → List Call
teardown_calls n c t = call_if c.cm_id (destroy_id c.cm_id) (
    call_if c.pd (dealloc_pd c.pd)
      (call_if c.cq (destroy_cq c.cq) (arrays_calls n c.cm_id c.qp c.mr c.buf t)))

module _ (t : List Call) (c : Ctx) where
  release_qp_lem :
      release_qp (world t c)
      ≡ ok tt (world (call_if c.qp.base (destroy_qp c.cm_id) t) (record c { qp = cleared c.qp }))
  unfolding release_qp
  release_qp_lem = ground arith

  release_mr_lem :
      release_mr (world t c)
      ≡ ok tt (world (call_if c.mr.base (dereg_mr c.mr.base) t) (record c { mr = cleared c.mr }))
  unfolding release_mr
  release_mr_lem = ground arith

  release_buf_lem :
      release_buf (world t c)
      ≡ ok tt (world (call_if c.buf.base (free c.buf.base) t) (record c { buf = cleared c.buf }))
  unfolding release_buf
  release_buf_lem = ground arith

  pub release_cq_lem :
      release_cq (world t c)
      ≡ ok tt (world (call_if c.cq (destroy_cq c.cq) t) (record c { cq = null }))
  unfolding release_cq
  release_cq_lem = ground arith

  pub release_pd_lem :
      release_pd (world t c)
      ≡ ok tt (world (call_if c.pd (dealloc_pd c.pd) t) (record c { pd = null }))
  unfolding release_pd
  release_pd_lem = ground arith

  release_cm_id_lem :
      release_cm_id (world t c)
      ≡ ok tt (world (call_if c.cm_id (destroy_id c.cm_id) t) (record c { cm_id = null }))
  unfolding release_cm_id
  release_cm_id_lem = ground arith

cleared-cleared : (a : Array) → cleared (cleared a) ≡ cleared a
cleared-cleared a = ground arith

-- A round that finds the arrays released does nothing, and so do those after it.
release_rounds_idle :
    (n : ℕ) (t : List Call) (c : Ctx)
    → is_null c.qp.base ≡ true
    → is_null c.mr.base ≡ true
    → is_null c.buf.base ≡ true
    → release_rounds n (world t c) ≡ ok tt (world t c)
unfolding release_rounds
release_rounds_idle zero t c q m b = refl
release_rounds_idle (suc n) t c q m b = rw (q, m, b) (release_rounds_idle n t c q m b)

is_null-cleared : (a : Array) → is_null (cleared a).base ≡ true
is_null-cleared a = ground arith

pub release_rounds_lem :
    (n : ℕ) (t : List Call) (c : Ctx)
    → release_rounds n (world t c)
      ≡ ok tt (world (arrays_calls n c.cm_id c.qp c.mr c.buf t) (arrays_freed n c))
unfolding release_rounds
release_rounds_lem zero t c = refl
release_rounds_lem (suc n) t c =
    rw (release_qp_lem, release_mr_lem, release_buf_lem)
      (release_rounds_idle n (arrays_calls 1 c.cm_id c.qp c.mr c.buf t) (arrays_freed 1 c)
        (is_null-cleared c.qp) (is_null-cleared c.mr) (is_null-cleared c.buf))

-- Without a context the code that follows the rounds faults.
pub release_rounds_null :
    (n : ℕ) (t : List Call) {A : Type 0} (k : Unit {0} → Fs A)
    → and_then (release_rounds n (record { trace = t; mem = none })) (λ _. release_cq >>= k)
      ≡ fault (record { trace = t; mem = none })
unfolding release_rounds release_cq
release_rounds_null zero t k = refl
release_rounds_null (suc n) t k = refl

-- On any context fs_rdma_teardown returns 0, makes just the calls of `teardown_calls` and leaves
-- the context `torn_down`: each of the pointers that are set is released once, the three arrays if
-- the number of queue pairs is above 0.
pub teardown_lem :
    (config : Config) (t : List Call) (c : Ctx)
    → teardown config (world t c)
      ≡ ok (pos 0) (world (teardown_calls config.qp_count c t) (torn_down config.qp_count c))
unfolding teardown
teardown_lem config t c =
    simp (release_rounds_lem, release_cq_lem, release_pd_lem, release_cm_id_lem)

pub freed-freed : (n : ℕ) (a : Array) → freed n (freed n a) ≡ freed n a
freed-freed zero a = refl
freed-freed (suc n) a = cleared-cleared a

pub arrays_calls-freed :
    (n : ℕ) (id : Ptr) (q m b : Array) (t : List Call)
    → arrays_calls n id (freed n q) (freed n m) (freed n b) t ≡ t
arrays_calls-freed zero id q m b t = refl
arrays_calls-freed (suc n) id q m b t = rw (is_null-cleared q, is_null-cleared m, is_null-cleared b)

pub is_null-freed : (n : ℕ) (a : Array) → 0 < n → is_null (freed n a).base ≡ true
is_null-freed zero a h = absurd (omega arith)
is_null-freed (suc n) a h = is_null-cleared a

pub ruleset freed_laws = (freed-freed, arrays_calls-freed)

-- On any context, fs_rdma_teardown twice is fs_rdma_teardown once: the second run makes no call and
-- changes nothing.
pub teardown_again :
    (config : Config) (t : List Call) (c : Ctx)
    → (teardown config >>= λ _. teardown config) (world t c) ≡ teardown config (world t c)
unfolding ◌>>=◌
teardown_again config t c = simp (teardown_lem, freed_laws)
