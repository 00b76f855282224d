-- ===== src/Fs/Resources/Failure.antt =====
-- What fs_rdma_create_resources of src/c/transport.c leaves behind when it fails.
use rdma_cpp.Common.{ℕ, ◌<◌, ap, sym, subst, ◌∙◌, ◌≡◌, refl, true, Option, none, some, List, arith}
use rdma_cpp.Common.Cint.{pos, minus_one, null, is_null}
use rdma_cpp.Common.Cmd.{ok, fault, final, and_then-eq-ok, ◌>>=◌}
use rdma_cpp.Fs.Config.{Config}
use rdma_cpp.Fs.Foreign.{Call, destroy_cq, dealloc_pd, close_device, destroy_id}
use rdma_cpp.Fs.Context.{Ctx, Env, FsWorld}
use rdma_cpp.Fs.Teardown.{release_pd, teardown}
use rdma_cpp.Fs.Teardown.Effect.{
  world, call_if, arrays_calls, arrays_freed, release_rounds_lem, release_cq_lem, release_pd_lem,
  teardown_lem, release_rounds_null, freed_laws, is_null-freed,
}
use rdma_cpp.Fs.Resources.Stages.{Flow, go_on, goto_out, return_null, acquire}
use rdma_cpp.Fs.Resources.{release_content, release_all, settle, create_resources}

abbrev pub released : ℕ → Ctx → Ctx
released n c = record (arrays_freed n c) { cq = null; pd = null; content = null }

abbrev pub released_calls : ℕ → Ctx → List Call → List Call
released_calls n c t = call_if c.content (close_device c.content) (
    call_if c.pd (dealloc_pd c.pd)
      (call_if c.cq (destroy_cq c.cq) (arrays_calls n c.cm_id c.qp c.mr c.buf t)))

release_content_lem :
    (t : List Call) (c : Ctx)
    → release_content (world t c)
      ≡ ok tt (world (call_if c.content (close_device c.content) t) (record c { content = null }))
unfolding release_content
release_content_lem t c = ground arith

pub release_all_lem :
    (config : Config) (t : List Call) (c : Ctx)
    → release_all config (world t c)
      ≡ ok tt (world (released_calls config.qp_count c t) (released config.qp_count c))
unfolding release_all
release_all_lem config t c =
    simp (release_rounds_lem, release_cq_lem, release_pd_lem, release_content_lem)

-- After the release only the identifier is left for fs_rdma_teardown.
teardown-released :
    (config : Config) (t : List Call) (c : Ctx)
    → teardown config (world t (released config.qp_count c))
      ≡ ok (pos 0) (
          world
            (call_if c.cm_id (destroy_id c.cm_id) t)
            (record (released config.qp_count c) { cm_id = null }))
teardown-released config t c = simp (teardown_lem, freed_laws)

-- What a failed run leaves: a context, in which the pointers that the cleanup tests are `NULL`.
pub record IsReleased (config : Config) (w : FsWorld) (c : Ctx) : Type 0 where
  pub held : w.mem ≡ some c
  pub pd : c.pd ≡ null
  pub cq : c.cq ≡ null
  pub content : c.content ≡ null
  pub qp : 0 < config.qp_count → is_null c.qp.base ≡ true
  pub mr : 0 < config.qp_count → is_null c.mr.base ≡ true
  pub buf : 0 < config.qp_count → is_null c.buf.base ≡ true

-- fs_rdma_teardown then destroys the identifier if there is one, and makes no other call.
abbrev pub OnlyIdLeft : Config → FsWorld → Ctx → Type 0
OnlyIdLeft config w c =
    (c' : Ctx) × (teardown config w
      ≡ ok (pos 0) (world (call_if c.cm_id (destroy_id c.cm_id) w.trace) c'))

abbrev pub LeftReleased : Config → FsWorld → Type 0
LeftReleased config w = (c : Ctx) × IsReleased config w c × OnlyIdLeft config w c

released-LeftReleased :
    (config : Config) (t : List Call) (c : Ctx)
    → LeftReleased config (world t (released config.qp_count c))
released-LeftReleased config t c = (
  released config.qp_count c,
  record {
    held = refl;
    pd = refl;
    cq = refl;
    content = refl;
    qp = is_null-freed config.qp_count c.qp;
    mr = is_null-freed config.qp_count c.mr;
    buf = is_null-freed config.qp_count c.buf;
  },
  (_, teardown-released config t c),
)

release_all_null :
    (config : Config) (t : List Call)
    → release_all config (record { trace = t; mem = none })
      ≡ fault (record { trace = t; mem = none })
unfolding release_all
release_all_null config t =
    release_rounds_null config.qp_count t (λ _. release_pd >>= λ _. release_content)

settle_released :
    (config : Config) (t : List Call) (m : Option Ctx) {w' : FsWorld}
    → settle config goto_out (record { trace = t; mem = m }) ≡ ok minus_one w'
    → LeftReleased config w'
unfolding settle
settle_released config t none h = cc (rw release_all_null at h)
settle_released config t (some c) {w'} h =
    subst (LeftReleased config) (ap final (sym settled ∙ h))
      (released-LeftReleased config (released_calls config.qp_count c t) c)
  where
    settled :
        settle config goto_out (world t c)
        ≡ ok minus_one (world (released_calls config.qp_count c t) (released config.qp_count c))
    settled = simp release_all_lem

settle_failed :
    (config : Config) (f : Flow) (w : FsWorld) {w' : FsWorld}
    → settle config f w ≡ ok minus_one w'
    → LeftReleased config w'
unfolding settle
settle_failed config go_on w h = cc
settle_failed config goto_out w h = settle_released config w.trace w.mem h
settle_failed config return_null w h = cc

-- Whenever fs_rdma_create_resources returns -1, whatever failed in it: the protection domain and
-- the fields `cq` and `content` are `NULL`, and so are the three arrays if there is a queue pair
-- to make; and fs_rdma_teardown, which every caller runs next, calls nothing but rdma_destroy_id.
pub create_resources-LeftReleased :
    (env : Env) (config : Config) (w w' : FsWorld)
    → create_resources env config w ≡ ok minus_one w'
    → LeftReleased config w'
unfolding create_resources
create_resources-LeftReleased env config w w' h =
    let (f, w1, _, settled) = and_then-eq-ok (acquire env config w) (settle config) h in
    settle_failed config f w1 settled
