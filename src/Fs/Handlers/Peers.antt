-- ===== src/Fs/Handlers/Peers.antt =====
-- Connection set-up as the two peers see it: the handlers of src/c/transport.c in the order in
-- which librdmacm delivers the events.
use rdma_cpp.Common.{
  ℕ, ◌+◌, ◌≤◌, ◌≡◌, refl, ap, sym, ◌∙◌, subst, ◌⊎◌, inl, inr, Bool, true, false, some, none, List,
  ◌∷◌, arith, ◌==◌, if◌then◌else◌, Bool-cases, Option, count,
}
use rdma_cpp.Common.Cint.{ℤ, pos, minus_one, is_set, is_neg}
use rdma_cpp.Common.Cmd.{ok, final, Run, and_then-eq-ok, pure, call, ◌>>=◌, ◌>>◌}
use rdma_cpp.Fs.Config.{Config}
use rdma_cpp.Fs.Foreign.{Call, Event, disconnect, accept}
use rdma_cpp.Fs.Context.{Ctx, Env, FsWorld, Fs, load_ctx, update_ctx}
use rdma_cpp.Fs.Frame.{Frame, Flag, Framed, log_frame}
use rdma_cpp.Fs.Frame.Acquire.{create_resources-Keeps}
use rdma_cpp.Fs.Frame.Handle.{handle_connect_init-Keeps}
use rdma_cpp.Fs.Teardown.Effect.{world}
use rdma_cpp.Fs.Teardown.{handle_disconnect}
use rdma_cpp.Fs.Resources.{create_resources}
use rdma_cpp.Fs.Handlers.{handle_connect_init, handle_connect_request, conn_param}

-- fs_rdma_cm_handle_connect_init refuses a second connection and an event of another identifier.
abbrev pub refuses : Ctx → Event → Bool
refuses c e = if e.id == c.cm_id then c.connected == 1 else true

-- Given that the undeclared `ret` is not negative on entry: fs_rdma_cm_handle_connect_init
-- disconnects and leaves the context alone exactly where the context is connected already or the
-- event is of another identifier, and otherwise sets `connected` and makes no call.
pub handle_connect_init_lem :
    (env : Env) (e : Event) (t : List Call) (c : Ctx)
    → is_neg env.stale_ret ≡ false
    → handle_connect_init env e (world t c) ≡ (
        if refuses c e
        then ok minus_one (world (disconnect c.cm_id ∷ t) c)
        else ok env.stale_ret (world t (record c { connected = 1 })))
unfolding handle_connect_init
handle_connect_init_lem env e t c fine = elim (Bool-cases (e.id == c.cm_id)) [
  | inl same ↦ elim (Bool-cases (c.connected == 1)) [
    | inl again ↦ rw (same, again)
    | inr first ↦ rw (same, first, fine)
  ]
  | inr other ↦ rw other
]

abbrev pub is_disconnect : Call → Bool
is_disconnect (disconnect _) = true
is_disconnect _ = false

abbrev pub disconnects : FsWorld → ℕ
disconnects w = count is_disconnect w.trace

abbrev pub IsConnected : Option Ctx → Type 0
IsConnected none = ⊥
IsConnected (some c) = c.connected ≡ 1

-- A run of the handler disconnects, or leaves the context connected.
abbrev Outcome : ℕ → Run FsWorld ℤ → Type 0
Outcome n (ok r w) = (disconnects w ≡ n + 1) ⊎ ((disconnects w ≡ n) × IsConnected w.mem)
Outcome n _ = Unit {0}

branch-Outcome :
    (refused : Bool) (r : ℤ) (t : List Call) (c : Ctx)
    → Outcome (count is_disconnect t) (
        (if refused
            then (do call (disconnect c.cm_id); pure r)
            else (do update_ctx (λ c. record c { connected = 1 }); pure r))
          (world t c))
unfolding ◌>>=◌ update_ctx
branch-Outcome true r t c = inl (omega arith)
branch-Outcome false r t c = inr (refl, refl)

init-Outcome :
    (env : Env) (e : Event) (t : List Call) (m : Option Ctx)
    → Outcome (count is_disconnect t) (handle_connect_init env e (record { trace = t; mem = m }))
unfolding handle_connect_init
init-Outcome env e t none = tt
init-Outcome env e t (some c) = branch-Outcome _ _ t c

-- A context that is connected refuses whatever comes.
init-connected :
    (env : Env) (e : Event) (t : List Call) (c : Ctx)
    → c.connected ≡ 1
    → handle_connect_init env e (world t c) ≡ ok minus_one (world (disconnect c.cm_id ∷ t) c)
unfolding handle_connect_init
init-connected env e t c h =
    let again : (c.connected == 1) ≡ true = ground arith in
    elim (Bool-cases (e.id == c.cm_id)) [ inl same ↦ rw (same, again) | inr other ↦ rw other ]

-- No run undoes a disconnect.
abbrev AtLeast : ℕ → List Call → Type 0
AtLeast n t = n ≤ count is_disconnect t

abbrev AnyFlag : ℕ → Type 0
AnyFlag _ = Unit {0}

instance AtLeast-Frame : {n : ℕ} → Frame (Framed (AtLeast n) AnyFlag)
AtLeast-Frame = log_frame (λ k t q l. omega arith) (λ n h. tt)

any_flag_lem : (m : Option Ctx) → Flag AnyFlag m
any_flag_lem none = tt
any_flag_lem (some c) = tt

create_resources-disconnects :
    (env : Env) (config : Config) (w : FsWorld) {r : ℤ} {w' : FsWorld}
    → create_resources env config w ≡ ok r w'
    → disconnects w ≤ disconnects w'
create_resources-disconnects env config w h =
    subst (λ v. disconnects w ≤ disconnects v) (ap final h)
      ((create_resources-Keeps {I = Framed (AtLeast (disconnects w)) AnyFlag} env config).at w
        (record { log = omega arith; flag = any_flag_lem w.mem })).log

load_ctx-eq-ok :
    (t : List Call) (m : Option Ctx) {c : Ctx} {w : FsWorld}
    → load_ctx (record { trace = t; mem = m }) ≡ ok c w
    → record { trace = t; mem = m } ≡ w
unfolding load_ctx
load_ctx-eq-ok t none h = cc
load_ctx-eq-ok t (some c) h = cc

connected_disconnects :
    (env : Env) (e : Event) (t : List Call) (m : Option Ctx) {r : ℤ} {w' : FsWorld}
    → IsConnected m
    → handle_connect_init env e (record { trace = t; mem = m }) ≡ ok r w'
    → disconnects w' ≡ count is_disconnect t + 1
connected_disconnects env e t none h run = absurd h
connected_disconnects env e t (some c) h run =
    subst (λ v. disconnects v ≡ count is_disconnect t + 1)
      (ap final (sym (init-connected env e t c h) ∙ run)) (omega arith)

init-disconnects :
    (env : Env) (e : Event) (w : FsWorld) {r : ℤ} {w' : FsWorld}
    → handle_connect_init env e w ≡ ok r w'
    → disconnects w ≤ disconnects w'
init-disconnects env e w h =
    subst (λ v. disconnects w ≤ disconnects v) (ap final h)
      ((handle_connect_init-Keeps {I = Framed (AtLeast (disconnects w)) AnyFlag} env e).at w
        (record { log = omega arith; flag = any_flag_lem w.mem })).log

-- The second of two runs disconnects, if the first did not.
twice :
    (env : Env) (e : Event) (n : ℕ) (w w' : FsWorld) {r : ℤ}
    → (disconnects w ≡ n + 1) ⊎ ((disconnects w ≡ n) × IsConnected w.mem)
    → handle_connect_init env e w ≡ ok r w'
    → n + 1 ≤ disconnects w'
twice env e n w w' (inl done) h = omega (arith, init-disconnects env e w h)
twice env e n w w' (inr (same, up)) h =
    omega (arith, connected_disconnects env e w.trace w.mem up h)

-- `if (failed) { fs_rdma_cm_handle_disconnect (); return a; }`, where success was reported.
past_failure :
    (config : Config) (failed : ℤ → Bool) (a : ℤ) (rest : Fs ℤ) (w : FsWorld) {w' : FsWorld}
    → (if failed a then (do handle_disconnect config; pure a) else rest) w ≡ ok (pos 0) w'
    → failed (pos 0) ≡ false
    → rest w ≡ ok (pos 0) w'
unfolding ◌>>=◌
past_failure config failed a rest w h fine = elim (Bool-cases (failed a)) [
  | inl bad ↦
      let (u, w1, _, e) = and_then-eq-ok (handle_disconnect config w) (λ _. pure a) (rw bad at h) in
      let zero_result : a ≡ pos 0 = cc in cc (ap failed zero_result)
  | inr good ↦ rw good at h
]

-- A request that is accepted ends with a run of fs_rdma_cm_handle_connect_init.
accepted :
    (env : Env) (config : Config) (e : Event) (w : FsWorld) {w1 : FsWorld}
    → handle_connect_request env config e w ≡ ok (pos 0) w1
    → (w0 : FsWorld) × (i : ℤ) × (disconnects w ≤ disconnects w0)
      × (handle_connect_init env e w0 ≡ ok i w1)
unfolding handle_connect_request
accepted env config e w h =
    let (ret, wa, made, h1) = and_then-eq-ok (create_resources env config w) _ h in
    let h2 = past_failure config is_set ret _ wa h1 refl in
    let (c, wb, loaded, h3) = and_then-eq-ok (load_ctx wa) _ h2 in
    let k = accept c.cm_id (conn_param config) in
    let wc : FsWorld = record wb { trace = k ∷ wb.trace } in
    let h4 = past_failure config is_neg (env.int_of wb.trace k) _ wc h3 refl in
    let (i, wd, ran, done) = and_then-eq-ok (handle_connect_init env e wc) _ h4 in
    let grows : disconnects w ≤ disconnects wa = create_resources-disconnects env config w made in
    let same = ap disconnects (load_ctx-eq-ok wa.trace wa.mem loaded) in
    (wc, i, omega (arith, grows, same), ran ∙ ap (ok i) (ap final done))

-- A server never stays connected: when fs_rdma_cm_handle_connect_request has accepted a request
-- and the next ESTABLISHED event is handled without a fault, rdma_disconnect has been called,
-- whatever the libraries answer and whichever identifiers the two events carry.
pub server_disconnects :
    (env : Env) (config : Config) (request established : Event) (w w1 w2 : FsWorld) {r : ℤ}
    → handle_connect_request env config request w ≡ ok (pos 0) w1
    → handle_connect_init env established w1 ≡ ok r w2
    → disconnects w + 1 ≤ disconnects w2
server_disconnects env config request established w w1 w2 h1 h2 =
    let (w0, i, grows, ran) = accepted env config request w h1 in
    let o : Outcome (disconnects w0) (ok i w1) =
      subst (Outcome (disconnects w0)) ran (init-Outcome env request w0.trace w0.mem) in
    omega (arith, grows, twice env established (disconnects w0) w1 w2 o h2)
