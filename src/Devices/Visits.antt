-- ===== src/Devices/Visits.antt =====
-- The devices that hrd_ibv_devinfo of src/c/device.c opens and closes.
use rdma_cpp.Common.{
  ℕ, ◌+◌, ◌≡◌, ◌⊎◌, inl, inr, refl, ap, ◌∙◌, true, some, List, [], ◌∷◌, ◌++◌, length, length-append,
  get_elem?, Bool-cases, arith, if◌then◌else◌,
}
use rdma_cpp.Common.Cint.{pos, Ptr, is_null, is_set}
use rdma_cpp.Common.Cmd.{
  Run, ok, fault, exited, out_of_fuel, Cmd, and_then, pure, leave, call, call_for, ◌>>=◌,
}
use rdma_cpp.Devices.Info.{
  InfoCall, get_devices, open_device, query_device, close_device, free_devices, InfoEnv, InfoWorld,
  show_device, show_devices, hrd_ibv_devinfo,
}

-- The devices that were opened, the contexts that came of it, and the contexts that were closed,
-- newest first.
abbrev pub opened_devices : List InfoCall → List Ptr
opened_devices [] = []
opened_devices (open_device d ∷ t) = d ∷ opened_devices t
opened_devices (k ∷ t) = opened_devices t

abbrev pub opened_contexts : InfoEnv → List InfoCall → List Ptr
opened_contexts env [] = []
opened_contexts env (open_device d ∷ t) =
    if is_null (env.ptr_of t (open_device d))
    then opened_contexts env t
    else env.ptr_of t (open_device d) ∷ opened_contexts env t
opened_contexts env (k ∷ t) = opened_contexts env t

abbrev pub closed_contexts : List InfoCall → List Ptr
closed_contexts [] = []
closed_contexts (close_device c ∷ t) = c ∷ closed_contexts t
closed_contexts (k ∷ t) = closed_contexts t

-- Every context that was opened is closed, in order, and `visited` were opened.
record AllClosed (env : InfoEnv) (visited : List Ptr) (t : List InfoCall) : Type 0 where
  devices : opened_devices t ≡ visited
  contexts : closed_contexts t ≡ opened_contexts env t

-- The same but for one context, if any, that is still open.
abbrev pub OneOpen : InfoEnv → List InfoCall → Type 0
OneOpen env t =
    (closed_contexts t ≡ opened_contexts env t)
    ⊎ ((c : Ptr) × (c ∷ closed_contexts t ≡ opened_contexts env t))

-- The newest call is that of a device that could not be opened, or not be queried.
abbrev pub LastFailed : InfoEnv → List InfoCall → Type 0
LastFailed env (open_device d ∷ t) = is_null (env.ptr_of t (open_device d)) ≡ true
LastFailed env (query_device c ∷ t) = is_set (env.int_of t (query_device c)) ≡ true
LastFailed env _ = ⊥

abbrev Shown : InfoEnv → (visited : List Ptr) → {A : Type 0} → Run InfoWorld A → Type 0
Shown env visited (ok a w) = AllClosed env visited w.trace
Shown env visited (fault w) = ⊥
Shown env visited (exited w) = LastFailed env w.trace × OneOpen env w.trace
Shown env visited (out_of_fuel w) = ⊥

show_device_lem :
    (env : InfoEnv) (visited : List Ptr) (d : Ptr) (w : InfoWorld)
    → AllClosed env visited w.trace
    → Shown env (d ∷ visited) (show_device env d w)
unfolding show_device call call_for leave ◌>>=◌
show_device_lem env visited d w h =
    elim (Bool-cases (is_null (env.ptr_of w.trace (open_device d)))) [
      | inl z ↦ rw z (z, inl (rw z h.contexts))
      | inr z ↦
          let ctx = env.ptr_of w.trace (open_device d) in
          elim (Bool-cases (is_set (env.int_of (open_device d ∷ w.trace) (query_device ctx)))) [
            | inl f ↦ rw (z, f) (f, inr (ctx, rw z (ap (λ cs. ctx ∷ cs) h.contexts)))
            | inr f ↦
                rw (z, f)
                  (record {
                    devices = ap (λ ds. d ∷ ds) h.devices;
                    contexts = rw z (ap (λ cs. ctx ∷ cs) h.contexts);
                  })
          ]
    ]

-- `visited` after the devices of a list, one after another.
abbrev pub visit : List Ptr → List Ptr → List Ptr
visit [] visited = visited
visit (d ∷ ds) visited = visit ds (d ∷ visited)

get_elem?-append :
    (before : List Ptr) (d : Ptr) (rest : List Ptr)
    → get_elem? (before ++ d ∷ rest) (length before) ≡ some d
get_elem?-append [] d rest = refl
get_elem?-append (x ∷ before) d rest = get_elem?-append before d rest

append-snoc :
    (before : List Ptr) (d : Ptr) (rest : List Ptr)
    → before ++ d ∷ rest ≡ (before ++ d ∷ []) ++ rest
append-snoc [] d rest = refl
append-snoc (x ∷ before) d rest = ap (λ ds. x ∷ ds) (append-snoc before d rest)

and_then-Shown :
    (env : InfoEnv) {A B : Type 0} {visited : List Ptr} (more : List Ptr) (r : Run InfoWorld A)
    (k : A → Cmd InfoWorld B)
    → Shown env visited r
    → ((a : A) (w : InfoWorld) → AllClosed env visited w.trace → Shown env more (k a w))
    → Shown env more (and_then r k)
and_then-Shown env more (ok a w) k h next = next a w h
and_then-Shown env more (fault w) k h next = absurd h
and_then-Shown env more (exited w) k h next = h
and_then-Shown env more (out_of_fuel w) k h next = absurd h

show_devices_lem :
    (env : InfoEnv) (rest before ds : List Ptr) (i : ℕ) (visited : List Ptr) (w : InfoWorld)
    → ds ≡ before ++ rest
    → i ≡ length before
    → AllClosed env visited w.trace
    → Shown env (visit rest visited) (show_devices env ds i (length rest) w)
unfolding show_devices pure ◌>>=◌
show_devices_lem env [] before ds i visited w e at h = h
show_devices_lem env (d ∷ rest) before ds i visited w e at h =
    let found : get_elem? ds i ≡ some d = rw (e, at) (get_elem?-append before d rest) in
    rw found (
      and_then-Shown env (visit rest (d ∷ visited)) (show_device env d w) _
        (show_device_lem env visited d w h)
        (λ _ w2 h2.
          show_devices_lem env rest (before ++ d ∷ []) ds (i + 1) (d ∷ visited) w2
            (e ∙ append-snoc before d rest) (omega (arith, length-append before (d ∷ []), at)) h2))

-- How hrd_ibv_devinfo may end on a list of devices.
abbrev pub InfoEnds : InfoEnv → List Ptr → {A : Type 0} → Run InfoWorld A → Type 0
InfoEnds env ds (ok a w) =
    (opened_devices w.trace ≡ visit ds []) × (closed_contexts w.trace ≡ opened_contexts env w.trace)
InfoEnds env ds (fault w) = ⊥
InfoEnds env ds (exited w) = LastFailed env w.trace × OneOpen env w.trace
InfoEnds env ds (out_of_fuel w) = ⊥

-- Where ibv_get_device_list returns an array and counts what is in it, hrd_ibv_devinfo never reads
-- past the array. It returns where every device can be opened and queried: it ends the process only
-- right after a device that could not be, and then all contexts are closed, or all but the newest.
-- Where it returns, it has opened each device once and in order, and has closed every context.
pub hrd_ibv_devinfo-InfoEnds :
    (env : InfoEnv) (ds : List Ptr)
    → env.listing_of [] get_devices ≡ record { devices = some ds; num_devices = pos (length ds) }
    → InfoEnds env ds (hrd_ibv_devinfo env (record { trace = []; mem = tt }))
unfolding hrd_ibv_devinfo call call_for ◌>>=◌
hrd_ibv_devinfo-InfoEnds env ds listed = rw listed (
    ends _ (
      show_devices_lem env ds [] ds 0 [] (record { trace = get_devices ∷ []; mem = tt }) refl refl
        (record { devices = refl; contexts = refl })))
  where
    ends :
        (r : Run InfoWorld (Unit {0}))
        → Shown env (visit ds []) r
        → InfoEnds env ds (and_then r (λ _. call free_devices))
    ends (ok a w) h = (h.devices, h.contexts)
    ends (fault w) h = h
    ends (exited w) h = h
    ends (out_of_fuel w) h = h
