-- ===== src/Fs/Loop/Flag.antt =====
-- The flag `connected` under fs_rdma_cm_event_handler of src/c/transport.c.
use rdma_cpp.Common.{ℕ, ◌≡◌, refl, List, Option, none, some, arith}
use rdma_cpp.Common.Cint.{Ptr}
use rdma_cpp.Common.Cmd.{final}
use rdma_cpp.Fs.Config.{Config}
use rdma_cpp.Fs.Foreign.{Call}
use rdma_cpp.Fs.Context.{Ctx, Env}
use rdma_cpp.Fs.Frame.{Flag, Framed, Frame, log_frame}
use rdma_cpp.Fs.Frame.Round.{EventFrame, event_loop-Keeps}
use rdma_cpp.Fs.Loop.{EventPtr, event_loop}

abbrev AnyLog : List Call → Type 0
AnyLog _ = Unit {0}

abbrev IsUp : ℕ → Type 0
IsUp n = n ≡ 1

instance IsUp-Frame : Frame (Framed AnyLog IsUp)
IsUp-Frame = log_frame (λ k t q l. tt) (λ n h. refl)

instance IsUp-EventFrame : EventFrame (Framed AnyLog IsUp)
IsUp-EventFrame = record {
  get_call = λ ch w h. record { log = tt; flag = h.flag };
  ack_call = λ e w h. record { log = tt; flag = h.flag };
}

up : (m : Option Ctx) → Flag IsUp m → (c : Ctx) × (m ≡ some c) × (c.connected ≡ 1)
up none h = absurd (omega arith)
up (some c) h = (c, refl, h)

-- Nothing clears `connected`: once it is 1, it is 1 however long the handler runs and however the
-- run ends, through every disconnect and error event.
pub event_loop-connected :
    (env : Env) (config : Config) (channel : Ptr) (fuel : ℕ) (p : EventPtr) (t : List Call)
    (c : Ctx)
    → c.connected ≡ 1
    → (c' : Ctx) × ((final
          (event_loop env config channel fuel p (record { trace = t; mem = some c }))).mem
        ≡ some c')
      × (c'.connected ≡ 1)
event_loop-connected env config channel fuel p t c h =
    up _
      ((event_loop-Keeps {I = Framed AnyLog IsUp} env config channel fuel p).at
        (record { trace = t; mem = some c }) (record { log = tt; flag = h })).flag
