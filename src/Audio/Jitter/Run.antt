-- ===== src/Audio/Jitter/Run.antt =====
-- internal/audio/jitter.go: runs of pushes and pops, on the code and on the specification.
use opencom.Base.{ℕ, ◌≡◌, refl, Bool, true, Option, none, List, [], ◌∷◌, map, ap}
use opencom.Audio.Jitter.{u16, Packet, JitterBuffer, push, pop}
use opencom.Audio.Jitter.Ideal.{IsValid, Near, ideal_push, ideal_pop}
use opencom.Audio.Jitter.Window.{ideal_push-IsValid, ideal_pop-IsValid}
use opencom.Audio.Jitter.Wrap.{wrap}
use opencom.Audio.Jitter.Refines.{push-wrap, pop-wrap, wrap_result}

-- The network read loop pushes, the playback ticker pops.
pub data Op : Type 0 where
  arrive : ℕ → Packet → Op
  tick : Op

-- A frame, or silence, for each tick; `arrive` gives nothing.
abbrev pub emit : Op → JitterBuffer × Option Packet → List (Option Packet) → List (Option Packet)
emit (arrive _ _) _ out = out
emit tick (_, frame) out = frame ∷ out

unfoldable pub step : Op → JitterBuffer → JitterBuffer × Option Packet
step (arrive seq pkt) jb = ((push seq pkt jb).0, none)
step tick jb = pop jb

unfoldable pub run : List Op → JitterBuffer → JitterBuffer × List (Option Packet)
run [] jb = (jb, [])
run (op ∷ ops) jb = let r = step op jb in let (end, out) = run ops r.0 in (end, emit op r out)

unfoldable pub ideal_step : Op → JitterBuffer → JitterBuffer × Option Packet
ideal_step (arrive seq pkt) b = ((ideal_push seq pkt b).0, none)
ideal_step tick b = ideal_pop b

unfoldable pub ideal_run : List Op → JitterBuffer → JitterBuffer × List (Option Packet)
ideal_run [] b = (b, [])
ideal_run (op ∷ ops) b =
    let r = ideal_step op b in let (end, out) = ideal_run ops r.0 in (end, emit op r out)

-- The operation as the 16-bit code sees it.
abbrev pub wrap_op : Op → Op
wrap_op (arrive seq pkt) = arrive (u16 seq) pkt
wrap_op tick = tick

-- A frame arrives close enough to the frame that is due for 16 bits to place it.
abbrev pub Timely : Op → JitterBuffer → Type 0
Timely (arrive seq _) b = b.has_next ≡ true → Near b.next_out seq
Timely tick b = Unit

abbrev pub AllTimely : List Op → JitterBuffer → Type 0
AllTimely [] b = Unit
AllTimely (op ∷ ops) b = Timely op b × AllTimely ops (ideal_step op b).0

pub ideal_step-IsValid :
    (op : Op) (b : JitterBuffer) → IsValid b → Timely op b → IsValid (ideal_step op b).0
unfolding ideal_step
ideal_step-IsValid (arrive seq pkt) b v t = ideal_push-IsValid seq pkt b v t
ideal_step-IsValid tick b v t = ideal_pop-IsValid b v

step-wrap :
    (op : Op) (b : JitterBuffer)
    → IsValid b
    → Timely op b
    → step (wrap_op op) (wrap b) ≡ wrap_result (ideal_step op b)
unfolding step ideal_step
step-wrap (arrive seq pkt) b v t =
    ap (λ (r : JitterBuffer × Bool). (r.0, none)) (push-wrap seq pkt b v t)
step-wrap tick b v t = pop-wrap b v

emit-wrap :
    (op : Op) (r : JitterBuffer × Option Packet) (out : List (Option Packet))
    → emit (wrap_op op) (wrap_result r) out ≡ emit op r out
emit-wrap (arrive seq pkt) r out = refl
emit-wrap tick r out = refl

pub run-wrap :
    (ops : List Op) (b : JitterBuffer)
    → IsValid b
    → AllTimely ops b
    → run (map wrap_op ops) (wrap b) ≡ wrap_result (ideal_run ops b)
unfolding run ideal_run
run-wrap [] b v t = refl
run-wrap (op ∷ ops) b v t = rw (
  step-wrap op b v t.0,
  run-wrap ops (ideal_step op b).0 (ideal_step-IsValid op b v t.0) t.1,
  emit-wrap op (ideal_step op b),
)

pub ideal_run-IsValid :
    (ops : List Op) (b : JitterBuffer) → IsValid b → AllTimely ops b → IsValid (ideal_run ops b).0
unfolding ideal_run
ideal_run-IsValid [] b v t = v
ideal_run-IsValid (op ∷ ops) b v t =
    ideal_run-IsValid ops (ideal_step op b).0 (ideal_step-IsValid op b v t.0) t.1
