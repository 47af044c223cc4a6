-- ===== src/Audio/Jitter/Tests.antt =====
-- Runs of internal/audio/jitter.go, as jitter_test.go makes them, and instances of its theorems.
use opencom.Base.{ℕ, ◌≡◌, refl, none, some, List, [], ◌∷◌, map, arith, All}
use opencom.Audio.Jitter.{Packet, new_jitter_buffer, push, code}
use opencom.Audio.Jitter.Refines.{wrap_result}
use opencom.Audio.Jitter.Run.{Op, arrive, tick, step, run, ideal_run, wrap_op}
use opencom.Audio.Jitter.Lift.{lifted, run-refines}
use opencom.Audio.Jitter.Loop.{Ended, IsOnTime, started, filled, reached, push-Ended}
use opencom.Audio.Jitter.Order.{somes, Ascending, Arrived, run_in_order}

-- Two frames out of order round the wrap, a late one, and one that never comes.
abbrev wrapping : List Op
wrapping =
    arrive 65535 (1 ∷ [])
    ∷ arrive 1 (3 ∷ [])
    ∷ arrive 0 (2 ∷ [])
    ∷ tick
    ∷ tick
    ∷ arrive 65535 (9 ∷ [])
    ∷ tick
    ∷ tick
    ∷ []

-- The frames come out in order across the wrap, and the gap is silence.
wrapping_out :
    (run wrapping (new_jitter_buffer 40 200)).1
    ≡ some (1 ∷ []) ∷ some (2 ∷ []) ∷ some (3 ∷ []) ∷ none ∷ []
unfolding code run step
wrapping_out = refl

wrapping_late : (run wrapping (new_jitter_buffer 40 200)).0.stats.dropped_late ≡ 1
unfolding code run step
wrapping_late = refl

-- A buffer with room for one frame drops the oldest.
full_drops :
    (push 8 (2 ∷ []) (push 7 (1 ∷ []) (new_jitter_buffer 0 20)).0).0.frames ≡ (8, 2 ∷ []) ∷ []
unfolding code
full_drops = refl

run-refines_example :
    run wrapping (new_jitter_buffer 40 200)
    ≡ wrap_result (ideal_run (lifted 40 200 wrapping) (new_jitter_buffer 40 200))
run-refines_example = run-refines 40 200 wrapping (omega arith) (omega arith)

run_in_order_example :
    (map wrap_op (lifted 40 200 wrapping) ≡ wrapping)
    × ((l : List (ℕ × Packet)) × (somes (run wrapping (new_jitter_buffer 40 200)).1
          ≡ map (λ (e : ℕ × Packet). e.1) l)
        × Ascending 0 l
        × All (λ (e : ℕ × Packet). Arrived e.0 e.1 (lifted 40 200 wrapping)) l)
run_in_order_example = run_in_order 40 200 wrapping (omega arith) (omega arith)

-- A buffer with room for one frame, which holds one.
abbrev one_frame : List Op
one_frame = arrive 7 (1 ∷ []) ∷ []

next-IsOnTime : IsOnTime 8 (reached 0 20 one_frame)
unfolding code run step
next-IsOnTime going = refl

push-Ended_example :
    Ended
      (filled 8 (2 ∷ []) (started 8 (reached 0 20 one_frame)))
      (push 8 (2 ∷ []) (reached 0 20 one_frame)).0
push-Ended_example =
    push-Ended 8 (2 ∷ []) (omega arith) 0 20 one_frame (omega arith) (omega arith) next-IsOnTime
