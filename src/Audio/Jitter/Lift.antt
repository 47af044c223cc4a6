-- ===== src/Audio/Jitter/Lift.antt =====
-- internal/audio/jitter.go: every run on 16-bit sequence numbers is the image of a run of the
-- specification, so that no assumption on the network is needed.
use opencom.Base.{
  ℕ, ◌+◌, ◌-◌, ◌≤◌, ◌<◌, ◌≡◌, refl, true, false, List, [], ◌∷◌, map, arith, ap, if◌then◌else◌, ltb,
  length, All, Bool-cases, inl, inr, sym, ◌∙◌,
}
use opencom.Base.Dict.{Dict}
use opencom.Base.Int.{pos, ◌≤ℤ◌}
use opencom.Audio.Jitter.{u16, Packet, JitterBuffer, new_jitter_buffer, seq_delta}
use opencom.Audio.Jitter.Ideal.{
  InWindow, IsValid, ideal_push, ideal_store, ideal_take, drop_oldest, is_waiting, count_pushed,
  ideal_push_first, ideal_push_late, ideal_push_on_time, ideal_pop_waiting, ideal_pop_ready,
}
use opencom.Audio.Jitter.Wrap.{wrap, wrap_frames, length-wrap, delta_ahead}
use opencom.Audio.Jitter.Refines.{wrap_result}
use opencom.Audio.Jitter.Run.{
  Op, arrive, tick, run, ideal_step, ideal_run, wrap_op, Timely, AllTimely, run-wrap,
  ideal_run-IsValid,
}

-- The number nearest to `next` that 16 bits read as `seq`.
unfoldable pub unwrap_seq : ℕ → ℕ → ℕ
unwrap_seq next seq =
    let d = u16 (seq + 65536 - u16 next) in if ltb d 32768 then next + d else next + d - 65536

unfoldable pub lift_op : Op → JitterBuffer → Op
unfolding unwrap_seq
lift_op (arrive seq pkt) b =
    arrive (if b.has_next then unwrap_seq b.next_out seq else seq + 65536) pkt
lift_op tick b = tick

unfoldable pub lift : List Op → JitterBuffer → List Op
lift [] b = []
lift (op ∷ ops) b = let n = lift_op op b in n ∷ lift ops (ideal_step n b).0

abbrev pub IsWord : Op → Type 0
IsWord (arrive seq _) = seq < 65536
IsWord tick = Unit

-- A stream starts one lap up, so that what lies behind it has a number too.
abbrev pub IsHigh : JitterBuffer → Type 0
IsHigh b = b.has_next ≡ true → 65536 ≤ b.next_out

wrap_op-lift_op : (op : Op) (b : JitterBuffer) → IsWord op → IsHigh b → wrap_op (lift_op op b) ≡ op
unfolding lift_op
wrap_op-lift_op (arrive seq pkt) b w h = ground arith
wrap_op-lift_op tick b w h = refl

lift_op-Timely : (op : Op) (b : JitterBuffer) → IsWord op → IsHigh b → Timely (lift_op op b) b
unfolding lift_op
lift_op-Timely (arrive seq pkt) b w h = λ started. ground arith
lift_op-Timely tick b w h = tt

ideal_store-IsHigh :
    (seq : ℕ) (pkt : Packet) (b : JitterBuffer)
    → 65536 ≤ b.next_out
    → 65536 ≤ (ideal_store seq pkt b).next_out
unfolding ideal_store drop_oldest
ideal_store-IsHigh seq pkt b h = ground arith

ideal_take-IsHigh : (b : JitterBuffer) → 65536 ≤ b.next_out → 65536 ≤ (ideal_take b).0.next_out
unfolding ideal_take
ideal_take-IsHigh b h = ground arith

ideal_push-IsHigh :
    (seq : ℕ) (pkt : Packet) (b : JitterBuffer)
    → IsHigh b
    → (b.has_next ≡ false → 65536 ≤ seq)
    → 65536 ≤ (ideal_push seq pkt b).0.next_out
ideal_push-IsHigh seq pkt b h k = elim (Bool-cases b.has_next) [
  | inl started ↦ elim (Bool-cases (ltb seq b.next_out)) [
    | inl late ↦ rw (ideal_push_late seq pkt b started (ground arith)) (h started)
    | inr on_time ↦
        rw (ideal_push_on_time seq pkt b started (ground arith))
          (ideal_store-IsHigh seq pkt (record b { stats = count_pushed b.stats }) (h started))
  ]
  | inr fresh ↦ rw (ideal_push_first seq pkt b fresh) (ideal_store-IsHigh seq pkt _ (k fresh))
]

ideal_step-IsHigh : (op : Op) (b : JitterBuffer) → IsHigh b → IsHigh (ideal_step (lift_op op b) b).0
unfolding ideal_step lift_op
ideal_step-IsHigh (arrive seq pkt) b h e =
    ideal_push-IsHigh _ pkt b h (λ fresh. rw fresh (omega arith))
ideal_step-IsHigh tick b h e = elim (Bool-cases (is_waiting b)) [
  | inl waiting ↦
      rw (ideal_pop_waiting b waiting) (h (ground (arith, e, ideal_pop_waiting b waiting)))
  | inr ready ↦
      rw (ideal_pop_ready b ready) (ideal_take-IsHigh (record b { primed = true }) (ground arith))
]

-- Lifting changes no 16-bit sequence number, and places every frame.
pub lift-wrap_op :
    (ops : List Op) (b : JitterBuffer)
    → All IsWord ops
    → IsHigh b
    → (map wrap_op (lift ops b) ≡ ops) × AllTimely (lift ops b) b
unfolding lift
lift-wrap_op [] b w h = (refl, tt)
lift-wrap_op (op ∷ ops) b w h =
    let n = lift_op op b in
    let (same, timely) = lift-wrap_op ops (ideal_step n b).0 w.1 (ideal_step-IsHigh op b h) in
    (rw (wrap_op-lift_op op b w.0 h, same), (lift_op-Timely op b w.0 h, timely))

pub new-IsValid :
    (target_ms max_ms : ℕ) → 20 ≤ max_ms → IsValid (new_jitter_buffer target_ms max_ms)
unfolding new_jitter_buffer
new-IsValid target_ms max_ms h = record {
  positive = omega arith;
  window = tt;
  distinct = tt;
  capped = omega arith;
  fresh = λ e. refl;
}

pub new-IsHigh : (target_ms max_ms : ℕ) → IsHigh (new_jitter_buffer target_ms max_ms)
unfolding new_jitter_buffer
new-IsHigh target_ms max_ms h = ground arith

-- The run of the specification that a run of the code stands for.
unfoldable pub lifted : ℕ → ℕ → List Op → List Op
unfolding lift
lifted target_ms max_ms ops = lift ops (new_jitter_buffer target_ms max_ms)

wrap-new :
    (target_ms max_ms : ℕ)
    → wrap (new_jitter_buffer target_ms max_ms) ≡ new_jitter_buffer target_ms max_ms
unfolding wrap wrap_frames new_jitter_buffer
wrap-new target_ms max_ms = refl

-- Each frame is due now or later, in 16-bit arithmetic.
abbrev pub AllAhead : ℕ → Dict ℕ Packet → Type 0
AllAhead next [] = Unit
AllAhead next ((seq, _) ∷ m) = (pos 0 ≤ℤ seq_delta next seq) × AllAhead next m

InWindow-AllAhead :
    (next : ℕ) (m : Dict ℕ Packet) → InWindow next m → AllAhead (u16 next) (wrap_frames m)
unfolding wrap_frames
InWindow-AllAhead next [] w = tt
InWindow-AllAhead next ((n, p) ∷ m) w =
    (rw (delta_ahead next n w.0.0 w.0.1) (omega arith), InWindow-AllAhead next m w.1)

capped_of_IsValid :
    (b : JitterBuffer)
    → IsValid b
    → (length (wrap b).frames ≤ (wrap b).max_frames) × AllAhead (wrap b).next_out (wrap b).frames
unfolding wrap
capped_of_IsValid b v =
    (rw (length-wrap b.frames) v.capped, InWindow-AllAhead b.next_out b.frames v.window)

module _ (target_ms max_ms : ℕ) (ops : List Op) (room : 20 ≤ max_ms) (words : All IsWord ops) where
  -- From a new buffer with room for a frame, whatever 16-bit sequence numbers arrive in whatever
  -- order between the ticks: the frames given out and the final state are those of the
  -- specification, run on the unbounded numbers that the 16 bits stand for.
  pub run-refines :
      let new = new_jitter_buffer target_ms max_ms in
      run ops new ≡ wrap_result (ideal_run (lifted target_ms max_ms ops) new)
  unfolding lifted
  run-refines =
      let new = new_jitter_buffer target_ms max_ms in
      let (same, timely) = lift-wrap_op ops new words (new-IsHigh target_ms max_ms) in
      ap (λ l. run l new) (sym same)
      ∙ ap (run (map wrap_op (lift ops new))) (sym (wrap-new target_ms max_ms))
      ∙ run-wrap (lift ops new) new (new-IsValid target_ms max_ms room) timely

  pub lifted-IsValid :
      IsValid (ideal_run (lifted target_ms max_ms ops) (new_jitter_buffer target_ms max_ms)).0
  unfolding lifted
  lifted-IsValid =
      let new = new_jitter_buffer target_ms max_ms in
      ideal_run-IsValid (lift ops new) new (new-IsValid target_ms max_ms room)
        (lift-wrap_op ops new words (new-IsHigh target_ms max_ms)).1

  -- The buffer never holds more frames than the cap, and each at most 32767 ahead of the next one.
  pub run-capped :
      let jb = (run ops (new_jitter_buffer target_ms max_ms)).0 in
      (length jb.frames ≤ jb.max_frames) × AllAhead jb.next_out jb.frames
  run-capped = rw run-refines (capped_of_IsValid _ lifted-IsValid)
