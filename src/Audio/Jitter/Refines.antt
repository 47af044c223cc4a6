-- ===== src/Audio/Jitter/Refines.antt =====
-- internal/audio/jitter.go: `Push` and `Pop` with their 16-bit sequence numbers do what the buffer
-- over unbounded sequence numbers does.
use opencom.Base.{
  ℕ, suc, ◌+◌, ◌≤◌, ◌<◌, ◌≡◌, true, false, none, arith, ltb, nat_eq, length, ap, ◌∙◌, inl, inr,
  Bool-cases, ltb→lt,
}
use opencom.Base.Int.{pos, ltb_ℤ}
use opencom.Base.Dict.{insert, insert-Distinct, length-insert}
use opencom.Audio.Jitter.{
  u16, Packet, JitterBuffer, seq_delta, evict_oldest, store_frame, push, take_next, pop,
}
use opencom.Audio.Jitter.Ideal.{
  IsValid, Near, drop_oldest, ideal_store, ideal_push, ideal_take, ideal_pop, count_pushed,
  count_late, ideal_push_first, ideal_push_late, ideal_push_on_time, ideal_pop_waiting,
  ideal_pop_ready, is_waiting,
}
use opencom.Audio.Jitter.Window.{
  insert-InWindow, length-drop_oldest, rename_stats, rename_primed, start-IsValid,
}
use opencom.Audio.Jitter.Wrap.{
  wrap_frames, wrap, length-wrap, lookup-wrap, insert-wrap, delete-wrap, delta_ahead, delta_behind,
  enforce_cap_within, enforce_cap_once, evict_oldest-wrap,
}

-- Over the cap, one round brings the buffer back to it, and is the specification's drop.
pub evict_oldest_stored :
    (seq : ℕ) (pkt : Packet) (b : JitterBuffer)
    → IsValid b
    → b.next_out ≤ seq
    → seq < b.next_out + 32768
    → let stored = record b { frames = insert seq pkt b.frames } in
      b.max_frames < length stored.frames
      → (evict_oldest (wrap stored) ≡ wrap (drop_oldest stored))
        × (length (evict_oldest (wrap stored)).frames ≤ b.max_frames)
        × (b.max_frames < length (wrap_frames stored.frames))
unfolding wrap
evict_oldest_stored seq pkt b v lo hi over =
    let stored = record b { frames = insert seq pkt b.frames } in
    let w = insert-InWindow b.next_out seq pkt b.frames lo hi v.window in
    let d = insert-Distinct seq pkt b.frames v.distinct in
    let grown : length stored.frames ≤ suc b.max_frames =
      ground (arith, length-insert seq pkt b.frames, v.capped) in
    let many : 1 < length stored.frames = ground (arith, v.positive, over) in
    let evicted = evict_oldest-wrap stored w d many in
    let dropped : length (drop_oldest stored).frames ≤ b.max_frames =
      omega (arith, length-drop_oldest stored d (omega arith), grown) in
    (
      evicted,
      rw (evicted, length-wrap (drop_oldest stored).frames) dropped,
      rw (length-wrap stored.frames) over,
    )

-- A stored frame costs the specification's one drop, whatever fuel is left over.
store_frame-wrap :
    (seq : ℕ) (pkt : Packet) (b : JitterBuffer)
    → IsValid b
    → b.next_out ≤ seq
    → seq < b.next_out + 32768
    → store_frame (u16 seq) pkt (wrap b) ≡ wrap (ideal_store seq pkt b)
unfolding store_frame ideal_store wrap
store_frame-wrap seq pkt b v lo hi =
    let stored = record b { frames = insert seq pkt b.frames } in
    rw (insert-wrap b.next_out seq pkt b.frames v.window lo hi, length-wrap stored.frames)
      (elim (Bool-cases (ltb b.max_frames (length stored.frames))) [
        | inl over ↦
            let (evicted, fits, above) = evict_oldest_stored seq pkt b v lo hi (ltb→lt _ _ over) in
            rw over (enforce_cap_once (length stored.frames) (wrap stored) above fits ∙ evicted)
        | inr under ↦ rw under (
            enforce_cap_within (length stored.frames + 1) (wrap stored)
              (rw (length-wrap stored.frames) (ground arith)))
      ])

pub push_first :
    (seq : ℕ) (pkt : Packet) (jb : JitterBuffer)
    → jb.has_next ≡ false
    → push seq pkt jb ≡ (
      store_frame seq pkt
          (record jb { stats = count_pushed jb.stats; next_out = seq; has_next = true }),
      true,
    )
unfolding push
push_first seq pkt jb h = ground arith

push_late :
    (seq : ℕ) (pkt : Packet) (jb : JitterBuffer)
    → jb.has_next ≡ true
    → ltb_ℤ (seq_delta jb.next_out seq) (pos 0) ≡ true
    → push seq pkt jb ≡ (record jb { stats = count_late (count_pushed jb.stats) }, false)
unfolding push
push_late seq pkt jb h k = ground arith

pub push_on_time :
    (seq : ℕ) (pkt : Packet) (jb : JitterBuffer)
    → jb.has_next ≡ true
    → ltb_ℤ (seq_delta jb.next_out seq) (pos 0) ≡ false
    → push seq pkt jb ≡ (store_frame seq pkt (record jb { stats = count_pushed jb.stats }), true)
unfolding push
push_on_time seq pkt jb h k = ground arith

-- The code's view of a step of the specification.
abbrev pub wrap_result {ℓ} : {A : Type ℓ} → JitterBuffer × A → JitterBuffer × A
wrap_result (b, a) = (wrap b, a)

-- `Push` on a 16-bit sequence number stores, refuses and evicts what the unbounded buffer does,
-- when a later frame lies at most 32767 ahead of the frame that is due and 32768 behind it.
pub push-wrap :
    (seq : ℕ) (pkt : Packet) (b : JitterBuffer)
    → IsValid b
    → (b.has_next ≡ true → Near b.next_out seq)
    → push (u16 seq) pkt (wrap b) ≡ wrap_result (ideal_push seq pkt b)
unfolding wrap
push-wrap seq pkt b v near = elim (Bool-cases b.has_next) [
  | inl started ↦ elim (Bool-cases (ltb seq b.next_out)) [
    | inl late ↦ rw (
      push_late (u16 seq) pkt (wrap b) started
          (rw (delta_behind b.next_out seq (ground arith) (near started).1) (ground arith)),
      ideal_push_late seq pkt b started (ground arith),
    )
    | inr on_time ↦
        rw
          (
            push_on_time (u16 seq) pkt (wrap b) started
                (rw (delta_ahead b.next_out seq (ground arith) (near started).0) (ground arith)),
            ideal_push_on_time seq pkt b started (ground arith),
          )
          (ap (λ jb. (jb, true))
            (store_frame-wrap seq pkt (record b { stats = count_pushed b.stats })
              (rename_stats b _ v) (ground arith) (near started).0))
  ]
  | inr fresh ↦
      let start = record b { stats = count_pushed b.stats; next_out = seq; has_next = true } in
      rw (push_first (u16 seq) pkt (wrap b) fresh, ideal_push_first seq pkt b fresh)
        (ap (λ jb. (jb, true))
          (store_frame-wrap seq pkt start (start-IsValid b seq v fresh) (omega arith)
            (omega arith)))
]

take_next-wrap : (b : JitterBuffer) → IsValid b → take_next (wrap b) ≡ wrap_result (ideal_take b)
unfolding take_next ideal_take wrap
take_next-wrap b v = ground (
  arith,
  lookup-wrap b.next_out b.next_out b.frames v.window (omega arith) (omega arith),
  delete-wrap b.next_out b.next_out b.frames v.window (omega arith) (omega arith),
)

pop_waiting : (jb : JitterBuffer) → is_waiting jb ≡ true → pop jb ≡ (jb, none)
unfolding pop
pop_waiting jb h = ground arith

pop_ready :
    (jb : JitterBuffer) → is_waiting jb ≡ false → pop jb ≡ take_next (record jb { primed = true })
unfolding pop
pop_ready jb h = ground arith

-- `Pop` delivers what the unbounded buffer delivers: nothing before the pre-roll is over, then the
-- frame that is due, or a gap.
pub pop-wrap : (b : JitterBuffer) → IsValid b → pop (wrap b) ≡ wrap_result (ideal_pop b)
unfolding wrap
pop-wrap b v =
    let same : is_waiting (wrap b) ≡ is_waiting b = rw (length-wrap b.frames) in
    elim (Bool-cases (is_waiting b)) [
      | inl waiting ↦ rw (pop_waiting (wrap b) (same ∙ waiting), ideal_pop_waiting b waiting)
      | inr ready ↦
          rw (pop_ready (wrap b) (same ∙ ready), ideal_pop_ready b ready)
            (take_next-wrap (record b { primed = true }) (rename_primed b v))
    ]
