-- ===== src/Audio/Jitter/Loop.antt =====
-- internal/audio/jitter.go: the loop of `Push` that enforces the cap, as a `for` without fuel.
use opencom.Base.{
  ℕ, suc, ◌+◌, ◌-◌, ◌≤◌, ◌<◌, ◌≡◌, true, false, List, arith, ltb, length, All, inl, inr, Bool-cases,
  ltb→lt, if◌then◌else◌, nat_eq,
}
use mathlib.Core.Path.{subst}
use opencom.Base.Int.{pos, ltb_ℤ}
use opencom.Base.Dict.{insert}
use opencom.Audio.Jitter.{
  u16, Packet, JitterBuffer, new_jitter_buffer, seq_delta, evict_oldest, store_frame, push,
}
use opencom.Audio.Jitter.Ideal.{IsValid, count_pushed}
use opencom.Audio.Jitter.Window.{rename_stats, start-IsValid}
use opencom.Audio.Jitter.Wrap.{
  wrap_frames, wrap, length-wrap, insert-wrap, enforce_cap_within, enforce_cap_once,
}
use opencom.Audio.Jitter.Refines.{evict_oldest_stored, push_first, push_on_time}
use opencom.Audio.Jitter.Run.{Op, run}
use opencom.Audio.Jitter.Lift.{IsWord, run-refines, lifted-IsValid}

-- for len(jb.frames) > jb.maxFrames, with the number of its rounds.
pub data CapLoop : JitterBuffer → JitterBuffer → ℕ → Type 0 where
  ends : {jb : JitterBuffer} → length jb.frames ≤ jb.max_frames → CapLoop jb jb 0
  again :
      {jb end : JitterBuffer} {n : ℕ}
      → jb.max_frames < length jb.frames
      → CapLoop (evict_oldest jb) end n
      → CapLoop jb end (suc n)

-- The loop ends, after at most one round.
pub record Ended (jb end : JitterBuffer) : Type 0 where
  pub rounds : ℕ
  pub few : rounds ≤ 1
  pub loop : CapLoop jb end rounds

-- The buffer before its frame is stored.
unfoldable pub started : ℕ → JitterBuffer → JitterBuffer
started seq jb =
    if jb.has_next
    then record jb { stats = count_pushed jb.stats }
    else record jb { stats = count_pushed jb.stats; next_out = seq; has_next = true }

started_on :
    (seq : ℕ) (jb : JitterBuffer)
    → jb.has_next ≡ true
    → started seq jb ≡ record jb { stats = count_pushed jb.stats }
unfolding started
started_on seq jb h = ground arith

started_first :
    (seq : ℕ) (jb : JitterBuffer)
    → jb.has_next ≡ false
    → started seq jb ≡ record jb { stats = count_pushed jb.stats; next_out = seq; has_next = true }
unfolding started
started_first seq jb h = ground arith

-- The buffer at the head of the loop.
abbrev pub filled : ℕ → Packet → JitterBuffer → JitterBuffer
filled seq pkt jb = record jb { frames = insert seq pkt jb.frames }

store_frame-Ended :
    (seq : ℕ) (pkt : Packet) (b : JitterBuffer)
    → IsValid b
    → b.next_out ≤ seq
    → seq < b.next_out + 32768
    → Ended (filled (u16 seq) pkt (wrap b)) (store_frame (u16 seq) pkt (wrap b))
unfolding store_frame wrap evict_oldest
store_frame-Ended seq pkt b v lo hi =
    let stored = record b { frames = insert seq pkt b.frames } in
    rw (insert-wrap b.next_out seq pkt b.frames v.window lo hi, length-wrap stored.frames)
      (elim (Bool-cases (ltb b.max_frames (length stored.frames))) [
        | inl over ↦
            let (evicted, fits, above) = evict_oldest_stored seq pkt b v lo hi (ltb→lt _ _ over) in
            rw (enforce_cap_once (length stored.frames) (wrap stored) above fits) (record {
              rounds = 1;
              few = omega arith;
              loop = again {jb = wrap stored} above (ends {jb = evict_oldest (wrap stored)} fits);
            })
        | inr under ↦
            let fits : length (wrap_frames stored.frames) ≤ b.max_frames =
              rw (length-wrap stored.frames) (ground arith) in
            rw (enforce_cap_within (length stored.frames + 1) (wrap stored) fits)
              (record { rounds = 0; few = omega arith; loop = ends fits })
      ])

-- A frame that is due or later has a number next to that of the frame that is due.
ahead :
    (next seq : ℕ)
    → ltb_ℤ (seq_delta (u16 next) seq) (pos 0) ≡ false
    → seq < 65536
    → (n : ℕ) × (u16 n ≡ seq) × (next ≤ n) × (n < next + 32768)
unfolding seq_delta
ahead next seq h w = (next + u16 (seq + 65536 - u16 next), ground arith, ground arith, ground arith)

-- Push takes the frame.
abbrev pub IsOnTime : ℕ → JitterBuffer → Type 0
IsOnTime seq jb = jb.has_next ≡ true → ltb_ℤ (seq_delta jb.next_out seq) (pos 0) ≡ false

abbrev pub reached : ℕ → ℕ → List Op → JitterBuffer
reached target_ms max_ms ops = (run ops (new_jitter_buffer target_ms max_ms)).0

module _ (seq : ℕ) (pkt : Packet) (word : seq < 65536) where
  push-Ended_valid :
      (b : JitterBuffer)
      → IsValid b
      → IsOnTime seq (wrap b)
      → Ended (filled seq pkt (started seq (wrap b))) (push seq pkt (wrap b)).0
  unfolding wrap
  push-Ended_valid b v on_time = elim (Bool-cases b.has_next) [
    | inl going ↦
        let (n, same, lo, hi) = ahead b.next_out seq (on_time going) word in
        rw (push_on_time seq pkt (wrap b) going (on_time going), started_on seq (wrap b) going)
          (subst
            (λ s.
              Ended (filled s pkt (wrap (record b { stats = count_pushed b.stats })))
                (store_frame s pkt (wrap (record b { stats = count_pushed b.stats }))))
            same
            (store_frame-Ended n pkt (record b { stats = count_pushed b.stats })
              (rename_stats b _ v) lo hi))
    | inr fresh ↦
        let first = record b { stats = count_pushed b.stats; next_out = seq; has_next = true } in
        let same : u16 seq ≡ seq = ground arith in
        rw (push_first seq pkt (wrap b) fresh, started_first seq (wrap b) fresh)
          (subst
            (λ s.
              Ended (filled s pkt (record (wrap first) { next_out = s }))
                (store_frame s pkt (record (wrap first) { next_out = s })))
            same
            (store_frame-Ended seq pkt first (start-IsValid b seq v fresh) (omega arith)
              (omega arith)))
  ]

  module _ (target_ms max_ms : ℕ) (ops : List Op) (room : 20 ≤ max_ms)
      (words : All IsWord ops) where
    -- From a new buffer with room for a frame, after any pushes with 16-bit sequence numbers and ticks:
    -- in a Push of a frame that is not late, the loop that enforces the cap ends, after at most one
    -- round, and the buffer that Push leaves is the one with which it ends.
    pub push-Ended :
        IsOnTime seq (reached target_ms max_ms ops)
        → Ended
            (filled seq pkt (started seq (reached target_ms max_ms ops)))
            (push seq pkt (reached target_ms max_ms ops)).0
    push-Ended =
        rw (reached, run-refines target_ms max_ms ops room words)
          (push-Ended_valid _ (lifted-IsValid target_ms max_ms ops room words))
