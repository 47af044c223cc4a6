-- ===== src/Audio/Jitter/Ideal.antt =====
-- The specification of internal/audio/jitter.go: the same buffer over sequence numbers that never
-- wrap, where the oldest frame is the least one and the cap costs at most one frame.
use opencom.Base.{
  ℕ, ◌+◌, ◌≤◌, ◌<◌, ◌≡◌, Bool, true, false, not, ◌&&◌, ◌||◌, Option, none, some, [], ◌∷◌, arith,
  if◌then◌else◌, ltb, ◌==◌, nat_eq, length,
}
use opencom.Base.Dict.{Dict, lookup, insert, delete, Distinct}
use opencom.Audio.Jitter.{u64, Packet, JitterBuffer, JitterStats}

-- The least sequence number of a buffer, no greater than `o`.
unfoldable pub least_from : ℕ → Dict ℕ Packet → ℕ
least_from o [] = o
least_from o ((n, _) ∷ m) = least_from (if ltb n o then n else o) m

unfoldable pub oldest : Dict ℕ Packet → ℕ
unfolding least_from
oldest [] = 0
oldest ((n, _) ∷ m) = least_from n m

abbrev pub count_full : JitterStats → JitterStats
count_full st = record st { dropped_full = u64 (st.dropped_full + 1) }

abbrev pub count_late : JitterStats → JitterStats
count_late st = record st { dropped_late = u64 (st.dropped_late + 1) }

abbrev pub count_pushed : JitterStats → JitterStats
count_pushed st = record st { pushed = u64 (st.pushed + 1) }

unfoldable pub drop_oldest : JitterBuffer → JitterBuffer
unfolding delete oldest
drop_oldest b =
    let o = oldest b.frames in
    record b {
      frames = delete o b.frames;
      stats = count_full b.stats;
      next_out = if o == b.next_out then b.next_out + 1 else b.next_out;
    }

unfoldable pub ideal_store : ℕ → Packet → JitterBuffer → JitterBuffer
unfolding insert drop_oldest
ideal_store seq pkt b =
    let stored = record b { frames = insert seq pkt b.frames } in
    if ltb b.max_frames (length stored.frames) then drop_oldest stored else stored

unfoldable pub ideal_push : ℕ → Packet → JitterBuffer → JitterBuffer × Bool
ideal_push seq pkt b =
    let counted = record b { stats = count_pushed b.stats } in
    if not b.has_next
    then (ideal_store seq pkt (record counted { next_out = seq; has_next = true }), true)
    else (if ltb seq b.next_out
        then (record counted { stats = count_late counted.stats }, false)
        else (ideal_store seq pkt counted, true))

-- The frame that is due, or a gap.
unfoldable pub ideal_take : JitterBuffer → JitterBuffer × Option Packet
unfolding lookup delete
ideal_take b = elim (lookup b.next_out b.frames) [
  | some pkt ↦ (
    record b {
      frames = delete b.next_out b.frames;
      next_out = b.next_out + 1;
      stats = record (b.stats) { popped = u64 (b.stats.popped + 1) };
    },
    some pkt,
  )
  | none ↦ (
    record b {
      next_out = b.next_out + 1;
      stats = record (b.stats) { gaps_filled = u64 (b.stats.gaps_filled + 1) };
    },
    none,
  )
]

unfoldable pub ideal_pop : JitterBuffer → JitterBuffer × Option Packet
ideal_pop b =
    if not b.has_next
    then (b, none)
    else (if not b.primed && ltb (length b.frames) b.target_frames
        then (b, none)
        else ideal_take (record b { primed = true }))

-- Every buffered frame is due now or within the next 32767 frames.
abbrev pub InWindow : ℕ → Dict ℕ Packet → Type 0
InWindow next [] = Unit
InWindow next ((n, _) ∷ m) = ((next ≤ n) × (n < next + 32768)) × InWindow next m

pub record IsValid (b : JitterBuffer) : Type 0 where
  pub positive : 0 < b.max_frames
  pub window : InWindow b.next_out b.frames
  pub distinct : Distinct b.frames
  pub capped : length b.frames ≤ b.max_frames
  pub fresh : b.has_next ≡ false → b.frames ≡ []

-- A sequence number that the 16-bit code can tell from its place relative to `next`.
abbrev pub Near : ℕ → ℕ → Type 0
Near next seq = (seq < next + 32768) × (next < seq + 32769)

-- The branches of the two operations, each as one equation.
pub ideal_push_first :
    (seq : ℕ) (pkt : Packet) (b : JitterBuffer)
    → b.has_next ≡ false
    → ideal_push seq pkt b ≡ (
      ideal_store seq pkt
          (record b { stats = count_pushed b.stats; next_out = seq; has_next = true }),
      true,
    )
unfolding ideal_push
ideal_push_first seq pkt b h = ground arith

pub ideal_push_late :
    (seq : ℕ) (pkt : Packet) (b : JitterBuffer)
    → b.has_next ≡ true
    → seq < b.next_out
    → ideal_push seq pkt b ≡ (record b { stats = count_late (count_pushed b.stats) }, false)
unfolding ideal_push
ideal_push_late seq pkt b h k = ground arith

pub ideal_push_on_time :
    (seq : ℕ) (pkt : Packet) (b : JitterBuffer)
    → b.has_next ≡ true
    → b.next_out ≤ seq
    → ideal_push seq pkt b ≡ (ideal_store seq pkt (record b { stats = count_pushed b.stats }), true)
unfolding ideal_push
ideal_push_on_time seq pkt b h k = ground arith

-- Whether `Pop` has nothing to give yet: no frame came, or the pre-roll is not over.
abbrev pub is_waiting : JitterBuffer → Bool
is_waiting b = not b.has_next || (not b.primed && ltb (length b.frames) b.target_frames)

pub ideal_pop_waiting : (b : JitterBuffer) → is_waiting b ≡ true → ideal_pop b ≡ (b, none)
unfolding ideal_pop
ideal_pop_waiting b h = ground arith

pub ideal_pop_ready :
    (b : JitterBuffer)
    → is_waiting b ≡ false
    → ideal_pop b ≡ ideal_take (record b { primed = true })
unfolding ideal_pop
ideal_pop_ready b h = ground arith
