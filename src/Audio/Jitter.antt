-- ===== src/Audio/Jitter.antt =====
-- internal/audio/jitter.go: the jitter buffer between the network read loop and the playback
-- ticker. The mutex makes each method one step on the record below. `targetMs` and `maxMs` are
-- taken as natural numbers.

pub mod Ideal
pub mod Window
pub mod Wrap
pub mod Refines
pub mod Run
pub mod Lift
pub mod Order
pub mod Loop
mod Tests
use opencom.Base.{
  ℕ, zero, suc, ◌+◌, ◌-◌, ◌/◌, ◌%◌, ◌<◌, Bool, true, false, not, ◌&&◌, Option, none, some, List, [],
  ◌∷◌, if◌then◌else◌, ltb, ◌==◌, nat_eq, length,
}
use opencom.Base.Int.{ℤ, pos, negsuc, ltb_ℤ}
use opencom.Base.Dict.{Dict, lookup, insert, delete}

-- Counters are uint64, sequence numbers uint16.
abbrev pub u64 : ℕ → ℕ
u64 n = n % 18446744073709551616

abbrev pub u16 : ℕ → ℕ
u16 n = n % 65536

abbrev pub frame_ms : ℕ
frame_ms = 20

abbrev pub Packet : Type 0
Packet = List ℕ

pub record JitterStats : Type 0 where
  pub pushed : ℕ
  pub popped : ℕ
  pub dropped_late : ℕ
  pub dropped_full : ℕ
  pub gaps_filled : ℕ

pub record JitterBuffer : Type 0 where
  pub target_frames : ℕ
  pub max_frames : ℕ
  pub frames : Dict ℕ Packet
  pub next_out : ℕ
  pub has_next : Bool
  pub primed : Bool
  pub stats : JitterStats

unfoldable pub new_jitter_buffer : ℕ → ℕ → JitterBuffer
new_jitter_buffer target_ms max_ms = record {
  target_frames = target_ms / frame_ms;
  max_frames = max_ms / frame_ms;
  frames = [];
  next_out = 0;
  has_next = false;
  primed = false;
  stats = record { pushed = 0; popped = 0; dropped_late = 0; dropped_full = 0; gaps_filled = 0 };
}

-- int(int16(b - a)): the distance from a to b in uint16 arithmetic, read as a signed number.
unfoldable pub seq_delta : ℕ → ℕ → ℤ
seq_delta a b = let d = u16 (b + 65536 - a) in if ltb d 32768 then pos d else negsuc (65535 - d)

-- The body of the loop that looks for the oldest frame: `best` is (oldest, oldestDelta).
unfoldable pub closer : ℕ → ℕ → ℕ × ℤ → ℕ × ℤ
closer next s best =
    let d = seq_delta next s in if not (ltb_ℤ d (pos 0)) && ltb_ℤ d best.1 then (s, d) else best

unfoldable pub find_oldest : ℕ → Dict ℕ Packet → ℕ × ℤ → ℕ × ℤ
find_oldest next [] best = best
find_oldest next ((s, _) ∷ m) best = find_oldest next m (closer next s best)

-- One round of the loop that enforces the cap.
unfoldable pub evict_oldest : JitterBuffer → JitterBuffer
evict_oldest jb =
    let oldest = (find_oldest jb.next_out jb.frames (jb.next_out, pos 0x7fff)).0 in
    record jb {
      frames = delete oldest jb.frames;
      stats = record (jb.stats) { dropped_full = u64 (jb.stats.dropped_full + 1) };
      next_out = if oldest == jb.next_out then u16 (jb.next_out + 1) else jb.next_out;
    }

-- The loop itself, on fuel.
unfoldable pub enforce_cap : ℕ → JitterBuffer → JitterBuffer
enforce_cap zero jb = jb
enforce_cap (suc fuel) jb = elim (ltb jb.max_frames (length jb.frames)) [
  | true ↦ enforce_cap fuel (evict_oldest jb)
  | false ↦ jb
]

-- What `Push` does with a frame that is not late.
unfoldable pub store_frame : ℕ → Packet → JitterBuffer → JitterBuffer
store_frame seq pkt jb =
    let frames = insert seq pkt jb.frames in
    enforce_cap (length frames + 1) (record jb { frames = frames })

unfoldable pub push : ℕ → Packet → JitterBuffer → JitterBuffer × Bool
push seq pkt jb =
    let counted = record jb { stats = record (jb.stats) { pushed = u64 (jb.stats.pushed + 1) } } in
    let late = record counted {
      stats = record (counted.stats) { dropped_late = u64 (counted.stats.dropped_late + 1) };
    } in
    if not jb.has_next
    then (store_frame seq pkt (record counted { next_out = seq; has_next = true }), true)
    else (if ltb_ℤ (seq_delta jb.next_out seq) (pos 0)
        then (late, false)
        else (store_frame seq pkt counted, true))

-- `Pop` once the buffer is primed.
unfoldable pub take_next : JitterBuffer → JitterBuffer × Option Packet
take_next jb = elim (lookup jb.next_out jb.frames) [
  | some pkt ↦ (
    record jb {
      frames = delete jb.next_out jb.frames;
      next_out = u16 (jb.next_out + 1);
      stats = record (jb.stats) { popped = u64 (jb.stats.popped + 1) };
    },
    some pkt,
  )
  | none ↦ (
    record jb {
      next_out = u16 (jb.next_out + 1);
      stats = record (jb.stats) { gaps_filled = u64 (jb.stats.gaps_filled + 1) };
    },
    none,
  )
]

unfoldable pub pop : JitterBuffer → JitterBuffer × Option Packet
pop jb =
    if not jb.has_next
    then (jb, none)
    else (if not jb.primed && ltb (length jb.frames) jb.target_frames
        then (jb, none)
        else take_next (record jb { primed = true }))

-- What a test of the buffer computes with.
unfoldable pub code : Unit {0}
unfolding new_jitter_buffer seq_delta closer find_oldest evict_oldest enforce_cap store_frame push
    take_next pop lookup insert delete
code = tt
