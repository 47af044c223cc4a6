-- ===== src/Audio/Jitter/Wrap.antt =====
-- internal/audio/jitter.go with its 16-bit sequence numbers, against the buffer over numbers that
-- never wrap.
use opencom.Base.{
  ℕ, zero, suc, ◌+◌, ◌-◌, ◌≤◌, ◌<◌, ◌≡◌, refl, true, [], ◌∷◌, arith, if◌then◌else◌, ltb, ◌==◌,
  nat_eq, length, ap, ◌∙◌, inl, inr, Bool-cases, lt→ltb,
}
use native.Mathlib.Numerals.{add-one}
use opencom.Base.Int.{ℤ, pos, negsuc}
use opencom.Base.Dict.{Dict, lookup, insert, delete, Distinct}
use opencom.Audio.Jitter.{
  u16, Packet, JitterBuffer, seq_delta, closer, find_oldest, evict_oldest, enforce_cap,
}
use opencom.Audio.Jitter.Ideal.{InWindow, least_from, oldest, drop_oldest}
use opencom.Audio.Jitter.Window.{lookup-InWindow, oldest-mem}

-- What the 16-bit code keeps of a buffer over unbounded sequence numbers.
unfoldable pub wrap_frames : Dict ℕ Packet → Dict ℕ Packet
wrap_frames [] = []
wrap_frames ((n, p) ∷ m) = (u16 n, p) ∷ wrap_frames m

unfoldable pub wrap : JitterBuffer → JitterBuffer
unfolding wrap_frames
wrap b = record b { frames = wrap_frames b.frames; next_out = u16 b.next_out }

pub length-wrap : (m : Dict ℕ Packet) → length (wrap_frames m) ≡ length m
unfolding wrap_frames
length-wrap [] = refl
length-wrap ((n, p) ∷ m) = ap suc (length-wrap m)

-- Within one window, equal remainders are equal numbers.
pub same_key :
    (next n k : ℕ)
    → next ≤ n
    → n < next + 32768
    → next ≤ k
    → k < next + 32768
    → u16 n ≡ u16 k
    → n ≡ k
same_key next n k a b c d h = omega arith

pub key_test :
    (next n k : ℕ)
    → next ≤ n
    → n < next + 32768
    → next ≤ k
    → k < next + 32768
    → (u16 n == u16 k) ≡ (n == k)
key_test next n k a b c d = ground (arith, same_key next n k a b c d)

pub lookup-wrap :
    (next k : ℕ) (m : Dict ℕ Packet)
    → InWindow next m
    → next ≤ k
    → k < next + 32768
    → lookup (u16 k) (wrap_frames m) ≡ lookup k m
unfolding lookup wrap_frames
lookup-wrap next k [] w a b = refl
lookup-wrap next k ((n, p) ∷ m) w a b =
    rw (key_test next n k w.0.0 w.0.1 a b, lookup-wrap next k m w.1 a b)

pub insert-wrap :
    (next k : ℕ) (q : Packet) (m : Dict ℕ Packet)
    → InWindow next m
    → next ≤ k
    → k < next + 32768
    → insert (u16 k) q (wrap_frames m) ≡ wrap_frames (insert k q m)
unfolding insert wrap_frames
insert-wrap next k q [] w a b = refl
insert-wrap next k q ((n, p) ∷ m) w a b =
    ground (arith, key_test next n k w.0.0 w.0.1 a b, insert-wrap next k q m w.1 a b)

pub delete-wrap :
    (next k : ℕ) (m : Dict ℕ Packet)
    → InWindow next m
    → next ≤ k
    → k < next + 32768
    → delete (u16 k) (wrap_frames m) ≡ wrap_frames (delete k m)
unfolding delete wrap_frames
delete-wrap next k [] w a b = refl
delete-wrap next k ((n, p) ∷ m) w a b =
    ground (arith, key_test next n k w.0.0 w.0.1 a b, delete-wrap next k m w.1 a b)

-- The signed 16-bit distance is the true distance.
pub delta_ahead :
    (next n : ℕ) → next ≤ n → n < next + 32768 → seq_delta (u16 next) (u16 n) ≡ pos (n - next)
unfolding seq_delta
delta_ahead next n a b = ground arith

pub delta_behind :
    (next n : ℕ)
    → n < next
    → next < n + 32769
    → seq_delta (u16 next) (u16 n) ≡ negsuc (next - n - 1)
unfolding seq_delta
delta_behind next n a b = ground arith

closer-wrap :
    (next o n : ℕ)
    → next ≤ n
    → n < next + 32768
    → closer (u16 next) (u16 n) (u16 o, pos (o - next))
      ≡ (let k = if ltb n o then n else o in (u16 k, pos (k - next)))
unfolding closer
closer-wrap next o n a b = rw (delta_ahead next n a b) (ground arith)

-- Once a frame is taken for the oldest, the loop goes on to the least one.
find_oldest-wrap :
    (next o : ℕ) (m : Dict ℕ Packet)
    → InWindow next m
    → next ≤ o
    → (find_oldest (u16 next) (wrap_frames m) (u16 o, pos (o - next))).0 ≡ u16 (least_from o m)
unfolding find_oldest wrap_frames least_from
find_oldest-wrap next o [] w a = refl
find_oldest-wrap next o ((n, p) ∷ m) w a =
    ap (λ best. (find_oldest (u16 next) (wrap_frames m) best).0) (closer-wrap next o n w.0.0 w.0.1)
    ∙ find_oldest-wrap next (if ltb n o then n else o) m w.1 (ground arith)

closer-first :
    (next n : ℕ)
    → next ≤ n
    → n < next + 32768
    → closer (u16 next) (u16 n) (u16 next, pos 32767)
      ≡ (if ltb n (next + 32767) then (u16 n, pos (n - next)) else (u16 next, pos 32767))
unfolding closer
closer-first next n a b = rw (delta_ahead next n a b) (ground arith)

-- With two frames or more the loop finds the least one.
find_oldest-least :
    (next : ℕ) (m : Dict ℕ Packet)
    → InWindow next m
    → Distinct m
    → 1 < length m
    → (find_oldest (u16 next) (wrap_frames m) (u16 next, pos 32767)).0 ≡ u16 (oldest m)
unfolding oldest least_from lookup find_oldest wrap_frames
find_oldest-least next [] w d h = absurd (omega arith)
find_oldest-least next ((n, p) ∷ []) w d h = absurd (omega arith)
find_oldest-least next ((n, p) ∷ (k, q) ∷ m) w d h =
    let rest = λ (best : ℕ × ℤ). (find_oldest (u16 next) (wrap_frames m) best).0 in
    let second = λ (best : ℕ × ℤ). rest (closer (u16 next) (u16 k) best) in
    elim (Bool-cases (ltb n (next + 32767))) [
      | inl near ↦
          ap second (closer-first next n w.0.0 w.0.1 ∙ rw near)
          ∙ find_oldest-wrap next n ((k, q) ∷ m) w.1 w.0.0
      | inr far ↦
          let nearer : ltb k (next + 32767) ≡ true = ground arith in
          let least : ltb k n ≡ true = ground arith in
          ap second (closer-first next n w.0.0 w.0.1 ∙ rw far)
          ∙ ap rest (closer-first next k w.1.0.0 w.1.0.1 ∙ rw nearer)
          ∙ find_oldest-wrap next k m w.1.1 w.1.0.0
          ∙ rw least
    ]

pub enforce_cap_within :
    (fuel : ℕ) (jb : JitterBuffer) → length jb.frames ≤ jb.max_frames → enforce_cap fuel jb ≡ jb
unfolding enforce_cap
enforce_cap_within zero jb h = refl
enforce_cap_within (suc fuel) jb h = ground arith

pub enforce_cap_once :
    (fuel : ℕ) (jb : JitterBuffer)
    → jb.max_frames < length jb.frames
    → length (evict_oldest jb).frames ≤ jb.max_frames
    → enforce_cap (fuel + 1) jb ≡ evict_oldest jb
unfolding enforce_cap evict_oldest
enforce_cap_once fuel jb h k =
    rw (add-one fuel) (rw (lt→ltb _ _ h, enforce_cap) (enforce_cap_within fuel (evict_oldest jb) k))

-- One round of the cap's loop is one drop of the specification.
pub evict_oldest-wrap :
    (b : JitterBuffer)
    → InWindow b.next_out b.frames
    → Distinct b.frames
    → 1 < length b.frames
    → evict_oldest (wrap b) ≡ wrap (drop_oldest b)
unfolding evict_oldest drop_oldest wrap
evict_oldest-wrap b w d h =
    let o = oldest b.frames in
    let (lo, hi) = lookup-InWindow b.next_out o b.frames w (oldest-mem b.frames (omega arith)) in
    rw (find_oldest-least b.next_out b.frames w d h) (
      ground
        (arith, delete-wrap b.next_out o b.frames w lo hi, key_test b.next_out o b.next_out lo hi))
