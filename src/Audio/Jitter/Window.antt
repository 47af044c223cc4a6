-- ===== src/Audio/Jitter/Window.antt =====
-- internal/audio/jitter.go: the specification keeps its frames within one window of the next frame.
use opencom.Base.{
  ℕ, suc, ◌+◌, ◌≤◌, ◌<◌, ◌≡◌, refl, true, false, none, [], ◌∷◌, arith, ltb, ◌==◌, nat_eq, length,
  is_some, Bool-cases, inl, inr, nat_beq_iff, Option-cases,
}
use opencom.Base.Dict.{
  Dict, lookup, insert, delete, Distinct, insert-Distinct, delete-Distinct, length-insert,
  length-delete,
}
use opencom.Audio.Jitter.{Packet, JitterBuffer, JitterStats}
use opencom.Audio.Jitter.Ideal.{
  InWindow, IsValid, Near, least_from, oldest, drop_oldest, ideal_store, ideal_push, ideal_take,
  ideal_pop, count_pushed, ideal_push_first, ideal_push_late, ideal_push_on_time, ideal_pop_waiting,
  ideal_pop_ready, is_waiting,
}

pub insert-InWindow :
    (next seq : ℕ) (pkt : Packet) (m : Dict ℕ Packet)
    → next ≤ seq
    → seq < next + 32768
    → InWindow next m
    → InWindow next (insert seq pkt m)
unfolding insert
insert-InWindow next seq pkt [] h k w = ((h, k), tt)
insert-InWindow next seq pkt ((n, q) ∷ m) h k w =
    ground (arith, insert-InWindow next seq pkt m h k w.1)

pub delete-InWindow :
    (next seq : ℕ) (m : Dict ℕ Packet) → InWindow next m → InWindow next (delete seq m)
unfolding delete
delete-InWindow next seq [] w = w
delete-InWindow next seq ((n, q) ∷ m) w = ground (arith, delete-InWindow next seq m w.1)

-- With the frame that was due gone, the window moves on by one.
pub delete-InWindow_next :
    (next : ℕ) (m : Dict ℕ Packet) → InWindow next m → InWindow (next + 1) (delete next m)
unfolding delete
delete-InWindow_next next [] w = w
delete-InWindow_next next ((n, q) ∷ m) w = ground (arith, delete-InWindow_next next m w.1)

pub absent-InWindow_next :
    (next : ℕ) (m : Dict ℕ Packet) → lookup next m ≡ none → InWindow next m → InWindow (next + 1) m
unfolding lookup
absent-InWindow_next next [] h w = w
absent-InWindow_next next ((n, q) ∷ m) h w = ground (arith, absent-InWindow_next next m)

-- The least frame is one of the frames.
pub least_from-mem :
    (o : ℕ) (p : Packet) (m : Dict ℕ Packet) → is_some (lookup (least_from o m) ((o, p) ∷ m)) ≡ true
unfolding least_from lookup
least_from-mem o p [] = ground arith
least_from-mem o p ((n, r) ∷ m) = ground (arith, least_from-mem n r m, least_from-mem o p m)

pub least_from-le : (o : ℕ) (m : Dict ℕ Packet) → least_from o m ≤ o
unfolding least_from
least_from-le o [] = omega arith
least_from-le o ((n, r) ∷ m) = ground (arith, least_from-le o m, least_from-le n m)

pub lookup-InWindow :
    (next k : ℕ) (m : Dict ℕ Packet)
    → InWindow next m
    → is_some (lookup k m) ≡ true
    → (next ≤ k) × (k < next + 32768)
unfolding lookup
lookup-InWindow next k [] w h = absurd (ground arith)
lookup-InWindow next k ((n, q) ∷ m) w h = ground (arith, lookup-InWindow next k m w.1)

pub oldest-mem : (m : Dict ℕ Packet) → 0 < length m → is_some (lookup (oldest m) m) ≡ true
unfolding oldest
oldest-mem [] h = absurd (omega arith)
oldest-mem ((n, q) ∷ m) h = least_from-mem n q m

pub length-drop_oldest :
    (b : JitterBuffer)
    → Distinct b.frames
    → 0 < length b.frames
    → length b.frames ≡ suc (length (drop_oldest b).frames)
unfolding drop_oldest
length-drop_oldest b d h =
    ground (arith, oldest-mem b.frames h, length-delete (oldest b.frames) b.frames d)

drop_oldest_keeps :
    (b : JitterBuffer)
    → ((drop_oldest b).max_frames ≡ b.max_frames) × ((drop_oldest b).has_next ≡ b.has_next)
unfolding drop_oldest
drop_oldest_keeps b = (refl, refl)

drop_oldest-Distinct : (b : JitterBuffer) → Distinct b.frames → Distinct (drop_oldest b).frames
unfolding drop_oldest
drop_oldest-Distinct b d = delete-Distinct (oldest b.frames) b.frames d

pub drop_oldest-InWindow :
    (b : JitterBuffer)
    → InWindow b.next_out b.frames
    → InWindow (drop_oldest b).next_out (drop_oldest b).frames
unfolding drop_oldest
drop_oldest-InWindow b w = elim (Bool-cases (oldest b.frames == b.next_out)) [
  | inl due ↦
      rw (due, (nat_beq_iff (oldest b.frames) b.next_out).0 due)
        (delete-InWindow_next b.next_out b.frames w)
  | inr later ↦ rw later (delete-InWindow b.next_out (oldest b.frames) b.frames w)
]

pub ideal_store-IsValid :
    (seq : ℕ) (pkt : Packet) (b : JitterBuffer)
    → IsValid b
    → b.has_next ≡ true
    → b.next_out ≤ seq
    → seq < b.next_out + 32768
    → IsValid (ideal_store seq pkt b)
unfolding ideal_store
ideal_store-IsValid seq pkt b v started lo hi =
    let w = insert-InWindow b.next_out seq pkt b.frames lo hi v.window in
    let d = insert-Distinct seq pkt b.frames v.distinct in
    let stored = record b { frames = insert seq pkt b.frames } in
    let grown : length stored.frames ≤ suc b.max_frames =
      ground (arith, length-insert seq pkt b.frames, v.capped) in
    elim (Bool-cases (ltb b.max_frames (length (insert seq pkt b.frames)))) [
      | inl over ↦ rw over (record {
        positive = omega (arith, v.positive, (drop_oldest_keeps stored).0);
        window = drop_oldest-InWindow stored w;
        distinct = drop_oldest-Distinct stored d;
        capped = ground (
          arith,
          grown,
          (drop_oldest_keeps stored).0,
          length-drop_oldest stored d (ground arith),
        );
        fresh = λ e. ground (arith, (drop_oldest_keeps stored).1);
      })
      | inr under ↦ rw under (record {
        positive = v.positive;
        window = w;
        distinct = d;
        capped = ground arith;
        fresh = λ e. ground arith;
      })
    ]

pub ideal_take-IsValid :
    (b : JitterBuffer) → IsValid b → b.has_next ≡ true → IsValid (ideal_take b).0
unfolding ideal_take
ideal_take-IsValid b v started = elim (Option-cases (lookup b.next_out b.frames)) [
  | inl gap ↦
      rw (gap, ideal_take)
        (record {
          positive = v.positive;
          window = absent-InWindow_next b.next_out b.frames gap v.window;
          distinct = v.distinct;
          capped = v.capped;
          fresh = λ e. ground arith;
        })
  | inr (pkt, due) ↦
      rw (due, ideal_take)
        (record {
          positive = v.positive;
          window = delete-InWindow_next b.next_out b.frames v.window;
          distinct = delete-Distinct b.next_out b.frames v.distinct;
          capped = ground (arith, length-delete b.next_out b.frames v.distinct, v.capped);
          fresh = λ e. ground arith;
        })
]

pub rename_primed : (b : JitterBuffer) → IsValid b → IsValid (record b { primed = true })
rename_primed b v = record {
  positive = v.positive;
  window = v.window;
  distinct = v.distinct;
  capped = v.capped;
  fresh = v.fresh;
}

-- The first frame decides where the stream starts.
pub start-IsValid :
    (b : JitterBuffer) (seq : ℕ)
    → IsValid b
    → b.has_next ≡ false
    → IsValid (record b { stats = count_pushed b.stats; next_out = seq; has_next = true })
start-IsValid b seq v fresh = record {
  positive = v.positive;
  window = rw (v.fresh fresh) tt;
  distinct = v.distinct;
  capped = v.capped;
  fresh = λ e. ground arith;
}

pub rename_stats :
    (b : JitterBuffer) (st : JitterStats) → IsValid b → IsValid (record b { stats = st })
rename_stats b st v = record {
  positive = v.positive;
  window = v.window;
  distinct = v.distinct;
  capped = v.capped;
  fresh = v.fresh;
}

-- The specification keeps its invariant: never more frames than the cap, all of them within the
-- next 32768 sequence numbers, when a frame comes at most that far from the one that is due.
pub ideal_push-IsValid :
    (seq : ℕ) (pkt : Packet) (b : JitterBuffer)
    → IsValid b
    → (b.has_next ≡ true → Near b.next_out seq)
    → IsValid (ideal_push seq pkt b).0
ideal_push-IsValid seq pkt b v near = elim (Bool-cases b.has_next) [
  | inl started ↦ elim (Bool-cases (ltb seq b.next_out)) [
    | inl late ↦ rw (ideal_push_late seq pkt b started (ground arith)) (rename_stats b _ v)
    | inr on_time ↦ rw (ideal_push_on_time seq pkt b started (ground arith)) (
        ideal_store-IsValid seq pkt (record b { stats = count_pushed b.stats }) (rename_stats b _ v)
          started (ground arith) (near started).0)
  ]
  | inr fresh ↦ rw (ideal_push_first seq pkt b fresh) (
      ideal_store-IsValid seq pkt
        (record b { stats = count_pushed b.stats; next_out = seq; has_next = true })
        (start-IsValid b seq v fresh) refl (omega arith) (omega arith))
]

pub ideal_pop-IsValid : (b : JitterBuffer) → IsValid b → IsValid (ideal_pop b).0
ideal_pop-IsValid b v = elim (Bool-cases (is_waiting b)) [
  | inl waiting ↦ rw (ideal_pop_waiting b waiting) v
  | inr ready ↦
      rw (ideal_pop_ready b ready)
        (ideal_take-IsValid (record b { primed = true }) (rename_primed b v) (ground arith))
]
