-- ===== src/Audio/Jitter/Order.antt =====
-- internal/audio/jitter.go: the order and the origin of the frames that `Pop` gives out.
use opencom.Base.{
  ℕ, ◌+◌, ◌≤◌, ◌≡◌, refl, true, Option, none, some, List, [], ◌∷◌, map, arith, ap, sym, ◌∙◌,
  if◌then◌else◌, ltb, All, Bool-cases, inl, inr, ◌⊎◌, nat_eq,
}
use opencom.Base.Dict.{lookup, insert, lookup-insert, lookup-delete}
use opencom.Audio.Jitter.{Packet, JitterBuffer, new_jitter_buffer}
use opencom.Audio.Jitter.Ideal.{
  ideal_push, ideal_pop, ideal_store, ideal_take, drop_oldest, is_waiting, count_pushed,
  ideal_push_late, ideal_push_on_time, ideal_pop_waiting, ideal_pop_ready, oldest,
}
use opencom.Audio.Jitter.Run.{Op, arrive, tick, run, ideal_step, ideal_run, wrap_op}
use opencom.Audio.Jitter.Lift.{IsWord, lift, lifted, lift-wrap_op, new-IsHigh, run-refines}

-- The frames of a list of ticks, without the silences.
abbrev pub somes {ℓ} : {A : Type ℓ} → List (Option A) → List A
somes [] = []
somes (none ∷ l) = somes l
somes (some a ∷ l) = a ∷ somes l

abbrev pub Ascending : ℕ → List (ℕ × Packet) → Type 0
Ascending lo [] = Unit
Ascending lo ((n, _) ∷ l) = (lo ≤ n) × Ascending (n + 1) l

-- The frame was pushed under this number.
abbrev pub Arrived : ℕ → Packet → List Op → Type 0
Arrived n p [] = ⊥
Arrived n p (arrive seq q ∷ ops) = ((seq ≡ n) × (q ≡ p)) ⊎ Arrived n p ops
Arrived n p (tick ∷ ops) = Arrived n p ops

abbrev pub give : ℕ → Option Packet → List (ℕ × Packet) → List (ℕ × Packet)
give n none l = l
give n (some p) l = (n, p) ∷ l

-- What the specification gives out, with the numbers.
unfoldable pub delivered : List Op → JitterBuffer → List (ℕ × Packet)
delivered [] b = []
delivered (arrive seq pkt ∷ ops) b = delivered ops (ideal_step (arrive seq pkt) b).0
delivered (tick ∷ ops) b = give b.next_out (ideal_pop b).1 (delivered ops (ideal_pop b).0)

give-somes :
    (n : ℕ) (o : Option Packet) (l : List (ℕ × Packet)) (out : List (Option Packet))
    → map (λ (e : ℕ × Packet). e.1) l ≡ somes out
    → map (λ (e : ℕ × Packet). e.1) (give n o l) ≡ somes (o ∷ out)
give-somes n none l out h = h
give-somes n (some p) l out h = ap (◌∷◌ p) h

delivered-somes :
    (ops : List Op) (b : JitterBuffer)
    → map (λ (e : ℕ × Packet). e.1) (delivered ops b) ≡ somes (ideal_run ops b).1
unfolding delivered ideal_run ideal_step
delivered-somes [] b = refl
delivered-somes (arrive seq pkt ∷ ops) b = delivered-somes ops _
delivered-somes (tick ∷ ops) b = give-somes b.next_out _ _ _ (delivered-somes ops (ideal_pop b).0)

-- No later frame has a smaller number.
abbrev floor : JitterBuffer → ℕ
floor b = if b.has_next then b.next_out else 0

ideal_store-floor :
    (seq : ℕ) (pkt : Packet) (b : JitterBuffer) → floor b ≤ floor (ideal_store seq pkt b)
unfolding ideal_store drop_oldest
ideal_store-floor seq pkt b = ground arith

ideal_push-floor :
    (seq : ℕ) (pkt : Packet) (b : JitterBuffer) → floor b ≤ floor (ideal_push seq pkt b).0
ideal_push-floor seq pkt b = elim (Bool-cases b.has_next) [
  | inl started ↦ elim (Bool-cases (ltb seq b.next_out)) [
    | inl late ↦ rw (ideal_push_late seq pkt b started (ground arith)) (omega arith)
    | inr on_time ↦
        rw (ideal_push_on_time seq pkt b started (ground arith))
          (ideal_store-floor seq pkt (record b { stats = count_pushed b.stats }))
  ]
  | inr fresh ↦ rw fresh (omega arith)
]

ideal_take-floor :
    (b : JitterBuffer)
    → ((ideal_take b).0.next_out ≡ b.next_out + 1) × ((ideal_take b).0.has_next ≡ b.has_next)
unfolding ideal_take
ideal_take-floor b = ground arith

ideal_pop-floor :
    (b : JitterBuffer)
    → (floor b ≤ floor (ideal_pop b).0)
      × ((p : Packet)
          → (ideal_pop b).1 ≡ some p
          → (floor b ≤ b.next_out) × (b.next_out + 1 ≤ floor (ideal_pop b).0))
ideal_pop-floor b = elim (Bool-cases (is_waiting b)) [
  | inl waiting ↦ rw (ideal_pop_waiting b waiting) (omega arith, λ p e. cc)
  | inr ready ↦ rw (ideal_pop_ready b ready) (
      let t = ideal_take-floor (record b { primed = true }) in
      (ground (arith, t.0, t.1), λ p e. ground (arith, t.0, t.1)))
]

Ascending-le : (lo hi : ℕ) (l : List (ℕ × Packet)) → lo ≤ hi → Ascending hi l → Ascending lo l
Ascending-le lo hi [] h a = tt
Ascending-le lo hi ((n, p) ∷ l) h a = (omega arith, a.1)

give-Ascending :
    (n lo hi : ℕ) (o : Option Packet) (l : List (ℕ × Packet))
    → lo ≤ hi
    → ((p : Packet) → o ≡ some p → (lo ≤ n) × (n + 1 ≤ hi))
    → Ascending hi l
    → Ascending lo (give n o l)
give-Ascending n lo hi none l up over a = Ascending-le lo hi l up a
give-Ascending n lo hi (some p) l up over a =
    let (low, high) = over p refl in (low, Ascending-le (n + 1) hi l high a)

delivered-Ascending : (ops : List Op) (b : JitterBuffer) → Ascending (floor b) (delivered ops b)
unfolding delivered ideal_step
delivered-Ascending [] b = tt
delivered-Ascending (arrive seq pkt ∷ ops) b =
    Ascending-le _ _ _ (ideal_push-floor seq pkt b)
      (delivered-Ascending ops (ideal_push seq pkt b).0)
delivered-Ascending (tick ∷ ops) b =
    let (up, over) = ideal_pop-floor b in
    give-Ascending b.next_out (floor b) (floor (ideal_pop b).0) (ideal_pop b).1 _ up over
      (delivered-Ascending ops (ideal_pop b).0)

-- A frame that is held, or that arrives in the run.
abbrev HeldOr : List Op → JitterBuffer → ℕ × Packet → Type 0
HeldOr ops b (n, p) = (lookup n b.frames ≡ some p) ⊎ Arrived n p ops

drop_oldest-held :
    (n : ℕ) (p : Packet) (b : JitterBuffer)
    → lookup n (drop_oldest b).frames ≡ some p
    → lookup n b.frames ≡ some p
unfolding drop_oldest
drop_oldest-held n p b h = ground (arith, lookup-delete (oldest b.frames) n b.frames)

ideal_store-held :
    (seq n : ℕ) (pkt p : Packet) (b : JitterBuffer)
    → lookup n (ideal_store seq pkt b).frames ≡ some p
    → (lookup n b.frames ≡ some p) ⊎ ((seq ≡ n) × (pkt ≡ p))
unfolding ideal_store
ideal_store-held seq n pkt p b h = ground (
  arith,
  lookup-insert seq n pkt b.frames,
  drop_oldest-held n p (record b { frames = insert seq pkt b.frames }),
)

ideal_push-held :
    (seq n : ℕ) (pkt p : Packet) (b : JitterBuffer)
    → lookup n (ideal_push seq pkt b).0.frames ≡ some p
    → (lookup n b.frames ≡ some p) ⊎ ((seq ≡ n) × (pkt ≡ p))
unfolding ideal_push
ideal_push-held seq n pkt p b h = ground (
  arith,
  ideal_store-held seq n pkt p (record b { stats = count_pushed b.stats }),
  ideal_store-held seq n pkt p
      (record b { stats = count_pushed b.stats; next_out = seq; has_next = true }),
)

ideal_pop-held :
    (n : ℕ) (p : Packet) (b : JitterBuffer)
    → lookup n (ideal_pop b).0.frames ≡ some p
    → lookup n b.frames ≡ some p
unfolding ideal_pop ideal_take
ideal_pop-held n p b h = ground (arith, lookup-delete b.next_out n b.frames)

ideal_pop-given :
    (p : Packet) (b : JitterBuffer) → (ideal_pop b).1 ≡ some p → lookup b.next_out b.frames ≡ some p
unfolding ideal_pop ideal_take
ideal_pop-given p b h = ground arith

All-HeldOr :
    (P Q : ℕ × Packet → Type 0) (l : List (ℕ × Packet))
    → ((e : ℕ × Packet) → P e → Q e)
    → All P l
    → All Q l
All-HeldOr P Q [] f h = tt
All-HeldOr P Q (e ∷ l) f h = (f e h.0, All-HeldOr P Q l f h.1)

give-All :
    (P : ℕ × Packet → Type 0) (n : ℕ) (o : Option Packet) (l : List (ℕ × Packet))
    → ((p : Packet) → o ≡ some p → P (n, p))
    → All P l
    → All P (give n o l)
give-All P n none l f h = h
give-All P n (some p) l f h = (f p refl, h)

delivered-HeldOr : (ops : List Op) (b : JitterBuffer) → All (HeldOr ops b) (delivered ops b)
unfolding delivered ideal_step
delivered-HeldOr [] b = tt
delivered-HeldOr (arrive seq pkt ∷ ops) b =
    All-HeldOr (HeldOr ops (ideal_push seq pkt b).0) (HeldOr (arrive seq pkt ∷ ops) b) _
      (λ e h. elim h [
        | inl held ↦ elim (ideal_push-held seq e.0 pkt e.1 b held) [
          | inl old ↦ inl old
          | inr now ↦ inr (inl now)
        ]
        | inr later ↦ inr (inr later)
      ])
      (delivered-HeldOr ops (ideal_push seq pkt b).0)
delivered-HeldOr (tick ∷ ops) b =
    give-All (HeldOr (tick ∷ ops) b) b.next_out (ideal_pop b).1 _
      (λ p e. inl (ideal_pop-given p b e))
      (All-HeldOr (HeldOr ops (ideal_pop b).0) (HeldOr (tick ∷ ops) b) _
        (λ e h. elim h [ inl held ↦ inl (ideal_pop-held e.0 e.1 b held) | inr later ↦ inr later ])
        (delivered-HeldOr ops (ideal_pop b).0))

new-holds_none :
    (target_ms max_ms : ℕ) (ops : List Op) (e : ℕ × Packet)
    → HeldOr ops (new_jitter_buffer target_ms max_ms) e
    → Arrived e.0 e.1 ops
unfolding new_jitter_buffer lookup
new-holds_none target_ms max_ms ops e (inl h) = cc
new-holds_none target_ms max_ms ops e (inr h) = h

-- From a new buffer with room for a frame, whatever 16-bit sequence numbers arrive in whatever order
-- between the ticks: the frames that Pop gives out are packets that arrived, and in strictly ascending
-- order of the unbounded numbers that their arrivals stand for. Such a number is fixed at the arrival, as
-- the one nearest to the frame that is then due, and its 16-bit remainder is the one that was pushed.
pub run_in_order :
    (target_ms max_ms : ℕ) (ops : List Op)
    → 20 ≤ max_ms
    → All IsWord ops
    → (map wrap_op (lifted target_ms max_ms ops) ≡ ops)
      × ((l : List (ℕ × Packet)) × (somes (run ops (new_jitter_buffer target_ms max_ms)).1
            ≡ map (λ (e : ℕ × Packet). e.1) l)
          × Ascending 0 l
          × All (λ (e : ℕ × Packet). Arrived e.0 e.1 (lifted target_ms max_ms ops)) l)
unfolding lifted
run_in_order target_ms max_ms ops room words =
    let new = new_jitter_buffer target_ms max_ms in
    let high = lift ops new in
    let (same, timely) = lift-wrap_op ops new words (new-IsHigh target_ms max_ms) in
    (
      same,
      (
        delivered high new,
        ap (λ (r : JitterBuffer × List (Option Packet)). somes r.1)
              (run-refines target_ms max_ms ops room words)
            ∙ sym (delivered-somes high new),
        Ascending-le 0 _ _ (omega arith) (delivered-Ascending high new),
        All-HeldOr (HeldOr high new) _ _ (new-holds_none target_ms max_ms high)
            (delivered-HeldOr high new),
      ),
    )
