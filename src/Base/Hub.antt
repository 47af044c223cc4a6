-- ===== src/Base/Hub.antt =====
-- The publish-subscribe pattern that internal/call/session.go and internal/friends/presence.go
-- share: a map of buffered Go channels by subscription id, an event that does not fit dropped.
use mathlib.Core.Option
use opencom.Base.Tests.{if◌then◌else◌, ltb, nat_eq}
use opencom.Base.Lists.{length}
use opencom.Base.Dict.{Dict, lookup, insert, delete, lookup-insert, lookup-delete}
use Prim.Native.Nat.{ℕ, ◌+◌, ◌<◌}
use mathlib.Core.Path.{◌≡◌, refl}
use mathlib.Core.Logic.{◌≢◌}
use mathlib.Core.Option.{Option, none, some}
use mathlib.Core.List.{List, [], ◌∷◌, ◌++◌}
use native.Mathlib.Omega.{arith}

-- A channel with its capacity and what waits in it.
pub record Chan {ℓ} (E : Type ℓ) : Type ℓ where
  pub cap : ℕ
  pub buf : List E

-- `closed` keeps the channels that readers may still drain after `Unsubscribe`.
pub record Hub {ℓ} (E : Type ℓ) : Type ℓ where
  pub subs : Dict ℕ (Chan E)
  pub closed : Dict ℕ (Chan E)
  pub next_id : ℕ

module _ {ℓ} {E : Type ℓ} where
  unfoldable pub empty_hub : Hub E
  empty_hub = record { subs = []; closed = []; next_id = 0 }

  -- select { case ch <- ev: default: }
  unfoldable pub try_send : E → Chan E → Chan E
  try_send ev ch = if ltb (length ch.buf) ch.cap then record ch { buf = ch.buf ++ ev ∷ [] } else ch

  unfoldable pub send_all : E → Dict ℕ (Chan E) → Dict ℕ (Chan E)
  unfolding try_send
  send_all ev [] = []
  send_all ev ((id, ch) ∷ m) = (id, try_send ev ch) ∷ send_all ev m

  unfoldable pub publish : E → Hub E → Hub E
  publish ev h = record h { subs = send_all ev h.subs }

  unfoldable pub attach : ℕ → Hub E → Hub E × ℕ
  attach cap h = (
    record h {
      subs = insert h.next_id (record { cap = cap; buf = [] }) h.subs;
      next_id = h.next_id + 1;
    },
    h.next_id,
  )

  unfoldable pub detach : ℕ → Hub E → Hub E
  detach id h = elim (lookup id h.subs) [
    | none ↦ h
    | some ch ↦ record h { subs = delete id h.subs; closed = insert id ch h.closed }
  ]

  pub lookup-send_all :
      (ev : E) (id : ℕ) (m : Dict ℕ (Chan E))
      → lookup id (send_all ev m) ≡ Option.map (try_send ev) (lookup id m)
  unfolding send_all lookup
  lookup-send_all ev id [] = refl
  lookup-send_all ev id ((j, ch) ∷ m) = ground (arith, lookup-send_all ev id m)

  -- A channel with room gets the event.
  pub publish-room :
      (ev : E) (id : ℕ) (h : Hub E) (ch : Chan E)
      → lookup id h.subs ≡ some ch
      → length ch.buf < ch.cap
      → lookup id (publish ev h).subs ≡ some (record ch { buf = ch.buf ++ ev ∷ [] })
  unfolding publish try_send
  publish-room ev id h ch e room = ground (arith, lookup-send_all ev id h.subs)

  -- Other subscriptions come and go without touching this one.
  pub attach_other :
      (cap id : ℕ) (h : Hub E) → id < h.next_id → lookup id (attach cap h).0.subs ≡ lookup id h.subs
  unfolding attach
  attach_other cap id h below =
      ground (arith, lookup-insert h.next_id id (record { cap = cap; buf = [] }) h.subs)

  pub detach_other : (id k : ℕ) (h : Hub E) → id ≢ k → lookup k (detach id h).subs ≡ lookup k h.subs
  unfolding detach
  detach_other id k h other = ground (arith, lookup-delete id k h.subs)

  pub detach_self : (id : ℕ) (h : Hub E) → lookup id (detach id h).subs ≡ none
  unfolding detach
  detach_self id h = ground (arith, lookup-delete id id h.subs)

  -- Detaching twice is detaching once.
  pub detach_idem : (id : ℕ) (h : Hub E) → detach id (detach id h) ≡ detach id h
  unfolding detach
  detach_idem id h = ground (arith, lookup-delete id id h.subs)

  pub next_id-publish : (ev : E) (h : Hub E) → (publish ev h).next_id ≡ h.next_id
  unfolding publish
  next_id-publish ev h = refl

  pub next_id-detach : (id : ℕ) (h : Hub E) → (detach id h).next_id ≡ h.next_id
  unfolding detach
  next_id-detach id h = ground arith
