-- ===== src/Invite/Handshake/Race.antt =====
-- internal/invite/manager.go: handshakes that overlap. Between its calls of the store a handler can
-- be overtaken by any other; a call of the store is one step, since `mu` guards it.
use mathlib.Core.Path.{◌≡◌}
use opencom.Base.{ℕ, ◌+◌, Bool, true, false, List, [], ◌∷◌, ◌++◌, Str, str_eq, ◌==◌, ◌&&◌}
use opencom.Invite.Code.{Code}
use opencom.Invite.Store.{Store, mark_consumed, unmark_consumed}
use opencom.Invite.Store.Laws.{Op, step}
use opencom.Invite.Store.Once.{Spares}

-- Where a handler stands: before `MarkConsumed`, before `friends.Add`, or done.
pub data Phase : Type 0 where
  checked marked accepted rejected : Phase

pub record Handler : Type 0 where
  pub code : Code
  pub remote : Str
  pub phase : Phase

pub record System : Type 0 where
  pub store : Store
  pub handlers : List Handler

abbrev pub mark_phase : Bool → Phase
mark_phase true = marked
mark_phase false = rejected

-- The steps, as long as nothing else adds, unmarks or removes the code `c`.
pub data SystemStep (c : Code) : System → System → Type 0 where
  arrive :
      (s : System) (code : Code) (remote : Str)
      → SystemStep c s (record s {
        handlers = record { code = code; remote = remote; phase = checked } ∷ s.handlers;
      })
  mark :
      (s : System) (pre post : List Handler) (h : Handler) (ok : Bool) (now : ℕ)
      → s.handlers ≡ pre ++ h ∷ post
      → h.phase ≡ checked
      → SystemStep c s (
          let r = mark_consumed ok now h.code h.remote s.store in
          record { store = r.0; handlers = pre ++ record h { phase = mark_phase r.1 } ∷ post })
  friend_added :
      (s : System) (pre post : List Handler) (h : Handler)
      → s.handlers ≡ pre ++ h ∷ post
      → h.phase ≡ marked
      → SystemStep c s (record s { handlers = pre ++ record h { phase = accepted } ∷ post })
  friend_failed :
      (s : System) (pre post : List Handler) (h : Handler) (ok : Bool)
      → s.handlers ≡ pre ++ h ∷ post
      → h.phase ≡ marked
      → SystemStep c s (record {
        store = (unmark_consumed ok h.code s.store).0;
        handlers = pre ++ record h { phase = rejected } ∷ post;
      })
  other :
      (s : System) (op : Op)
      → Spares c op
      → SystemStep c s (record s { store = (step op s.store).0 })

pub data SystemRun (c : Code) : System → System → Type 0 where
  stop : {s : System} → SystemRun c s s
  next : {s t u : System} → SystemStep c s t → SystemRun c t u → SystemRun c s u

abbrev pub holds : Phase → Bool
holds marked = true
holds accepted = true
holds checked = false
holds rejected = false

abbrev pub is_accepted : Phase → Bool
is_accepted accepted = true
is_accepted marked = false
is_accepted checked = false
is_accepted rejected = false

abbrev pub one_if : Bool → ℕ
one_if true = 1
one_if false = 0

-- How many handlers of the code are in a phase of the given kind.
abbrev pub count : (Phase → Bool) → Code → List Handler → ℕ
count p c [] = 0
count p c (h ∷ l) = one_if (h.code == c && p h.phase) + count p c l
