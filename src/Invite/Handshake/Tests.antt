-- ===== src/Invite/Handshake/Tests.antt =====
-- internal/invite/manager.go: handshakes on a concrete manager.
use mathlib.Core.Path.{◌≡◌, refl}
use mathlib.Core.Logic.{◌≢◌}
use opencom.Base.{◌≤◌, Bool, true, false, some, [], ◌∷◌, Str, str_beq, codes, arith, ne_of_str_beq}
use opencom.Friends.Store.{Store as FriendStore, program as friends_program}
use opencom.Invite.Code.{Code}
use opencom.Invite.Store.{Entry, Store, program as store_program}
use opencom.Invite.Store.Laws.{Valid}
use opencom.Invite.Handshake.{
  Hello, Keys, Manager, World, type_accept, type_reject, type_redeem, handle_stream, program,
}
use opencom.Invite.Handshake.Outcome.{
  Accepted, Kept, reply_type, handle_stream-Accepted, handle_stream-Kept,
}
use opencom.Invite.Handshake.Race.{
  Phase, checked, marked, accepted, rejected, Handler, System, SystemRun, arrive, mark,
  friend_added, stop, next, count, is_accepted,
}
use opencom.Invite.Handshake.Exclusive.{accepted_once}

-- A key is its own bytes, and the peer's ID is the key.
abbrev keys : Keys
keys = record {
  PubKey = Str;
  decode_string = λ s. some s;
  unmarshal_public_key = λ b. some b;
  id_from_public_key = λ k. some k;
  host_id = codes "host";
  our_public_key = some (codes "our key");
  display_name = codes "Alice";
}

abbrev first : Code
first = codes "A7B2X9K4"

abbrev entry : Entry
entry = record {
  code = first;
  expires_at = 100;
  consumed = false;
  consumed_by = [];
  created_at = 1;
}

abbrev invites : Store
invites = record { entries = (first, entry) ∷ []; disk = entry ∷ [] }

abbrev no_friends : FriendStore
no_friends = record { friends = []; disk = [] }

abbrev manager : Manager
manager = record { store = invites; friends = no_friends; redeem_subs = [] }

abbrev hello : Hello
hello = record {
  type = type_redeem;
  code = first;
  peer_id = codes "bob";
  public_key = codes "bob";
  addresses = [];
  display_name = codes "Bob";
}

abbrev world : Bool → World
world friend_ok = record {
  now_check = 5;
  now_mark = 6;
  now_added = 7;
  now_event = 8;
  mark_ok = true;
  friend_ok = friend_ok;
  unmark_ok = true;
}

abbrev bob : Str
bob = codes "bob"

accepts :
    reply_type keys (handle_stream keys (world true) bob (some hello) manager).1 ≡ some type_accept
unfolding program friends_program store_program str_beq
accepts = refl

handle_stream-Accepted_example :
    Accepted keys
      (world true)
      bob
      hello
      manager
      (handle_stream keys (world true) bob (some hello) manager).0
handle_stream-Accepted_example = handle_stream-Accepted keys (world true) bob hello manager accepts

rejects :
    reply_type keys (handle_stream keys (world false) bob (some hello) manager).1 ≡ some type_reject
unfolding program friends_program store_program str_beq
rejects = refl

reject_ne : type_reject ≢ type_accept
unfolding str_beq
reject_ne = ne_of_str_beq type_reject type_accept refl

not_accepted :
    reply_type keys (handle_stream keys (world false) bob (some hello) manager).1 ≢ some type_accept
not_accepted e = ground (arith, rejects, reject_ne)

invites-Valid : Valid invites.entries
unfolding store_program
invites-Valid = record {
  distinct = (refl, tt);
  rows = (record { own_code = refl; tidy = λ e. refl }, tt);
}

handle_stream-Kept_example :
    Kept keys manager (handle_stream keys (world false) bob (some hello) manager).0
handle_stream-Kept_example =
    handle_stream-Kept keys (world false) bob (some hello) manager (codes "our key") refl
      invites-Valid not_accepted

-- The friend whose write failed stays in memory.
friend_stays : (handle_stream keys (world false) bob (some hello) manager).0.friends.friends ≢ []
unfolding program friends_program store_program str_beq
friend_stays e = cc

-- Eve's handshake overtakes Bob's.
abbrev handler : Str → Phase → Handler
handler remote phase = record { code = first; remote = remote; phase = phase }

abbrev system : Store → Phase → Phase → System
system store p q = record { store = store; handlers = handler (codes "eve") q ∷ handler bob p ∷ [] }

abbrev nobody : System
nobody = record { store = invites; handlers = [] }

abbrev bob_only : System
bob_only = record { store = invites; handlers = handler bob checked ∷ [] }

abbrev taken : Store
taken =
    let e = record entry { consumed = true; consumed_by = codes "eve" } in
    record { entries = (first, e) ∷ []; disk = e ∷ [] }

overtaking : SystemRun first nobody (system taken rejected accepted)
unfolding store_program str_beq
overtaking = next (arrive nobody first bob) (
    next (arrive bob_only first (codes "eve")) (
      next
        (mark (system invites checked checked) [] (handler bob checked ∷ [])
          (handler (codes "eve") checked) true 5 refl refl)
        (next
          (mark (system taken checked marked) (handler (codes "eve") marked ∷ []) []
            (handler bob checked) true 6 refl refl)
          (next
            (friend_added (system taken rejected marked) [] (handler bob rejected ∷ [])
              (handler (codes "eve") marked) refl refl)
            stop))))

accepted_once_example : count is_accepted first (system taken rejected accepted).handlers ≤ 1
accepted_once_example = accepted_once first nobody (system taken rejected accepted) refl overtaking
