-- ===== src/Call/Engine/Dial.antt =====
-- internal/call/streams.go: how Place reaches a peer. Opening a stream is the parameter `new_stream`,
-- from the number of the attempt and the addresses known for the target; the resolver is the two
-- operations that the engine calls. Addresses are their texts, and Encapsulate joins texts.
pub mod Bounded
use mathlib.Core.Option
use opencom.Base.{
  ℕ, suc, Bool, true, false, Option, none, some, List, [], ◌∷◌, ◌++◌, Str, str_eq, codes, ◌⊎◌, inl,
  inr, if◌then◌else◌, ◌&&◌, ◌||◌, ◌==◌, map, nat_eq,
}
use opencom.Base.Text.{contains}
use opencom.Base.Dict.{Dict, lookup, insert}

-- peer.AddrInfo.
pub record Relay : Type 0 where
  pub id : Str
  pub addrs : List Str

-- The engine's resolver and relays, the host's peerstore, and how often it has dialled.
pub record Dialer (R : Type 0) : Type 0 where
  pub resolver : Option R
  pub relays : List Relay
  pub peerstore : Dict Str (List Str)
  pub dials : ℕ

unfoldable pub set_resolver : {R : Type 0} → R → Dialer R → Dialer R
set_resolver r d = record d { resolver = some r }

unfoldable pub set_relays : {R : Type 0} → List Relay → Dialer R → Dialer R
set_relays relays d = record d { relays = relays }

-- What a Resolver does, and libp2p: `is_peer_id` is whether NewMultiaddr takes "/p2p/" and the ID.
pub record Host (R L : Type 0) : Type 0 where
  pub resolve : Str → R → R × (Str ⊎ List Str)
  pub invalidate_cache : Str → R → R
  pub new_stream : ℕ → List Str → Str → Str ⊎ L
  pub is_peer_id : Str → Bool

pub data DialError : Type 0 where
  no_reservation : Str → Str → DialError
  dial_failed : Str → DialError

-- `translateDialError`.
unfoldable pub translate_dial_error : Str → Str → DialError
translate_dial_error remote err =
    if contains err (codes "NO_RESERVATION") then no_reservation remote err else dial_failed err

abbrev pub or_nil : Option (List Str) → List Str
or_nil none = []
or_nil (some l) = l

unfoldable pub addrs_of : Str → Dict Str (List Str) → List Str
addrs_of target store = or_nil (lookup target store)

-- Peerstore().AddAddrs: additive.
unfoldable pub add_addrs : Str → List Str → Dict Str (List Str) → Dict Str (List Str)
add_addrs target addrs store = insert target (addrs_of target store ++ addrs) store

unfoldable pub circuit : Relay → Str → Str
circuit relay addr = addr ++ (codes "/p2p/" ++ (relay.id ++ codes "/p2p-circuit"))

unfoldable pub circuits : (Str → Bool) → List Relay → List Str
circuits ok [] = []
circuits ok (relay ∷ relays) =
    let rest = circuits ok relays in
    if ok relay.id then map (circuit relay) relay.addrs ++ rest else rest

module _ {R L : Type 0} (host : Host R L) where
  -- `populatePeerstoreWithRelayFallback`.
  unfoldable pub populate_relays : Str → Dialer R → Dialer R
  populate_relays target d = elim d.relays [
    | [] ↦ d
    | ◌∷◌ relay relays ↦ record d {
      peerstore = add_addrs target (circuits host.is_peer_id (relay ∷ relays)) d.peerstore;
    }
  ]

  unfoldable pub gained : Str ⊎ List Str → Str → Dialer R → Dialer R × Bool
  gained (inl err) target d = (d, false)
  gained (inr []) target d = (d, false)
  gained (inr (addr ∷ addrs)) target d =
      (record d { peerstore = add_addrs target (addr ∷ addrs) d.peerstore }, true)

  unfoldable pub ask : Str → R → Dialer R → Dialer R × Bool
  ask target r d =
      let (r', answer) = host.resolve target r in
      gained answer target (record d { resolver = some r' })

  -- `populatePeerstoreFromResolver`.
  unfoldable pub populate_with : Option R → Bool → Str → Dialer R → Dialer R × Bool
  populate_with none fresh target d = (d, false)
  populate_with (some r) fresh target d =
      ask target (if fresh then host.invalidate_cache target r else r) d

  unfoldable pub populate : Bool → Str → Dialer R → Dialer R × Bool
  populate fresh target d = populate_with d.resolver fresh target d

  -- NewStream.
  unfoldable pub try_dial : Str → Dialer R → Dialer R × (Str ⊎ L)
  try_dial target d = (
    record d { dials = suc d.dials },
    host.new_stream d.dials (addrs_of target d.peerstore) target,
  )

  unfoldable pub give_up : Str → Str → Dialer R → Dialer R × (DialError ⊎ L)
  give_up err target d = (
    record d { resolver = Option.map (host.invalidate_cache target) d.resolver },
    inl (translate_dial_error target err),
  )

  unfoldable pub after_second : Str ⊎ L → Str → Dialer R → Dialer R × (DialError ⊎ L)
  after_second (inl err) target d = give_up err target d
  after_second (inr stream) target d = (d, inr stream)

  unfoldable pub redial : Bool → Str → Str → Dialer R → Dialer R × (DialError ⊎ L)
  redial false err target d = give_up err target d
  redial true err target d = let (d', answer) = try_dial target d in after_second answer target d'

  unfoldable pub retry : Option R → Str → Str → Dialer R → Dialer R × (DialError ⊎ L)
  retry none err target d = give_up err target d
  retry (some r) err target d = let (d', more) = populate true target d in redial more err target d'

  unfoldable pub after_first : Str ⊎ L → Str → Dialer R → Dialer R × (DialError ⊎ L)
  after_first (inl err) target d = retry d.resolver err target d
  after_first (inr stream) target d = (d, inr stream)

  -- The part of `Place` that opens the stream.
  unfoldable pub dial : Str → Dialer R → Dialer R × (DialError ⊎ L)
  dial target d =
      let (d', answer) = try_dial target (populate_relays target (populate false target d).0) in
      after_first answer target d'

unfoldable pub program : Unit {0}
unfolding translate_dial_error addrs_of add_addrs circuit circuits populate_relays gained ask
    populate_with populate try_dial give_up after_second redial retry after_first dial
program = tt
