-- ===== src/Call/Engine/Dial/Bounded.antt =====
-- internal/call/streams.go: the two attempts of Place, and the addresses that each has.
use mathlib.Core.Option
use mathlib.Core.Path.{◌≡◌, refl, sym, ◌∙◌, ap}
use mathlib.Core.List.{append-nil, append_assoc}
use opencom.Base.{
  ℕ, suc, Bool, true, false, Option, none, some, List, [], ◌∷◌, ◌++◌, Str, str_eq, ◌⊎◌, inl, inr,
}
use opencom.Base.Dict.{Dict, lookup, inserted}
use opencom.Call.Engine.Dial.{
  Dialer, Host, Relay, DialError, translate_dial_error, addrs_of, or_nil, add_addrs, circuits,
  populate_relays, gained, ask, populate_with, populate, try_dial, give_up, after_second, redial,
  retry, after_first, dial,
}

addrs_of-add_addrs :
    (target : Str) (addrs : List Str) (store : Dict Str (List Str))
    → addrs_of target (add_addrs target addrs store) ≡ addrs_of target store ++ addrs
unfolding addrs_of add_addrs
addrs_of-add_addrs target addrs store =
    ap or_nil (inserted target (or_nil (lookup target store) ++ addrs) store)

module _ {R L : Type 0} (host : Host R L) (target : Str) where
  -- `d'` knows all addresses that `d` knows, and dials and relays are as they were.
  record Grown (d d' : Dialer R) : Type 0 where
    more : List Str
    addrs : addrs_of target d'.peerstore ≡ addrs_of target d.peerstore ++ more
    dials : d'.dials ≡ d.dials
    relays : d'.relays ≡ d.relays
    gains : Bool

  unchanged :
      (d d' : Dialer R)
      → d'.peerstore ≡ d.peerstore
      → d'.dials ≡ d.dials
      → d'.relays ≡ d.relays
      → Grown d d'
  unchanged d d' p n r = record {
    more = [];
    addrs = ap (addrs_of target) p ∙ sym (append-nil (addrs_of target d.peerstore));
    dials = n;
    relays = r;
    gains = false;
  }

  gained-Grown : (answer : Str ⊎ List Str) (d : Dialer R) → Grown d (gained host answer target d).0
  unfolding gained
  gained-Grown (inl err) d = unchanged d d refl refl refl
  gained-Grown (inr []) d = unchanged d d refl refl refl
  gained-Grown (inr (addr ∷ addrs)) d = record {
    more = addr ∷ addrs;
    addrs = addrs_of-add_addrs target (addr ∷ addrs) d.peerstore;
    dials = refl;
    relays = refl;
    gains = true;
  }

  populate_with-Grown :
      (o : Option R) (fresh : Bool) (d : Dialer R) → Grown d (populate_with host o fresh target d).0
  unfolding populate_with ask
  populate_with-Grown none fresh d = unchanged d d refl refl refl
  populate_with-Grown (some r) true d =
      let (r', answer) = host.resolve target (host.invalidate_cache target r) in
      let g = gained-Grown answer (record d { resolver = some r' }) in
      record { more = g.more; addrs = g.addrs; dials = g.dials; relays = g.relays; gains = g.gains }
  populate_with-Grown (some r) false d =
      let (r', answer) = host.resolve target r in
      let g = gained-Grown answer (record d { resolver = some r' }) in
      record { more = g.more; addrs = g.addrs; dials = g.dials; relays = g.relays; gains = g.gains }

  gained-false :
      (answer : Str ⊎ List Str) (d : Dialer R)
      → (gained host answer target d).1 ≡ false
      → (gained host answer target d).0 ≡ d
  unfolding gained
  gained-false (inl err) d h = refl
  gained-false (inr []) d h = refl
  gained-false (inr (addr ∷ addrs)) d h = cc

  -- With no address gained the peerstore and the count of dials are as they were.
  populate_with-false :
      (o : Option R) (fresh : Bool) (d : Dialer R)
      → (populate_with host o fresh target d).1 ≡ false
      → ((populate_with host o fresh target d).0.peerstore ≡ d.peerstore)
        × ((populate_with host o fresh target d).0.dials ≡ d.dials)
  unfolding populate_with ask
  populate_with-false none fresh d h = (refl, refl)
  populate_with-false (some r) true d h =
      let (r', answer) = host.resolve target (host.invalidate_cache target r) in
      let same = gained-false answer (record d { resolver = some r' }) h in
      (ap (λ (x : Dialer R). x.peerstore) same, ap (λ (x : Dialer R). x.dials) same)
  populate_with-false (some r) false d h =
      let (r', answer) = host.resolve target r in
      let same = gained-false answer (record d { resolver = some r' }) h in
      (ap (λ (x : Dialer R). x.peerstore) same, ap (λ (x : Dialer R). x.dials) same)

  addrs_of-populate_relays :
      (d : Dialer R) (relays : List Relay)
      → d.relays ≡ relays
      → (addrs_of target (populate_relays host target d).peerstore
          ≡ addrs_of target d.peerstore ++ circuits host.is_peer_id relays)
        × ((populate_relays host target d).dials ≡ d.dials)
  unfolding populate_relays
  addrs_of-populate_relays d [] e =
      rw e (unfold circuits in (sym (append-nil (addrs_of target d.peerstore)), refl))
  addrs_of-populate_relays d (relay ∷ relays) e =
      rw e (addrs_of-add_addrs target (circuits host.is_peer_id (relay ∷ relays)) d.peerstore, refl)

  -- The last attempt, the n-th dial: what it knew of the target is still known, and among it all that
  -- `d` knew and the way through each relay.
  pub record Tried (d d' : Dialer R) (answer : Str ⊎ L) : Type 0 where
    pub n : ℕ
    pub found : List Str
    pub more : List Str
    pub counted : d'.dials ≡ suc n
    pub bounded : (n ≡ d.dials) ⊎ (n ≡ suc d.dials)
    pub known :
        addrs_of target d'.peerstore
        ≡ (addrs_of target d.peerstore ++ found) ++ (circuits host.is_peer_id d.relays ++ more)
    pub answered : host.new_stream n (addrs_of target d'.peerstore) target ≡ answer

  pub data Dialled (d : Dialer R) : Dialer R × (DialError ⊎ L) → Type 0 where
    reached : {d' : Dialer R} {link : L} → Tried d d' (inr link) → Dialled d (d', inr link)
    unreachable :
        {d' : Dialer R} (err : Str)
        → Tried d d' (inl err)
        → Dialled d (
          record d' { resolver = Option.map (host.invalidate_cache target) d'.resolver },
          inl (translate_dial_error target err),
        )

  after_second-Dialled :
      (answer : Str ⊎ L) (d d' : Dialer R)
      → Tried d d' answer
      → Dialled d (after_second host answer target d')
  unfolding after_second give_up
  after_second-Dialled (inl err) d d' t = unreachable err t
  after_second-Dialled (inr link) d d' t = reached t

  redial-Dialled :
      (more : Bool) (err : Str) (d d1 d2 : Dialer R)
      → Tried d d1 (inl err)
      → d1.dials ≡ suc d.dials
      → Grown d1 d2
      → (more ≡ false → (d2.peerstore ≡ d1.peerstore) × (d2.dials ≡ d1.dials))
      → Dialled d (redial host more err target d2)
  unfolding redial give_up try_dial
  redial-Dialled false err d d1 d2 t one g still =
      let (store, count) = still refl in
      unreachable err (record {
        n = t.n;
        found = t.found;
        more = t.more;
        counted = count ∙ t.counted;
        bounded = t.bounded;
        known = rw store t.known;
        answered = rw store t.answered;
      })
  redial-Dialled true err d d1 d2 t one g still =
      let answer = host.new_stream d2.dials (addrs_of target d2.peerstore) target in
      after_second-Dialled answer d (record d2 { dials = suc d2.dials })
        (record {
          n = d2.dials;
          found = t.found;
          more = t.more ++ g.more;
          counted = refl;
          bounded = inr (g.dials ∙ one);
          known =
              g.addrs
              ∙ rw
                  (
                    t.known,
                    append_assoc (addrs_of target d.peerstore ++ t.found)
                        (circuits host.is_peer_id d.relays ++ t.more) g.more,
                    append_assoc (circuits host.is_peer_id d.relays) t.more g.more,
                  )
                  refl;
          answered = refl;
        })

  retry-Dialled :
      (o : Option R) (err : Str) (d d1 : Dialer R)
      → d1.resolver ≡ o
      → Tried d d1 (inl err)
      → d1.dials ≡ suc d.dials
      → Dialled d (retry host o err target d1)
  unfolding retry give_up populate
  retry-Dialled none err d d1 e t one = unreachable err t
  retry-Dialled (some r) err d d1 e t one =
      let o = d1.resolver in
      redial-Dialled (populate_with host o true target d1).1 err d d1
        (populate_with host o true target d1).0 t one (populate_with-Grown o true d1)
        (populate_with-false o true d1)

  after_first-Dialled :
      (answer : Str ⊎ L) (d d1 : Dialer R)
      → Tried d d1 answer
      → d1.dials ≡ suc d.dials
      → Dialled d (after_first host answer target d1)
  unfolding after_first
  after_first-Dialled (inl err) d d1 t one = retry-Dialled d1.resolver err d d1 refl t one
  after_first-Dialled (inr link) d d1 t one = reached t

  -- Place opens its stream, or fails with the translated error of its last attempt and the target
  -- invalidated in the resolver's cache. It makes one or two dials, and the last of them has all the
  -- addresses known before and the circuit addresses of all relays.
  pub dial-Dialled : (d : Dialer R) → Dialled d (dial host target d)
  unfolding dial populate try_dial
  dial-Dialled d =
      let g = populate_with-Grown d.resolver false d in
      let d0 = (populate_with host d.resolver false target d).0 in
      let (store, count) = addrs_of-populate_relays d0 d.relays g.relays in
      let d1 = populate_relays host target d0 in
      let answer = host.new_stream d1.dials (addrs_of target d1.peerstore) target in
      let one : d1.dials ≡ d.dials = count ∙ g.dials in
      after_first-Dialled answer d (record d1 { dials = suc d1.dials })
        (record {
          n = d1.dials;
          found = g.more;
          more = [];
          counted = refl;
          bounded = inl one;
          known = store ∙ rw (g.addrs, append-nil (circuits host.is_peer_id d.relays)) refl;
          answered = refl;
        })
        (ap suc one)
