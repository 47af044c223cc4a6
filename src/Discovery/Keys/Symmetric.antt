-- ===== src/Discovery/Keys/Symmetric.antt =====
-- internal/discovery/keys.go: two friends derive the same secret and the same lookup key.
use mathlib.Core.Path.{◌≡◌, refl, sym, ◌∙◌, ap}
use opencom.Base.{
  true, false, some, [], ◌∷◌, Str, str_eq, str_beq_iff, ◌==◌, inl, inr, arith, Bool-cases,
}
use opencom.Discovery.Keys.{
  KeyOps, bytes_less, canonical_order, hash_key, dht_key_of, derive_dht_key, derive_shared_secret,
  share, of_curve, run_curve, is_self, ed_priv_from_libp2p, ed_pub_from_libp2p,
}

bytes_less_total : (a b : Str) → bytes_less a b ≡ false → bytes_less b a ≡ false → a ≡ b
unfolding bytes_less
bytes_less_total [] [] h g = refl
bytes_less_total [] (y ∷ b) h g = cc
bytes_less_total (x ∷ a) [] h g = cc
bytes_less_total (x ∷ a) (y ∷ b) h g =
    let same : x ≡ y = ground arith in
    let rest : a ≡ b = bytes_less_total a b (ground arith) (ground arith) in cc

bytes_less_asymm : (a b : Str) → bytes_less a b ≡ true → bytes_less b a ≡ false
unfolding bytes_less
bytes_less_asymm [] [] h = refl
bytes_less_asymm [] (y ∷ b) h = refl
bytes_less_asymm (x ∷ a) [] h = cc
bytes_less_asymm (x ∷ a) (y ∷ b) h = ground (arith, bytes_less_asymm a b)

canonical_order_comm : (a b : Str) → canonical_order a b ≡ canonical_order b a
unfolding canonical_order
canonical_order_comm a b = elim (Bool-cases (bytes_less a b)) [
  | inl less ↦ rw (less, bytes_less_asymm a b less) refl
  | inr other ↦ elim (Bool-cases (bytes_less b a)) [
    | inl more ↦ rw (other, more) refl
    | inr neither ↦ rw (bytes_less_total a b other neither) refl
  ]
]

beq_sym : (a b : Str) → (a == b) ≡ false → (b == a) ≡ false
beq_sym a b h = ground (arith, str_beq_iff a b, str_beq_iff b a)

module _ (k : KeyOps) where
  -- The lookup key of a pair of friends does not depend on who derives it, as long as both public keys
  -- have their bytes: it is the hash of the secret and the two keys in their canonical order.
  pub derive_dht_key_comm :
      (secret a b : Str) (pa pb : k.PubKey)
      → k.pub_raw pa ≡ some a
      → k.pub_raw pb ≡ some b
      → (derive_dht_key k secret pa pb ≡ derive_dht_key k secret pb pa)
        × (derive_dht_key k secret pa pb ≡ inr (hash_key k secret (canonical_order a b)))
  unfolding derive_dht_key dht_key_of
  derive_dht_key_comm secret a b pa pb ha hb = (
    rw (ha, hb) (ap (λ o. inr (hash_key k secret o)) (canonical_order_comm a b)),
    rw (ha, hb) refl,
  )

  -- A well-formed ed25519 identity: the bytes of its keys and of their X25519 forms.
  pub record Party (priv : k.PrivKey) : Type 0 where
    pub raw_priv : Str
    pub raw_pub : Str
    pub x_priv : Str
    pub x_pub : Str
    pub priv_bytes : ed_priv_from_libp2p k priv ≡ some raw_priv
    pub pub_bytes : ed_pub_from_libp2p k (k.get_public priv) ≡ some raw_pub
    pub own_bytes : k.pub_raw (k.get_public priv) ≡ some raw_pub
    pub priv_x : k.to_x25519_private raw_priv ≡ some x_priv
    pub pub_x : k.to_x25519_public raw_pub ≡ some x_pub

  secret_of :
      (a b : k.PrivKey) (p : Party a) (q : Party b)
      → (p.raw_pub == q.raw_pub) ≡ false
      → derive_shared_secret k a (k.get_public b) ≡ run_curve k (some p.x_priv) (some q.x_pub)
  unfolding derive_shared_secret share is_self
  secret_of a b p q apart =
      rw (p.priv_bytes, q.pub_bytes, p.own_bytes, apart, p.priv_x, q.pub_x) refl

  run_curve_cong :
      (a b c d : Str)
      → k.x25519 a b ≡ k.x25519 c d
      → run_curve k (some a) (some b) ≡ run_curve k (some c) (some d)
  unfolding run_curve
  run_curve_cong a b c d e = ap of_curve e

  -- Two friends with different public keys derive the same secret from each other, and the same error
  -- if the curve refuses, where X25519 is commutative on their keys.
  pub derive_shared_secret_comm :
      (a b : k.PrivKey) (p : Party a) (q : Party b)
      → (p.raw_pub == q.raw_pub) ≡ false
      → k.x25519 p.x_priv q.x_pub ≡ k.x25519 q.x_priv p.x_pub
      → derive_shared_secret k a (k.get_public b) ≡ derive_shared_secret k b (k.get_public a)
  derive_shared_secret_comm a b p q apart commutes =
      secret_of a b p q apart
      ∙ run_curve_cong p.x_priv q.x_pub q.x_priv p.x_pub commutes
      ∙ sym (secret_of b a q p (beq_sym p.raw_pub q.raw_pub apart))
