-- ===== src/Discovery/Publisher.antt =====
-- internal/discovery/publisher.go: one record per friend in the DHT. The table is an association list;
-- the nonce that `Encode` draws for a friend and the outcome of PutValue are arguments.
pub mod Delivery
mod Tests
use opencom.Base.{
  ℕ, Bool, true, false, Option, none, some, List, [], ◌∷◌, Str, str_eq, ◌⊎◌, inl, inr,
}
use opencom.Base.Int.{ℤ}
use opencom.Base.Dict.{Dict, insert}
use opencom.Friends.Store.{Friend}
use opencom.Discovery.Keys.{
  KeyOps, KeyError, derive_shared_secret, derive_dht_key, unmarshal_friend_pub_key,
}
use opencom.Discovery.Record.{Ciphers, Record, EncodeError, record_version, encode}

abbrev pub Table : Type 0
Table = Dict Str Str

-- The publisher's keys, `sign_key` being its private key as the ciphers take it.
pub record Publisher : Type 1 where
  pub keys : KeyOps
  pub ciphers : Ciphers
  pub encryption_key : Str → Str
  pub signer : keys.PrivKey
  pub signer_pub : keys.PubKey
  pub sign_key : ciphers.PrivKey

-- A friend of the round, with what is drawn and what PutValue answers for it.
pub record Turn : Type 0 where
  pub friend : Friend
  pub nonce : Option Str
  pub put_ok : Bool

unfoldable pub put_value : Bool → Str → Str → Table → Table
put_value true key blob table = insert key blob table
put_value false key blob table = table

module _ (p : Publisher) where
  unfoldable pub put_encoded : EncodeError ⊎ Str → Str → Turn → Table → Table
  put_encoded (inl e) key turn table = table
  put_encoded (inr blob) key turn table = put_value turn.put_ok key blob table

  unfoldable pub put_keyed : KeyError ⊎ Str → Str → Record → Turn → Table → Table
  put_keyed (inl e) secret rec turn table = table
  put_keyed (inr key) secret rec turn table =
      put_encoded (encode p.ciphers rec (p.encryption_key secret) p.sign_key turn.nonce) key turn
        table

  unfoldable pub put_secret : KeyError ⊎ Str → p.keys.PubKey → Record → Turn → Table → Table
  put_secret (inl e) friend_pub rec turn table = table
  put_secret (inr secret) friend_pub rec turn table =
      put_keyed (derive_dht_key p.keys secret p.signer_pub friend_pub) secret rec turn table

  unfoldable pub put_pub : Option p.keys.PubKey → Record → Turn → Table → Table
  put_pub none rec turn table = table
  put_pub (some friend_pub) rec turn table =
      put_secret (derive_shared_secret p.keys p.signer friend_pub) friend_pub rec turn table

  -- One turn of the loop of `PublishOnce`.
  unfoldable pub publish_friend : Record → Turn → Table → Table
  publish_friend rec turn table =
      put_pub (unmarshal_friend_pub_key p.keys turn.friend.public_key) rec turn table

  unfoldable pub publish_all : Record → List Turn → Table → Table
  publish_all rec [] table = table
  publish_all rec (turn ∷ turns) table = publish_all rec turns (publish_friend rec turn table)

  -- `PublishOnce`; with no friends nothing is put.
  unfoldable pub publish_once : List Str → ℤ → List Turn → Table → Table
  publish_once addrs now turns table =
      publish_all (record { version = record_version; addresses = addrs; timestamp = now }) turns
        table

unfoldable pub program : Unit {0}
unfolding put_value put_encoded put_keyed put_secret put_pub publish_friend publish_all publish_once
program = tt
