-- ===== src/Discovery/Record/Tests.antt =====
-- internal/discovery/record.go: a record sealed and opened by concrete ciphers.
use mathlib.Core.Path.{◌≡◌, refl, sym, ap}
use opencom.Base.{
  ℕ, zero, suc, true, Option, none, some, List, [], ◌∷◌, ◌++◌, Str, str_beq, str_beq_iff, inl, inr,
  arith, drop,
}
use opencom.Base.Int.{ℤ, pos, negsuc}
use opencom.Discovery.Record.{
  Record, Ciphers, encode, decode, is_stale, program, signature_invalid, stale,
}
use opencom.Discovery.Record.Sealed.{Laws, Genuine, decode-encode, decode-Genuine}

abbrev repeat : ℕ → ℕ → Str
repeat zero n = []
repeat (suc count) n = n ∷ repeat count n

-- The cipher puts a tag of 16 zeros in front, a signature repeats the key, and the text of a record
-- without addresses is its version and its time.
abbrev write : ℕ → List Str → ℤ → Option Str
write v [] (pos t) = some (v ∷ t ∷ [])
write v [] (negsuc t) = none
write v (a ∷ l) t = none

abbrev read : Str → Option Record
read (v ∷ t ∷ []) = some (record { version = v; addresses = []; timestamp = pos t })
read (v ∷ t ∷ x ∷ s) = none
read (v ∷ []) = none
read [] = none

abbrev ciphers : Ciphers
ciphers = record {
  PrivKey = ℕ;
  PubKey = ℕ;
  get_public = λ k. k;
  sign = λ k m. some (repeat 64 k);
  verify = λ k m s. some (str_beq s (repeat 64 k));
  seal = λ key nonce p. repeat 16 0 ++ p;
  open_sealed = λ key nonce ct. some (drop 16 ct);
  marshal = λ r. write r.version r.addresses r.timestamp;
  unmarshal = read;
}

signed : (s : Str) (k : ℕ) → some (repeat 64 k) ≡ some s → str_beq s (repeat 64 k) ≡ true
signed s k h = let same : repeat 64 k ≡ s = cc in (str_beq_iff s (repeat 64 k)).1 (sym same)

read_pair :
    (p : Str) (v t : ℕ)
    → some (v ∷ t ∷ []) ≡ some p
    → read p ≡ some (record { version = v; addresses = []; timestamp = pos t })
read_pair p v t h = let same : v ∷ t ∷ [] ≡ p = cc in ap read (sym same)

read-write :
    (v : ℕ) (l : List Str) (t : ℤ) (p : Str)
    → write v l t ≡ some p
    → read p ≡ some (record { version = v; addresses = l; timestamp = t })
read-write v [] (pos t) p h = read_pair p v t h
read-write v [] (negsuc t) p h = cc
read-write v (a ∷ l) t p h = cc

ciphers-Laws : Laws ciphers
ciphers-Laws = record {
  verify-sign = λ k m s h. ap some (signed s k h);
  open-seal = λ key nonce p. refl;
  length-seal = λ key nonce p. omega arith;
  unmarshal-marshal = λ r p h. read-write r.version r.addresses r.timestamp p h;
}

abbrev address_free : Record
address_free = record { version = 1; addresses = []; timestamp = pos 3 }

abbrev nonce : Str
nonce = repeat 24 9

abbrev blob : Str
blob = repeat 64 7 ++ (nonce ++ (repeat 16 0 ++ (1 ∷ 3 ∷ [])))

sealed : encode ciphers address_free [] 7 (some nonce) ≡ inr blob
unfolding program
sealed = refl

opened : decode ciphers blob [] 7 3000000001 5 ≡ inr address_free
unfolding program str_beq
opened = refl

other_key : decode ciphers blob [] 8 3000000001 5 ≡ inl signature_invalid
unfolding program str_beq
other_key = refl

too_old : decode ciphers blob [] 7 3000000006 5 ≡ inl stale
unfolding program str_beq
too_old = refl

decode-encode_example : decode ciphers blob [] 7 3000000001 5 ≡ inr address_free
unfolding is_stale
decode-encode_example =
    decode-encode ciphers ciphers-Laws address_free [] nonce 7 blob 3000000001 5 sealed refl refl
      refl

decode-Genuine_example : Genuine ciphers blob [] 7 3000000001 5 address_free
decode-Genuine_example = decode-Genuine ciphers blob [] 7 3000000001 5 address_free opened
