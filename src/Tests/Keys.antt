-- ===== src/Tests/Keys.antt =====
-- A concrete runtime that meets `IsRuntime`: a key is 32 bytes.
use lantun.Runtime.{IsRuntime, Runtime}
use lantun.Base.{
  zero, ◌∷◌, ap, none, suc, sym, Option, [], bytes_eq, nat_eq, refl, some, Bytes, length, ℕ, ◌≡◌,
}
use mathlib.Core.HLevel.{Σ_prop_path}
use mathlib.Core.Option.{some-injective}

abbrev pub Key : Type 0
Key = (b : Bytes) × (length b ≡ 32)

Key-path : (k j : Key) → k.0 ≡ j.0 → k ≡ j
Key-path k j p = Σ_prop_path (λ b. hlevel) p

pub Key-discrete : Discrete Key
Key-discrete k j = elim (bytes_eq.dec k.0 j.0) [
  | yes p ↦ yes (Key-path k j p)
  | no n ↦ no (λ p. n (ap (λ k. k.0) p))
]

abbrev zeros : ℕ → Bytes
zeros zero = []
zeros (suc n) = 0 ∷ zeros n

abbrev key_of : (b : Bytes) → Dec (length b ≡ 32) → Key
key_of b (yes e) = (b, e)
key_of b (no _) = (zeros 32, refl)

abbrev public_of : (b : Bytes) → Dec (length b ≡ 32) → Option Key
public_of b (yes e) = some ((b, e))
public_of b (no _) = none

abbrev pub keys : Runtime
keys = record {
  SecretKey = Key;
  PublicKey = Key;
  Endpoint = ℕ;
  Connection = ℕ;
  StopSender = ℕ;
  secret_from = λ b. key_of b (nat_eq.dec (length b) 32);
  secret_bytes = λ k. k.0;
  public_key = λ k. k;
  public_from = λ b. public_of b (nat_eq.dec (length b) 32);
  public_bytes = λ k. k.0;
  same_peer = Key-discrete;
}

key_of-bytes : (b : Bytes) (d : Dec (length b ≡ 32)) → length b ≡ 32 → (key_of b d).0 ≡ b
key_of-bytes b (yes e) h = refl
key_of-bytes b (no n) h = absurd (n h)

public_of-bytes : (b : Bytes) (d : Dec (length b ≡ 32)) (k : Key) → public_of b d ≡ some k → k.0 ≡ b
public_of-bytes b (yes e) k h = sym (ap (λ k. k.0) (some-injective _ _ h))
public_of-bytes b (no n) k h = cc

public_of-key : (k : Key) (d : Dec (length k.0 ≡ 32)) → public_of k.0 d ≡ some k
public_of-key k (yes e) = ap some (Key-path _ k refl)
public_of-key k (no n) = absurd (n k.1)

key_of-key : (k : Key) (d : Dec (length k.0 ≡ 32)) → key_of k.0 d ≡ k
key_of-key k (yes e) = Key-path _ k refl
key_of-key k (no n) = absurd (n k.1)

pub keys-IsRuntime : IsRuntime keys
keys-IsRuntime = record {
  secret_bytes-secret_from = λ b h. key_of-bytes b (nat_eq.dec (length b) 32) h;
  secret_from-secret_bytes = λ k. key_of-key k (nat_eq.dec (length k.0) 32);
  length-secret_bytes = λ k. k.1;
  public_bytes-public_from = λ b k h. public_of-bytes b (nat_eq.dec (length b) 32) k h;
  public_from-public_bytes = λ k. public_of-key k (nat_eq.dec (length k.0) 32);
  length-public_bytes = λ k. k.1;
}

abbrev pub repeat : ℕ → Bytes
repeat zero = []
repeat (suc n) = 7 ∷ repeat n

abbrev pub bob : Key
bob = (repeat 32, refl)
