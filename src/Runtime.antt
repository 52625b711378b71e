-- ===== src/Runtime.antt =====
-- What the program uses of its libraries: the keys, endpoints and connections of iroh and the watch
-- channel of tokio, as parameters (used by host.rs and client.rs).
use lantun.Base.{true, some, suc, Bool, Option, false, length, Bytes, ℕ, ◌≡◌}

-- The types are opaque, but that keys can be converted, derived and compared.
pub record Runtime : Type 1 where
  pub SecretKey : Type 0
  pub PublicKey : Type 0
  pub Endpoint : Type 0
  pub Connection : Type 0
  pub StopSender : Type 0
  -- `SecretKey::from([u8; 32])`, `to_bytes` and `public`
  pub secret_from : Bytes → SecretKey
  pub secret_bytes : SecretKey → Bytes
  pub public_key : SecretKey → PublicKey
  -- `PublicKey::from_bytes`, which not all 32 bytes pass, and `as_bytes`
  pub public_from : Bytes → Option PublicKey
  pub public_bytes : PublicKey → Bytes
  pub same_peer : Discrete PublicKey

-- What is documented of the keys.
pub record IsRuntime (R : Runtime) : Type 0 where
  pub secret_bytes-secret_from : (b : Bytes) → length b ≡ 32 → R.secret_bytes (R.secret_from b) ≡ b
  pub secret_from-secret_bytes : (k : R.SecretKey) → R.secret_from (R.secret_bytes k) ≡ k
  pub length-secret_bytes : (k : R.SecretKey) → length (R.secret_bytes k) ≡ 32
  pub public_bytes-public_from :
      (b : Bytes) (k : R.PublicKey) → R.public_from b ≡ some k → R.public_bytes k ≡ b
  pub public_from-public_bytes : (k : R.PublicKey) → R.public_from (R.public_bytes k) ≡ some k
  pub length-public_bytes : (k : R.PublicKey) → length (R.public_bytes k) ≡ 32

-- `watch::Sender::send` by the number of receivers that are left: it fails if there are none.
abbrev pub Send : Type 0
Send = ℕ → Bool

pub record IsWatch (send : Send) : Type 0 where
  pub closed : send 0 ≡ false
  pub heard : (n : ℕ) → send (suc n) ≡ true
