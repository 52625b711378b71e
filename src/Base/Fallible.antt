-- ===== src/Base/Fallible.antt =====
-- The result of fallible Rust code: `Ok`, `Err`, or a panic (`unwrap`, `expect`, `panic!`).
use mathlib.Core.Option.{Option, none, some}
use mathlib.Core.Path.{◌≡◌, refl}
use native.Mathlib.Omega.{arith}

pub data Outcome {ℓ} (E A : Type ℓ) : Type ℓ where
  ok : A → Outcome E A
  err : E → Outcome E A
  panic : Outcome E A

-- The `?` operator.
infixl 5 ◌>>=◌
abbrev pub ◌>>=◌ {ℓ} : {E A B : Type ℓ} → Outcome E A → (A → Outcome E B) → Outcome E B
ok a >>= f = f a
err e >>= f = err e
panic >>= f = panic

-- `Option::unwrap`
abbrev pub unwrap {ℓ} : {E A : Type ℓ} → Option A → Outcome E A
unwrap none = panic
unwrap (some a) = ok a

-- `map_err`
abbrev pub map_err {ℓ} : {E F A : Type ℓ} → (E → F) → Outcome E A → Outcome F A
map_err f (ok a) = ok a
map_err f (err e) = err (f e)
map_err f panic = panic

-- A chain gives a value only if each of its parts does.
pub bind_ok {ℓ} :
    {E A B : Type ℓ} (r : Outcome E A) (f : A → Outcome E B) {b : B}
    → (r >>= f) ≡ ok b
    → (a : A) × (r ≡ ok a) × (f a ≡ ok b)
bind_ok (ok a) f e = (a, refl, e)
bind_ok (err x) f e = cc
bind_ok panic f e = cc

pub map_err_ok {ℓ} :
    {E F A : Type ℓ} (g : E → F) (r : Outcome E A) {a : A} → map_err g r ≡ ok a → r ≡ ok a
map_err_ok g (ok x) e = ground arith
map_err_ok g (err x) e = cc
map_err_ok g panic e = cc

pub ok_unique {ℓ} : {E A : Type ℓ} {r : Outcome E A} {a b : A} → r ≡ ok a → r ≡ ok b → a ≡ b
ok_unique h k = ground arith

pub chain_ok {ℓ} :
    {E F A B D : Type ℓ} (g : E → F) (r : Outcome E A) (rest : Outcome F B) (f : B → D) {d : D}
    → (map_err g r >>= (λ _. rest >>= (λ b. ok (f b)))) ≡ ok d
    → (a : A) × (r ≡ ok a) × (b : B) × (rest ≡ ok b) × (d ≡ f b)
chain_ok g (ok a) (ok b) f e = (a, refl, b, refl, ground arith)
chain_ok g (ok a) (err x) f e = cc
chain_ok g (ok a) panic f e = cc
chain_ok g (err x) rest f e = cc
chain_ok g panic rest f e = cc

pub pair_ok {ℓ} :
    {E A B D : Type ℓ} (r : Outcome E A) (s : Outcome E B) (f : A → B → D) {d : D}
    → (r >>= (λ a. s >>= (λ b. ok (f a b)))) ≡ ok d
    → (a : A) × (b : B) × (r ≡ ok a) × (s ≡ ok b) × (f a b ≡ d)
pair_ok (ok a) (ok b) f e = (a, b, refl, refl, ok_unique refl e)
pair_ok (ok a) (err x) f e = cc
pair_ok (ok a) panic f e = cc
pair_ok (err x) s f e = cc
pair_ok panic s f e = cc

pub bind_ext {ℓ} :
    {E A B : Type ℓ} (r : Outcome E A) (f g : A → Outcome E B)
    → ((a : A) → f a ≡ g a)
    → (r >>= f) ≡ (r >>= g)
bind_ext (ok a) f g h = h a
bind_ext (err e) f g h = refl
bind_ext panic f g h = refl
