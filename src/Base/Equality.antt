-- ===== src/Base/Equality.antt =====
-- `PartialEq` and `Hash` keys of the source: types with a decidable equality, as instances.
use Prim.Native.Nat.{ℕ}
use mathlib.Core.Path.{refl, sym, ap₂}
use mathlib.Core.Logic.{ite, dite, ◌≢◌}
use mathlib.Core.Bool.{Bool, true, false}
use mathlib.Core.List.{List, [], ◌∷◌}
use native.Mathlib.Decide.{ℕ_discrete}

pub record Eq {ℓ} (A : Type ℓ) : Type ℓ where
  pub dec : Discrete A

infix 50 ◌==◌
abbrev pub ◌==◌ {ℓ} : {A : Type ℓ} ⦃e : Eq A⦄ → A → A → Bool
◌==◌ ⦃e⦄ a b = ite (e.dec a b) true false

instance unfoldable pub nat_eq : Eq ℕ
unfolding ℕ_discrete
nat_eq = record { dec = ℕ_discrete }

heads_differ {ℓ} : {A : Type ℓ} {x y : A} {xs ys : List A} → x ≢ y → x ∷ xs ≢ y ∷ ys
heads_differ n p = n (cc)

tails_differ {ℓ} : {A : Type ℓ} {x y : A} {xs ys : List A} → xs ≢ ys → x ∷ xs ≢ y ∷ ys
tails_differ n p = n (cc)

nil_differs {ℓ} : {A : Type ℓ} {x : A} {xs : List A} → [] ≢ x ∷ xs
nil_differs p = cc

module _ {ℓ} {A : Type ℓ} ⦃e : Eq A⦄ where
  -- `Vec` and `String` compare element by element.
  unfoldable pub list_discrete : Discrete (List A)
  unfolding heads_differ tails_differ nil_differs
  list_discrete [] [] = yes refl
  list_discrete [] (y ∷ ys) = no nil_differs
  list_discrete (x ∷ xs) [] = no (λ p. nil_differs (sym p))
  list_discrete (x ∷ xs) (y ∷ ys) =
      dite (e.dec x y)
        (λ p. dite (list_discrete xs ys) (λ q. yes (ap₂ ◌∷◌ p q)) (λ n. no (tails_differ n)))
        (λ n. no (heads_differ n))

-- Byte sequences and texts are lists of numbers.
instance unfoldable pub bytes_eq : Eq (List ℕ)
unfolding list_discrete nat_eq
bytes_eq = record { dec = list_discrete }
