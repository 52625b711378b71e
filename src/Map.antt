-- ===== src/Map.antt =====
-- `HashMap`, as an association list in the order of iteration (host.rs, client.rs).
pub mod Laws
use lantun.Base.{
  ℕ, Option, none, some, List, [], ◌∷◌, map, Eq, ◌==◌, if◌then◌else◌, length, Bool, true, false,
  ◌≡◌,
}

abbrev pub Map {ℓ κ} : Type ℓ → Type κ → Type (ℓ ⊔ κ)
Map K V = List (K × V)

abbrev pub keys {ℓ κ} : {K : Type ℓ} {V : Type κ} → Map K V → List K
keys [] = []
keys ((k, _) ∷ m) = k ∷ keys m

abbrev pub values {ℓ κ} : {K : Type ℓ} {V : Type κ} → Map K V → List V
values [] = []
values ((_, v) ∷ m) = v ∷ values m

module _ {ℓ κ} {K : Type ℓ} {V : Type κ} ⦃e : Eq K⦄ where
  -- `HashMap::get`
  unfoldable pub get : K → Map K V → Option V
  get k [] = none
  get k ((j, v) ∷ m) = if k == j then some v else get k m

  -- `HashMap::contains_key`
  unfoldable pub contains_key : K → Map K V → Bool
  contains_key k [] = false
  contains_key k ((j, v) ∷ m) = if k == j then true else contains_key k m

  -- `HashMap::insert`: an old entry of the key is replaced.
  unfoldable pub insert : K → V → Map K V → Map K V
  insert k v [] = (k, v) ∷ []
  insert k v ((j, w) ∷ m) = if k == j then (k, v) ∷ m else (j, w) ∷ insert k v m

  -- `HashMap::remove`, its new map.
  unfoldable pub remove : K → Map K V → Map K V
  remove k [] = []
  remove k ((j, w) ∷ m) = let rest = remove k m in if k == j then rest else (j, w) ∷ rest

  -- No key is listed twice.
  abbrev pub NodupKeys : Map K V → Type κ
  NodupKeys [] = Unit
  NodupKeys ((k, _) ∷ m) = (get k m ≡ none) × NodupKeys m

-- A predicate of every value.
abbrev pub AllValues {ℓ κ μ} : {K : Type ℓ} {V : Type κ} → (V → Type μ) → Map K V → Type μ
AllValues P [] = Unit
AllValues P ((_, v) ∷ m) = P v × AllValues P m

-- A predicate of every key.
abbrev pub AllKeys {ℓ κ μ} : {K : Type ℓ} {V : Type κ} → (K → Type μ) → Map K V → Type μ
AllKeys P [] = Unit
AllKeys P ((k, _) ∷ m) = P k × AllKeys P m
