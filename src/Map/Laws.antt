-- ===== src/Map/Laws.antt =====
-- The laws of the map, in the form that names both keys.
use mathlib.Core.Option.{some-injective}
use mathlib.Core.Path.{subst}
use lantun.Base.{
  ◌≢◌, ◌↔◌, true, inr, inl, Bool-cases, suc, ◌≡◌, refl, none, some, [], ◌∷◌, Eq, ◌==◌,
  if◌then◌else◌, length, false, arith,
}
use lantun.Map.{AllKeys, AllValues, Map, get, contains_key, insert, remove, NodupKeys}

module _ {ℓ κ} {K : Type ℓ} {V : Type κ} ⦃e : Eq K⦄ where
  pub get-insert :
      (j k : K) (v : V) (m : Map K V) → get j (insert k v m) ≡ (if j == k then some v else get j m)
  unfolding get insert
  get-insert j k v [] = refl
  get-insert j k v (_ ∷ m) = ground (arith, get-insert j k v m)

  pub get-remove : (j k : K) (m : Map K V) → get j (remove k m) ≡ (if j == k then none else get j m)
  unfolding get remove
  get-remove j k [] = ground arith
  get-remove j k (_ ∷ m) = ground (arith, get-remove j k m)

  pub contains_key-get : (k : K) (m : Map K V) → contains_key k m ≡ false → get k m ≡ none
  unfolding get contains_key
  contains_key-get k [] h = refl
  contains_key-get k (_ ∷ m) h = ground (arith, contains_key-get k m)

  pub contains_key_of_get : (k : K) (m : Map K V) → get k m ≡ none → contains_key k m ≡ false
  unfolding get contains_key
  contains_key_of_get k [] h = refl
  contains_key_of_get k (_ ∷ m) h = ground (arith, contains_key_of_get k m)

  pub insert-NodupKeys : (k : K) (v : V) (m : Map K V) → NodupKeys m → NodupKeys (insert k v m)
  unfolding get insert
  insert-NodupKeys k v [] u = ground arith
  insert-NodupKeys k v ((j, _) ∷ m) u =
      ground (arith, get-insert j k v m, insert-NodupKeys k v m u.1)

  pub remove-NodupKeys : (k : K) (m : Map K V) → NodupKeys m → NodupKeys (remove k m)
  unfolding get remove
  remove-NodupKeys k [] u = ground arith
  remove-NodupKeys k ((j, _) ∷ m) u = ground (arith, get-remove j k m, remove-NodupKeys k m u.1)

  -- A new key makes the map one entry longer, an old one leaves its size.
  pub length-insert :
      (k : K) (v : V) (m : Map K V)
      → length (insert k v m) ≡ (if contains_key k m then length m else suc (length m))
  unfolding contains_key insert
  length-insert k v [] = refl
  length-insert k v (_ ∷ m) = ground (arith, length-insert k v m)

  remove_absent : (k : K) (m : Map K V) → get k m ≡ none → remove k m ≡ m
  unfolding get remove
  remove_absent k [] h = refl
  remove_absent k (_ ∷ m) h = ground (arith, remove_absent k m)

  -- With distinct keys a removal takes away one entry, or none.
  pub length-remove :
      (k : K) (m : Map K V)
      → NodupKeys m
      → length m ≡ (if contains_key k m then suc (length (remove k m)) else length (remove k m))
  unfolding get contains_key remove
  length-remove k [] u = refl
  length-remove k ((j, _) ∷ m) u = ground (arith, length-remove k m u.1, remove_absent k m)

  pub AllValues-insert {μ} :
      (P : V → Type μ) (k : K) (v : V) (m : Map K V)
      → P v
      → AllValues P m
      → AllValues P (insert k v m)
  unfolding insert
  AllValues-insert P k v [] p h = (p, tt)
  AllValues-insert P k v ((j, w) ∷ m) p (q, h) = elim (Bool-cases (k == j)) [
    | inl e ↦ rw e (p, h)
    | inr e ↦ rw e (q, AllValues-insert P k v m p h)
  ]

  pub AllValues-get {μ} :
      (P : V → Type μ) (k : K) (m : Map K V) {v : V} → AllValues P m → get k m ≡ some v → P v
  unfolding get
  AllValues-get P k [] h e = cc
  AllValues-get P k ((j, w) ∷ m) (p, h) e = elim (Bool-cases (k == j)) [
    | inl same ↦ subst P (some-injective _ _ (rw same at e)) p
    | inr other ↦ AllValues-get P k m h (rw other at e)
  ]

  pub contains_key-insert :
      (j k : K) (v : V) (m : Map K V)
      → contains_key j (insert k v m) ≡ (if j == k then true else contains_key j m)
  unfolding contains_key insert
  contains_key-insert j k v [] = refl
  contains_key-insert j k v (_ ∷ m) = ground (arith, contains_key-insert j k v m)

  pub contains_key-iff_get : (k : K) (m : Map K V) → (contains_key k m ≡ true) ↔ (get k m ≢ none)
  unfolding get contains_key
  contains_key-iff_get k [] = (λ h. cc, λ h. absurd (h refl))
  contains_key-iff_get k (_ ∷ m) = ground (arith, contains_key-iff_get k m)

  pub AllKeys-insert {μ} :
      (P : K → Type μ) (k : K) (v : V) (m : Map K V) → P k → AllKeys P m → AllKeys P (insert k v m)
  unfolding insert
  AllKeys-insert P k v [] p h = (p, tt)
  AllKeys-insert P k v ((j, w) ∷ m) p (q, h) = elim (Bool-cases (k == j)) [
    | inl e ↦ rw e (p, h)
    | inr e ↦ rw e (q, AllKeys-insert P k v m p h)
  ]

  pub AllKeys-remove {μ} :
      (P : K → Type μ) (k : K) (m : Map K V) → AllKeys P m → AllKeys P (remove k m)
  unfolding remove
  AllKeys-remove P k [] h = tt
  AllKeys-remove P k ((j, w) ∷ m) (q, h) = elim (Bool-cases (k == j)) [
    | inl e ↦ rw e (AllKeys-remove P k m h)
    | inr e ↦ rw e (q, AllKeys-remove P k m h)
  ]
