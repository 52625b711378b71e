-- ===== src/Cli/Sorting.antt =====
-- `sort_by(|a, b| a.name.cmp(&b.name))` of the standard library, which is stable (used by
-- lantun-cli/src/main.rs).
use mathlib.Core.List.{Perm}
use mathlib.Core.List.Perm
use lantun.Base.{
  refl, nat_eq, inr, ◌==◌, inl, ltb, Bool-cases, [], arith, if◌then◌else◌, false, true, ◌∷◌, Bool,
  List, ◌≡◌, Text,
}

-- `str::cmp`, as `a <= b`: code points compare as their UTF-8 bytes do.
abbrev pub text_leb : Text → Text → Bool
text_leb [] t = true
text_leb (c ∷ s) [] = false
text_leb (c ∷ s) (d ∷ t) = if ltb c d then true else if c == d then text_leb s t else false

module _ {A : Type 0} (name : A → Text) where
  -- Before the first entry that is not smaller.
  unfoldable pub insert_by : A → List A → List A
  insert_by x [] = x ∷ []
  insert_by x (y ∷ ys) = if text_leb (name x) (name y) then x ∷ y ∷ ys else y ∷ insert_by x ys

  unfoldable pub sort_by : List A → List A
  unfolding insert_by
  sort_by [] = []
  sort_by (x ∷ xs) = insert_by x (sort_by xs)

  -- Each name is at most the next one.
  abbrev pub IsSorted : List A → Type 0
  IsSorted [] = Unit
  IsSorted (x ∷ []) = Unit
  IsSorted (x ∷ y ∷ ys) = (text_leb (name x) (name y) ≡ true) × IsSorted (y ∷ ys)

  insert_by-perm : (x : A) (ys : List A) → Perm (insert_by x ys) (x ∷ ys)
  unfolding insert_by
  insert_by-perm x [] = Perm.refl (x ∷ [])
  insert_by-perm x (y ∷ ys) = elim (Bool-cases (text_leb (name x) (name y))) [
    | inl e ↦ rw e (Perm.refl (x ∷ y ∷ ys))
    | inr e ↦ rw e (Perm.trans (Perm.cons y (insert_by-perm x ys)) (Perm.swap x y ys))
  ]

  -- A sorted list has the same entries.
  pub sort_by-perm : (xs : List A) → Perm (sort_by xs) xs
  unfolding sort_by
  sort_by-perm [] = Perm.refl []
  sort_by-perm (x ∷ xs) = Perm.trans (insert_by-perm x (sort_by xs)) (Perm.cons x (sort_by-perm xs))

text_leb_total : (s t : Text) → text_leb s t ≡ false → text_leb t s ≡ true
text_leb_total (c ∷ s) (d ∷ t) h = ground (arith, text_leb_total s t)
text_leb_total [] t h = cc
text_leb_total (c ∷ s) [] h = refl

module _ {A : Type 0} (name : A → Text) where
  insert_by-IsSorted :
      (x : A) (ys : List A) → IsSorted name ys → IsSorted name (insert_by name x ys)
  unfolding insert_by
  insert_by-IsSorted x [] h = tt
  insert_by-IsSorted x (y ∷ []) h = ground (arith, text_leb_total (name x) (name y))
  insert_by-IsSorted x (y ∷ z ∷ zs) h =
      ground (arith, text_leb_total (name x) (name y), insert_by-IsSorted x (z ∷ zs) h.1)

  -- Sorting puts the names in order.
  pub sort_by-IsSorted : (xs : List A) → IsSorted name (sort_by name xs)
  unfolding sort_by
  sort_by-IsSorted [] = tt
  sort_by-IsSorted (x ∷ xs) = insert_by-IsSorted x (sort_by name xs) (sort_by-IsSorted xs)
