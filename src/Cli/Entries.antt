-- ===== src/Cli/Entries.antt =====
-- Lists of entries: sorting, adding and removing keep them sorted and distinct (main.rs).
use lantun.Cli.Sorting.{IsSorted, insert_by, sort_by, text_leb}
use lantun.Cli.Commands.{remove_at, any, position}
use lantun.Base.{
  suc, inr, some, inl, refl, ℕ, Bool-cases, [], arith, if◌then◌else◌, ◌∙◌, ◌⊎◌, false, none, true,
  ◌++◌, ◌||◌, ◌∷◌, List, ◌≡◌, Bool, Text,
}

module _ {A : Type 0} where
  -- The list without the first entry that passes the test.
  unfoldable pub remove_first : (A → Bool) → List A → List A
  remove_first p [] = []
  remove_first p (x ∷ xs) = let rest = remove_first p xs in if p x then xs else x ∷ rest

  -- `position` and `remove` together take out that entry, and `remove` is in range.
  pub remove_at-position :
      (p : A → Bool) (xs : List A)
      → ((position p xs ≡ none) × (any p xs ≡ false))
        ⊎ ((i : ℕ) × (position p xs ≡ some i)
            × (any p xs ≡ true)
            × (remove_at i xs ≡ some (remove_first p xs)))
  unfolding position any remove_at remove_first
  remove_at-position p [] = inl (refl, refl)
  remove_at-position p (x ∷ xs) = elim (Bool-cases (p x)) [
    | inl e ↦ inr (0, rw e, rw e, rw e)
    | inr e ↦ elim (remove_at-position p xs) [
      | inl (none_here, nobody) ↦ inl (rw (e, none_here), rw (e, nobody))
      | inr (i, at, some_one, removed) ↦ inr (suc i, rw (e, at), rw (e, some_one), rw (e, removed))
    ]
  ]

  pub remove_first_absent : (p : A → Bool) (xs : List A) → any p xs ≡ false → remove_first p xs ≡ xs
  unfolding any remove_first
  remove_first_absent p [] h = refl
  remove_first_absent p (x ∷ xs) h = ground (arith, remove_first_absent p xs)

  pub any-append : (p : A → Bool) (xs ys : List A) → any p (xs ++ ys) ≡ (any p xs || any p ys)
  unfolding any
  any-append p [] ys = refl
  any-append p (x ∷ xs) ys = ground (arith, any-append p xs ys)

  pub any-remove_first :
      (p q : A → Bool) (xs : List A) → any p xs ≡ false → any p (remove_first q xs) ≡ false
  unfolding any remove_first
  any-remove_first p q [] h = refl
  any-remove_first p q (x ∷ xs) h = ground (arith, any-remove_first p q xs)

  -- No two entries clash.
  abbrev pub IsDistinct : (A → A → Bool) → List A → Type 0
  IsDistinct clash [] = Unit
  IsDistinct clash (x ∷ xs) = (any (clash x) xs ≡ false) × IsDistinct clash xs

  pub remove_first-IsDistinct :
      (clash : A → A → Bool) (q : A → Bool) (xs : List A)
      → IsDistinct clash xs
      → IsDistinct clash (remove_first q xs)
  unfolding remove_first
  remove_first-IsDistinct clash q [] h = tt
  remove_first-IsDistinct clash q (x ∷ xs) (h, hs) = elim (Bool-cases (q x)) [
    | inl e ↦ rw e hs
    | inr e ↦ rw e (any-remove_first (clash x) q xs h, remove_first-IsDistinct clash q xs hs)
  ]

  module _ (name : A → Text) where
    any-insert_by :
        (p : A → Bool) (x : A) (ys : List A) → any p (insert_by name x ys) ≡ (p x || any p ys)
    unfolding any insert_by
    any-insert_by p x [] = refl
    any-insert_by p x (y ∷ ys) = ground (arith, any-insert_by p x ys)

    pub any-sort_by : (p : A → Bool) (xs : List A) → any p (sort_by name xs) ≡ any p xs
    unfolding any sort_by
    any-sort_by p [] = refl
    any-sort_by p (x ∷ xs) = any-insert_by p x (sort_by name xs) ∙ rw (any-sort_by p xs)

    module _ (clash : A → A → Bool) (symmetric : (x y : A) → clash x y ≡ clash y x) where
      insert_by-IsDistinct :
          (x : A) (ys : List A)
          → any (clash x) ys ≡ false
          → IsDistinct clash ys
          → IsDistinct clash (insert_by name x ys)
      unfolding any insert_by
      insert_by-IsDistinct x [] h d = (refl, tt)
      insert_by-IsDistinct x (y ∷ ys) h (d, ds) = elim (Bool-cases (text_leb (name x) (name y))) [
        | inl e ↦ rw e (h, (d, ds))
        | inr e ↦ rw e (
          any-insert_by (clash y) x ys ∙ ground (arith, symmetric x y),
          insert_by-IsDistinct x ys (ground arith) ds,
        )
      ]

      sort_by-IsDistinct : (xs : List A) → IsDistinct clash xs → IsDistinct clash (sort_by name xs)
      unfolding sort_by
      sort_by-IsDistinct [] d = tt
      sort_by-IsDistinct (x ∷ xs) (d, ds) =
          insert_by-IsDistinct x (sort_by name xs) (any-sort_by (clash x) xs ∙ d)
            (sort_by-IsDistinct xs ds)

      push-IsDistinct :
          (xs : List A) (t : A)
          → any (clash t) xs ≡ false
          → IsDistinct clash xs
          → IsDistinct clash (xs ++ (t ∷ []))
      unfolding any
      push-IsDistinct [] t h d = (refl, tt)
      push-IsDistinct (x ∷ xs) t h (d, ds) = (
        any-append (clash x) xs (t ∷ []) ∙ ground (arith, symmetric x t),
        push-IsDistinct xs t (ground arith) ds,
      )

      -- A new entry that clashes with none, pushed and sorted in, leaves the entries distinct.
      pub sorted_push-IsDistinct :
          (xs : List A) (t : A)
          → any (clash t) xs ≡ false
          → IsDistinct clash xs
          → IsDistinct clash (sort_by name (xs ++ (t ∷ [])))
      sorted_push-IsDistinct xs t h d = sort_by-IsDistinct _ (push-IsDistinct xs t h d)

text_leb_trans : (s t u : Text) → text_leb s t ≡ true → text_leb t u ≡ true → text_leb s u ≡ true
text_leb_trans [] t u h k = refl
text_leb_trans (c ∷ s) [] u h k = cc
text_leb_trans (c ∷ s) (d ∷ t) [] h k = cc
text_leb_trans (c ∷ s) (d ∷ t) (e ∷ u) h k = ground (arith, text_leb_trans s t u)

module _ {A : Type 0} (name : A → Text) (q : A → Bool) where
  skip-IsSorted : (x y : A) (ys : List A) → IsSorted name (x ∷ y ∷ ys) → IsSorted name (x ∷ ys)
  skip-IsSorted x y [] h = tt
  skip-IsSorted x y (z ∷ zs) (h, (k, ks)) = (text_leb_trans (name x) (name y) (name z) h k, ks)

  under-IsSorted :
      (x : A) (ys : List A) → IsSorted name (x ∷ ys) → IsSorted name (x ∷ remove_first q ys)
  unfolding remove_first
  under-IsSorted x [] h = tt
  under-IsSorted x (y ∷ ys) h = elim (Bool-cases (q y)) [
    | inl e ↦ rw e (skip-IsSorted x y ys h)
    | inr e ↦ rw e (h.0, under-IsSorted y ys h.1)
  ]

  -- A removal leaves a sorted list sorted.
  pub remove_first-IsSorted : (xs : List A) → IsSorted name xs → IsSorted name (remove_first q xs)
  unfolding remove_first
  remove_first-IsSorted [] h = tt
  remove_first-IsSorted (x ∷ []) h = ground arith
  remove_first-IsSorted (x ∷ y ∷ ys) h = elim (Bool-cases (q x)) [
    | inl e ↦ rw e h.1
    | inr e ↦ rw (e) (under-IsSorted x (y ∷ ys) h)
  ]
