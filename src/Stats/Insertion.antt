-- ===== src/Stats/Insertion.antt =====
-- A sort that does what the standard asks of `std::sort`.
use hwcpipe.Common.{
  ◌≡◌, refl, ℕ, Bool, true, false, List, [], ◌∷◌, All, if◌then◌else◌, Bool-cases, inl, inr,
}
use mathlib.Core.List.{Permᴰ, Memᴰ}
use mathlib.Core.List.Permᴰ
use hwcpipe.Common.Perms.{All-Permᴰ, All-of_Memᴰ}
use hwcpipe.Stats.StdSort.{Sorting, StrictWeak, Ascending}

module _ (less : ℕ → ℕ → Bool) where
  unfoldable pub insert : ℕ → List ℕ → List ℕ
  insert x [] = x ∷ []
  insert x (y ∷ ys) = if less x y then x ∷ y ∷ ys else y ∷ insert x ys

  unfoldable pub insertion_sort : List ℕ → List ℕ
  unfolding insert
  insertion_sort [] = []
  insertion_sort (x ∷ xs) = insert x (insertion_sort xs)

  insert-Permᴰ : (x : ℕ) (ys : List ℕ) → Permᴰ (insert x ys) (x ∷ ys)
  unfolding insert
  insert-Permᴰ x [] = Permᴰ.refl (x ∷ [])
  insert-Permᴰ x (y ∷ ys) = elim (Bool-cases (less x y)) [
    | inl l ↦ rw l (Permᴰ.refl (x ∷ y ∷ ys))
    | inr l ↦ rw l (Permᴰ.trans (Permᴰ.cons refl (insert-Permᴰ x ys)) (Permᴰ.swap refl refl))
  ]

  pub insertion_sort-Permᴰ : (xs : List ℕ) → Permᴰ (insertion_sort xs) xs
  unfolding insertion_sort
  insertion_sort-Permᴰ [] = Permᴰ.nil
  insertion_sort-Permᴰ (x ∷ xs) =
      Permᴰ.trans (insert-Permᴰ x (insertion_sort xs)) (Permᴰ.cons refl (insertion_sort-Permᴰ xs))

  -- The strict weak order among the entries of a longer list.
  module _ (all : List ℕ) (order : StrictWeak less all) where
    abbrev Known : List ℕ → Type 0
    Known xs = All (λ x. Memᴰ x all) xs

    -- What is not less than `y` is not less than an `x` below it.
    below-All :
        (x y : ℕ) (ys : List ℕ)
        → Memᴰ x all
        → Memᴰ y all
        → Known ys
        → less y x ≡ false
        → All (λ z. less z y ≡ false) ys
        → All (λ z. less z x ≡ false) ys
    below-All x y [] mx my ms h k = tt
    below-All x y (z ∷ ys) mx my ms h k =
        ((order z y x ms.0 my mx).2 k.0 h, below-All x y ys mx my ms.1 h k.1)

    asymmetric : (x y : ℕ) → Memᴰ x all → Memᴰ y all → less x y ≡ true → less y x ≡ false
    asymmetric x y mx my h = elim (Bool-cases (less y x)) [
      | inl l ↦
          let both : less x x ≡ true = (order x y x mx my mx).1 h l in
          let never : less x x ≡ false = (order x x x mx mx mx).0 in absurd (cc)
      | inr l ↦ l
    ]

    insert-Ascending :
        (x : ℕ) (ys : List ℕ)
        → Memᴰ x all
        → Known ys
        → Ascending less ys
        → Ascending less (insert x ys)
    unfolding insert
    insert-Ascending x [] mx ms h = (tt, tt)
    insert-Ascending x (y ∷ ys) mx ms h = elim (Bool-cases (less x y)) [
      | inl l ↦
          let first = asymmetric x y mx ms.0 l in
          rw l ((first, below-All x y ys mx ms.0 ms.1 first h.0), h)
      | inr l ↦ rw l (
        All-Permᴰ (λ z. less z y ≡ false) (insert-Permᴰ x ys) (l, h.0),
        insert-Ascending x ys mx ms.1 h.1,
      )
    ]

    pub insertion_sort-Ascending : (xs : List ℕ) → Known xs → Ascending less (insertion_sort xs)
    unfolding insertion_sort
    insertion_sort-Ascending [] ms = tt
    insertion_sort-Ascending (x ∷ xs) ms =
        insert-Ascending x (insertion_sort xs) ms.0
          (All-Permᴰ (λ z. Memᴰ z all) (insertion_sort-Permᴰ xs) ms.1)
          (insertion_sort-Ascending xs ms.1)

unfoldable pub insertion_sorting : Sorting
unfolding insertion_sort
insertion_sorting = record {
  sort = insertion_sort;
  sort-Permᴰ = λ less xs order. insertion_sort-Permᴰ less xs;
  sort-Ascending = λ less xs order.
      insertion_sort-Ascending less xs order xs (All-of_Memᴰ (λ z. Memᴰ z xs) xs (λ z m. m));
}
