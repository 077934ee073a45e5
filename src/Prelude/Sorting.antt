-- ===== src/Prelude/Sorting.antt =====
-- `Array.prototype.sort` with a comparison of numbers: stable, and given here by insertion.
use mathlib.Core.List.{Perm, Permᴰ}
use mathlib.Core.List.Perm
use mathlib.Core.Logic.{∥∥₁_elim}
use native.Mathlib.Nat.{ℕ_set}
use truthbounty_api.Prelude.{
  ℕ, zero, suc, ◌≤◌, ◌≡◌, refl, ap, ◌∙◌, inl, inr, List, [], ◌∷◌, arith, leb, if◌then◌else◌, length,
  take, drop, Bool-cases,
}

abbrev pub All {ℓ κ} : {A : Type ℓ} → (A → Type κ) → List A → Type κ
All P [] = Unit
All P (x ∷ xs) = P x × All P xs

module _ {ℓ} {A : Type ℓ} where
  length-permᴰ : {xs ys : List A} → Permᴰ xs ys → length xs ≡ length ys
  length-permᴰ Permᴰ.nil = refl
  length-permᴰ (Permᴰ.cons e p) = ap suc (length-permᴰ p)
  length-permᴰ (Permᴰ.swap e f) = refl
  length-permᴰ (Permᴰ.trans p q) = length-permᴰ p ∙ length-permᴰ q

  pub length-perm : {xs ys : List A} → Perm xs ys → length xs ≡ length ys
  length-perm p = ∥∥₁_elim p (ℕ_set _ _) length-permᴰ

module _ {ℓ} {A : Type ℓ} (rank : A → ℕ) where
  abbrev pub insert_by : A → List A → List A
  insert_by a [] = a ∷ []
  insert_by a (b ∷ bs) = if leb (rank a) (rank b) then a ∷ b ∷ bs else b ∷ insert_by a bs

  abbrev pub sort_by : List A → List A
  sort_by [] = []
  sort_by (a ∷ as') = insert_by a (sort_by as')

  insert_by-perm : (a : A) (bs : List A) → Perm (a ∷ bs) (insert_by a bs)
  insert_by-perm a [] = Perm.rfl
  insert_by-perm a (b ∷ bs) = elim (Bool-cases (leb (rank a) (rank b))) [
    | inl le ↦ rw le Perm.rfl
    | inr gt ↦ rw gt (Perm.trans (Perm.swap b a bs) (Perm.cons b (insert_by-perm a bs)))
  ]

  pub sort_by-perm : (xs : List A) → Perm xs (sort_by xs)
  sort_by-perm [] = Perm.rfl
  sort_by-perm (a ∷ xs) = Perm.trans (Perm.cons a (sort_by-perm xs)) (insert_by-perm a (sort_by xs))

  -- The first of a sorted list is below all that follow.
  abbrev pub IsSorted : List A → Type 0
  IsSorted [] = Unit
  IsSorted (a ∷ xs) = All (λ b. rank a ≤ rank b) xs × IsSorted xs

  All-le_trans :
      (a b : A) (xs : List A)
      → rank a ≤ rank b
      → All (λ c. rank b ≤ rank c) xs
      → All (λ c. rank a ≤ rank c) xs
  All-le_trans a b [] h k = tt
  All-le_trans a b (x ∷ xs) h k = (omega arith, All-le_trans a b xs h k.1)

  insert_by-All :
      (n : ℕ) (a : A) (xs : List A)
      → n ≤ rank a
      → All (λ c. n ≤ rank c) xs
      → All (λ c. n ≤ rank c) (insert_by a xs)
  insert_by-All n a [] h k = (h, tt)
  insert_by-All n a (x ∷ xs) h k = ground (arith, insert_by-All n a xs h k.1)

  insert_by-IsSorted : (a : A) (xs : List A) → IsSorted xs → IsSorted (insert_by a xs)
  insert_by-IsSorted a [] h = (tt, tt)
  insert_by-IsSorted a (x ∷ xs) h =
      ground (arith, insert_by-IsSorted a xs h.1, All-le_trans a x xs, insert_by-All (rank x) a xs)

  pub sort_by-IsSorted : (xs : List A) → IsSorted (sort_by xs)
  sort_by-IsSorted [] = tt
  sort_by-IsSorted (a ∷ xs) = insert_by-IsSorted a (sort_by xs) (sort_by-IsSorted xs)

  -- Of a sorted list, what is taken off the front is below what is left.
  abbrev pub AllBelow : List A → List A → Type 0
  AllBelow xs ys = All (λ x. All (λ y. rank x ≤ rank y) ys) xs

  All-drop : (n k : ℕ) (xs : List A) → All (λ y. k ≤ rank y) xs → All (λ y. k ≤ rank y) (drop n xs)
  All-drop zero k xs h = h
  All-drop (suc n) k [] h = tt
  All-drop (suc n) k (x ∷ xs) h = All-drop n k xs h.1

  pub take-drop-AllBelow : (n : ℕ) (xs : List A) → IsSorted xs → AllBelow (take n xs) (drop n xs)
  take-drop-AllBelow zero xs h = tt
  take-drop-AllBelow (suc n) [] h = tt
  take-drop-AllBelow (suc n) (x ∷ xs) h = (All-drop n (rank x) xs h.0, take-drop-AllBelow n xs h.1)
