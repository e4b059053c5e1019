-- ===== src/Checks/Sorting.antt =====
-- A sort that stands for `std::sort` in the examples.
use near_mem_nsg.Base.{
  ℕ, zero, suc, ◌≡◌, refl, sym, subst, inl, inr, false, some, List, [], ◌∷◌, arith, ltb,
  if◌then◌else◌, Bool-cases, length, get_elem?, length-perm,
}
use mathlib.Core.List.{Perm}
use mathlib.Core.List.Perm
use near_mem_nsg.Nsg.Pool.{Neighbor}
use near_mem_nsg.Nsg.Pool.Sorted.{IsSorted}
use near_mem_nsg.Nsg.NewSearch.Start.{IsSort}

abbrev pub insert : Neighbor ℕ → List (Neighbor ℕ) → List (Neighbor ℕ)
insert e [] = e ∷ []
insert e (x ∷ xs) = if ltb e.distance x.distance then e ∷ x ∷ xs else x ∷ insert e xs

abbrev pub sort : List (Neighbor ℕ) → List (Neighbor ℕ)
sort [] = []
sort (x ∷ xs) = insert x (sort xs)

insert-perm : (e : Neighbor ℕ) (xs : List (Neighbor ℕ)) → Perm (insert e xs) (e ∷ xs)
insert-perm e [] = Perm.refl (e ∷ [])
insert-perm e (x ∷ xs) = elim (Bool-cases (ltb e.distance x.distance)) [
  | inl nearer ↦ rw nearer (Perm.refl (e ∷ x ∷ xs))
  | inr other ↦ rw other (Perm.trans (Perm.cons x (insert-perm e xs)) (Perm.swap e x xs))
]

sort-perm : (xs : List (Neighbor ℕ)) → Perm (sort xs) xs
sort-perm [] = Perm.nil
sort-perm (x ∷ xs) = Perm.trans (insert-perm x (sort xs)) (Perm.cons x (sort-perm xs))

IsSorted-cons :
    (n : ℕ) (x : Neighbor ℕ) (xs : List (Neighbor ℕ))
    → ((b : Neighbor ℕ) → get_elem? xs 0 ≡ some b → ltb b.distance x.distance ≡ false)
    → IsSorted ltb n xs
    → IsSorted ltb (suc n) (x ∷ xs)
IsSorted-cons n x xs h s zero a b w ga gb = ground (arith, h b gb)
IsSorted-cons n x xs h s (suc i) a b w ga gb = s i a b (omega arith) ga gb

IsSorted-rest :
    (n : ℕ) (x : Neighbor ℕ) (xs : List (Neighbor ℕ))
    → IsSorted ltb (suc n) (x ∷ xs)
    → IsSorted ltb n xs
IsSorted-rest n x xs s i a b w ga gb = s (suc i) a b (omega arith) ga gb

insert_first :
    (x e b : Neighbor ℕ) (xs : List (Neighbor ℕ))
    → IsSorted ltb (suc (length xs)) (x ∷ xs)
    → ltb e.distance x.distance ≡ false
    → get_elem? (insert e xs) 0 ≡ some b
    → ltb b.distance x.distance ≡ false
insert_first x e b [] s h g = ground (arith, h)
insert_first x e b (y ∷ ys) s h g = ground (arith, h, s 0 x y (omega arith) refl refl)

insert-IsSorted_lem :
    (e : Neighbor ℕ) (xs : List (Neighbor ℕ))
    → IsSorted ltb (length xs) xs
    → IsSorted ltb (suc (length xs)) (insert e xs)
insert-IsSorted_lem e [] s = λ i a b w ga gb. absurd (omega arith)
insert-IsSorted_lem e (x ∷ xs) s = elim (Bool-cases (ltb e.distance x.distance)) [
  | inl nearer ↦ rw nearer (IsSorted-cons (suc (length xs)) e (x ∷ xs) (λ b g. ground arith) s)
  | inr other ↦ rw other (
      IsSorted-cons (suc (length xs)) x (insert e xs) (λ b g. insert_first x e b xs s other g)
        (insert-IsSorted_lem e xs (IsSorted-rest (length xs) x xs s)))
]

sort-IsSorted : (xs : List (Neighbor ℕ)) → IsSorted ltb (length xs) (sort xs)
sort-IsSorted [] = λ i a b w ga gb. absurd (omega arith)
sort-IsSorted (x ∷ xs) =
    subst (λ n. IsSorted ltb (suc n) (sort (x ∷ xs))) (length-perm (sort-perm xs))
      (insert-IsSorted_lem x (sort xs) (
        subst (λ n. IsSorted ltb n (sort xs)) (sym (length-perm (sort-perm xs)))
          (sort-IsSorted xs)))

pub sort-IsSort : IsSort ltb sort
sort-IsSort = record { permutes = sort-perm; ordered = sort-IsSorted }
