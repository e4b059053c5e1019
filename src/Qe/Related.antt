-- ===== src/Qe/Related.antt =====
-- What a loop of src/qe.cc makes of each element.
use near_mem_nsg.Base.{◌≡◌, subst, ◌⊎◌, inl, inr, true, Option, some, List, [], ◌∷◌, arith}
use near_mem_nsg.Qe.Loop.{Pass, for_each}
use near_mem_nsg.Qe.Rule.{for_each-cases, for_each-nil}

module _ {A K : Type 0} (P : K → A → A → Type 0) (next : K → K) where
  -- Two lists of one length, related entry by entry; the parameter changes from entry to entry.
  abbrev pub Related : K → List A → List A → Type 0
  Related k [] [] = Unit
  Related k [] (y ∷ ys) = ⊥
  Related k (x ∷ xs) [] = ⊥
  Related k (x ∷ xs) (y ∷ ys) = P k x y × Related (next k) xs ys

  module _ (still : (k : K) (x : A) → P k x x) where
    Related-still : (k : K) (xs : List A) → Related k xs xs
    Related-still k [] = tt
    Related-still k (x ∷ xs) = (still k x, Related-still (next k) xs)

    pub for_each-Related :
        {S : Type 0} (body : A → S → Option (Pass A S)) (key : S → K)
        → ((x : A) (s : S) (r : Pass A S)
            → body x s ≡ some r
            → P (key s) x r.value × ((r.returned ≡ true) ⊎ (key r.state ≡ next (key s))))
        → (xs : List A) (s : S) (p : Pass (List A) S) → for_each body xs s ≡ some p
        → Related (key s) xs p.value
    for_each-Related body key rounds [] s p h =
        subst (λ q. Related (key s) [] q.value) (for_each-nil body s p h) tt
    for_each-Related body key rounds (x ∷ xs) s p h =
        let (r, b, c) = for_each-cases body x xs s p h in
        let (here, on) = rounds x s r b in
        elim c [
          | inl (back, same) ↦
              subst (λ q. Related (key s) (x ∷ xs) q.value) same
                (here, Related-still (next (key s)) xs)
          | inr (q, going, rest, same) ↦
              subst (λ q. Related (key s) (x ∷ xs) q.value) same
                (
                  here,
                  elim on [
                    | inl back ↦ absurd (ground arith)
                    | inr key' ↦
                        subst (λ k. Related k xs q.value) key'
                          (for_each-Related body key rounds xs r.state q rest)
                  ],
                )
        ]
