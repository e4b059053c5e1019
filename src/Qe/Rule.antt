-- ===== src/Qe/Rule.antt =====
-- The rules for the loops of src/qe.cc.
use near_mem_nsg.Base.{
  ℕ, suc, ◌+◌, ◌≤◌, ◌<◌, ◌≡◌, sym, ap, subst, ◌∙◌, ◌≢◌, ◌⊎◌, inl, inr, Bool, true, false, Option,
  none, some, List, [], ◌∷◌, arith, Bool-cases, Option-cases, length, All,
}
use near_mem_nsg.Qe.Loop.{Pass, for_each}

module _ {ℓ κ} {A : Type ℓ} {S : Type κ} (body : A → S → Option (Pass A S)) where
  -- A loop that does not fault: its first round returned, or went on to the rest of the loop.
  pub for_each-cases :
      (x : A) (xs : List A) (s : S) (p : Pass (List A) S)
      → for_each body (x ∷ xs) s ≡ some p
      → (r : Pass A S) × (body x s ≡ some r)
        × (((r.returned ≡ true)
              × (record { returned = true; value = r.value ∷ xs; state = r.state } ≡ p))
            ⊎ ((q : Pass (List A) S) × (r.returned ≡ false)
                × (for_each body xs r.state ≡ some q)
                × (record { returned = q.returned; value = r.value ∷ q.value; state = q.state }
                    ≡ p)))
  unfolding for_each
  for_each-cases x xs s p e = elim (Option-cases (body x s)) [
    | inl faults ↦ absurd (ground arith)
    | inr (r, b) ↦ elim (Bool-cases r.returned) [
      | inl back ↦ (r, b, inl (back, ground arith))
      | inr on ↦ elim (Option-cases (for_each body xs r.state)) [
        | inl faults ↦ absurd (ground arith)
        | inr (q, rest) ↦ (r, b, inr (q, on, rest, ground arith))
      ]
    ]
  ]

  pub for_each-nil :
      (s : S) (p : Pass (List A) S)
      → for_each body [] s ≡ some p
      → record { returned = false; value = []; state = s } ≡ p
  unfolding for_each
  for_each-nil s p e = ground arith

  -- What holds before the loop, and is kept by each round that goes on, holds at its end; a round
  -- that returns establishes what holds after the return. `b` in `Post b` says which it is.
  pub for_each-rule {μ} :
      (Post : Bool → S → Type μ)
      → ((x : A) (s : S) (r : Pass A S)
          → Post false s
          → body x s ≡ some r
          → Post r.returned r.state)
      → (xs : List A) (s : S) (p : Pass (List A) S) → Post false s
      → for_each body xs s ≡ some p
      → Post p.returned p.state
  for_each-rule Post step [] s p h e = subst (λ q. Post q.returned q.state) (for_each-nil s p e) h
  for_each-rule Post step (x ∷ xs) s p h e =
      let (r, b, c) = for_each-cases x xs s p e in
      let kept = step x s r h b in
      elim c [
        | inl (back, same) ↦
            subst (λ q. Post q.returned q.state) same (subst (λ b. Post b r.state) back kept)
        | inr (q, on, rest, same) ↦
            subst (λ q. Post q.returned q.state) same
              (for_each-rule Post step xs r.state q (subst (λ b. Post b r.state) on kept) rest)
      ]

  -- A flag that each round can only clear, and keeps only if the element it leaves has a property:
  -- where the flag stands at the end of a loop without a return, all elements have the property.
  pub for_each-ready {μ} :
      (ready : S → Bool) (P : A → Type μ)
      → ((x : A) (s : S) (r : Pass A S)
          → body x s ≡ some r
          → r.returned ≡ false
          → ready r.state ≡ true
          → (ready s ≡ true) × P r.value)
      → (xs : List A) (s : S) (p : Pass (List A) S) → for_each body xs s ≡ some p
      → p.returned ≡ false
      → ready p.state ≡ true
      → (ready s ≡ true) × All P p.value
  for_each-ready ready P step [] s p e on h =
      let same = for_each-nil s p e in
      (subst (λ q. ready q.state ≡ true) (sym same) h, subst (λ q. All P q.value) same tt)
  for_each-ready ready P step (x ∷ xs) s p e on h =
      let (r, b, c) = for_each-cases x xs s p e in
      elim c [
        | inl (back, same) ↦ absurd (ground arith)
        | inr (q, going, rest, same) ↦
            let (k, all) =
              for_each-ready ready P step xs r.state q rest
                (subst (λ t. t.returned ≡ false) (sym same) on)
                (subst (λ t. ready t.state ≡ true) (sym same) h) in
            let (k', here) = step x s r b going k in
            (k', subst (λ t. All P t.value) same (here, all))
      ]

  -- The same of the elements that the loop starts with.
  pub for_each-ready_before {μ} :
      (ready : S → Bool) (P : A → Type μ)
      → ((x : A) (s : S) (r : Pass A S)
          → body x s ≡ some r
          → r.returned ≡ false
          → ready r.state ≡ true
          → (ready s ≡ true) × P x)
      → (xs : List A) (s : S) (p : Pass (List A) S) → for_each body xs s ≡ some p
      → p.returned ≡ false
      → ready p.state ≡ true
      → (ready s ≡ true) × All P xs
  for_each-ready_before ready P step [] s p e on h =
      (subst (λ q. ready q.state ≡ true) (sym (for_each-nil s p e)) h, tt)
  for_each-ready_before ready P step (x ∷ xs) s p e on h =
      let (r, b, c) = for_each-cases x xs s p e in
      elim c [
        | inl (back, same) ↦ absurd (ground arith)
        | inr (q, going, rest, same) ↦
            let (k, all) =
              for_each-ready_before ready P step xs r.state q rest
                (subst (λ t. t.returned ≡ false) (sym same) on)
                (subst (λ t. ready t.state ≡ true) (sym same) h) in
            let (k', here) = step x s r b going k in (k', (here, all))
      ]

  pub for_each-total :
      ((x : A) (s : S) → body x s ≢ none) → (xs : List A) (s : S) → for_each body xs s ≢ none
  unfolding for_each
  for_each-total total [] s = ground arith
  for_each-total total (x ∷ xs) s = elim (Option-cases (body x s)) [
    | inl faults ↦ absurd (total x s faults)
    | inr (r, b) ↦ ground (arith, for_each-total total xs r.state)
  ]

  -- A loop with a counter: the body need not fault as long as the counter is below a bound.
  pub for_each-within :
      (at : S → ℕ) (n : ℕ)
      → ((x : A) (s : S)
          → at s < n
          → (r : Pass A S) × (body x s ≡ some r) × (at r.state ≤ suc (at s)))
      → (xs : List A) (s : S) → at s + length xs ≤ n
      → for_each body xs s ≢ none
  unfolding for_each
  for_each-within at n within [] s room = ground arith
  for_each-within at n within (x ∷ xs) s room =
      let (r, b, next) = within x s (omega arith) in
      ground (arith, b, for_each-within at n within xs r.state (omega arith))

  -- A loop leaves as many elements as there were.
  pub for_each-length :
      (xs : List A) (s : S) (p : Pass (List A) S)
      → for_each body xs s ≡ some p
      → length p.value ≡ length xs
  for_each-length [] s p e = ap (λ q. length q.value) (sym (for_each-nil s p e))
  for_each-length (x ∷ xs) s p e =
      let (r, b, c) = for_each-cases x xs s p e in
      elim c [
        | inl (back, same) ↦ ap (λ q. length q.value) (sym same)
        | inr (q, on, rest, same) ↦
            ap (λ q. length q.value) (sym same) ∙ ap suc (for_each-length xs r.state q rest)
      ]
