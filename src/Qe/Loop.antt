-- ===== src/Qe/Loop.antt =====
-- A `for` loop over a vector whose body may change the element, may return from the function, and
-- may fault: the loops of `Query_Engine::do_cycle` in src/qe.cc.
use near_mem_nsg.Base.{Bool, true, false, Option, none, some, List, [], ◌∷◌, if◌then◌else◌}

-- What a piece of code leaves: whether it has returned, the element and the other state.
pub record Pass {ℓ κ} (A : Type ℓ) (S : Type κ) : Type (ℓ ⊔ κ) where
  pub returned : Bool
  pub value : A
  pub state : S

module _ {ℓ κ} {A : Type ℓ} {S : Type κ} where
  -- Going on, and returning.
  abbrev pub goes_on : A → S → Option (Pass A S)
  goes_on x s = some (record { returned = false; value = x; state = s })

  abbrev pub returns : A → S → Option (Pass A S)
  returns x s = some (record { returned = true; value = x; state = s })

  -- The code that follows, unless the code before it has returned.
  infixl 5 ◌>>>◌
  abbrev pub ◌>>>◌ : Option (Pass A S) → (A → S → Option (Pass A S)) → Option (Pass A S)
  none >>> k = none
  some p >>> k = if p.returned then some p else k p.value p.state

  -- The elements that the loop has passed stay in front.
  abbrev pub behind : A → Option (Pass (List A) S) → Option (Pass (List A) S)
  behind x none = none
  behind x (some p) = some (record { returned = p.returned; value = x ∷ p.value; state = p.state })

  unfoldable pub for_each : (A → S → Option (Pass A S)) → List A → S → Option (Pass (List A) S)
  for_each body [] s = some (record { returned = false; value = []; state = s })
  for_each body (x ∷ xs) s = elim (body x s) [
    | none ↦ none
    | some p ↦
        let rest = for_each body xs p.state in
        if p.returned
        then some (record { returned = true; value = p.value ∷ xs; state = p.state })
        else behind p.value rest
  ]
