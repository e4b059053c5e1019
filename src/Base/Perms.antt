-- ===== src/Base/Perms.antt =====
-- The native length of a list does not depend on its order.
use Prim.Native.Nat.{suc}
use mathlib.Core.Path.{◌≡◌, refl, subst, ap, sym, ◌∙◌}
use mathlib.Core.Logic.{∥∥₁_elim}
use mathlib.Core.List.{List, [], ◌∷◌, Perm, Permᴰ}
use mathlib.Core.List.Permᴰ.{nil, cons, swap, trans}
use mathlib.Core.List
use mathlib.Core.List.Perm
use native.Mathlib.Bridge.{from_ℕ}
use near_mem_nsg.Base.Lists.{All, length}

from_length {ℓ} : {A : Type ℓ} (xs : List A) → from_ℕ (List.length xs) ≡ length xs
from_length [] = refl
from_length (x ∷ xs) = ap suc (from_length xs)

pub length-perm {ℓ} : {A : Type ℓ} {xs ys : List A} → Perm xs ys → length xs ≡ length ys
length-perm {xs = xs} {ys = ys} p =
    sym (from_length xs) ∙ ap from_ℕ (Perm.length-eq p) ∙ from_length ys

All-permutes {ℓ} :
    {A : Type ℓ} (P : A → Type 0) (xs ys : List A) → Permᴰ xs ys → All P xs → All P ys
All-permutes P xs ys nil h = tt
All-permutes P xs ys (cons e d) h = (subst P e h.0, All-permutes P _ _ d h.1)
All-permutes P xs ys (swap e e') h = (subst P e' h.1.0, (subst P e h.0, h.1.1))
All-permutes P xs ys (trans d d') h = All-permutes P _ _ d' (All-permutes P _ _ d h)

All-IsProp {ℓ} :
    {A : Type ℓ} (P : A → Type 0) → ((x : A) → IsProp (P x)) → (xs : List A) → IsProp (All P xs)
All-IsProp P p [] = hlevel
All-IsProp P p (x ∷ xs) = hlevel (p x, All-IsProp P p xs)

pub All-perm {ℓ} :
    {A : Type ℓ} (P : A → Type 0)
    → ((x : A) → IsProp (P x))
    → (xs ys : List A) → Perm xs ys
    → All P xs
    → All P ys
All-perm P p xs ys d h = ∥∥₁_elim d (All-IsProp P p ys) (λ q. All-permutes P xs ys q h)
