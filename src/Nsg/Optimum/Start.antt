-- ===== src/Nsg/Optimum/Start.antt =====
-- The start of a search: the gathered ids are the pool.
use near_mem_nsg.Base.{
  ℕ, suc, ◌+◌, ◌≤◌, ◌<◌, ◌≡◌, refl, sym, ap, subst, ◌∙◌, ◌⊎◌, inl, inr, Bool, true, false, ◌||◌,
  some, List, [], ◌∷◌, ◌++◌, arith, ◌==◌, ==_iff, Bool-cases, Option-cases, length, get_elem?,
  replicate, All, get_elem?-append, All-get_elem?, lt-get_elem?, length-perm, All-perm,
}
use mathlib.Core.List.{Perm, Permᴰ}
use mathlib.Core.List.Permᴰ.{nil, cons, swap, trans}
use mathlib.Core.List.Perm
use mathlib.Core.Logic.{∥∥₁_elim}
use mathlib.Core.Option.{some-injective}
use near_mem_nsg.Nsg.Pool.{Neighbor}
use near_mem_nsg.Nsg.Graph.{Graph}
use near_mem_nsg.Nsg.GetData.{ranked, new_search_init}
use near_mem_nsg.Nsg.GetData.Answers.{IsGraph}
use near_mem_nsg.Nsg.NewSearch.Start.{IsSort, ranked_lem, new_search_init_pool}
use near_mem_nsg.Nsg.PreProcess.{Gather}
use near_mem_nsg.Nsg.PreProcess.Gathered.{IsIn}
use near_mem_nsg.Nsg.PreProcess.Prepared.{IsPrepared, IsPrepared-own}
use near_mem_nsg.Nsg.Optimum.{IsInPool}
use near_mem_nsg.Nsg.Optimum.Reached.{IsReached}

-- An entry has this id.
abbrev holds_id : {D : Type 0} → ℕ → List (Neighbor D) → Bool
holds_id id [] = false
holds_id id (e ∷ es) = (e.id == id) || holds_id id es

holds_id-permutes :
    {D : Type 0} (id : ℕ) (xs ys : List (Neighbor D))
    → Permᴰ xs ys
    → holds_id id xs ≡ holds_id id ys
holds_id-permutes id xs ys nil = refl
holds_id-permutes id xs ys (cons {a = a} {b = b} {l₁ = as'} {l₂ = bs} e d) =
    ap (λ x. (x.id == id) || holds_id id as') e
    ∙ ap (λ h. (b.id == id) || h) (holds_id-permutes id as' bs d)
holds_id-permutes id xs ys (swap {a = a} {b = b} {a' = a'} {b' = b'} {l = l} e e') =
    let one : holds_id id (a ∷ b ∷ l) ≡ holds_id id (b' ∷ a' ∷ l) =
      ap (λ x. (x.id == id) || ((b.id == id) || holds_id id l)) e
      ∙ ap (λ x. (b'.id == id) || ((x.id == id) || holds_id id l)) e' in
    one ∙ or_swap (b'.id == id) (a'.id == id) (holds_id id l)
  where
    or_swap : (x y z : Bool) → (x || (y || z)) ≡ (y || (x || z))
    or_swap true true z = refl
    or_swap true false z = refl
    or_swap false true z = refl
    or_swap false false z = refl
holds_id-permutes id xs ys (trans {l₂ = mid} d d') =
    holds_id-permutes id xs mid d ∙ holds_id-permutes id mid ys d'

holds_id-perm :
    {D : Type 0} (id : ℕ) (xs ys : List (Neighbor D)) → Perm xs ys → holds_id id xs ≡ holds_id id ys
holds_id-perm id xs ys d =
    let p : IsProp (holds_id id xs ≡ holds_id id ys) = hlevel in
    ∥∥₁_elim d p (λ q. holds_id-permutes id xs ys q)

holds_id-found :
    {D : Type 0} (id : ℕ) (xs : List (Neighbor D))
    → holds_id id xs ≡ true
    → (i : ℕ) × (e : Neighbor D) × (get_elem? xs i ≡ some e) × (e.id ≡ id)
holds_id-found id [] h = absurd (ground arith)
holds_id-found id (x ∷ xs) h = elim (Bool-cases (x.id == id)) [
  | inl own ↦ (0, x, refl, (==_iff x.id id).0 own)
  | inr other ↦
      let (i, e, g, same) = holds_id-found id xs (ground (arith, h)) in (suc i, e, g, same)
]

module _ {V D : Type 0} (lt : D → D → Bool) (compare : V → V → D) (base : List V) (query : V) where
  -- An entry waits, and has the distance of its node.
  abbrev pub IsFresh : Neighbor D → Type 0
  IsFresh e =
      (e.flag ≡ true) × ((v : V) → get_elem? base e.id ≡ some v → e.distance ≡ compare v query)

  pub ranked-IsFresh :
      (l : ℕ) (ids : List ℕ) (entries : List (Neighbor D))
      → ranked lt compare base l query ids ≡ some entries
      → All IsFresh entries × ((id : ℕ) → IsIn id ids → holds_id id entries ≡ true)
  unfolding ranked
  ranked-IsFresh l [] entries q =
      let same : [] ≡ entries = some-injective [] entries q in
      subst (λ es. All IsFresh es × ((id : ℕ) → IsIn id [] → holds_id id es ≡ true)) same
        (tt, λ id h. absurd h)
  ranked-IsFresh l (id ∷ ids) entries q = elim (Option-cases (get_elem? base id)) [
    | inl fault ↦ absurd (ground arith)
    | inr (v, h) ↦ elim (Option-cases (ranked lt compare base l query ids)) [
      | inl fault ↦ absurd (ground arith)
      | inr (rest, h') ↦
          let (fresh, there) = ranked-IsFresh l ids rest h' in
          let same : first v ∷ rest ≡ entries = ground arith in
          subst (λ es. All IsFresh es × ((id' : ℕ) → IsIn id' (id ∷ ids) → holds_id id' es ≡ true))
            same
            (
              (
                (refl, λ v' h''. ap (λ v. compare v query) (some-injective v v' (sym h ∙ h''))),
                fresh,
              ),
              held v rest there,
            )
    ]
  ]
    where
      first : V → Neighbor D
      first v = record { id = id; distance = compare v query; flag = true }

      held :
          (v : V) (rest : List (Neighbor D))
          → ((id : ℕ) → IsIn id ids → holds_id id rest ≡ true)
          → (id' : ℕ) → (id' ≡ id) ⊎ IsIn id' ids
          → holds_id id' (first v ∷ rest) ≡ true
      held v rest there id' (inl e) = ground arith
      held v rest there id' (inr h) = ground (arith, there id' h)

module _ {V D : Type 0} (lt : D → D → Bool) (asym : (a b : D) → lt a b ≡ true → lt b a ≡ false)
    (compare : V → V → D) (symmetric : (a b : V) → compare a b ≡ compare b a) (dset : IsSet D)
    (base : List V) (l : ℕ) (pos : 0 < l) (g : Graph) (graph : IsGraph g)
    (vectors : g.nd ≤ length base) (sort : List (Neighbor D) → List (Neighbor D))
    (sorts : IsSort lt sort) (blank : Neighbor D) (query : V) where
  abbrev Fresh : Neighbor D → Type 0
  Fresh = IsFresh lt compare base query

  Fresh-IsProp : (e : Neighbor D) → IsProp (Fresh e)
  Fresh-IsProp e =
      let p : (v : V) → IsProp (get_elem? base e.id ≡ some v → e.distance ≡ compare v query) =
        λ v. hlevel dset in
      hlevel p

  start-IsReached :
      (entries : List (Neighbor D)) (s : Gather)
      → IsPrepared l g.nd s
      → length entries ≡ l
      → ranked lt compare base l query s.init_ids ≡ some entries
      → IsReached lt compare base l g query 0 (sort entries ++ blank ∷ []) s.flags
  start-IsReached entries s ready size q =
      let (all, there) = ranked-IsFresh lt compare base query l s.init_ids entries q in
      let long : length (sort entries) ≡ l = length-perm (sorts.permutes entries) ∙ size in
      let fresh =
        All-perm Fresh Fresh-IsProp entries (sort entries) (Perm.symm (sorts.permutes entries))
          all in
      record {
        measured = λ i e v w h q'. (at long fresh i e w h).1 v q' ∙ symmetric v query;
        settled = λ id h. inl (
            in_pool long id (
              holds_id-perm id (sort entries) entries (sorts.permutes entries)
              ∙ there id (ready.only id h)));
        expanded = λ i e w h f. absurd (waiting e (at long fresh i e w h) f);
        passed = λ i e w w' h. absurd (omega arith);
      }
    where
      at :
          length (sort entries) ≡ l
          → All Fresh (sort entries)
          → (i : ℕ) (e : Neighbor D) → i < l
          → get_elem? (sort entries ++ blank ∷ []) i ≡ some e
          → Fresh e
      at long fresh i e w h =
          All-get_elem? Fresh (sort entries) i e fresh
            (sym (get_elem?-append (sort entries) (blank ∷ []) i (omega (arith, long))) ∙ h)

      waiting : (e : Neighbor D) → Fresh e → e.flag ≡ false → ⊥
      waiting e x f = ground (arith, x.0)

      in_pool :
          length (sort entries) ≡ l
          → (id : ℕ) → holds_id id (sort entries) ≡ true
          → IsInPool lt compare base l query id (sort entries ++ blank ∷ [])
      in_pool long id h =
          let (i, e, h', own) = holds_id-found id (sort entries) h in
          let inside = lt-get_elem? (sort entries) i e h' in
          (
            i,
            e,
            omega (arith, long),
            get_elem?-append (sort entries) (blank ∷ []) i inside ∙ h',
            own,
          )

  -- The pool that `NewSearchInit` makes of gathered ids.
  pub new_search_init-IsReached :
      (s : Gather) (retset : List (Neighbor D))
      → IsPrepared l g.nd s
      → new_search_init lt compare base l sort s.init_ids (replicate (l + 1) blank) query
        ≡ some retset
      → IsReached lt compare base l g query 0 retset s.flags
  new_search_init-IsReached s retset ready q =
      let (entries, q', n, own) =
        ranked_lem lt asym compare base l pos g graph vectors query s.init_ids
          (IsPrepared-own l g.nd s ready) in
      let size : length entries ≡ l = n ∙ ready.full in
      let pool =
        new_search_init_pool lt asym compare base l pos g graph vectors sort blank s.init_ids
          entries query ready.full size q' in
      subst (λ p. IsReached lt compare base l g query 0 p s.flags)
        (some-injective (sort entries ++ blank ∷ []) retset (sym pool ∙ q))
        (start-IsReached entries s ready size q')
