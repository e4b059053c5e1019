-- ===== src/Component.antt =====
-- src/component.h: the base class of the simulated components, which counts busy and idle cycles.
use near_mem_nsg.Base.{
  ℕ, zero, suc, ◌+◌, ◌<◌, ◌≡◌, Bool, Option, some, arith, if◌then◌else◌, ◌>>=◌, >>=-eq-some,
  u64_mod, inc64,
}

-- `busy` and `idle`.
pub record Activity : Type 0 where
  pub busy : ℕ
  pub idle : ℕ

abbrev pub idle_from_start : Activity
idle_from_start = record { busy = 0; idle = 0 }

unfoldable pub count : Bool → Activity → Activity
count result a =
    if result then record a { busy = inc64 a.busy } else record a { idle = inc64 a.idle }

-- `Component::cycle` over the `do_cycle` of a subclass, on all the state that it works on.
unfoldable pub cycle {ℓ} :
    {S : Type ℓ} → (S → Option (Bool × S)) → Activity × S → Option (Bool × Activity × S)
unfolding count
cycle do_cycle (a, s) = do (result, t) ← do_cycle s; some (result, count result a, t)

-- `n` cycles of one component.
unfoldable pub cycles {ℓ} :
    {S : Type ℓ} → (S → Option (Bool × S)) → ℕ → Activity × S → Option (Activity × S)
cycles do_cycle zero s = some s
cycles do_cycle (suc n) s = do (result, a, t) ← cycle do_cycle s; cycles do_cycle n (a, t)

-- Every cycle is counted once: after `n` cycles that do not fault, busy and idle have grown by `n`
-- together, as long as the counters stay below 2 ^ 64.
pub cycles_counted {ℓ} :
    {S : Type ℓ} (do_cycle : S → Option (Bool × S)) (n : ℕ) (a b : Activity) (s t : S)
    → a.busy + a.idle + n < u64_mod
    → cycles do_cycle n (a, s) ≡ some (b, t)
    → b.busy + b.idle ≡ a.busy + a.idle + n
unfolding cycles cycle count
cycles_counted do_cycle zero a b s t h e = ground arith
cycles_counted do_cycle (suc n) a b s t h e =
    let ((result, a', u), p, q) = >>=-eq-some (cycle do_cycle (a, s)) _ e in
    let ((r, v), p', q') = >>=-eq-some (do_cycle s) _ p in
    ground (arith, cycles_counted do_cycle n a' b u t)
