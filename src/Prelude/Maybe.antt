-- ===== src/Prelude/Maybe.antt =====
-- Fallible code: `none` is a run-time panic. Counted loops over such code, with their invariant rule.
use Prim.Native.Nat.{ℕ, zero, suc, ◌+◌, ◌<◌}
use mathlib.Core.Path.{◌≡◌, refl}
use mathlib.Core.Option.{Option, none, some}
use native.Mathlib.Omega.{arith}

infixl 5 ◌>>=◌
abbrev pub ◌>>=◌ {ℓ κ} : {A : Type ℓ} {B : Type κ} → Option A → (A → Option B) → Option B
none >>= f = none
some a >>= f = f a

-- `for i := i; n rounds are left; i++ { s = body(i, s) }`
unfoldable pub for_range {ℓ} : {S : Type ℓ} → ℕ → ℕ → (ℕ → S → Option S) → S → Option S
for_range zero i body s = some s
for_range (suc n) i body s = elim (body i s) [ none ↦ none | some s' ↦ for_range n (suc i) body s' ]

-- A loop from 1 runs to its end, and keeps what each round keeps; `P k` holds after `k` rounds.
pub for_range_inv {ℓ κ} :
    {S : Type ℓ} (P : ℕ → S → Type κ) (body : ℕ → S → Option S) (end : ℕ)
    → ((k : ℕ) (s : S) → k < end → P k s → (s' : S) × (body (suc k) s ≡ some s') × P (suc k) s')
    → (n k : ℕ) (s : S) → k + n ≡ end
    → P k s
    → (s' : S) × (for_range n (suc k) body s ≡ some s') × P end s'
unfolding for_range
for_range_inv P body end keep zero k s e h = (s, refl, let e' : end ≡ k = omega arith in rw e' h)
for_range_inv P body end keep (suc n) k s e h =
    let (s', run, kept) = keep k s (omega arith) h in
    let (s'', runs, ended) = for_range_inv P body end keep n (suc k) s' (omega arith) kept in
    (s'', rw (run, for_range) runs, ended)
