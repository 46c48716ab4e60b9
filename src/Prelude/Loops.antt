-- ===== src/Prelude/Loops.antt =====
-- `for (k = i; k < i + n; k++) s = body(k, s)`, with an invariant rule.
use Prim.Native.Nat.{ℕ, zero, suc, ◌+◌, ◌≤◌, ◌<◌}
use native.Mathlib.Omega.{arith}

unfoldable pub for_upto {ℓ} : {S : Type ℓ} → ℕ → ℕ → (ℕ → S → S) → S → S
for_upto zero i body s = s
for_upto (suc n) i body s = for_upto n (i + 1) body (body i s)

-- What each round keeps, the loop keeps; a round knows its index.
pub for_upto_keeps {ℓ κ} :
    {S : Type ℓ} (P : S → Type κ) (body : ℕ → S → S) (n i : ℕ) (s : S)
    → ((k : ℕ) (t : S) → i ≤ k → k < i + n → P t → P (body k t))
    → P s
    → P (for_upto n i body s)
unfolding for_upto
for_upto_keeps P body zero i s keep h = h
for_upto_keeps P body (suc n) i s keep h =
    for_upto_keeps P body n (i + 1) (body i s) (λ k t lo hi. keep k t (omega arith) (omega arith))
      (keep i s (omega arith) (omega arith) h)
