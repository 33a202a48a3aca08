-- ===== src/PEnclave/Trace/Open.antt =====
-- Counting the pages that the benchmark of Enclave.cpp
-- (server/exception/exception_p_enclave/Enclave) still has to fault on.
use atc22_ae.Base.{
  ℕ, zero, suc, ◌+◌, ◌≤◌, ◌<◌, ◌≡◌, inl, inr, refl, arith, Bool, true, false, Bool-cases,
  if◌then◌else◌, ◌==◌, ltb, ◌||◌,
}

-- How many of the first `n` pages are read-only.
abbrev pub closed : (n : ℕ) → (ℕ → Bool) → ℕ
closed zero w = 0
closed (suc n) w = closed n w + (if w n then 0 else 1)

-- The page `i` made writable.
abbrev pub opened : ℕ → (ℕ → Bool) → ℕ → Bool
opened i w j = i == j || w j

closed-opened_of_le : (n i : ℕ) (w : ℕ → Bool) → n ≤ i → closed n (opened i w) ≡ closed n w
closed-opened_of_le zero i w h = refl
closed-opened_of_le (suc n) i w h = ground (arith, closed-opened_of_le n i w)

pub closed-opened :
    (n i : ℕ) (w : ℕ → Bool) → i < n → w i ≡ false → suc (closed n (opened i w)) ≡ closed n w
closed-opened zero i w h c = absurd (omega arith)
closed-opened (suc n) i w h c = elim (Bool-cases (i == n)) [
  | inl last ↦ ground (arith, closed-opened_of_le n i w)
  | inr other ↦ ground (arith, closed-opened n i w)
]

pub closed-all : (n : ℕ) → closed n (λ j. ltb j 0) ≡ n
closed-all zero = refl
closed-all (suc n) = ground (arith, closed-all n)

pub closed-none : (n : ℕ) (w : ℕ → Bool) → ((i : ℕ) → i < n → w i ≡ true) → closed n w ≡ 0
closed-none zero w h = refl
closed-none (suc n) w h =
    let last = h n (omega arith) in
    let below = closed-none n w (λ i b. h i (omega arith)) in ground arith
