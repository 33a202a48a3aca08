-- ===== src/Bench/Permuted.antt =====
-- Arrays that hold the same cells in another order, as `bench_stats` of
-- server/edge-calls/Include/bench.h sorts a copy of the samples: in rising order there is one of
-- them alone.
use atc22_ae.Base.{ℕ, ◌≤◌, ◌<◌, ◌≡◌, refl, ◌∙◌, sym, ap, arith, pigeonhole}

-- The first `n` cells of `q` are those of `t`, each once, at the places that `place` names.
pub record IsPermuted (n : ℕ) (t q : ℕ → ℕ) : Type 0 where
  pub place : ℕ → ℕ
  pub back : ℕ → ℕ
  pub place_lt : (i : ℕ) → i < n → place i < n
  pub back_lt : (i : ℕ) → i < n → back i < n
  pub back-place : (i : ℕ) → i < n → back (place i) ≡ i
  pub place-back : (i : ℕ) → i < n → place (back i) ≡ i
  pub cells : (i : ℕ) → i < n → q i ≡ t (place i)

pub IsPermuted-refl : (n : ℕ) (t : ℕ → ℕ) → IsPermuted n t t
IsPermuted-refl n t = record {
  place = λ i. i;
  back = λ i. i;
  place_lt = λ i b. b;
  back_lt = λ i b. b;
  back-place = λ i b. refl;
  place-back = λ i b. refl;
  cells = λ i b. refl;
}

pub IsPermuted-sym : {n : ℕ} {t q : ℕ → ℕ} → IsPermuted n t q → IsPermuted n q t
IsPermuted-sym {t} {q} p = record {
  place = p.back;
  back = p.place;
  place_lt = p.back_lt;
  back_lt = p.place_lt;
  back-place = p.place-back;
  place-back = p.back-place;
  cells = λ i b. sym (p.cells (p.back i) (p.back_lt i b) ∙ ap t (p.place-back i b));
}

pub IsPermuted-trans :
    {n : ℕ} {s t q : ℕ → ℕ} → IsPermuted n s t → IsPermuted n t q → IsPermuted n s q
IsPermuted-trans {n} {s} {t} {q} p r = record {
  place = λ i. p.place (r.place i);
  back = λ i. r.back (p.back i);
  place_lt = λ i b. p.place_lt _ (r.place_lt i b);
  back_lt = λ i b. r.back_lt _ (p.back_lt i b);
  back-place = λ i b. ap r.back (p.back-place _ (r.place_lt i b)) ∙ r.back-place i b;
  place-back = λ i b. ap p.place (r.place-back _ (p.back_lt i b)) ∙ p.place-back i b;
  cells = λ i b. r.cells i b ∙ p.cells _ (r.place_lt i b);
}

-- No cell is greater than a later one.
abbrev pub IsRising : ℕ → (ℕ → ℕ) → Type 0
IsRising n q = (i j : ℕ) → i ≤ j → j < n → q i ≤ q j

-- If cell `i` of `q` were greater than that of `r`, the first cells of `r`, up to `i`, would stand
-- in `q` before cell `i`.
rising_le :
    (n : ℕ) (q r : ℕ → ℕ)
    → IsPermuted n q r
    → IsRising n q
    → IsRising n r
    → (i : ℕ) → i < n
    → ¬ (r i < q i)
rising_le n q r p up up' i b h =
    pigeonhole i p.place
      (λ j c.
        ground (
          arith,
          p.cells j (omega arith),
          up' j i c b,
          up i (p.place j),
          p.place_lt j (omega arith),
        ))
      (λ j k c d e. sym (p.back-place j (omega arith)) ∙ ap p.back e ∙ p.back-place k (omega arith))

pub rising_unique :
    (n : ℕ) (q r : ℕ → ℕ)
    → IsPermuted n q r
    → IsRising n q
    → IsRising n r
    → (i : ℕ) → i < n
    → q i ≡ r i
rising_unique n q r p up up' i b =
    omega (arith, rising_le n q r p up up' i b, rising_le n r q (IsPermuted-sym p) up' up i b)
