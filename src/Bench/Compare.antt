-- ===== src/Bench/Compare.antt =====
-- The order that `cmpfunc` of server/edge-calls/Include/bench.h gives to `qsort`.
use atc22_ae.Base.{ℕ, ◌-◌, ◌^◌, ◌<◌, ◌≡◌, ◌↔◌, arith}
use atc22_ae.Bench.{cmpfunc}

-- `cmpfunc` says "equal" of equal numbers alone, and "less" or "greater" exactly where one number is
-- less or greater than the other; so it is the total order of the numbers, as `qsort` requires.
pub cmpfunc_lem :
    (aa bb : ℕ)
    → ((cmpfunc aa bb ≡ 0) ↔ (aa ≡ bb))
      × ((cmpfunc aa bb ≡ 1) ↔ (bb < aa))
      × ((cmpfunc aa bb ≡ 2 ^ 32 - 1) ↔ (aa < bb))
unfolding cmpfunc
cmpfunc_lem aa bb = ground arith
