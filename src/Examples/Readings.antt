-- ===== src/Examples/Readings.antt =====
-- Four readings of a clock, and the counter that they show.
use atc22_ae.Base.{ℕ, ◌*◌, arith, ltb, if◌then◌else◌}
use atc22_ae.Counter.{IsCounter}

abbrev pub t : ℕ → ℕ
t k = if ltb k 4 then 100 * k else 0

abbrev pub tsc : ℕ → ℕ × ℕ
tsc k = (t k, 0)

pub tsc-IsCounter : IsCounter tsc t
tsc-IsCounter = record {
  low = λ k. ground arith;
  high = λ k. omega arith;
  halves = λ k. omega arith;
  first = omega arith;
  second = omega arith;
}
