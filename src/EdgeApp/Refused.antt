-- ===== src/EdgeApp/Refused.antt =====
-- A run of server/edge-calls/App/App.cpp whose second measuring ecall fails.
use Prim.Native.String.{String}
use atc22_ae.Base.{ℕ, ◌≡◌}
use atc22_ae.Timing.{Ran, exited}

-- A run that ends the program with status 0.
abbrev Exits : {W : Type 0} → Ran W ℕ → Type 0
Exits {W} r = (w : W) × (r ≡ exited 0 w)
