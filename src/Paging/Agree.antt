-- ===== src/Paging/Agree.antt =====
-- When a change to page-table entries leaves a walk alone (`get_entry` of
-- server/exception/exception_p_enclave/Enclave/paging.h, through the walk of `Walk.antt`).
use atc22_ae.Base.{
  ℕ, zero, suc, ◌%◌, ◌≡◌, ◌≢◌, refl, inl, inr, arith, Bool, true, false, Bool-cases, ◌==◌,
}
use atc22_ae.Paging.Walk.{frame, slot, hw_walk, IsLow}

-- The entries that the walk of `v` reads above its last level are the same in both memories.
abbrev pub Agrees : (ph ph' : ℕ → ℕ) (l table v : ℕ) → Type 0
Agrees ph ph' zero table v = Unit {0}
Agrees ph ph' (suc l) table v =
    (ph' (slot (suc l) table v) ≡ ph (slot (suc l) table v))
    × (ph (slot (suc l) table v) % 2 ≡ 1 → Agrees ph ph' l (frame (ph (slot (suc l) table v))) v)

-- The walk of `v` reads none of them at `a`.
abbrev pub Avoids : (ph : ℕ → ℕ) (l table v a : ℕ) → Type 0
Avoids ph zero table v a = Unit {0}
Avoids ph (suc l) table v a =
    (slot (suc l) table v ≢ a)
    × (ph (slot (suc l) table v) % 2 ≡ 1 → Avoids ph l (frame (ph (slot (suc l) table v))) v a)

module _ (ph ph' : ℕ → ℕ) where
  pub hw_walk-Agrees :
      (l table v : ℕ) → Agrees ph ph' l table v → hw_walk ph' l table v ≡ hw_walk ph l table v
  unfolding hw_walk
  hw_walk-Agrees zero table v h = refl
  hw_walk-Agrees (suc l) table v h = elim (Bool-cases (ph (slot (suc l) table v) % 2 == 0)) [
    | inl gone ↦ rw (h.0, gone) refl
    | inr there ↦ rw (h.0, there, hw_walk-Agrees l _ v (h.1 (ground arith))) refl
  ]

  pub IsLow-Agrees :
      (l table v : ℕ) → Agrees ph ph' l table v → IsLow ph l table v → IsLow ph' l table v
  IsLow-Agrees zero table v h low = low
  IsLow-Agrees (suc l) table v h low = (low.0, rw h.0 λ p q. IsLow-Agrees l _ v (h.1 p) (low.1 p q))

  pub Avoids-Agrees :
      (l table v a : ℕ) → Agrees ph ph' l table v → Avoids ph l table v a → Avoids ph' l table v a
  Avoids-Agrees zero table v a h out = tt
  Avoids-Agrees (suc l) table v a h out =
      rw h.0 (out.0, λ p. Avoids-Agrees l _ v a (h.1 p) (out.1 p))

  -- A change confined to entries that the walk avoids.
  pub Agrees-of-Avoids :
      (changed : ℕ → Bool)
      → ((p : ℕ) → changed p ≡ false → ph' p ≡ ph p)
      → (l table v : ℕ) → ((p : ℕ) → changed p ≡ true → Avoids ph l table v p)
      → Agrees ph ph' l table v
  Agrees-of-Avoids changed same zero table v apart = tt
  Agrees-of-Avoids changed same (suc l) table v apart = (
    elim (Bool-cases (changed (slot (suc l) table v))) [
      | inl hit ↦ absurd ((apart _ hit).0 refl)
      | inr miss ↦ same _ miss
    ],
    λ p. Agrees-of-Avoids changed same l _ v (λ q c. (apart q c).1 p),
  )
