-- ===== src/EdgeEnclave/Text.antt =====
-- What `printf` of server/edge-calls/Enclave/Enclave.cpp hands to the terminal, and what it
-- returns.
use atc22_ae.Base.{
  ℕ, zero, suc, ◌+◌, ◌-◌, ◌≤◌, ◌<◌, ◌≡◌, ◌≢◌, ◌⊎◌, refl, sym, ◌∙◌, ap, arith, Bool-cases, ◌==◌,
  eq_of_==, inl, inr, List, [], ◌∷◌, ◌++◌, length,
}
use atc22_ae.EdgeEnclave.{take, c_string, printf}
use mathlib.Core.List.{Memᴰ}
use mathlib.Core.List.Memᴰ
use mathlib.Core.Path.{subst}

-- Where a C string of at most `n` bytes ends in a text: at its end, at a NUL, or behind `n` bytes.
abbrev pub EndsAt : (n : ℕ) (s rest : List ℕ) → Type 0
EndsAt n s rest = (rest ≡ []) ⊎ ((tail : List ℕ) × (rest ≡ 0 ∷ tail)) ⊎ (length s ≡ n)

-- `s` is the C string in the first `n` bytes of a text: what stands before `rest`.
record IsHeld (n : ℕ) (text s : List ℕ) : Type 0 where
  pub rest : List ℕ
  pub whole : text ≡ s ++ rest
  pub no_nul : (x : ℕ) → Memᴰ x s → x ≢ 0
  pub fits : length s ≤ n
  pub ends : EndsAt n s rest

-- Nothing is held where there is nothing, no room, or a NUL.
IsHeld-nil : (n : ℕ) (text : List ℕ) → EndsAt n [] text → IsHeld n text []
IsHeld-nil n text ends = record {
  rest = text;
  whole = refl;
  no_nul = λ x m. absurd (Memᴰ.not-nil m);
  fits = omega arith;
  ends = ends;
}

EndsAt-suc : (n y : ℕ) (s rest : List ℕ) → EndsAt n s rest → EndsAt (suc n) (y ∷ s) rest
EndsAt-suc n y s rest (inl e) = inl e
EndsAt-suc n y s rest (inr (inl e)) = inr (inl e)
EndsAt-suc n y s rest (inr (inr e)) = inr (inr (ap suc e))

IsHeld-cons :
    (n y : ℕ) (text s : List ℕ) → y ≢ 0 → IsHeld n text s → IsHeld (suc n) (y ∷ text) (y ∷ s)
IsHeld-cons n y text s ne h = record {
  rest = h.rest;
  whole = ap (λ l. y ∷ l) h.whole;
  no_nul = λ x m. elim (Memᴰ.cases_cons m) [ inl e ↦ λ z. ne (sym e ∙ z) | inr m' ↦ h.no_nul x m' ];
  fits = omega (arith, h.fits);
  ends = EndsAt-suc n y s h.rest h.ends;
}

c_string-IsHeld :
    (bufsiz n : ℕ) (text : List ℕ) → IsHeld n text (c_string bufsiz (take bufsiz n text))
c_string-IsHeld bufsiz zero text = IsHeld-nil 0 text (inr (inr refl))
c_string-IsHeld bufsiz (suc n) [] = IsHeld-nil (suc n) [] (inl refl)
c_string-IsHeld bufsiz (suc n) (y ∷ text) = elim (Bool-cases (y == 0)) [
  | inl h ↦
      let empty : c_string bufsiz (take bufsiz (suc n) (y ∷ text)) ≡ [] = rw h refl in
      let zero_first : y ∷ text ≡ 0 ∷ text = ap (λ x. x ∷ text) (eq_of_== y 0 h) in
      subst (IsHeld (suc n) (y ∷ text)) (sym empty)
        (IsHeld-nil (suc n) (y ∷ text) (inr (inl (text, zero_first))))
  | inr h ↦
      let more : c_string bufsiz (take bufsiz (suc n) (y ∷ text))
          ≡ y ∷ c_string bufsiz (take bufsiz n text) =
        rw h refl in
      subst (IsHeld (suc n) (y ∷ text)) (sym more)
        (IsHeld-cons n y text _ (λ e. ground (arith, e, h)) (c_string-IsHeld bufsiz n text))
]

-- With a buffer of at least one byte, `printf` makes one ocall, with a C string that is the text up
-- to its first NUL, or the first bytes of it that fit the buffer with a NUL behind them; it returns
-- the size of that string with its NUL, which is at most the buffer's.
pub printf_lem :
    {W : Type 0} (bufsiz : ℕ) (out : List ℕ → W → W) (text : List ℕ) (w : W)
    → 0 < bufsiz
    → (s rest : List ℕ) × (printf bufsiz out text w ≡ (length s + 1, out s w))
      × (text ≡ s ++ rest)
      × ((x : ℕ) → Memᴰ x s → x ≢ 0)
      × EndsAt (bufsiz - 1) s rest
      × (length s + 1 ≤ bufsiz)
unfolding printf
printf_lem bufsiz out text w h =
    let s : List ℕ = c_string bufsiz (take bufsiz (bufsiz - 1) text) in
    let is_held : IsHeld (bufsiz - 1) text s = c_string-IsHeld bufsiz (bufsiz - 1) text in
    (
      s,
      is_held.rest,
      refl,
      is_held.whole,
      is_held.no_nul,
      is_held.ends,
      omega (arith, is_held.fits),
    )
