-- ===== src/Paging/Protect/Range.antt =====
-- What `mprotect` of server/exception/exception_p_enclave/Enclave/paging.h should do to a range of
-- pages, said without its loop: which entries change, and which addresses are flushed.
use atc22_ae.Base.{
  ℕ, zero, suc, ◌+◌, ◌*◌, ◌<◌, ◌≡◌, ◌≢◌, refl, ◌∙◌, ap, inl, inr, arith, Bool, true, false, ◌||◌,
  Bool-cases, eq_of_==, ==_self, List, ◌∷◌, if◌then◌else◌, ◌==◌, bit_or,
}
use atc22_ae.Paging.Entry.{pte_addr-with_flags}
use atc22_ae.Paging.Walk.{Walked, absent, large, leaf, hw_walk, IsLow}
use atc22_ae.Paging.Agree.{Agrees, Avoids, Agrees-of-Avoids}
use atc22_ae.Paging.Protect.Page.{with_flags}

abbrev pub is_leaf : Walked → ℕ → Bool
is_leaf absent p = false
is_leaf large p = false
is_leaf (leaf a) p = a == p

abbrev pub flush : Walked → ℕ → List ℕ → List ℕ
flush absent v l = l
flush large v l = l
flush (leaf a) v l = v ∷ l

-- The `i`-th page of the range.
abbrev pub page : ℕ → ℕ → ℕ
page start i = start + 4096 * i

module _ (ph : ℕ → ℕ) (cr3 start : ℕ) where
  -- Is `p` the entry of one of the first `n` pages?
  unfoldable pub touched : ℕ → ℕ → Bool
  touched zero p = false
  touched (suc n) p = is_leaf (hw_walk ph 3 cr3 (page start n)) p || touched n p

  -- The mapped ones of the first `n` pages, the last one first.
  unfoldable pub flushes : ℕ → List ℕ → List ℕ
  flushes zero l = l
  flushes (suc n) l = flush (hw_walk ph 3 cr3 (page start n)) (page start n) (flushes n l)

  -- The page tables of the range lie below 2^47, hold no large page, and the entry of one page is
  -- no entry that the walk of another reads on its way.
  pub record IsProtectable (n : ℕ) : Type 0 where
    pub low : (j : ℕ) → j < n → IsLow ph 3 cr3 (page start j)
    pub small : (j : ℕ) → j < n → hw_walk ph 3 cr3 (page start j) ≢ large
    pub apart :
        (i j a : ℕ)
        → i < n
        → j < n
        → hw_walk ph 3 cr3 (page start i) ≡ leaf a
        → Avoids ph 3 cr3 (page start j) a

  is_leaf-leaf : (w : Walked) (p : ℕ) → is_leaf w p ≡ true → w ≡ leaf p
  is_leaf-leaf absent p h = cc
  is_leaf-leaf large p h = cc
  is_leaf-leaf (leaf a) p h = rw (eq_of_== a p h) refl

  -- An entry that the range touches belongs to one of its pages.
  pub touched-page :
      (n p : ℕ)
      → touched n p ≡ true
      → (i : ℕ) × (i < n) × (hw_walk ph 3 cr3 (page start i) ≡ leaf p)
  unfolding touched
  touched-page zero p t = absurd cc
  touched-page (suc n) p t = elim (Bool-cases (is_leaf (hw_walk ph 3 cr3 (page start n)) p)) [
    | inl hit ↦ (n, omega arith, is_leaf-leaf _ p hit)
    | inr miss ↦ let (i, h, e) = touched-page n p (rw miss at t) in (i, omega arith, e)
  ]

  touched-Avoids :
      {n : ℕ}
      → IsProtectable n
      → (i j p : ℕ) → (i < suc n)
      → j < n
      → touched i p ≡ true
      → Avoids ph 3 cr3 (page start j) p
  unfolding touched
  touched-Avoids ok zero j p hi hj t = cc
  touched-Avoids ok (suc i) j p hi hj t =
      elim (Bool-cases (is_leaf (hw_walk ph 3 cr3 (page start i)) p)) [
        | inl hit ↦ ok.apart i j p (omega arith) hj (is_leaf-leaf _ p hit)
        | inr miss ↦ touched-Avoids ok i j p (omega arith) hj (rw miss at t)
      ]

  pub touched-leaf :
      (n i p : ℕ) → i < n → hw_walk ph 3 cr3 (page start i) ≡ leaf p → touched n p ≡ true
  unfolding touched
  touched-leaf zero i p h e = absurd (omega arith)
  touched-leaf (suc n) i p h e = elim (Bool-cases (n == i)) [
    | inl last ↦
        let same : n ≡ i = eq_of_== n i last in
        let w : hw_walk ph 3 cr3 (page start n) ≡ leaf p = rw same e in rw (w, ==_self p) refl
    | inr other ↦ ground (arith, touched-leaf n i p (ground arith) e)
  ]

  -- Memory in which the entries of the first `i` pages have the new flags.
  abbrev pub IsUpdated : (flags i : ℕ) → (ℕ → ℕ) → Type 0
  IsUpdated flags i ph' = (p : ℕ) → ph' p ≡ (if touched i p then with_flags (ph p) flags else ph p)

  pub IsUpdated-Agrees :
      {n : ℕ} (flags i j : ℕ) (ph' : ℕ → ℕ)
      → IsProtectable n
      → i < suc n
      → j < n
      → IsUpdated flags i ph'
      → Agrees ph ph' 3 cr3 (page start j)
  IsUpdated-Agrees flags i j ph' ok hi hj up =
      Agrees-of-Avoids ph ph' (touched i) (λ p miss. up p ∙ rw miss refl) 3 cr3 (page start j)
        λ p hit. touched-Avoids ok i j p hi hj hit

  -- The memory after one more page.
  pub IsUpdated-suc :
      (flags i : ℕ) (ph' ph'' : ℕ → ℕ)
      → flags < 4096
      → IsUpdated flags i ph'
      → (w : Walked) → hw_walk ph 3 cr3 (page start i) ≡ w
      → ((p : ℕ) → ph'' p ≡ (if is_leaf w p then with_flags (ph' p) flags else ph' p))
      → IsUpdated flags (suc i) ph''
  unfolding touched
  IsUpdated-suc flags i ph' ph'' small up w e step p =
      rw (e, step p, up p)
        (elim (Bool-cases (is_leaf w p)) [
          | inl hit ↦ elim (Bool-cases (touched i p)) [
            | inl old ↦
                rw (hit, old)
                  (ap (λ (t : ℕ). bit_or t flags) (pte_addr-with_flags (ph p) flags small))
            | inr new ↦ rw (hit, new) refl
          ]
          | inr miss ↦ rw miss refl
        ])
