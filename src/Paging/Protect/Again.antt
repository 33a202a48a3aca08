-- ===== src/Paging/Protect/Again.antt =====
-- `mprotect` of server/exception/exception_p_enclave/Enclave/paging.h called twice on one range.
use atc22_ae.Base.{
  ℕ, zero, suc, ◌+◌, ◌*◌, ◌%◌, ◌^◌, ◌≤◌, ◌<◌, ◌≡◌, refl, sym, ◌∙◌, ap, inl, inr, arith, Bool-cases,
  List, bit_or,
}
use mathlib.Core.Path.{subst}
use atc22_ae.Outcome.{done, success}
use atc22_ae.Paging.{Mmu, mprotect}
use atc22_ae.Paging.Entry.{pte_addr-with_flags}
use atc22_ae.Paging.Walk.{leaf, hw_walk, phys_of}
use atc22_ae.Paging.Agree.{hw_walk-Agrees, IsLow-Agrees, Avoids-Agrees}
use atc22_ae.Paging.Protect.{mprotect-IsProtected}
use atc22_ae.Paging.Protect.Page.{with_flags}
use atc22_ae.Paging.Protect.Range.{
  page, touched, flushes, IsProtectable, IsUpdated, IsUpdated-Agrees, touched-page,
}

module _ (ph ph' : ℕ → ℕ) (cr3 start flags n : ℕ) (ok : IsProtectable ph cr3 start n)
    (up : IsUpdated ph cr3 start flags n ph') where
  -- The pages of the range lead to the same entries in both memories.
  same_walk : (j : ℕ) → j < n → hw_walk ph' 3 cr3 (page start j) ≡ hw_walk ph 3 cr3 (page start j)
  same_walk j h =
      hw_walk-Agrees ph ph' 3 cr3 (page start j)
        (IsUpdated-Agrees ph cr3 start flags n j ph' ok (omega arith) h up)

  IsProtectable-IsUpdated : IsProtectable ph' cr3 start n
  IsProtectable-IsUpdated = record {
    low = λ j h.
        IsLow-Agrees ph ph' 3 cr3 (page start j)
          (IsUpdated-Agrees ph cr3 start flags n j ph' ok (omega arith) h up) (ok.low j h);
    small = λ j h. rw (same_walk j h) (ok.small j h);
    apart = λ i j a h b e.
        Avoids-Agrees ph ph' 3 cr3 (page start j) a
          (IsUpdated-Agrees ph cr3 start flags n j ph' ok (omega arith) b up)
          (ok.apart i j a h b (sym (same_walk i h) ∙ e));
  }

  same_touched : (i p : ℕ) → i ≤ n → touched ph' cr3 start i p ≡ touched ph cr3 start i p
  unfolding touched
  same_touched zero p h = refl
  same_touched (suc i) p h = rw (same_walk i (omega arith), same_touched i p (omega arith)) refl

  same_flushes : (i : ℕ) (l : List ℕ) → i ≤ n → flushes ph' cr3 start i l ≡ flushes ph cr3 start i l
  unfolding flushes
  same_flushes zero l h = refl
  same_flushes (suc i) l h = rw (same_walk i (omega arith), same_flushes i l (omega arith)) refl

  -- The second change hides the first one.
  IsUpdated-again :
      (flags' : ℕ) (ph'' : ℕ → ℕ)
      → flags < 4096
      → IsUpdated ph' cr3 start flags' n ph''
      → IsUpdated ph cr3 start flags' n ph''
  IsUpdated-again flags' ph'' small up' p =
      up' p
      ∙ rw (same_touched n p (omega arith), up p)
          (elim (Bool-cases (touched ph cr3 start n p)) [
            | inl hit ↦
                rw hit (ap (λ (t : ℕ). bit_or t flags') (pte_addr-with_flags (ph p) flags small))
            | inr miss ↦ rw miss refl
          ])

-- On a range of whole pages that does not wrap, with page tables as `IsProtectable` says: let each
-- mapped page of the range have the flags `old`, and no bits of an entry above the address. Then
-- changing the range to any flags of twelve bits and back to `old` restores every word of physical
-- memory and the root. Both calls return 0, and each has flushed every mapped page.
pub mprotect-restores :
    (s : Mmu) (start flags old n : ℕ)
    → start % 4096 ≡ 0
    → start + 4096 * n < 2 ^ 64
    → flags < 4096
    → old < 4096
    → s.cached_cr3 % 4096 ≡ 0
    → IsProtectable (phys_of s) s.cached_cr3 start n
    → ((i p : ℕ)
        → i < n
        → hw_walk (phys_of s) 3 s.cached_cr3 (page start i) ≡ leaf p
        → phys_of s p ≡ with_flags (phys_of s p) old)
    → (s₁ : Mmu) × (s₂ : Mmu) × (mprotect s start (4096 * n) flags ≡ done (success, s₁))
      × (mprotect s₁ start (4096 * n) old ≡ done (success, s₂))
      × ((p : ℕ) → phys_of s₂ p ≡ phys_of s p)
      × (s₂.cached_cr3 ≡ s.cached_cr3)
      × (s₂.flushed
          ≡ flushes
              (phys_of s)
              s.cached_cr3
              start
              n
              (flushes (phys_of s) s.cached_cr3 start n s.flushed))
mprotect-restores s start flags old n whole fits bits bits' aligned ok had =
    let (s₁, ran, prot) = mprotect-IsProtected s start flags n whole fits bits aligned ok in
    let ok₁ : IsProtectable (phys_of s₁) s₁.cached_cr3 start n = rw prot.same_root (
      IsProtectable-IsUpdated (phys_of s) (phys_of s₁) s.cached_cr3 start flags n ok
        prot.entries) in
    let (s₂, ran', prot') =
      mprotect-IsProtected s₁ start old n whole fits bits' (rw prot.same_root aligned) ok₁ in
    let up : IsUpdated (phys_of s) s.cached_cr3 start old n (phys_of s₂) =
      IsUpdated-again (phys_of s) (phys_of s₁) s.cached_cr3 start flags n ok prot.entries old
        (phys_of s₂) bits
        (subst (λ r. IsUpdated (phys_of s₁) r start old n (phys_of s₂)) prot.same_root
          prot'.entries) in
    (
      s₁,
      s₂,
      ran,
      ran',
      λ p. up p ∙ elim (Bool-cases (touched (phys_of s) s.cached_cr3 start n p)) [
        | inl hit ↦
            let (i, h, e) = touched-page (phys_of s) s.cached_cr3 start n p hit in
            rw hit (sym (had i p h e))
        | inr miss ↦ rw miss refl
      ],
      prot'.same_root ∙ prot.same_root,
      prot'.tlb
          ∙ ap (λ r. flushes (phys_of s₁) r start n s₁.flushed) prot.same_root
          ∙ same_flushes (phys_of s) (phys_of s₁) s.cached_cr3 start flags n ok prot.entries n _
              (omega arith)
          ∙ ap (flushes (phys_of s) s.cached_cr3 start n) prot.tlb,
    )
