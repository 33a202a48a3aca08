-- ===== src/Paging/Protect/View.antt =====
-- What `mprotect` of server/exception/exception_p_enclave/Enclave/paging.h does, seen through the
-- map from addresses to entries that the page tables stand for.
use atc22_ae.Base.{
  ℕ, ◌+◌, ◌-◌, ◌*◌, ◌/◌, ◌%◌, ◌^◌, ◌<◌, ◌≡◌, ◌≢◌, refl, sym, ◌∙◌, ap, inl, inr, arith, Bool, true,
  Bool-cases, Option, none, some, if◌then◌else◌, ◌&&◌, ◌==◌, ltb, leb, eq_of_==,
}
use mathlib.Core.Option
use atc22_ae.Outcome.{done, success}
use atc22_ae.Paging.{Mmu, mprotect}
use atc22_ae.Paging.Walk.{Walked, absent, large, leaf, hw_walk, phys_of}
use atc22_ae.Paging.Agree.{Avoids, hw_walk-Agrees, Agrees-of-Avoids}
use atc22_ae.Paging.Protect.{mprotect-IsProtected}
use atc22_ae.Paging.Protect.Page.{with_flags}
use atc22_ae.Paging.Protect.Range.{
  page, touched, touched-leaf, touched-page, IsProtectable, IsUpdated,
}

-- The entry that the processor finds for an address.
abbrev pub entry_of : (ℕ → ℕ) → Walked → Option ℕ
entry_of ph absent = none
entry_of ph large = none
entry_of ph (leaf a) = some (ph a)

abbrev pub lookup : Mmu → ℕ → Option ℕ
lookup s v = entry_of (phys_of s) (hw_walk (phys_of s) 3 s.cached_cr3 v)

-- Does the page of `v` lie in the range?
abbrev pub in_range : (start n v : ℕ) → Bool
in_range start n v = leb start v && ltb v (start + 4096 * n)

-- The map with the flags of a range replaced.
abbrev pub protected_at : (start n flags : ℕ) → (ℕ → Option ℕ) → ℕ → Option ℕ
protected_at start n flags view v =
    if in_range start n v then Option.map (λ e. with_flags e flags) (view v) else view v

-- No page of the range but `v` itself has its entry where the walk of `v` reads.
pub record IsApart (ph : ℕ → ℕ) (cr3 start n v : ℕ) : Type 0 where
  pub above :
      (i a : ℕ)
      → i < n
      → page start i ≢ v
      → hw_walk ph 3 cr3 (page start i) ≡ leaf a
      → Avoids ph 3 cr3 v a
  pub last :
      (i a : ℕ)
      → i < n
      → page start i ≢ v
      → hw_walk ph 3 cr3 (page start i) ≡ leaf a
      → hw_walk ph 3 cr3 v ≢ leaf a

module _ (ph ph' : ℕ → ℕ) (cr3 start flags n v : ℕ) (whole : start % 4096 ≡ 0)
    (whole' : v % 4096 ≡ 0) (ok : IsProtectable ph cr3 start n) (apart : IsApart ph cr3 start n v)
    (up : IsUpdated ph cr3 start flags n ph') where
  touched-avoids : (p : ℕ) → touched ph cr3 start n p ≡ true → Avoids ph 3 cr3 v p
  touched-avoids p t =
      let (i, h, e) = touched-page ph cr3 start n p t in
      elim (Bool-cases (page start i == v)) [
        | inl same ↦
            let at : page start i ≡ v = eq_of_== _ _ same in rw at at (ok.apart i i p h h e)
        | inr other ↦ apart.above i p h (ground arith) e
      ]

  same_walk : hw_walk ph' 3 cr3 v ≡ hw_walk ph 3 cr3 v
  same_walk = hw_walk-Agrees ph ph' 3 cr3 v (
      Agrees-of-Avoids ph ph' (touched ph cr3 start n) (λ p miss. up p ∙ rw miss refl) 3 cr3 v
        touched-avoids)

  -- The entry of `v` is touched exactly if its page lies in the range.
  touched-in_range :
      (a : ℕ) → hw_walk ph 3 cr3 v ≡ leaf a → touched ph cr3 start n a ≡ in_range start n v
  touched-in_range a e = elim (Bool-cases (in_range start n v)) [
    | inl inside ↦
        let i : ℕ = (v - start) / 4096 in
        let at : v ≡ page start i = ground arith in
        touched-leaf ph cr3 start n i a (ground arith) (rw at at e) ∙ sym inside
    | inr outside ↦ elim (Bool-cases (touched ph cr3 start n a)) [
      | inl hit ↦
          let (i, h, f) = touched-page ph cr3 start n a hit in
          absurd (apart.last i a h (ground arith) f e)
      | inr miss ↦ miss ∙ sym outside
    ]
  ]

  entry_lem :
      (w : Walked)
      → hw_walk ph 3 cr3 v ≡ w
      → entry_of ph' w ≡ (
          if in_range start n v
          then Option.map (λ e. with_flags e flags) (entry_of ph w)
          else entry_of ph w)
  entry_lem absent e = ground arith
  entry_lem large e = ground arith
  entry_lem (leaf a) e =
      ap some (up a)
      ∙ rw (touched-in_range a e) (elim (Bool-cases (in_range start n v)) [
        | inl inside ↦ rw inside refl
        | inr outside ↦ rw outside refl
      ])

-- On a range of whole pages that does not wrap, with flags of twelve bits and page tables as
-- `IsProtectable` says, `mprotect` returns 0, and through the map from addresses to entries it is
-- the replacement of the flags in the range: a page of the range that is mapped keeps its address
-- part and gets the flags, a page of the range that is not mapped stays so, and a page outside the
-- range is mapped as before. This holds for every page such that the last entry of no other page of
-- the range is among the entries that its walk leads through.
pub mprotect-lookup :
    (s : Mmu) (start flags n v : ℕ)
    → start % 4096 ≡ 0
    → start + 4096 * n < 2 ^ 64
    → flags < 4096
    → s.cached_cr3 % 4096 ≡ 0
    → IsProtectable (phys_of s) s.cached_cr3 start n
    → v % 4096 ≡ 0
    → IsApart (phys_of s) s.cached_cr3 start n v
    → (s' : Mmu) × (mprotect s start (4096 * n) flags ≡ done (success, s'))
      × (lookup s' v ≡ protected_at start n flags (lookup s) v)
mprotect-lookup s start flags n v whole fits bits aligned ok whole' apart =
    let (s', ran, prot) = mprotect-IsProtected s start flags n whole fits bits aligned ok in
    (
      s',
      ran,
      rw prot.same_root (
          ap (entry_of (phys_of s')) (
            same_walk (phys_of s) (phys_of s') s.cached_cr3 start flags n v whole whole' ok apart
              prot.entries)
          ∙ entry_lem (phys_of s) (phys_of s') s.cached_cr3 start flags n v whole whole' ok apart
              prot.entries _ refl),
    )
