-- ===== src/Examples/Paging.antt =====
-- The theorems on page tables at the tables of `Tables.antt`.
use atc22_ae.Base.{ℕ, ◌+◌, ◌-◌, ◌*◌, ◌^◌, ◌≡◌, ◌≢◌, refl, arith, []}
use atc22_ae.Outcome.{done, out_of_fuel, success, failure}
use atc22_ae.Paging.{Mmu, null, next_table, get_entry, mprotect_page, mprotect}
use atc22_ae.Paging.Window.{get_entry-beyond}
use atc22_ae.Paging.Walk.{hw_walk, phys_of, frame, as_ptr, get_entry-hw_walk}
use atc22_ae.Paging.Protect.{IsProtected, mprotect-IsProtected}
use atc22_ae.Paging.Protect.Range.{page, flushes}
use atc22_ae.Paging.Protect.View.{lookup, protected_at, IsApart, mprotect-lookup}
use atc22_ae.Paging.Protect.Wrap.{mprotect-wraps}
use atc22_ae.Paging.Protect.Again.{mprotect-restores}
use atc22_ae.Paging.Protect.Total.{mprotect-total}
use atc22_ae.Examples.Tables.{
  start, root, mmu, mmu-IsProtectable, mmu-IsLow, mmu-with_flags, same_entry,
}

get_entry-hw_walk_example :
    get_entry mmu (page start 5) ≡ as_ptr (hw_walk (phys_of mmu) 3 (frame root) (page start 5))
get_entry-hw_walk_example = get_entry-hw_walk mmu (page start 5) refl (mmu-IsLow 5 (omega arith))

mprotect-IsProtected_example :
    (s' : Mmu) × (mprotect mmu start (4096 * 3) 1 ≡ done (success, s'))
    × IsProtected mmu start 1 3 s'
mprotect-IsProtected_example =
    mprotect-IsProtected mmu start 1 3 refl (omega arith) (omega arith) refl
      (mmu-IsProtectable 3 (omega arith))

-- The last page but one, and a range that wraps.
mprotect-total_example : mprotect mmu (2 ^ 64 - 8192) 12288 1 ≢ out_of_fuel
mprotect-total_example = mprotect-total mmu (2 ^ 64 - 8192) 12288 1 (omega arith) (omega arith)

outside_lem : IsApart (phys_of mmu) root start 3 (page start 5)
outside_lem = record {
  above = λ i a h ne e.
      (mmu-IsProtectable 32768 (omega arith)).apart i 5 a (omega arith) (omega arith) e;
  last = λ i a h ne e f. omega (arith, same_entry i 5 a (omega arith) (omega arith) e f);
}

-- A page behind the three of the range.
mprotect-lookup_example :
    (s' : Mmu) × (mprotect mmu start (4096 * 3) 1 ≡ done (success, s'))
    × (lookup s' (page start 5) ≡ protected_at start 3 1 (lookup mmu) (page start 5))
mprotect-lookup_example =
    mprotect-lookup mmu start 1 3 (page start 5) refl (omega arith) (omega arith) refl
      (mmu-IsProtectable 3 (omega arith)) refl outside_lem

-- The last two pages of the address space.
mprotect-wraps_example : mprotect mmu (2 ^ 64 - 8192) 8192 3 ≡ done (success, mmu)
mprotect-wraps_example =
    mprotect-wraps mmu (2 ^ 64 - 8192) 8192 3 refl refl (omega arith) (omega arith) (omega arith)

-- Three pages made read-only and writable again.
mprotect-restores_example :
    (s₁ : Mmu) × (s₂ : Mmu) × (mprotect mmu start (4096 * 3) 1 ≡ done (success, s₁))
    × (mprotect s₁ start (4096 * 3) 3 ≡ done (success, s₂))
    × ((p : ℕ) → phys_of s₂ p ≡ phys_of mmu p)
    × (s₂.cached_cr3 ≡ root)
    × (s₂.flushed
        ≡ flushes (phys_of mmu) root start 3 (flushes (phys_of mmu) root start 3 mmu.flushed))
mprotect-restores_example =
    mprotect-restores mmu start 1 3 3 refl (omega arith) (omega arith) (omega arith) refl
      (mmu-IsProtectable 3 (omega arith)) λ i p h e. mmu-with_flags i p (omega arith) e

-- A root whose entries all lead to a table at 2^47.
abbrev beyond : Mmu
beyond = record { mem = λ q. 2 ^ 47 + 1; cached_cr3 = root; flushed = [] }

get_entry-beyond_example :
    (hw_walk (phys_of beyond) 3 root 0x401000 ≡ hw_walk (phys_of beyond) 2 (2 ^ 47) 0x401000)
    × (next_table (2 ^ 47 + 1) ≡ done null)
    × (get_entry beyond 0x401000 ≡ done null)
    × (mprotect_page beyond 0x401000 3 ≡ done (failure, beyond))
get_entry-beyond_example =
    get_entry-beyond beyond 0x401000 (omega arith) 3 (omega arith) (omega arith) (omega arith)
