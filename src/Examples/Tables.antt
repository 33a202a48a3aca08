-- ===== src/Examples/Tables.antt =====
-- Page tables that map the 32768 pages of a buffer at 2^30, page by page: the root at 0x1000, the
-- next levels at 0x2000 and 0x3000, and 64 tables of the last level from 0x10000 on.
use atc22_ae.Base.{
  ℕ, suc, ◌+◌, ◌-◌, ◌*◌, ◌/◌, ◌%◌, ◌^◌, ◌≤◌, ◌<◌, ◌≡◌, ◌≢◌, refl, sym, ◌∙◌, ap, arith, [], ◌==◌,
  ltb, if◌then◌else◌,
}
use mathlib.Core.Path.{fun_ext, subst}
use atc22_ae.Paging.{Mmu, phys_offset}
use atc22_ae.Paging.Walk.{Walked, absent, large, leaf, hw_walk, IsLow, phys_of, slot, frame}
use atc22_ae.Paging.Agree.{Avoids}
use atc22_ae.Paging.Entry.{with_flags-sum, pte_addr-div}
use atc22_ae.Paging.Protect.Page.{with_flags}
use atc22_ae.Paging.Protect.Range.{page, IsProtectable}
use atc22_ae.PEnclave.Buffer.{IsMapped}

abbrev pub start : ℕ
start = 2 ^ 30

abbrev pub root : ℕ
root = 0x1000

-- Each entry is present and writable.
unfoldable pub tables : ℕ → ℕ
tables p =
    if p == 0x1000
    then 0x2003
    else if p == 0x2008
    then 0x3003
    else if ltb p 0x4000
    then 0x10003 + 4096 * ((p - 0x3000) / 8)
    else 0x10000003 + 4096 * ((p - 0x10000) / 8)

-- Where the entry of page `i` is.
abbrev pub entry_at : ℕ → ℕ
entry_at i = 0x10000 + 8 * i

hw_walk-step :
    (ph : ℕ → ℕ) (l table v e f : ℕ)
    → ph (slot (suc l) table v) ≡ e
    → e % 2 ≡ 1
    → e / 128 % 2 ≡ 0
    → frame e ≡ f
    → hw_walk ph (suc l) table v ≡ hw_walk ph l f v
unfolding hw_walk
hw_walk-step ph l table v e f s p q r = rw (s, p, q, r) refl

IsLow-step :
    (ph : ℕ → ℕ) (l table v e f : ℕ)
    → table + 4096 ≤ 2 ^ 47
    → ph (slot (suc l) table v) ≡ e
    → frame e ≡ f
    → IsLow ph l f v
    → IsLow ph (suc l) table v
IsLow-step ph l table v e f t s r h = (t, λ p q. rw (s, r) h)

entry_3 : (i : ℕ) → i < 32768 → tables (slot 3 0x1000 (page start i)) ≡ 0x2003
unfolding tables
entry_3 i h = ground arith

entry_2 : (i : ℕ) → i < 32768 → tables (slot 2 0x2000 (page start i)) ≡ 0x3003
unfolding tables
entry_2 i h = ground arith

entry_1 : (i : ℕ) → i < 32768 → tables (slot 1 0x3000 (page start i)) ≡ 0x10003 + 4096 * (i / 512)
unfolding tables
entry_1 i h = ground arith

walk_lem : (i : ℕ) → i < 32768 → hw_walk tables 3 root (page start i) ≡ leaf (entry_at i)
unfolding hw_walk
walk_lem i h =
    hw_walk-step tables 2 0x1000 (page start i) 0x2003 0x2000 (entry_3 i h) refl refl refl
    ∙ hw_walk-step tables 1 0x2000 (page start i) 0x3003 0x3000 (entry_2 i h) refl refl refl
    ∙ hw_walk-step tables 0 0x3000 (page start i) _ (0x10000 + 4096 * (i / 512)) (entry_1 i h)
        (omega arith) (omega arith) (omega arith)
    ∙ ap leaf (omega arith)

low_lem : (i : ℕ) → i < 32768 → IsLow tables 3 root (page start i)
low_lem i h =
    IsLow-step tables 2 0x1000 (page start i) 0x2003 0x2000 (omega arith) (entry_3 i h) refl (
      IsLow-step tables 1 0x2000 (page start i) 0x3003 0x3000 (omega arith) (entry_2 i h) refl (
        IsLow-step tables 0 0x3000 (page start i) _ (0x10000 + 4096 * (i / 512)) (omega arith)
          (entry_1 i h) (omega arith) (omega arith)))

Avoids-step :
    (ph : ℕ → ℕ) (l table v e f a : ℕ)
    → slot (suc l) table v ≢ a
    → ph (slot (suc l) table v) ≡ e
    → frame e ≡ f
    → Avoids ph l f v a
    → Avoids ph (suc l) table v a
Avoids-step ph l table v e f a t s r h = (t, λ p. rw (s, r) h)

apart_lem : (i j : ℕ) → i < 32768 → j < 32768 → Avoids tables 3 root (page start j) (entry_at i)
apart_lem i j h b =
    Avoids-step tables 2 0x1000 (page start j) 0x2003 0x2000 (entry_at i) (omega arith)
      (entry_3 j b) refl
      (Avoids-step tables 1 0x2000 (page start j) 0x3003 0x3000 (entry_at i) (omega arith)
        (entry_2 j b) refl
        (Avoids-step tables 0 0x3000 (page start j) _ (0x10000 + 4096 * (j / 512)) (entry_at i)
          (omega arith) (entry_1 j b) (omega arith) tt))

abbrev leaf_of : Walked → ℕ
leaf_of absent = 0
leaf_of large = 0
leaf_of (leaf a) = a

pub tables-IsProtectable : (n : ℕ) → n ≤ 32768 → IsProtectable tables root start n
tables-IsProtectable n m = record {
  low = λ j h. low_lem j (omega arith);
  small = λ j h e. cc (walk_lem j (omega arith));
  apart = λ i j a h b e.
      let same : entry_at i ≡ a = ap leaf_of (sym (walk_lem i (omega arith)) ∙ e) in
      rw (← same) (apart_lem i j (omega arith) (omega arith));
}

pub tables-IsMapped : (n : ℕ) → n ≤ 32768 → IsMapped tables root start n entry_at
tables-IsMapped n m = record {
  whole = refl;
  fits = omega arith;
  root = refl;
  tables = tables-IsProtectable n m;
  mapped = λ i h. walk_lem i (omega arith);
  distinct = λ i j h b e. omega arith;
}

pub tables-writable : (i : ℕ) → i < 32768 → tables (entry_at i) % 4 ≡ 3
unfolding tables
tables-writable i h = ground arith

-- Memory whose window shows the tables, and nothing below it.
abbrev pub mmu : Mmu
mmu = record { mem = λ q. tables (q - phys_offset); cached_cr3 = root; flushed = [] }

pub phys_of-mmu : tables ≡ phys_of mmu
phys_of-mmu = fun_ext λ p. ap tables (omega arith)

pub mmu-IsProtectable : (n : ℕ) → n ≤ 32768 → IsProtectable (phys_of mmu) root start n
mmu-IsProtectable n h =
    subst (λ f. IsProtectable f root start n) phys_of-mmu (tables-IsProtectable n h)

pub mmu-IsMapped : (n : ℕ) → n ≤ 32768 → IsMapped (phys_of mmu) root start n entry_at
mmu-IsMapped n h = subst (λ f. IsMapped f root start n entry_at) phys_of-mmu (tables-IsMapped n h)

pub mmu-writable : (i : ℕ) → i < 32768 → phys_of mmu (entry_at i) % 4 ≡ 3
mmu-writable i h = subst (λ (f : ℕ → ℕ). f (entry_at i) % 4 ≡ 3) phys_of-mmu (tables-writable i h)

entry-with_flags : (i : ℕ) → i < 32768 → tables (entry_at i) ≡ with_flags (tables (entry_at i)) 3
unfolding tables
entry-with_flags i h =
    let at : tables (entry_at i) ≡ 0x10000003 + 4096 * i = unfold tables in ground arith in
    rw at (
      omega (
        arith,
        with_flags-sum (0x10000003 + 4096 * i) 3 (omega arith),
        pte_addr-div (0x10000003 + 4096 * i),
      ))

-- Pages with one entry are one page.
pub same_entry :
    (i j a : ℕ)
    → i < 32768
    → j < 32768
    → hw_walk (phys_of mmu) 3 root (page start i) ≡ leaf a
    → hw_walk (phys_of mmu) 3 root (page start j) ≡ leaf a
    → i ≡ j
same_entry i j a h b e f =
    let p : entry_at i ≡ a = ap leaf_of (sym ((mmu-IsMapped 32768 (omega arith)).mapped i h) ∙ e) in
    let q : entry_at j ≡ a = ap leaf_of (sym ((mmu-IsMapped 32768 (omega arith)).mapped j b) ∙ f) in
    omega arith

-- Each mapped page of the buffer has the flags 3, and no other bits.
pub mmu-with_flags :
    (i p : ℕ)
    → i < 32768
    → hw_walk (phys_of mmu) 3 root (page start i) ≡ leaf p
    → phys_of mmu p ≡ with_flags (phys_of mmu p) 3
mmu-with_flags i p h e =
    let same : entry_at i ≡ p =
      ap leaf_of (sym ((mmu-IsMapped 32768 (omega arith)).mapped i h) ∙ e) in
    rw (← same) (
      subst (λ (f : ℕ → ℕ). f (entry_at i) ≡ with_flags (f (entry_at i)) 3) phys_of-mmu
        (entry-with_flags i h))

pub mmu-leaf : (i : ℕ) → i < 32768 → hw_walk (phys_of mmu) 3 root (page start i) ≡ leaf (entry_at i)
mmu-leaf = (mmu-IsMapped 32768 (omega arith)).mapped

pub mmu-IsLow : (i : ℕ) → i < 32768 → IsLow (phys_of mmu) 3 root (page start i)
mmu-IsLow = (mmu-IsProtectable 32768 (omega arith)).low
