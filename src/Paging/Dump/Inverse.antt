-- ===== src/Paging/Dump/Inverse.antt =====
-- The way back from a pointer that `get_entry` of
-- server/exception/exception_p_enclave/Enclave/paging.h returns to the tables that it went through.
use atc22_ae.Base.{
  ℕ, ◌≡◌, ◌≢◌, inl, inr, refl, sym, ap, ◌∙◌, arith, true, false, Bool-cases, if◌then◌else◌, ◌==◌,
  bit_and,
}
use atc22_ae.Outcome.{Outcome, done, aborted, ◌>>=◌}
use atc22_ae.Paging.{
  Mmu, null, pte_p, pte_ps, pte_addr, phys_to_virt, entry_ptr, next_table, get_entry, p4_idx,
  p3_idx, p2_idx, p1_idx,
}
use atc22_ae.Paging.Dump.Lines.{entry4, entry3, entry2, IsTable}

done_inj : (p q : ℕ) → done p ≡ done q → p ≡ q
done_inj p q e = cc

aborted-done : (p : ℕ) → aborted ≡ done p → ⊥
aborted-done p e = cc

next_table-null : (e : ℕ) → (bit_and e pte_p == 0) ≡ true → next_table e ≡ done null
unfolding next_table
next_table-null e gone = rw gone refl

next_table-done :
    (e : ℕ)
    → (bit_and e pte_p == 0) ≡ false
    → (bit_and e pte_ps == 0) ≡ true
    → next_table e ≡ done (phys_to_virt (pte_addr e))
unfolding next_table
next_table-done e there small = rw (there, small) refl

next_table-aborted :
    (e : ℕ)
    → (bit_and e pte_p == 0) ≡ false
    → (bit_and e pte_ps == 0) ≡ false
    → next_table e ≡ aborted
unfolding next_table
next_table-aborted e there big = rw (there, big) refl

next_table-present : (e : ℕ) → (bit_and e pte_p == 0) ≡ false → e ≢ 0
next_table-present e there zero_entry = ground (arith, there, zero_entry)

past_null :
    (q p : ℕ) (k : ℕ → Outcome ℕ)
    → (if q == null then done null else k q) ≡ done p
    → p ≢ null
    → k q ≡ done p
past_null q p k ran ne = elim (Bool-cases (q == null)) [
  | inl none ↦
      let stop : done null ≡ done p = sym (rw none refl) ∙ ran in
      absurd (ne (sym (done_inj null p stop)))
  | inr some ↦ sym (rw some refl) ∙ ran
]

-- A level of `get_entry` that goes on to an entry went through a table.
level-IsTable :
    (s : Mmu) (e p : ℕ) (k : ℕ → Outcome ℕ)
    → (next_table e >>= λ q. if q == null then done null else k q) ≡ done p
    → p ≢ null
    → (e ≢ 0) × IsTable s e × (k (phys_to_virt (pte_addr e)) ≡ done p)
level-IsTable s e p k ran ne =
    let go : Outcome ℕ → Outcome ℕ = λ o. o >>= λ q. if q == null then done null else k q in
    elim (Bool-cases (bit_and e pte_p == 0)) [
      | inl gone ↦
          let stop : done null ≡ done p = ap go (sym (next_table-null e gone)) ∙ ran in
          absurd (ne (sym (done_inj null p stop)))
      | inr there ↦ elim (Bool-cases (bit_and e pte_ps == 0)) [
        | inl small ↦
            let next : go (done (phys_to_virt (pte_addr e))) ≡ done p =
              ap go (sym (next_table-done e there small)) ∙ ran in
            (next_table-present e there, small, past_null (phys_to_virt (pte_addr e)) p k next ne)
        | inr big ↦
            let stop : aborted ≡ done p = ap go (sym (next_table-aborted e there big)) ∙ ran in
            absurd (aborted-done p stop)
      ]
    ]

-- The tables that `get_entry` goes through.
pub get_entry-IsTable :
    (s : Mmu) (v p : ℕ)
    → get_entry s v ≡ done p
    → p ≢ null
    → let e4 = entry4 s (p4_idx v) in
      let e3 = entry3 s (p4_idx v) (p3_idx v) in
      let e2 = entry2 s (p4_idx v) (p3_idx v) (p2_idx v) in
      (e4 ≢ 0)
      × IsTable s e4
      × (e3 ≢ 0)
      × IsTable s e3
      × (e2 ≢ 0)
      × IsTable s e2
      × (entry_ptr (phys_to_virt (pte_addr e2)) (p1_idx v) ≡ p)
unfolding get_entry
get_entry-IsTable s v p ran ne =
    let (n4, t4, ran3) = level-IsTable s (entry4 s (p4_idx v)) p _ ran ne in
    let (n3, t3, ran2) = level-IsTable s (entry3 s (p4_idx v) (p3_idx v)) p _ ran3 ne in
    let (n2, t2, ran1) = level-IsTable s (entry2 s (p4_idx v) (p3_idx v) (p2_idx v)) p _ ran2 ne in
    (n4, t4, n3, t3, n2, t2, done_inj _ p ran1)
