-- ===== src/Sgx/Table.antt =====
-- `print_error_message` of the applications (server/edge-calls/App/App.cpp and the App.cpp of the
-- exception benchmarks) by the entries of a table in which no code stands twice.
use atc22_ae.Base.{◌≡◌, refl, sym, Bool, true, false, not, ◌&&◌, List, [], ◌∷◌, ==_self, inl, inr}
use atc22_ae.Sgx.{same_status, number, Event, ErrEntry, error_lines, print_loop}
use mathlib.Core.List.{Memᴰ}
use mathlib.Core.List.Memᴰ
use mathlib.Core.Path.{subst}

-- No entry of the table has the code of `x`, and no two entries have the same code.
abbrev pub apart : ErrEntry → List ErrEntry → Bool
apart x [] = true
apart x (y ∷ table) = not (same_status y.err x.err) && apart x table

abbrev pub distinct : List ErrEntry → Bool
distinct [] = true
distinct (x ∷ table) = apart x table && distinct table

both : (a b : Bool) → (a && b) ≡ true → (a ≡ true) × (b ≡ true)
both true b h = (refl, h)
both false b h = absurd cc

not_inv : (b : Bool) → not b ≡ true → b ≡ false
not_inv true h = absurd cc
not_inv false h = refl

apart_of_mem :
    (x e : ErrEntry) (table : List ErrEntry)
    → apart x table ≡ true
    → Memᴰ e table
    → same_status e.err x.err ≡ false
apart_of_mem x e [] h m = absurd (Memᴰ.not-nil m)
apart_of_mem x e (y ∷ table) h m = elim (Memᴰ.cases_cons m) [
  | inl same ↦
      subst (λ z. same_status z.err x.err ≡ false) (sym same)
        (not_inv _ (both _ (apart x table) h).0)
  | inr later ↦
      apart_of_mem x e table (both (not (same_status y.err x.err)) (apart x table) h).1 later
]

-- With distinct codes the loop prints for the code of an entry the lines of that entry.
pub print_loop-entry :
    (d : List Event) (table : List ErrEntry) (e : ErrEntry)
    → distinct table ≡ true
    → Memᴰ e table
    → print_loop d table e.err ≡ error_lines e
unfolding print_loop
print_loop-entry d [] e h m = absurd (Memᴰ.not-nil m)
print_loop-entry d (x ∷ table) e h m = elim (Memᴰ.cases_cons m) [
  | inl same ↦
      subst (λ z. print_loop d (x ∷ table) z.err ≡ error_lines z) (sym same)
        (rw (==_self (number x.err)) refl)
  | inr later ↦
      let (others, rest) = both (apart x table) (distinct table) h in
      rw (apart_of_mem x e table others later) (print_loop-entry d table e rest later)
]
