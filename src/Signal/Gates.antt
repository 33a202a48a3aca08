-- ===== src/Signal/Gates.antt =====
-- The interrupt descriptor table that `init_exception` of
-- server/exception/exception_p_enclave/Enclave/signal.h builds, as the processor reads it.
use atc22_ae.Base.{
  ℕ, zero, suc, ◌+◌, ◌-◌, ◌*◌, ◌^◌, ◌≤◌, ◌<◌, ◌≡◌, ◌↔◌, refl, ◌∙◌, ap, inl, inr, arith, true, false,
  Bool-cases, some, if◌then◌else◌, ◌==◌, ltb, leb, u32, ◌&&◌, and_low_bits, eq_of_==,
}
use atc22_ae.Signal.{
  GateDesc, Pd, Signals, cs_sel, set_gate, lidt, sizeof_idt, set_idt, fill_idt, init_exception,
}

-- The offset that a gate holds.
abbrev pub gate_offset : GateDesc → ℕ
gate_offset g = g.off_15_0 + g.off_31_16 * 2 ^ 16 + g.off_63_32 * 2 ^ 32

-- Each field has a value that its declared width holds.
pub record Fits (g : GateDesc) : Type 0 where
  pub off_15_0 : g.off_15_0 < 2 ^ 16
  pub cs : g.cs < 2 ^ 16
  pub ist : g.ist < 2 ^ 3
  pub type : g.type < 2 ^ 4
  pub dpl : g.dpl < 2 ^ 2
  pub p : g.p < 2
  pub off_31_16 : g.off_31_16 < 2 ^ 16
  pub off_63_32 : g.off_63_32 < 2 ^ 32

-- A present 64-bit interrupt gate for ring 0 to `off`, on the current stack.
pub record IsGateTo (off : ℕ) (g : GateDesc) : Type 0 where
  pub fits : Fits g
  pub offset : gate_offset g ≡ off
  pub selector : g.cs ≡ 8
  pub stack : g.ist ≡ 0
  pub kind : (g.type ≡ 14) × (g.s ≡ 0) × (g.dpl ≡ 0) × (g.p ≡ 1)

pub set_gate-IsGateTo : (off : ℕ) → off < 2 ^ 64 → IsGateTo off (set_gate cs_sel off)
unfolding set_gate
set_gate-IsGateTo off h = omega (arith, and_low_bits 16 (u32 off))

-- The limit and the base that the processor takes from the ten bytes.
abbrev pub idtr_limit : Pd → ℕ
idtr_limit pd = pd.w0

abbrev pub idtr_base : Pd → ℕ
idtr_base pd = pd.w1 + pd.w2 * 2 ^ 16 + pd.w3 * 2 ^ 32 + pd.w4 * 2 ^ 48

lidt_lem :
    (p size : ℕ)
    → p < 2 ^ 64
    → 0 < size
    → size ≤ 2 ^ 16
    → (idtr_base (lidt p size) ≡ p) × (idtr_limit (lidt p size) ≡ size - 1)
unfolding lidt
lidt_lem p size h pos fits = omega arith

fill_idt_lem :
    (left i : ℕ) (entries : ℕ → ℕ) (idt : ℕ → GateDesc) (j : ℕ)
    → fill_idt left i entries idt j
      ≡ (if leb i j && ltb j (i + left) then set_gate cs_sel (entries j) else idt j)
unfolding fill_idt set_idt
fill_idt_lem zero i entries idt j = ground arith
fill_idt_lem (suc left) i entries idt j =
    fill_idt_lem left (suc i) entries _ j ∙ elim (Bool-cases (i == j)) [
      | inl here ↦
          let e : i ≡ j = eq_of_== i j here in
          let past : (leb (suc i) j && ltb j (suc i + left)) ≡ false = ground arith in
          let inside : (leb i j && ltb j (i + suc left)) ≡ true = ground arith in
          rw (here, past, inside) (ap (λ (t : ℕ). set_gate cs_sel (entries t)) e)
      | inr other ↦
          let same : (leb (suc i) j && ltb j (suc i + left)) ≡ (leb i j && ltb j (i + suc left)) =
            ground arith in
          rw (other, same) refl
    ]

-- Let the address of the table and the stub of a vector below 256 be 64-bit addresses. After
-- `init_exception` the processor finds the table at `idt`, its limit admits exactly the vectors
-- below 256, and the gate of that vector is a present ring-0 interrupt gate, on the current stack,
-- whose offset is its entry stub.
pub init_exception-IsGateTo {ℓ} :
    {H : Type ℓ} (g : Signals H) (idt_addr : ℕ) (entries : ℕ → ℕ) (v : ℕ)
    → idt_addr < 2 ^ 64
    → v < 256
    → entries v < 2 ^ 64
    → IsGateTo (entries v) ((init_exception idt_addr entries g).idt v)
      × ((pd : Pd) × ((init_exception idt_addr entries g).idtr ≡ some pd)
          × (idtr_base pd ≡ idt_addr)
          × ((w : ℕ) → (16 * w + 15 ≤ idtr_limit pd) ↔ (w < 256)))
unfolding init_exception
init_exception-IsGateTo g idt_addr entries v ha h he =
    let table = lidt_lem idt_addr sizeof_idt ha (omega arith) (omega arith) in
    let inside : (leb 0 v && ltb v (0 + 256)) ≡ true = ground arith in
    (
      rw (fill_idt_lem 256 0 entries g.idt v, inside) (set_gate-IsGateTo (entries v) he),
      (lidt idt_addr sizeof_idt, refl, table.0, λ w. omega (arith, table.1)),
    )
