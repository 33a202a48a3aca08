-- ===== src/PEnclave/Trace/Refines.antt =====
-- The loops of `ecall_exception` (server/exception/exception_p_enclave/Enclave/Enclave.cpp) as
-- steps of `PEnclave/Trace.antt`: what they do is one of the orders of steps.
use atc22_ae.Base.{
  ℕ, zero, suc, ◌+◌, ◌≤◌, ◌<◌, ◌≡◌, ◌⊎◌, refl, ap, ◌∙◌, inl, inr, arith, Bool-cases, List, ◌∷◌,
  ◌==◌,
}
use atc22_ae.Paging.{pgsize}
use atc22_ae.Paging.Protect.Range.{page}
use atc22_ae.Machine.{Resumed, Exit, resumes, aborts, faults, spent}
use atc22_ae.PEnclave.{Enclave}
use atc22_ae.PEnclave.Ecall.{
  Env, Globals, Run, value, died, astray, stuck, ◌>>=◌, resume_at, store_byte, store_loop, ud2,
  ud2_loop,
}
use atc22_ae.PEnclave.Trace.{
  Happening, opcode, interrupt, write, fault, Step, pass, trap, Reach, here, next, opcodes,
  interrupts, Wrote,
}
use atc22_ae.PEnclave.Trace
use mathlib.Core.Path.{subst}

-- A run with a value has one in its first part.
pub value_inv :
    {A B : Type 0} (r : Run A) (f : A → Run B) (b : B)
    → (r >>= f) ≡ value b
    → (a : A) × (r ≡ value a) × (f a ≡ value b)
value_inv (value a) f b e = (a, refl, e)
value_inv (died s) f b e = absurd cc
value_inv astray f b e = absurd cc
value_inv stuck f b e = absurd cc

le_cases : (i j : ℕ) → i ≤ j → (j ≡ i) ⊎ (suc i ≤ j)
le_cases i j h = ground arith

pub value_inj : {A : Type 0} (a b : A) → value a ≡ value b → a ≡ b
value_inj a b e = cc

module _ (env : Env) (glob : Globals) where
  resume_at_inv :
      (rip : ℕ) (e : Exit Enclave) (s : Enclave)
      → resume_at env glob rip e ≡ value s
      → (c : Resumed) × (e ≡ resumes c s)
  unfolding resume_at
  resume_at_inv rip (resumes c t) s e = (
    c,
    elim (Bool-cases (c.rip == rip)) [
      | inl h ↦ ground (arith, e, h)
      | inr h ↦ absurd (ground (arith, e, h))
    ],
  )
  resume_at_inv rip (aborts t) s e = absurd cc
  resume_at_inv rip faults s e = absurd cc
  resume_at_inv rip spent s e = absurd cc

  module _ (start n : ℕ) (s₀ : Enclave) where
    -- A way from `s₀` to `s` that goes on from `hs₀` with stores and their faults alone: each page
    -- from `i` up to `i + k` has been written on it, and no further `ud2` or interrupt has come.
    pub record Stores (hs₀ : List Happening) (i k : ℕ) (s : Enclave) : Type 0 where
      pub way : List Happening
      pub reach : Reach env glob start n s₀ way s
      pub same_opcodes : opcodes way ≡ opcodes hs₀
      pub same_interrupts : interrupts way ≡ interrupts hs₀
      pub earlier : (j : ℕ) → Wrote hs₀ j → Wrote way j
      pub wrote : (j : ℕ) → i ≤ j → j < i + k → Wrote way j

    store_byte-Stores :
        (tries : ℕ) (c : Resumed) (i : ℕ) (hs₀ : List Happening) (s s' : Enclave)
        → Reach env glob start n s₀ hs₀ s
        → i < n
        → store_byte env glob tries c (page start i) s ≡ value s'
        → Stores hs₀ i 1 s'
    unfolding store_byte
    store_byte-Stores zero c i hs₀ s s' reach b e = absurd cc
    store_byte-Stores (suc tries) c i hs₀ s s' reach b e =
        elim (Bool-cases (env.store_faults env.cr3 s.mmu (page start i))) [
          | inl faulting ↦
              let again = rw faulting at e in
              let (s₁, resumed, rest) = value_inv _ _ s' again in
              let (c', ran) = resume_at_inv c.rip _ s₁ resumed in
              let later =
                store_byte-Stores tries c i (fault i ∷ hs₀) s₁ s'
                  (next reach (trap i c c' b faulting ran)) b rest in
              record {
                way = later.way;
                reach = later.reach;
                same_opcodes = later.same_opcodes;
                same_interrupts = later.same_interrupts;
                earlier = later.earlier;
                wrote = later.wrote;
              }
          | inr passing ↦
              let ends = rw passing at e in
              record {
                way = write i ∷ hs₀;
                reach =
                    subst (Reach env glob start n s₀ (write i ∷ hs₀)) (value_inj _ s' ends)
                      (next reach (pass i b passing));
                same_opcodes = refl;
                same_interrupts = refl;
                earlier = λ j w. inr w;
                wrote = λ j p q. inl (omega arith);
              }
        ]

    pub store_loop-Stores :
        (tries left : ℕ) (c : Resumed) (i v : ℕ) (hs₀ : List Happening) (s s' : Enclave)
        → Reach env glob start n s₀ hs₀ s
        → i + left ≤ n
        → page start i ≡ v
        → store_loop env glob tries left c v s ≡ value s'
        → Stores hs₀ i left s'
    unfolding store_loop
    store_loop-Stores tries zero c i v hs₀ s s' reach b at e = record {
      way = hs₀;
      reach = subst (Reach env glob start n s₀ hs₀) (value_inj s s' e) reach;
      same_opcodes = refl;
      same_interrupts = refl;
      earlier = λ j w. w;
      wrote = λ j p q. absurd (omega arith);
    }
    store_loop-Stores tries (suc left) c i v hs₀ s s' reach b at e =
        let (s₁, stored_one, rest) = value_inv _ _ s' e in
        let one =
          store_byte-Stores tries c i hs₀ s s₁ reach (omega arith)
            (ap (λ x. store_byte env glob tries c x s) at ∙ stored_one) in
        let more =
          store_loop-Stores tries left c (suc i) (v + pgsize) one.way s₁ s' one.reach (omega arith)
            (omega arith) rest in
        record {
          way = more.way;
          reach = more.reach;
          same_opcodes = more.same_opcodes ∙ one.same_opcodes;
          same_interrupts = more.same_interrupts ∙ one.same_interrupts;
          earlier = λ j w. more.earlier j (one.earlier j w);
          wrote = λ j p q. elim (le_cases i j p) [
            | inl here_ ↦ more.earlier j (one.wrote j p (omega arith))
            | inr there ↦ more.wrote j there (omega arith)
          ];
        }

    -- A way from `s₀` to `s` that goes on from `hs₀` with `k` further `ud2`, and with no fault or
    -- interrupt.
    pub record Opcodes (hs₀ : List Happening) (k : ℕ) (s : Enclave) : Type 0 where
      pub way : List Happening
      pub reach : Reach env glob start n s₀ way s
      pub more_opcodes : opcodes way ≡ k + opcodes hs₀
      pub same_faults : Trace.faults way ≡ Trace.faults hs₀
      pub same_interrupts : interrupts way ≡ interrupts hs₀

    pub ud2_loop-Opcodes :
        (left : ℕ) (c : Resumed) (hs₀ : List Happening) (s s' : Enclave)
        → Reach env glob start n s₀ hs₀ s
        → ud2_loop env glob left c s ≡ value s'
        → Opcodes hs₀ left s'
    unfolding ud2_loop ud2
    ud2_loop-Opcodes zero c hs₀ s s' reach e = record {
      way = hs₀;
      reach = subst (Reach env glob start n s₀ hs₀) (value_inj s s' e) reach;
      more_opcodes = omega arith;
      same_faults = refl;
      same_interrupts = refl;
    }
    ud2_loop-Opcodes (suc left) c hs₀ s s' reach e =
        let (s₁, skipped, rest) = value_inv _ _ s' e in
        let (c', ran) = resume_at_inv _ _ s₁ skipped in
        let more =
          ud2_loop-Opcodes left c (opcode ∷ hs₀) s₁ s' (next reach (Trace.ud2 c c' ran)) rest in
        record {
          way = more.way;
          reach = more.reach;
          more_opcodes = omega (arith, more.more_opcodes);
          same_faults = more.same_faults;
          same_interrupts = more.same_interrupts;
        }
