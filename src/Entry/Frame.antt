-- ===== src/Entry/Frame.antt =====
-- What the entry code of server/exception/exception_p_enclave/Enclave/exception.S hands to the
-- handler, and where it resumes.
use atc22_ae.Base.{
  ℕ, zero, suc, ◌+◌, ◌-◌, ◌*◌, ◌%◌, ◌^◌, ◌≤◌, ◌<◌, ◌≡◌, ◌∙◌, inl, inr, arith, Bool, true, false,
  Bool-cases, List, [], ◌∷◌, if◌then◌else◌,
}
use atc22_ae.Signal.{TrapFrame, Handled}
use atc22_ae.Entry.{one_word, enter, stub_code, code, exception_entries}
use atc22_ae.Machine.{common_exception_entry, Regs, Exit, below, push_word}
use atc22_ae.Entry.Context.{exit_of, frame_of, frame_ptr, machine, pushed_words, pushes}
use atc22_ae.Entry.Stages.{one_word_stage, two_word_stage, common_lem}

module _ {S : Type 0} (handler : ℕ → TrapFrame → S → Handled S) (clobber : Regs → Regs) (g : Regs)
    (sp err ip sel fl sp' seg : ℕ) (rest : List ℕ) (s : S) where
  abbrev pub run : ℕ → Bool → Exit S
  run v coded =
      enter handler clobber v (machine g sp (pushed_words coded err ip sel fl sp' seg rest)) s

  run_short :
      (v : ℕ)
      → one_word v ≡ true
      → run v true ≡ exit_of (handler (pushes 15 (below sp)) (frame_of g v err ip sel fl sp' seg) s)
  unfolding enter code stub_code exception_entries push_word
  run_short v short = rw short (
      one_word_stage handler clobber 35 [] s v common_exception_entry _
      ∙ common_lem handler clobber 1 g (below sp) v err ip sel fl sp' seg rest s)

  run_long :
      (v : ℕ)
      → one_word v ≡ false
      → run v false
        ≡ exit_of (handler (pushes 15 (below (below sp))) (frame_of g v 0 ip sel fl sp' seg) s)
  unfolding enter code stub_code exception_entries push_word
  run_long v long = rw long (
      two_word_stage handler clobber 34 [] s 0 v common_exception_entry _
      ∙ common_lem handler clobber 0 g (below (below sp)) v 0 ip sel fl sp' seg rest s)

  -- For every vector, the stub and the common entry hand the handler a frame with the interrupted
  -- registers, the vector, the processor's error code (0 where the vector has none) and the
  -- processor's five words, at the address that the pushes reach. They resume with exactly what
  -- the handler left in the frame, whatever the call did to the registers, and end as the handler
  -- ends where it does not return. The processor is taken to push an error code for exactly the
  -- vectors whose stub pushes one word.
  pub enter-exit_of :
      (v : ℕ)
      → run v (one_word v)
        ≡ exit_of (
            handler
              (frame_ptr v sp)
              (frame_of g v (if one_word v then err else 0) ip sel fl sp' seg)
              s)
  unfolding frame_ptr pushes
  enter-exit_of v = elim (Bool-cases (one_word v)) [
    | inl short ↦ rw short (run_short v short)
    | inr long ↦ rw long (run_long v long)
  ]

-- Where the processor pushes an error code for a vector whose stub pushes two words, the handler sees
-- 0 as the error code and the frame shifted by one word: the error code as `rip`, `rip` as `cs`,
-- and so on, and the run resumes from that frame.
pub enter-shifted :
    {S : Type 0} (handler : ℕ → TrapFrame → S → Handled S) (clobber : Regs → Regs) (g : Regs)
    (sp err ip sel fl sp' seg : ℕ) (rest : List ℕ) (s : S) (v : ℕ)
    → one_word v ≡ false
    → enter handler clobber v (machine g sp (pushed_words true err ip sel fl sp' seg rest)) s
      ≡ exit_of (handler (frame_ptr v sp) (frame_of g v 0 err ip sel fl sp') s)
unfolding frame_ptr pushes
enter-shifted handler clobber g sp err ip sel fl sp' seg rest s v long =
    rw long (run_long handler clobber g sp 0 err ip sel fl sp' (seg ∷ rest) s v long)

pushes-sub : (n sp : ℕ) → 8 * n ≤ sp → sp < 2 ^ 64 → pushes n sp ≡ sp - 8 * n
unfolding pushes
pushes-sub zero sp h b = omega arith
pushes-sub (suc n) sp h b = omega (arith, pushes-sub n sp (omega arith) b)

-- The address that the pushes reach, from the interrupted `rsp`, which the processor aligns down to
-- 16 bytes before it pushes its words.
pub frame_ptr-sub :
    (v sp : ℕ)
    → 192 ≤ sp
    → sp < 2 ^ 64
    → let top : ℕ = sp - sp % 16 in
      let ptr : ℕ = frame_ptr v (top - (if one_word v then 48 else 40)) in
      (ptr + 176 ≡ top) × (ptr % 16 ≡ 0) × (ptr ≤ sp - 128) × (sp < ptr + 176 + 16)
unfolding frame_ptr
frame_ptr-sub v sp h b = elim (Bool-cases (one_word v)) [
  | inl short ↦
      rw short (omega (arith, pushes-sub 16 (sp - sp % 16 - 48) (omega arith) (omega arith)))
  | inr long ↦
      rw long (omega (arith, pushes-sub 17 (sp - sp % 16 - 40) (omega arith) (omega arith)))
]
