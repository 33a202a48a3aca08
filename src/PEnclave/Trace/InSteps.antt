-- ===== src/PEnclave/Trace/InSteps.antt =====
-- A run of `ecall_exception` (server/exception/exception_p_enclave/Enclave/Enclave.cpp) taken apart
-- into the steps of `PEnclave/Trace.antt`.
use atc22_ae.Base.{ℕ, ◌≡◌, refl, arith, []}
use atc22_ae.Machine.{Resumed}
use atc22_ae.Sgx.{SgxStatus, sgx_success}
use atc22_ae.PEnclave.{Enclave}
use atc22_ae.PEnclave.Ecall.{
  Env, Globals, value, store_loop, ud2_loop, pages, start_up, read_root, protect_buf, report_writes,
  report_ud2, report_counts, measure, ecall_exception,
}
use atc22_ae.PEnclave.Trace.{here}
use atc22_ae.PEnclave.Trace.Refines.{
  value_inv, value_inj, Stores, Opcodes, store_loop-Stores, ud2_loop-Opcodes,
}
use mathlib.Core.Path.{subst}

-- The run of `ecall_exception` that ends in `s'`, as steps: the first store loop, `mprotect`, the
-- second store loop and the `ud2` loop, with what is printed between them.
pub record InSteps (env : Env) (nrepeats : ℕ) (glob : Globals) (s : Enclave) (glob' : Globals)
    (s' : Enclave) : Type 0 where
  pub registered : glob' ≡ (start_up env glob s).0
  pub filled : Enclave
  pub filling :
      Stores env glob' env.test_buf pages (read_root env (start_up env glob s).1) [] 0 pages filled
  pub protected : Enclave
  pub protecting : protect_buf env filled ≡ value protected
  pub written : Enclave
  pub writing : Stores env glob' env.test_buf pages protected [] 0 pages written
  pub skipped : Enclave
  pub skipping :
      Opcodes env glob' env.test_buf pages (report_writes env written) [] nrepeats skipped
  pub ends : s' ≡ report_counts (report_ud2 env nrepeats skipped)

buffer-Stores :
    (env : Env) (glob : Globals) (tries left : ℕ) (c : Resumed) (start : ℕ) (s s' : Enclave)
    → store_loop env glob tries left c start s ≡ value s'
    → Stores env glob start left s [] 0 left s'
buffer-Stores env glob tries left c start s s' e =
    store_loop-Stores env glob start left s tries left c 0 start [] s s' here (omega arith)
      (omega arith) e

-- Every run of `ecall_exception` that ends with a result ends with SGX_SUCCESS and is made of steps
-- of the relation `Reach`, each exception sent through the entry code, whatever the processor, the
-- linker's addresses and the tries of a store. Each of the two store loops writes every page of the
-- buffer, with no step but stores and faults; `mprotect` succeeds between them; the last loop is
-- `nrepeats` steps of `ud2` and no other; and the reports are printed between the loops and at the
-- end.
pub ecall_exception-InSteps :
    (tries : ℕ) (env : Env) (nrepeats : ℕ) (glob glob' : Globals) (s s' : Enclave) (r : SgxStatus)
    → ecall_exception tries env nrepeats glob s ≡ value (r, glob', s')
    → (r ≡ sgx_success) × InSteps env nrepeats glob s glob' s'
unfolding ecall_exception measure
ecall_exception-InSteps tries env nrepeats glob glob' s s' r e =
    let glob₁ : Globals = (start_up env glob s).0 in
    let c : Resumed = env.store_context in
    let s₁ : Enclave = read_root env (start_up env glob s).1 in
    let (m, measured, ends) = value_inv (measure tries env glob₁ nrepeats s₁) _ _ e in
    let (filled, first, rest) =
      value_inv (store_loop env glob₁ tries pages c env.test_buf s₁) _ m measured in
    let (protected, protecting, rest₂) = value_inv (protect_buf env filled) _ m rest in
    let (written, second, rest₃) =
      value_inv (store_loop env glob₁ tries pages c env.test_buf protected) _ m rest₂ in
    let (skipped, third, last) =
      value_inv (ud2_loop env glob₁ nrepeats env.ud2_context (report_writes env written)) _ m
        rest₃ in
    let same : glob₁ ≡ glob' = cc (value_inj _ _ ends) in
    let inside : InSteps env nrepeats glob s glob₁ s' = record {
      registered = refl;
      filled = filled;
      filling = buffer-Stores env glob₁ tries pages c env.test_buf s₁ filled first;
      protected = protected;
      protecting = protecting;
      written = written;
      writing = buffer-Stores env glob₁ tries pages c env.test_buf protected written second;
      skipped = skipped;
      skipping =
          ud2_loop-Opcodes env glob₁ env.test_buf pages (report_writes env written) nrepeats
            env.ud2_context [] _ skipped here third;
      ends = cc;
    } in
    (cc (value_inj _ _ ends), subst (λ g. InSteps env nrepeats glob s g s') same inside)
