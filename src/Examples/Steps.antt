-- ===== src/Examples/Steps.antt =====
-- The run of the P-Enclave's benchmark at the concrete processor, taken apart into steps, and the
-- same with an interrupt behind its last `ud2`.
use atc22_ae.Base.{◌≡◌, refl, arith, some, ◌∷◌}
use atc22_ae.Sgx.{sgx_success}
use atc22_ae.Signal.{register_handler}
use atc22_ae.PEnclave.{Enclave, loaded, increment, exception_handler}
use atc22_ae.PEnclave.Ecall.{
  Globals, value, start_up, pages, report_ud2, report_counts, ecall_exception,
}
use atc22_ae.PEnclave.Measure.{Counted}
use atc22_ae.PEnclave.Counts.{start_lines, ecall_exception-Counted}
use atc22_ae.PEnclave.Trace.InSteps.{InSteps, ecall_exception-InSteps}
use atc22_ae.PEnclave.Deliver.{deliver_interrupt}
use atc22_ae.PEnclave.Trace.{next, irq, interrupt}
use atc22_ae.PEnclave.Trace.Runs.{Interrupted, came, Tallied}
use atc22_ae.PEnclave.Trace.Whole.{started, InSteps-Interrupted, ecall_exception-Tallied}
use atc22_ae.Examples.Readings.{t, tsc-IsCounter}
use atc22_ae.Examples.Tables.{start, entry_at, mmu, mmu-IsMapped, mmu-writable}
use atc22_ae.Examples.Exceptions.{context, env, blank, env-Obeys}

abbrev enclave : Enclave
enclave = loaded mmu

abbrev pub registered : Globals
registered = (started env blank enclave).0

pub run :
    (s' : Enclave) × (ecall_exception 2 env 1000 blank enclave
      ≡ value (sgx_success, registered, s'))
    × Counted t start 1000 (start_lines env enclave) enclave s'
unfolding start_up
run =
    ecall_exception-Counted 0 env t 1000 blank enclave entry_at tsc-IsCounter
      (mmu-IsMapped pages (omega arith)) (env-Obeys pages (omega arith)) mmu-writable (omega arith)
      (omega arith)

ecall_exception-InSteps_example :
    (sgx_success ≡ sgx_success) × InSteps env 1000 blank enclave registered run.0
ecall_exception-InSteps_example =
    ecall_exception-InSteps 2 env 1000 blank registered enclave run.0 sgx_success run.1

pub registered_lem : registered.g_handler ≡ some exception_handler
unfolding start_up register_handler
registered_lem = refl

abbrev pub quiet : Interrupted env registered 1000 (started env blank enclave).1 run.0
quiet =
    (InSteps-Interrupted env 1000 blank registered enclave run.0
      (ecall_exception-InSteps 2 env 1000 blank registered enclave run.0 sgx_success run.1).1).0

-- The state behind an interrupt of vector 32.
abbrev pub disturbed : Enclave
disturbed = record quiet.skipped {
  intr_count = increment quiet.skipped.intr_count;
  forwarded = (0x20, 0) ∷ quiet.skipped.forwarded;
}

abbrev pub noisy :
    Interrupted env registered 1000
      (started env blank enclave).1
      (report_counts (report_ud2 env 1000 disturbed))
noisy = record {
  way₁ = quiet.way₁;
  filled = quiet.filled;
  filling = quiet.filling;
  all_filled = quiet.all_filled;
  no_opcode₁ = quiet.no_opcode₁;
  protected = quiet.protected;
  protecting = quiet.protecting;
  way₂ = quiet.way₂;
  written = quiet.written;
  writing = quiet.writing;
  all_written = quiet.all_written;
  no_opcode₂ = quiet.no_opcode₂;
  way₃ = interrupt 0x20 ∷ quiet.way₃;
  skipped = disturbed;
  skipping = next quiet.skipping (
      irq 0x20 0 context context (omega arith) (omega arith) (
        deliver_interrupt env registered registered_lem 0 context quiet.skipped 0x20 (omega arith)
          (omega arith)));
  all_skipped = quiet.all_skipped;
  ends = refl;
}

ecall_exception-Tallied_example :
    Tallied t start 1000
      (came noisy)
      (start_lines env enclave)
      enclave
      (report_counts (report_ud2 env 1000 disturbed))
ecall_exception-Tallied_example =
    ecall_exception-Tallied env t 1000 blank enclave (report_counts (report_ud2 env 1000 disturbed))
      entry_at tsc-IsCounter (mmu-IsMapped pages (omega arith)) (env-Obeys pages (omega arith))
      mmu-writable (omega arith) (omega arith) (omega arith) noisy
