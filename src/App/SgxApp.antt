-- ===== src/App/SgxApp.antt =====
-- The application of the SGX enclave, server/exception/exception_sgx/App/App.cpp: the text of
-- exception_gu_enclave/App/App.cpp but for `ocall_rdtscp`, so each definition is that of App.antt.
use Prim.Native.String.{String}
use atc22_ae.Base.{ℕ, bit_or, u64, ◌<<<◌, List}
use atc22_ae.Outcome.{Status}
use atc22_ae.Sgx
use atc22_ae.Sgx.{SgxStatus, Event}
use atc22_ae.App
use atc22_ae.App.{Env}

-- App.h.
abbrev pub enclave_filename : String
enclave_filename = App.enclave_filename

abbrev pub global_eid : ℕ
global_eid = App.global_eid

abbrev pub ErrEntry : Type 0
ErrEntry = Sgx.ErrEntry

abbrev pub sgx_errlist : List ErrEntry
sgx_errlist = App.sgx_errlist

abbrev pub print_error_message : SgxStatus → List Event
print_error_message = App.print_error_message

abbrev pub initialize_enclave : Env → Status × ℕ × List Event
initialize_enclave = App.initialize_enclave

abbrev pub ocall_print_string : String → Event
ocall_print_string = App.ocall_print_string

-- The clock, from the two registers of `rdtscp`.
unfoldable pub ocall_rdtscp : (lo hi : ℕ) → ℕ
ocall_rdtscp lo hi = bit_or (u64 (hi <<< 32)) lo

abbrev pub benchmark_exception_ecall : Env → (eid nrepeats : ℕ) → Status × List Event
benchmark_exception_ecall = App.benchmark_exception_ecall

abbrev pub main : Env → (argc : ℕ) (name arg : String) → Status × List Event
main = App.main
