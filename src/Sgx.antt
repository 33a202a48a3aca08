-- ===== src/Sgx.antt =====
-- The names of the SGX SDK that the sources use, and the error table that every application has,
-- `sgx_errlist` with the loop of `print_error_message` (server/edge-calls/App/App.cpp and the
-- App.cpp of the three exception benchmarks). The status codes are those that the table lists; any
-- other code is `other`.
pub mod Table
use Prim.Native.String.{String}
use atc22_ae.Base.{
  ℕ, ◌+◌, ◌≡◌, refl, Bool, true, false, Option, none, some, List, [], ◌∷◌, ◌++◌, ◌==◌,
  if◌then◌else◌,
}

pub data SgxStatus : Type 0 where
  sgx_success sgx_error_unexpected sgx_error_invalid_parameter sgx_error_out_of_memory : SgxStatus
  sgx_error_enclave_lost sgx_error_invalid_enclave sgx_error_invalid_enclave_id : SgxStatus
  sgx_error_invalid_signature sgx_error_out_of_epc sgx_error_no_device : SgxStatus
  sgx_error_memory_map_conflict sgx_error_invalid_metadata sgx_error_device_busy : SgxStatus
  sgx_error_invalid_version sgx_error_invalid_attribute : SgxStatus
  sgx_error_enclave_file_access : SgxStatus
  other : ℕ → SgxStatus

-- A number for each code, by which `==` compares them. Which numbers the SDK uses does not matter,
-- only that different names have different ones.
abbrev pub number : SgxStatus → ℕ
number sgx_success = 0
number sgx_error_unexpected = 1
number sgx_error_invalid_parameter = 2
number sgx_error_out_of_memory = 3
number sgx_error_enclave_lost = 4
number sgx_error_invalid_enclave = 5
number sgx_error_invalid_enclave_id = 6
number sgx_error_invalid_signature = 7
number sgx_error_out_of_epc = 8
number sgx_error_no_device = 9
number sgx_error_memory_map_conflict = 10
number sgx_error_invalid_metadata = 11
number sgx_error_device_busy = 12
number sgx_error_invalid_version = 13
number sgx_error_invalid_attribute = 14
number sgx_error_enclave_file_access = 15
number (other n) = n + 16

abbrev pub same_status : SgxStatus → SgxStatus → Bool
same_status a b = number a == number b

-- What the untrusted applications do, in order: calls of `printf` with their arguments, of the SDK,
-- and of the file system.
pub data Arg : Type 0 where
  num : ℕ → Arg
  str : String → Arg

pub data Event : Type 0 where
  printed : String → List Arg → Event
  created : (file : String) → Event
  called : (eid nrepeats : ℕ) → Event
  destroyed : ℕ → Event

-- An entry of `sgx_errlist`.
pub record ErrEntry : Type 0 where
  pub err : SgxStatus
  pub msg : String
  pub sug : Option String

abbrev pub entry : SgxStatus → String → Option String → ErrEntry
entry e m s = record { err = e; msg = m; sug = s }

-- What the loop of `print_error_message` prints for the entry that it stops at.
abbrev pub suggestion : Option String → List Event
suggestion none = []
suggestion (some s) = printed "Info: %s\n" (str s ∷ []) ∷ []

abbrev pub error_lines : ErrEntry → List Event
error_lines e = suggestion e.sug ++ printed "Error: %s\n" (str e.msg ∷ []) ∷ []

-- The loop, with what is printed where no entry has the code.
unfoldable pub print_loop : (not_found : List Event) → List ErrEntry → SgxStatus → List Event
print_loop not_found [] ret = not_found
print_loop not_found (e ∷ rest) ret =
    let go = print_loop not_found rest ret in if same_status ret e.err then error_lines e else go

abbrev pub NoneHas : SgxStatus → List ErrEntry → Type 0
NoneHas ret [] = Unit {0}
NoneHas ret (e ∷ rest) = (same_status ret e.err ≡ false) × NoneHas ret rest

-- Where no entry before has the code, the loop stops at the first entry that has it, and prints its
-- suggestion, if there is one, and its message, and nothing of the entries behind it.
pub print_loop-first :
    (d : List Event) (before : List ErrEntry) (e : ErrEntry) (after : List ErrEntry)
    (ret : SgxStatus)
    → NoneHas ret before
    → same_status ret e.err ≡ true
    → print_loop d (before ++ e ∷ after) ret ≡ error_lines e
unfolding print_loop
print_loop-first d [] e after ret n h = rw h refl
print_loop-first d (x ∷ before) e after ret n h =
    rw n.0 (print_loop-first d before e after ret n.1 h)

-- Where no entry has the code, the loop prints the other line alone.
pub print_loop-none :
    (d : List Event) (table : List ErrEntry) (ret : SgxStatus)
    → NoneHas ret table
    → print_loop d table ret ≡ d
unfolding print_loop
print_loop-none d [] ret n = refl
print_loop-none d (x ∷ table) ret n = rw n.0 (print_loop-none d table ret n.1)
