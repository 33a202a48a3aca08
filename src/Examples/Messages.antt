-- ===== src/Examples/Messages.antt =====
-- What the programs print of errors and of texts, at concrete codes and bytes.
use atc22_ae.Base.{ℕ, ◌+◌, ◌-◌, ◌≤◌, ◌≡◌, ◌≢◌, refl, arith, some, List, [], ◌∷◌, ◌++◌, length}
use atc22_ae.Sgx.{ErrEntry, NoneHas, entry, sgx_error_enclave_lost, other}
use atc22_ae.Sgx
use atc22_ae.App
use atc22_ae.Bench.{printed, code, str}
use atc22_ae.EdgeApp.{sgx_errlist, print_error_message}
use atc22_ae.EdgeApp.Errors.{print_error_message-entries}
use atc22_ae.EdgeEnclave.{printf}
use atc22_ae.EdgeEnclave.Text.{EndsAt, printf_lem}
use mathlib.Core.List.{Memᴰ}

abbrev lost : ErrEntry
lost =
    entry sgx_error_enclave_lost "Power transition occurred."
      (some "Please refer to the sample \"PowerTransition\" for details.")

unlisted : NoneHas (other 7) sgx_errlist
unlisted = (
  refl,
  (
    refl,
    (
      refl,
      (
        refl,
        (refl, (refl, (refl, (refl, (refl, (refl, (refl, (refl, (refl, (refl, (refl, tt))))))))))),
      ),
    ),
  ),
)

print_error_message-entries_example :
    (App.print_error_message sgx_error_enclave_lost
      ≡ Sgx.printed "Info: %s\n"
          (Sgx.str "Please refer to the sample \"PowerTransition\" for details." ∷ [])
        ∷ Sgx.printed "Error: %s\n" (Sgx.str "Power transition occurred." ∷ [])
        ∷ [])
    × (print_error_message {D = ℕ} sgx_error_enclave_lost
        ≡ printed "Info: %s\n"
            (str "Please refer to the sample \"PowerTransition\" for details." ∷ [])
          ∷ printed "Error: %s\n" (str "Power transition occurred." ∷ [])
          ∷ [])
    × (App.print_error_message (other 7)
        ≡ Sgx.printed "Error: Unexpected error occurred.\n" [] ∷ [])
    × (print_error_message {D = ℕ} (other 7)
        ≡ printed
            "Error code is 0x%X. Please refer to the \"Intel SGX SDK Developer Reference\" for more details.\n"
            (code (other 7) ∷ [])
          ∷ [])
print_error_message-entries_example =
    print_error_message-entries lost (other 7) (Memᴰ.tail (Memᴰ.tail (Memᴰ.tail (Memᴰ.head refl))))
      unlisted

-- Five bytes for a buffer of four.
abbrev hello : List ℕ
hello = 72 ∷ 101 ∷ 108 ∷ 108 ∷ 111 ∷ []

printf_lem_example :
    (s rest : List ℕ) × (printf 4 (λ text w. text ∷ w) hello [] ≡ (length s + 1, s ∷ []))
    × (hello ≡ s ++ rest)
    × ((x : ℕ) → Memᴰ x s → x ≢ 0)
    × EndsAt (4 - 1) s rest
    × (length s + 1 ≤ 4)
printf_lem_example = printf_lem 4 (λ text w. text ∷ w) hello [] (omega arith)
