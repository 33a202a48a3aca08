-- ===== src/EdgeApp/Errors.antt =====
-- What the applications print of an error of the SDK: `print_error_message` of
-- server/edge-calls/App/App.cpp and of the App.cpp of the exception benchmarks.
use Prim.Native.String.{String}
use atc22_ae.Base.{◌≡◌, refl, ◌∙◌, true, List, [], ◌∷◌, ◌++◌, Option, none, some}
use atc22_ae.Sgx.{SgxStatus, ErrEntry, suggestion, print_loop-none, NoneHas}
use atc22_ae.Sgx
use atc22_ae.Sgx.Table.{distinct, print_loop-entry}
use atc22_ae.App
use atc22_ae.Bench.{Event, printed, code, str}
use atc22_ae.EdgeApp.{or_code, sgx_errlist, print_error_message}
use mathlib.Core.List.{Memᴰ}

-- Both tables are the same one, and its codes are distinct.
codes_distinct : distinct sgx_errlist ≡ true
codes_distinct = refl

-- The lines for an entry of the table: the suggestion, if there is one, and the message.
abbrev pub lines_for :
    {E : Type 0} → (printf : String → String → E) → Option String → String → List E
lines_for printf none msg = printf "Error: %s\n" msg ∷ []
lines_for printf (some s) msg = printf "Info: %s\n" s ∷ printf "Error: %s\n" msg ∷ []

abbrev pub app_line : (format text : String) → Sgx.Event
app_line format text = Sgx.printed format (Sgx.str text ∷ [])

abbrev pub edge_line : {D : Type 0} → (format text : String) → Event D
edge_line format text = printed format (str text ∷ [])

app_lines :
    (sug : Option String) (msg : String)
    → suggestion sug ++ Sgx.printed "Error: %s\n" (Sgx.str msg ∷ []) ∷ []
      ≡ lines_for app_line sug msg
app_lines none msg = refl
app_lines (some s) msg = refl

edge_lines :
    {D : Type 0} (ret : SgxStatus) (sug : Option String) (msg : String)
    → or_code {D = D} ret (suggestion sug ++ Sgx.printed "Error: %s\n" (Sgx.str msg ∷ []) ∷ [])
      ≡ lines_for edge_line sug msg
edge_lines ret none msg = refl
edge_lines ret (some s) msg = refl

-- For the code of an entry of the table, both applications print "Info: " with the entry's
-- suggestion, if it has one, then "Error: " with its message, and nothing else; for a code that no entry has, the exception
-- benchmark prints that an unexpected error occurred, and the edge-call benchmark prints the code.
pub print_error_message-entries :
    {D : Type 0} (e : ErrEntry) (ret : SgxStatus)
    → Memᴰ e sgx_errlist
    → NoneHas ret sgx_errlist
    → (App.print_error_message e.err ≡ lines_for app_line e.sug e.msg)
      × (print_error_message {D = D} e.err ≡ lines_for edge_line e.sug e.msg)
      × (App.print_error_message ret ≡ Sgx.printed "Error: Unexpected error occurred.\n" [] ∷ [])
      × (print_error_message {D = D} ret
          ≡ printed
              "Error code is 0x%X. Please refer to the \"Intel SGX SDK Developer Reference\" for more details.\n"
              (code ret ∷ [])
            ∷ [])
unfolding App.print_error_message print_error_message
print_error_message-entries e ret listed unlisted = (
  print_loop-entry _ sgx_errlist e codes_distinct listed ∙ app_lines e.sug e.msg,
  rw (print_loop-entry [] sgx_errlist e codes_distinct listed) (edge_lines e.err e.sug e.msg),
  print_loop-none _ sgx_errlist ret unlisted,
  rw (print_loop-none [] sgx_errlist ret unlisted) refl,
)
