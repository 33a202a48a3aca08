-- ===== src/Host.antt =====
-- The test that says whether the system runs under the hypervisor, host/test_hypercall.c.
use Prim.Native.String.{String}
use atc22_ae.Base.{ℕ, ◌≡◌, ◌↔◌, refl, ◌∙◌, ap, arith, ◌||◌, List, [], ◌∷◌, ◌==◌, if◌then◌else◌, u32}

-- What `vmmcall` comes to: the value that it leaves in `rax`, or a signal.
pub data Reply : Type 0 where
  returned : ℕ → Reply
  raised : (signum : ℕ) → Reply

-- How the program ends, behind the lines that it has printed: by `exit`, or by a signal that it
-- does not handle.
pub data End : Type 0 where
  exited : (status : ℕ) → End
  killed : (signum : ℕ) → End

abbrev pub Output : Type 0
Output = List (String × List ℕ) × End

-- The Linux numbers of the two signals that `main` handles.
abbrev pub sigill : ℕ
sigill = 4

abbrev pub sigsegv : ℕ
sigsegv = 11

unfoldable pub in_guest : Output
in_guest = (("Execute VMMCALL OK.\n", []) ∷ ("You are in the Guest mode.\n", []) ∷ [], exited 0)

unfoldable pub in_host : Output
in_host = (("Execute VMMCALL failed.\n", []) ∷ ("You are in the Host mode.\n", []) ∷ [], exited 1)

unfoldable pub sig_handler : (signum : ℕ) → Output
sig_handler signum = (("Caught signal %d\n", signum ∷ []) ∷ in_host.0, in_host.1)

-- `hypercall` returns a `long`, which `main` keeps in an `int`.
unfoldable pub test : Reply → Output
test (returned ret) = if u32 ret == 2333 then in_guest else in_host
test (raised signum) =
    if signum == sigsegv || signum == sigill then sig_handler signum else ([], killed signum)

-- `vmmcall` answers the number that it is given.
unfoldable pub main : (vmmcall : (num : ℕ) → Reply) → Output
main vmmcall = test (vmmcall 2333)

test-status :
    (r : Reply) → ((test r).1 ≡ exited 0) → (ret : ℕ) × (r ≡ returned ret) × (u32 ret ≡ 2333)
unfolding test in_guest in_host sig_handler
test-status (returned ret) h = (ret, refl, ground arith)
test-status (raised signum) h = absurd (ground arith)

test-guest : (ret : ℕ) → u32 ret ≡ 2333 → (test (returned ret)).1 ≡ exited 0
unfolding test in_guest in_host
test-guest ret e = ground arith

-- The program exits with 0 exactly if `vmmcall` returns and the low 32 bits of its result are 2333,
-- the number that it was given; any other result, and any signal, ends it otherwise.
pub test_main-status :
    (vmmcall : (num : ℕ) → Reply)
    → ((main vmmcall).1 ≡ exited 0) ↔ ((ret : ℕ) × (vmmcall 2333 ≡ returned ret) × (u32 ret ≡ 2333))
unfolding main
test_main-status vmmcall =
    (test-status (vmmcall 2333), λ (ret, e, g). ap (λ (r : Reply). (test r).1) e ∙ test-guest ret g)
