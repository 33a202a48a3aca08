-- ===== src/EdgeApp/Exit.antt =====
-- How server/edge-calls/App/App.cpp ends when a call into the enclave fails, and what it does with
-- an enclave that it cannot create.
use Prim.Native.String.{String}
use atc22_ae.Base.{◌-◌, ◌^◌, ◌≡◌, refl, false, Option, []}
use atc22_ae.Sgx.{sgx_success, same_status}
use atc22_ae.Bench.{Double, Host, printed, print_all}
use atc22_ae.Timing.{value, Cpu}
use atc22_ae.EdgeApp.{
  Sdk, enclave_filename, global_eid, print_error_message, initialize_enclave, main,
}

-- If the enclave cannot be created, the program prints the message of the error and one line, and
-- ends with -1: it makes no directory and calls no enclave.
pub edge_main-uncreated :
    {W : Type 0} (double : Double) (host : Host W double.Carrier) (cpu : Cpu W) (sdk : Sdk W)
    (argument : Option String) (w : W)
    → same_status (sdk.create_enclave enclave_filename global_eid w).0.0 sgx_success ≡ false
    → main double host cpu sdk argument w
      ≡ value (2 ^ 32 - 1) (
          host.emit (printed "Enter a character before exit ...\n" []) (
            print_all double host
              (print_error_message (sdk.create_enclave enclave_filename global_eid w).0.0)
              (sdk.create_enclave enclave_filename global_eid w).1))
unfolding main initialize_enclave
edge_main-uncreated double host cpu sdk argument w h = rw h refl
