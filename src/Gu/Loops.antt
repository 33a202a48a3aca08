-- ===== src/Gu/Loops.antt =====
-- The handler and the loops of server/exception/exception_gu_enclave/Enclave/Enclave.cpp.
use atc22_ae.Base.{
  ℕ, zero, suc, ◌+◌, ◌*◌, ◌^◌, ◌<◌, ◌≡◌, ◌≢◌, refl, ◌∙◌, arith, true, ==_self, ==_of_ne, [], ◌∷◌,
  if◌then◌else◌, ◌==◌, u32, u64,
}
use atc22_ae.Gu.{
  Info, Enclave, Verdict, Env, value, printf_ocall, exception_continue_execution, exception_handler,
  pgsize, store_loop, ud2, ud2_loop,
}

-- An exception that is no invalid opcode is only printed: the handler returns the context as it
-- got it and asks to continue, so the SDK resumes the very instruction that raised it.
pub handler_unexpected :
    (info : Info) (s : Enclave)
    → u32 info.exception_vector ≢ 6
    → exception_handler info s ≡ (
      exception_continue_execution,
      info,
      printf_ocall "ERROR: unexcept exception: %lld @ %016llx\n"
          (u32 info.exception_vector ∷ info.rip ∷ [])
          s,
    )
unfolding exception_handler
handler_unexpected info s h = rw (==_of_ne (u32 info.exception_vector) 6 h) refl

module _ (env : Env)
    (direct : (h : Info → Enclave → Verdict × Info × Enclave) (i : Info) (s : Enclave)
      → env.dispatch h i s ≡ h i s) where
  ud2_lem : (s : Enclave) → ud2 env s ≡ value (record s { ud_count = u32 (s.ud_count + 1) })
  unfolding ud2 exception_handler
  ud2_lem s =
      rw
        (
          direct exception_handler (record { exception_vector = 6; rip = env.ud2_rip }) s,
          ==_self (u64 (env.ud2_rip + 2)),
        )
        refl

  pub ud2_loop_lem :
      (left : ℕ) (s : Enclave)
      → s.ud_count < 2 ^ 32
      → ud2_loop env left s ≡ value (record s { ud_count = u32 (s.ud_count + left) })
  unfolding ud2_loop
  ud2_loop_lem zero s small =
      let same : u32 (s.ud_count + zero) ≡ s.ud_count = omega arith in rw same refl
  ud2_loop_lem (suc left) s small =
      let count : u32 (u32 (s.ud_count + 1) + left) ≡ u32 (s.ud_count + suc left) = omega arith in
      rw (ud2_lem s) (
        ud2_loop_lem left (record s { ud_count = u32 (s.ud_count + 1) }) (omega arith)
        ∙ rw count refl)

-- The store loop changes the bytes alone.
pub store_loop-eq :
    (left v x : ℕ) (s : Enclave)
    → store_loop left v x s ≡ record s { byte_at = (store_loop left v x s).byte_at }
unfolding store_loop
store_loop-eq zero v x s = refl
store_loop-eq (suc left) v x s = store_loop-eq left (v + pgsize) x _

store_loop-kept :
    (left v x : ℕ) (s : Enclave) (q : ℕ) → s.byte_at q ≡ x → (store_loop left v x s).byte_at q ≡ x
unfolding store_loop
store_loop-kept zero v x s q h = h
store_loop-kept (suc left) v x s q h = store_loop-kept left (v + pgsize) x _ q (ground arith)

pub store_loop-stored :
    (left v x : ℕ) (s : Enclave) (j : ℕ)
    → j < left
    → (store_loop left v x s).byte_at (v + 4096 * j) ≡ x
unfolding store_loop
store_loop-stored zero v x s j h = absurd (omega arith)
store_loop-stored (suc left) v x s zero h =
    let here : (v + 4096 * 0 == v) ≡ true = ground arith in
    store_loop-kept left (v + pgsize) x _ (v + 4096 * 0) (rw here refl)
store_loop-stored (suc left) v x s (suc j) h =
    let next : v + pgsize + 4096 * j ≡ v + 4096 * suc j = omega arith in
    rw next at (
      store_loop-stored left (v + pgsize) x
        (record s { byte_at = λ q. if q == v then x else s.byte_at q }) j (omega arith))
