-- ===== src/Trace/Bytes.antt =====
-- src/trace.c: a walk over the bytes of an entry, which is what its replay is held against.
use mathlib.Core.Path.{subst}
use simulador_memoria_virtua.Base.{
  ℕ, zero, suc, ◌+◌, ◌%◌, ◌<◌, ◌≡◌, ◌≢◌, refl, Bool, false, ◌||◌, arith, inc64, ◌==◌, if◌then◌else◌,
  Status, success, failure,
}
use simulador_memoria_virtua.Trace.{TraceAccessType, TraceEntry}

module _ {ℓ} {M : Type ℓ} (access : M → ℕ → TraceAccessType → M × Bool) where
  -- Byte after byte from `byte` on: the first byte of the entry is accessed, and so is each byte at
  -- which a page begins, until an access fails.
  unfoldable pub replay_bytes : (size : ℕ) → TraceEntry → (byte : ℕ) → M → ℕ → (M × ℕ) × Status
  replay_bytes zero entry byte memory processed = ((memory, processed), success)
  replay_bytes (suc size) entry byte memory processed =
      let (memory1, ok) = access memory byte entry.type in
      let accessed = replay_bytes size entry (byte + 1) memory1 (inc64 processed) in
      let passed = replay_bytes size entry (byte + 1) memory processed in
      if (byte == entry.address) || (byte % 4096 == 0)
      then (if ok then accessed else ((memory1, processed), failure))
      else passed

  module _ (entry : TraceEntry) where
    -- Bytes at which nothing begins are passed over.
    pub pass :
        (m n byte : ℕ) (memory : M) (processed : ℕ)
        → ((i : ℕ) → i < m → ((byte + i == entry.address) || ((byte + i) % 4096 == 0)) ≡ false)
        → replay_bytes (m + n) entry byte memory processed
          ≡ replay_bytes n entry (byte + m) memory processed
    unfolding replay_bytes
    pass zero n byte memory processed inside =
        let e : zero + n ≡ n = omega arith in
        let f : byte + zero ≡ byte = omega arith in rw (e, f) refl
    pass (suc m) n byte memory processed inside =
        let e : suc m + n ≡ suc (m + n) = omega arith in
        let f : byte + suc m ≡ byte + 1 + m = omega arith in
        let here : ((byte == entry.address) || (byte % 4096 == 0)) ≡ false =
          subst (λ b. ((b == entry.address) || (b % 4096 == 0)) ≡ false) (omega arith)
            (inside 0 (omega arith)) in
        let ih = pass m n (byte + 1) memory processed (λ i lt.
          subst (λ b. ((b == entry.address) || (b % 4096 == 0)) ≡ false) (omega arith)
            (inside (suc i) (omega arith))) in
        rw (e, f) (rw (here, replay_bytes) ih)

    pub quiet :
        (b : ℕ)
        → b ≢ entry.address
        → b % 4096 ≢ 0
        → ((b == entry.address) || (b % 4096 == 0)) ≡ false
    quiet b other inner = ground (arith, other, inner)
