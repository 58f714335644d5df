-- ===== src/Replacement/Contract.antt =====
-- src/replacement/replacement_internal.h: the table of operations that a policy fills in, and the
-- laws that the rest of the program relies on, whatever the policy is.
use simulador_memoria_virtua.Base.{
  ℕ, ◌<◌, ◌≡◌, Bool, true, false, not, Status, success, failure, u32_max, ◌==◌, if◌then◌else◌,
}

-- `REPLACEMENT_INVALID_FRAME`
abbrev pub invalid_frame : ℕ
invalid_frame = u32_max

-- Whether `replacement_policy_allocate` returns an object; its two requests for memory are the first
-- ones of a creation. The sizes and the table that it is called with are never 0 and NULL.
abbrev pub allocate : (granted : ℕ → Bool) → (frame_count : ℕ) → Bool
allocate granted frame_count =
    if frame_count == 0 then false else if not (granted 0) then false else granted 1

-- `ReplacementPolicyOperations`, less `destroy`, over the policy's own state.
pub record Operations (S : Type 0) : Type 0 where
  pub on_load : S → ℕ → S × Status
  pub on_access : S → ℕ → S × Status
  pub on_evict : S → ℕ → S × Status
  pub choose_victim : S → S × ℕ
  pub tick : S → S

-- A policy over `n` frames keeps a set of loaded frames. `IsValid` is its invariant; `Ready` says
-- that its clock, if it has one, can still tick.
pub record IsPolicy {S : Type 0} (n : ℕ) (ops : Operations S) (loaded : S → ℕ → Bool)
    (IsValid Ready : S → Type 0) : Type 0 where
  -- a load succeeds and adds the frame
  pub load :
      (s : S) (f : ℕ)
      → IsValid s
      → Ready s
      → f < n
      → ((ops.on_load s f).1 ≡ success)
        × IsValid (ops.on_load s f).0
        × ((g : ℕ) → loaded (ops.on_load s f).0 g ≡ (if g == f then true else loaded s g))
  -- an access succeeds exactly at a loaded frame, and keeps the set
  pub access :
      (s : S) (f : ℕ)
      → IsValid s
      → Ready s
      → f < n
      → ((ops.on_access s f).1 ≡ (if loaded s f then success else failure))
        × IsValid (ops.on_access s f).0
        × ((g : ℕ) → loaded (ops.on_access s f).0 g ≡ loaded s g)
  -- an eviction succeeds exactly at a loaded frame, and takes it out
  pub evict :
      (s : S) (f : ℕ)
      → IsValid s
      → Ready s
      → f < n
      → ((ops.on_evict s f).1 ≡ (if loaded s f then success else failure))
        × IsValid (ops.on_evict s f).0
        × ((g : ℕ) → loaded (ops.on_evict s f).0 g ≡ (if g == f then false else loaded s g))
  -- the victim is a loaded frame if there is one
  pub victim :
      (s : S) (f : ℕ)
      → IsValid s
      → Ready s
      → f < n
      → loaded s f ≡ true
      → ((ops.choose_victim s).1 < n) × (loaded s (ops.choose_victim s).1 ≡ true)
  -- and otherwise the invalid frame
  pub no_victim :
      (s : S)
      → IsValid s
      → ((f : ℕ) → f < n → loaded s f ≡ false)
      → (ops.choose_victim s).1 ≡ invalid_frame
  pub choice :
      (s : S)
      → IsValid s
      → IsValid (ops.choose_victim s).0 × ((g : ℕ) → loaded (ops.choose_victim s).0 g ≡ loaded s g)
  pub ticked :
      (s : S) → IsValid s → IsValid (ops.tick s) × ((g : ℕ) → loaded (ops.tick s) g ≡ loaded s g)
  -- a choice and an eviction do not use up the clock
  pub calm : (s : S) (f : ℕ) → Ready s → Ready (ops.choose_victim s).0 × Ready (ops.on_evict s f).0
