-- ===== src/Replacement.antt =====
-- src/replacement/replacement.c: the policy object and the calls that go through its operations.
pub mod Contract
pub mod Fifo
pub mod Lru
pub mod Clock
pub mod Aging
pub mod Dispatch
pub mod Cycle
pub mod Create
use simulador_memoria_virtua.Base.{
  ℕ, Bool, true, false, not, Option, none, some, Status, success, failure, ltb, if◌then◌else◌,
}
use simulador_memoria_virtua.Replacement.Contract.{Operations}
use Fifo.{FifoState}
use Lru.{LruState}
use Clock.{ClockState}
use Aging.{AgingState}
use mathlib.Core.Option

-- `ReplacementPolicyType`
pub data PolicyType : Type 0 where
  fifo lru clock aging : PolicyType

-- `policy->state` behind its operations: which of the four, and that policy's state.
pub data PolicyState : Type 0 where
  of_fifo : FifoState → PolicyState
  of_lru : LruState → PolicyState
  of_clock : ClockState → PolicyState
  of_aging : AgingState → PolicyState

-- The field `type`, which only names the policy for printing, is the constructor of the state.
pub record ReplacementPolicy : Type 0 where
  pub frame_count : ℕ
  pub state : PolicyState

-- A call through `policy->operations`.
unfoldable pub dispatch :
    {R : Type 0}
    → (call : (S : Type 0) → Operations S → S → S × R) → (frame_count : ℕ) → PolicyState
    → PolicyState × R
unfolding Fifo.operations Lru.operations Clock.operations Aging.operations
dispatch call n (of_fifo s) = let (s', r) = call FifoState (Fifo.operations n) s in (of_fifo s', r)
dispatch call n (of_lru s) = let (s', r) = call LruState (Lru.operations n) s in (of_lru s', r)
dispatch call n (of_clock s) =
    let (s', r) = call ClockState (Clock.operations n) s in (of_clock s', r)
dispatch call n (of_aging s) =
    let (s', r) = call AgingState (Aging.operations n) s in (of_aging s', r)

-- `replacement_frame_is_valid`
unfoldable pub frame_is_valid : ReplacementPolicy → ℕ → Bool
frame_is_valid p frame_number = ltb frame_number p.frame_count

-- A call on one frame, after the check of its number.
unfoldable pub on_frame :
    ((S : Type 0) → Operations S → S → S × Status)
    → ReplacementPolicy
    → ℕ
    → ReplacementPolicy × Status
unfolding frame_is_valid dispatch
on_frame call p frame_number =
    if not (frame_is_valid p frame_number)
    then (p, failure)
    else let (state', r) = dispatch call p.frame_count p.state in (record p { state = state' }, r)

unfoldable pub on_load : ReplacementPolicy → ℕ → ReplacementPolicy × Status
unfolding on_frame
on_load p frame_number = on_frame (λ S ops s. ops.on_load s frame_number) p frame_number

unfoldable pub on_access : ReplacementPolicy → ℕ → ReplacementPolicy × Status
unfolding on_frame
on_access p frame_number = on_frame (λ S ops s. ops.on_access s frame_number) p frame_number

unfoldable pub on_evict : ReplacementPolicy → ℕ → ReplacementPolicy × Status
unfolding on_frame
on_evict p frame_number = on_frame (λ S ops s. ops.on_evict s frame_number) p frame_number

unfoldable pub choose_victim : ReplacementPolicy → ReplacementPolicy × ℕ
unfolding dispatch
choose_victim p =
    let (state', victim) = dispatch (λ S ops s. ops.choose_victim s) p.frame_count p.state in
    (record p { state = state' }, victim)

unfoldable pub tick : ReplacementPolicy → ReplacementPolicy
unfolding dispatch
tick p = record p { state = (dispatch (λ S ops s. (ops.tick s, tt)) p.frame_count p.state).0 }

-- The `switch` of `replacement_policy_create`; `granted k` says whether the call's `k`-th request
-- for memory is met.
unfoldable pub state_of : (granted : ℕ → Bool) → PolicyType → ℕ → Option PolicyState
unfolding Fifo.create Lru.create Clock.create Aging.create
state_of granted fifo n = Option.map of_fifo (Fifo.create granted n)
state_of granted lru n = Option.map of_lru (Lru.create granted n)
state_of granted clock n = Option.map of_clock (Clock.create granted n)
state_of granted aging n = Option.map of_aging (Aging.create granted n)

unfoldable pub create : (granted : ℕ → Bool) → PolicyType → ℕ → Option ReplacementPolicy
unfolding state_of
create granted kind n =
    Option.map (λ state. record { frame_count = n; state = state }) (state_of granted kind n)
