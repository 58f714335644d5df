-- ===== src/Replacement/Dispatch.antt =====
-- src/replacement/replacement.c: what the callers rely on, whichever policy was chosen.
use simulador_memoria_virtua.Base.{
  ℕ, ◌<◌, ◌≤◌, ◌≡◌, Bool, true, false, u32_max, success, failure, ◌==◌, if◌then◌else◌,
}
use simulador_memoria_virtua.Replacement.{
  PolicyState, of_fifo, of_lru, of_clock, of_aging, dispatch,
}
use simulador_memoria_virtua.Replacement.Contract.{Operations, IsPolicy, invalid_frame}
use simulador_memoria_virtua.Replacement.Fifo.Order
use simulador_memoria_virtua.Replacement.Fifo.Order.{Fifo-IsPolicy}
use simulador_memoria_virtua.Replacement.Lru.Recency
use simulador_memoria_virtua.Replacement.Lru.Recency.{Lru-IsPolicy}
use simulador_memoria_virtua.Replacement.Clock.Laws
use simulador_memoria_virtua.Replacement.Clock.Laws.{Clock-IsPolicy}
use simulador_memoria_virtua.Replacement.Aging.Ages
use simulador_memoria_virtua.Replacement.Aging.Ages.{Aging-IsPolicy}

-- The frames that a policy holds, its invariant, and that its clock can tick.
abbrev pub is_loaded : PolicyState → ℕ → Bool
is_loaded (of_fifo s) = s.loaded
is_loaded (of_lru s) = s.loaded
is_loaded (of_clock s) = s.loaded
is_loaded (of_aging s) = s.loaded

abbrev pub IsValid : ℕ → PolicyState → Type 0
IsValid n (of_fifo s) = Order.IsValid n s
IsValid n (of_lru s) = Recency.IsValid n s
IsValid n (of_clock s) = Laws.IsValid n s
IsValid n (of_aging s) = Ages.IsValid n s

abbrev pub Ready : PolicyState → Type 0
Ready (of_fifo s) = Order.Ready s
Ready (of_lru s) = Recency.Ready s
Ready (of_clock s) = Laws.Ready s
Ready (of_aging s) = Ages.Ready s

-- The operations as they are called through the table.
unfoldable pub called : ℕ → Operations PolicyState
unfolding dispatch
called n = record {
  on_load = λ s f. dispatch (λ S ops t. ops.on_load t f) n s;
  on_access = λ s f. dispatch (λ S ops t. ops.on_access t f) n s;
  on_evict = λ s f. dispatch (λ S ops t. ops.on_evict t f) n s;
  choose_victim = λ s. dispatch (λ S ops t. ops.choose_victim t) n s;
  tick = λ s. (dispatch (λ S ops t. (ops.tick t, tt)) n s).0;
}

module _ (n : ℕ) (small : n ≤ u32_max) where
  load_lem :
      (s : PolicyState) (f : ℕ)
      → IsValid n s
      → Ready s
      → f < n
      → (((called n).on_load s f).1 ≡ success)
        × IsValid n ((called n).on_load s f).0
        × ((g : ℕ)
            → is_loaded ((called n).on_load s f).0 g ≡ (if g == f then true else is_loaded s g))
  unfolding called
  load_lem (of_fifo s) f v r b = (Fifo-IsPolicy n small).load s f v r b
  load_lem (of_lru s) f v r b = (Lru-IsPolicy n small).load s f v r b
  load_lem (of_clock s) f v r b = (Clock-IsPolicy n small).load s f v r b
  load_lem (of_aging s) f v r b = (Aging-IsPolicy n small).load s f v r b

  access_lem :
      (s : PolicyState) (f : ℕ)
      → IsValid n s
      → Ready s
      → f < n
      → (((called n).on_access s f).1 ≡ (if is_loaded s f then success else failure))
        × IsValid n ((called n).on_access s f).0
        × ((g : ℕ) → is_loaded ((called n).on_access s f).0 g ≡ is_loaded s g)
  unfolding called
  access_lem (of_fifo s) f v r b = (Fifo-IsPolicy n small).access s f v r b
  access_lem (of_lru s) f v r b = (Lru-IsPolicy n small).access s f v r b
  access_lem (of_clock s) f v r b = (Clock-IsPolicy n small).access s f v r b
  access_lem (of_aging s) f v r b = (Aging-IsPolicy n small).access s f v r b

  evict_lem :
      (s : PolicyState) (f : ℕ)
      → IsValid n s
      → Ready s
      → f < n
      → (((called n).on_evict s f).1 ≡ (if is_loaded s f then success else failure))
        × IsValid n ((called n).on_evict s f).0
        × ((g : ℕ)
            → is_loaded ((called n).on_evict s f).0 g ≡ (if g == f then false else is_loaded s g))
  unfolding called
  evict_lem (of_fifo s) f v r b = (Fifo-IsPolicy n small).evict s f v r b
  evict_lem (of_lru s) f v r b = (Lru-IsPolicy n small).evict s f v r b
  evict_lem (of_clock s) f v r b = (Clock-IsPolicy n small).evict s f v r b
  evict_lem (of_aging s) f v r b = (Aging-IsPolicy n small).evict s f v r b

  victim_lem :
      (s : PolicyState) (f : ℕ)
      → IsValid n s
      → Ready s
      → f < n
      → is_loaded s f ≡ true
      → (((called n).choose_victim s).1 < n) × (is_loaded s ((called n).choose_victim s).1 ≡ true)
  unfolding called
  victim_lem (of_fifo s) f v r b h = (Fifo-IsPolicy n small).victim s f v r b h
  victim_lem (of_lru s) f v r b h = (Lru-IsPolicy n small).victim s f v r b h
  victim_lem (of_clock s) f v r b h = (Clock-IsPolicy n small).victim s f v r b h
  victim_lem (of_aging s) f v r b h = (Aging-IsPolicy n small).victim s f v r b h

  no_victim_lem :
      (s : PolicyState)
      → IsValid n s
      → ((f : ℕ) → f < n → is_loaded s f ≡ false)
      → ((called n).choose_victim s).1 ≡ invalid_frame
  unfolding called
  no_victim_lem (of_fifo s) v h = (Fifo-IsPolicy n small).no_victim s v h
  no_victim_lem (of_lru s) v h = (Lru-IsPolicy n small).no_victim s v h
  no_victim_lem (of_clock s) v h = (Clock-IsPolicy n small).no_victim s v h
  no_victim_lem (of_aging s) v h = (Aging-IsPolicy n small).no_victim s v h

  choice_lem :
      (s : PolicyState)
      → IsValid n s
      → IsValid n ((called n).choose_victim s).0
        × ((g : ℕ) → is_loaded ((called n).choose_victim s).0 g ≡ is_loaded s g)
  unfolding called
  choice_lem (of_fifo s) v = (Fifo-IsPolicy n small).choice s v
  choice_lem (of_lru s) v = (Lru-IsPolicy n small).choice s v
  choice_lem (of_clock s) v = (Clock-IsPolicy n small).choice s v
  choice_lem (of_aging s) v = (Aging-IsPolicy n small).choice s v

  ticked_lem :
      (s : PolicyState)
      → IsValid n s
      → IsValid n ((called n).tick s) × ((g : ℕ) → is_loaded ((called n).tick s) g ≡ is_loaded s g)
  unfolding called
  ticked_lem (of_fifo s) v = (Fifo-IsPolicy n small).ticked s v
  ticked_lem (of_lru s) v = (Lru-IsPolicy n small).ticked s v
  ticked_lem (of_clock s) v = (Clock-IsPolicy n small).ticked s v
  ticked_lem (of_aging s) v = (Aging-IsPolicy n small).ticked s v

  calm_lem :
      (s : PolicyState) (f : ℕ)
      → Ready s
      → Ready ((called n).choose_victim s).0 × Ready ((called n).on_evict s f).0
  unfolding called
  calm_lem (of_fifo s) f r = (Fifo-IsPolicy n small).calm s f r
  calm_lem (of_lru s) f r = (Lru-IsPolicy n small).calm s f r
  calm_lem (of_clock s) f r = (Clock-IsPolicy n small).calm s f r
  calm_lem (of_aging s) f r = (Aging-IsPolicy n small).calm s f r

  -- With at most UINT32_MAX frames, the calls through the table of operations keep the laws of a
  -- policy, whichever of the four was chosen. In a valid state whose clock can tick: a load adds
  -- the frame, an access succeeds exactly at a loaded frame, an eviction succeeds exactly at a
  -- loaded frame and takes it out, the victim is loaded if some frame is and otherwise is the
  -- invalid frame, a choice and a tick keep the loaded frames, and all of them keep the state
  -- valid.
  pub called-IsPolicy : IsPolicy n (called n) is_loaded (IsValid n) Ready
  called-IsPolicy = record {
    load = load_lem;
    access = access_lem;
    evict = evict_lem;
    victim = victim_lem;
    no_victim = no_victim_lem;
    choice = choice_lem;
    ticked = ticked_lem;
    calm = calm_lem;
  }
