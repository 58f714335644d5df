-- ===== src/Replacement/Fifo/Order.antt =====
-- src/replacement/fifo.c: the laws of the policy, and that it is a queue of frames.
use mathlib.Core.List.{List, [], ◌∷◌, ◌++◌, head?}
use mathlib.Core.Path.{ap₂}
use simulador_memoria_virtua.Base.{
  ℕ, zero, suc, ◌+◌, ◌-◌, ◌<◌, ◌≤◌, ◌≡◌, ◌≢◌, refl, Bool, true, false, none, some, inl, inr, arith,
  ap, sym, ◌∙◌, Bool-cases, Option-cases, update, u32_max, inc64, dec64, count, bit, count_change,
  count_pos, count-le, count_none, find, find-some, find-none, find_first, success, failure, ◌==◌,
  leb, ltb, ltb→lt, if◌then◌else◌,
}
use simulador_memoria_virtua.Replacement.Contract.{IsPolicy, invalid_frame}
use simulador_memoria_virtua.Replacement.Fifo.{
  FifoState, on_load, on_evict, choose_victim, operations, shift_down,
}
use simulador_memoria_virtua.Replacement.Fifo.Queue.{
  frames, listed, remove, listed-congr, listed-snoc, listed-remove, shift_down_lem,
}

abbrev pub is_loaded : FifoState → ℕ → Bool
is_loaded s = s.loaded

-- The queue holds each loaded frame once.
pub record IsValid (n : ℕ) (s : FifoState) : Type 0 where
  pub counted : s.size ≡ count s.loaded n
  pub held : (i : ℕ) → i < s.size → (s.queue i < n) × (s.loaded (s.queue i) ≡ true)
  pub distinct : (i j : ℕ) → i < s.size → j < s.size → s.queue i ≡ s.queue j → i ≡ j
  pub present : (f : ℕ) → f < n → s.loaded f ≡ true → (i : ℕ) × (i < s.size) × (s.queue i ≡ f)

abbrev pub Ready : FifoState → Type 0
Ready s = Unit {0}

-- The state after a frame was appended, and after the one at `position` was taken out.
abbrev appended : FifoState → ℕ → FifoState
appended s f = record {
  queue = update s.queue s.size f;
  loaded = update s.loaded f true;
  size = inc64 s.size;
}

abbrev taken_out : FifoState → ℕ → ℕ → FifoState
taken_out s f position = record {
  queue = shift_down s.queue position s.size;
  loaded = update s.loaded f false;
  size = dec64 s.size;
}

head?-listed : (q : ℕ → ℕ) (n : ℕ) → head? (listed q 0 n) ≡ (if n == 0 then none else some (q 0))
unfolding listed
head?-listed q zero = refl
head?-listed q (suc n) = ground arith

module _ (n : ℕ) (small : n ≤ u32_max) (s : FifoState) (v : IsValid n s) where
  size-le : s.size ≤ n
  size-le = omega (arith, v.counted, count-le s.loaded n)

  room : (f : ℕ) → f < n → s.loaded f ≡ false → s.size < n
  room f below free =
      let more = count_change s.loaded (update s.loaded f true) n f below (λ j ne. ground arith) in
      let now : update s.loaded f true f ≡ true = ground arith in
      omega (arith, v.counted, more, ap bit free, ap bit now, count-le (update s.loaded f true) n)

  appended-IsValid : (f : ℕ) → f < n → s.loaded f ≡ false → IsValid n (appended s f)
  appended-IsValid f below free =
      let fits = room f below free in
      let next : inc64 s.size ≡ s.size + 1 = omega (arith, size-le) in
      let more = count_change s.loaded (update s.loaded f true) n f below (λ j ne. ground arith) in
      let now : update s.loaded f true f ≡ true = ground arith in
      record {
        counted = omega (arith, next, v.counted, more, ap bit free, ap bit now);
        held = λ i lt. ground (arith, next, v.held i);
        distinct = λ i j hi hj e. ground (arith, next, v.distinct i j, v.held i, v.held j);
        present = λ g lt el. elim (Bool-cases (f == g)) [
          | inl same ↦ (s.size, omega (arith, next), ground arith)
          | inr other ↦
              let (i, hi, e) = v.present g lt (ground arith) in
              (i, omega (arith, next), ground arith)
        ];
      }

  position_of :
      (f : ℕ)
      → f < n
      → s.loaded f ≡ true
      → (p : ℕ) × (find (λ index. s.queue index == f) s.size ≡ some p)
        × (p < s.size)
        × (s.queue p ≡ f)
        × ((j : ℕ) → j < p → s.queue j ≢ f)
  position_of f below el = elim (Option-cases (find (λ index. s.queue index == f) s.size)) [
    | inl miss ↦
        let (i, hi, e) = v.present f below el in
        absurd (ground (arith, find-none (λ index. s.queue index == f) s.size i miss hi))
    | inr (p, found) ↦
        let (lt, hit) = find-some (λ index. s.queue index == f) s.size p found in
        (
          p,
          found,
          lt,
          ground arith,
          λ j hj e. ground (arith, find_first (λ index. s.queue index == f) s.size p j found hj),
        )
  ]

  taken_out-IsValid :
      (f p : ℕ)
      → f < n
      → s.loaded f ≡ true
      → p < s.size
      → s.queue p ≡ f
      → IsValid n (taken_out s f p)
  taken_out-IsValid f p below el lt at =
      let bound = size-le in
      let next : dec64 s.size ≡ s.size - 1 = omega arith in
      let fewer =
        count_change s.loaded (update s.loaded f false) n f below (λ j ne. ground arith) in
      let gone : update s.loaded f false f ≡ false = ground arith in
      let cell = λ (j : ℕ). shift_down_lem s.queue p s.size j lt in
      record {
        counted = omega (arith, next, v.counted, fewer, ap bit el, ap bit gone);
        held = λ i hi.
            ground
              (arith, next, cell i, v.held i, v.held (i + 1), v.distinct i p, v.distinct (i + 1) p);
        distinct = λ i j hi hj e. ground (
          arith,
          next,
          cell i,
          cell j,
          v.distinct i j,
          v.distinct (i + 1) j,
          v.distinct i (j + 1),
          v.distinct (i + 1) (j + 1),
        );
        present = λ g hg eg.
            let (k, hk, e) = v.present g hg (ground arith) in
            elim (Bool-cases (ltb k p)) [
              | inl front ↦ (k, omega (arith, next, ltb→lt k p front), ground (arith, cell k))
              | inr back ↦
                  let ne : k ≢ p = λ same. ground arith in
                  let shifted : k - 1 + 1 ≡ k = ground arith in
                  (k - 1, ground (arith, next), ground (arith, cell (k - 1), ap s.queue shifted))
            ];
      }

  -- In a valid state, with at most UINT32_MAX frames, `fifo_on_load` of a frame of the table
  -- appends it to the queue, unless it is loaded, in which case the queue stays as it is.
  on_load-frames :
      (f : ℕ)
      → f < n
      → frames (on_load n s f).0 ≡ (if s.loaded f then frames s else frames s ++ f ∷ [])
  unfolding on_load
  on_load-frames f below = elim (Bool-cases (s.loaded f)) [
    | inl held ↦ rw held refl
    | inr free ↦
        let fits = room f below free in
        let fits' : leb n s.size ≡ false = ground arith in
        let next : inc64 s.size ≡ suc s.size = omega (arith, size-le) in
        rw (free, fits', next)
          (listed-snoc (update s.queue s.size f) s.size 0
            ∙ ap₂ (λ (front : List ℕ) (last : ℕ). front ++ last ∷ [])
                (listed-congr (update s.queue s.size f) s.queue s.size 0 (λ j lo hi. ground arith))
                (ground arith))
  ]

  -- In a valid state, with at most UINT32_MAX frames, `fifo_on_evict` of a loaded frame succeeds,
  -- and the queue is then the same list without that frame, the others in their order.
  pub on_evict-frames :
      (f : ℕ)
      → f < n
      → s.loaded f ≡ true
      → ((on_evict s f).1 ≡ success) × (frames (on_evict s f).0 ≡ remove f (frames s))
  unfolding on_evict
  on_evict-frames f below el =
      let (p, found, lt, at, before) = position_of f below el in
      let next : dec64 s.size ≡ s.size - 1 = omega (arith, size-le) in
      let whole : s.size ≡ suc (s.size - 1) = omega arith in
      rw (el, found)
        (
          refl,
          rw next (
              listed-remove s.queue (shift_down s.queue p s.size) (s.size - 1) 0 p (omega arith)
                (omega arith)
                (λ j lo hi.
                  (ground (arith, shift_down_lem s.queue p s.size j lt), λ e. before j hi (e ∙ at)))
                (λ j lo hi. ground (arith, shift_down_lem s.queue p s.size j lt))
              ∙ ap₂ (λ (x m : ℕ). remove x (listed s.queue 0 m)) at (sym whole)),
        )

  -- In a valid state, with at most UINT32_MAX frames, the queue is empty exactly if its size is
  -- 0, and otherwise the victim of `fifo_choose_victim` is its head.
  choose_victim-frames : head? (frames s) ≡ (if s.size == 0 then none else some (choose_victim s).1)
  unfolding choose_victim
  choose_victim-frames = ground (arith, head?-listed s.queue s.size)

  on_evict-IsValid :
      (f : ℕ)
      → f < n
      → ((on_evict s f).1 ≡ (if s.loaded f then success else failure))
        × IsValid n (on_evict s f).0
        × ((g : ℕ) → (on_evict s f).0.loaded g ≡ (if g == f then false else s.loaded g))
  unfolding on_evict
  on_evict-IsValid f below = elim (Bool-cases (s.loaded f)) [
    | inl held ↦
        let (p, found, lt, at, before) = position_of f below held in
        rw (held, found) (refl, taken_out-IsValid f p below held lt at, λ g. ground arith)
    | inr free ↦ rw free (refl, v, λ g. ground arith)
  ]

  on_load-IsValid :
      (f : ℕ)
      → f < n
      → ((on_load n s f).1 ≡ success)
        × IsValid n (on_load n s f).0
        × ((g : ℕ) → (on_load n s f).0.loaded g ≡ (if g == f then true else s.loaded g))
  unfolding on_load
  on_load-IsValid f below = elim (Bool-cases (s.loaded f)) [
    | inl held ↦ rw held (refl, v, λ g. ground arith)
    | inr free ↦
        let fits = room f below free in
        let fits' : leb n s.size ≡ false = ground arith in
        rw (free, fits') (refl, appended-IsValid f below free, λ g. ground arith)
  ]

  choose_victim-held :
      (f : ℕ)
      → f < n
      → s.loaded f ≡ true
      → ((choose_victim s).1 < n) × (s.loaded (choose_victim s).1 ≡ true)
  unfolding choose_victim
  choose_victim-held f below held =
      let some_frame = count_pos s.loaded n f below held in ground (arith, v.counted, v.held 0)

  choose_victim-none : ((f : ℕ) → f < n → s.loaded f ≡ false) → (choose_victim s).1 ≡ invalid_frame
  unfolding choose_victim
  choose_victim-none free = ground (arith, v.counted, count_none s.loaded n free)

choose_victim-state : (s : FifoState) → (choose_victim s).0 ≡ s
unfolding choose_victim
choose_victim-state s = ground arith

-- FIFO keeps the laws of a policy.
pub Fifo-IsPolicy : (n : ℕ) → n ≤ u32_max → IsPolicy n (operations n) is_loaded (IsValid n) Ready
unfolding operations
Fifo-IsPolicy n small = record {
  load = λ s f v ready below. on_load-IsValid n small s v f below;
  access = λ s f v ready below. (refl, v, λ g. refl);
  evict = λ s f v ready below. on_evict-IsValid n small s v f below;
  victim = λ s f v ready below held. choose_victim-held n small s v f below held;
  no_victim = λ s v free. choose_victim-none n small s v free;
  choice = λ s v. rw (choose_victim-state s) (v, λ g. refl);
  ticked = λ s v. (v, λ g. refl);
  calm = λ s f r. (tt, tt);
}
