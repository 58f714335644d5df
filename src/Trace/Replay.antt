-- ===== src/Trace/Replay.antt =====
-- src/trace.c: the accesses that the replay of an entry makes, against a walk over its bytes.
use mathlib.Core.Path.{subst}
use simulador_memoria_virtua.Base.{
  ℕ, zero, suc, ◌+◌, ◌-◌, ◌*◌, ◌/◌, ◌%◌, ◌^◌, ◌<◌, ◌≤◌, ◌≡◌, refl, ap, sym, ◌∙◌, Bool, true, false,
  ◌||◌, inl, inr, arith, Bool-cases, u64_mod, u64_max, inc64, ltb, ◌==◌, if◌then◌else◌, failure,
}
use simulador_memoria_virtua.Address.{page_number}
use simulador_memoria_virtua.Trace.{TraceAccessType, TraceEntry, start, replay_pages, replay_entry}
use simulador_memoria_virtua.Trace.Bytes.{replay_bytes, pass, quiet}

module _ {ℓ} {M : Type ℓ} (access : M → ℕ → TraceAccessType → M × Bool) where
  module _ (entry : TraceEntry) where
    start-begins :
        (page : ℕ)
        → page < 2 ^ 52
        → ((start access entry page == entry.address) || (start access entry page % 4096 == 0))
          ≡ true
    start-begins page small = elim (Bool-cases (page == page_number entry.address)) [
      | inl first ↦ rw first (ground arith)
      | inr later ↦
          let e : page * 4096 % u64_mod % 4096 ≡ 0 = omega arith in rw later (ground (arith, e))
    ]

    -- A place in the loop over the pages, and in the walk over the bytes: `rounds` pages follow the
    -- page, which is accessed at `byte`, and `size` bytes of the entry follow that byte.
    record Place (rounds last_page page size byte : ℕ) : Type 0 where
      total : rounds + page ≡ last_page
      at : start access entry page ≡ byte
      end : byte + suc size ≡ entry.address + entry.size
      from : entry.address ≤ byte
      here : page ≡ byte / 4096
      last : last_page ≡ (entry.address + (entry.size - 1)) / 4096
      word : entry.address + entry.size ≤ u64_mod

    -- On the last page nothing begins any more.
    rest_quiet :
        (last_page page size byte : ℕ)
        → Place 0 last_page page size byte
        → (i : ℕ) → i < size
        → ((byte + 1 + i == entry.address) || ((byte + 1 + i) % 4096 == 0)) ≡ false
    rest_quiet last_page page size byte p i lt =
        quiet access entry (byte + 1 + i) (omega (arith, p.from))
          (λ e. omega (arith, p.total, p.end, p.here, p.last, e, lt))

    -- Before the next page nothing begins, and that page is accessed at its first byte.
    next_quiet :
        (rounds last_page page size byte : ℕ)
        → Place (suc rounds) last_page page size byte
        → (i : ℕ) → i < (page + 1) * 4096 - (byte + 1)
        → ((byte + 1 + i == entry.address) || ((byte + 1 + i) % 4096 == 0)) ≡ false
    next_quiet rounds last_page page size byte p i lt =
        quiet access entry (byte + 1 + i) (omega (arith, p.from))
          (λ e. omega (arith, p.here, e, lt))

    next_start :
        (rounds last_page page size byte : ℕ)
        → Place (suc rounds) last_page page size byte
        → start access entry (page + 1) ≡ (page + 1) * 4096
    unfolding page_number
    next_start rounds last_page page size byte p =
        let later : ((page + 1) == entry.address / 4096) ≡ false = ground (arith, p.from, p.here) in
        let small : (page + 1) * 4096 % u64_mod ≡ (page + 1) * 4096 =
          omega (arith, p.total, p.last, p.word, p.end) in
        rw later small

    next_Place :
        (rounds last_page page size byte : ℕ)
        → Place (suc rounds) last_page page size byte
        → Place rounds last_page
            (page + 1)
            (size - ((page + 1) * 4096 - (byte + 1)) - 1)
            ((page + 1) * 4096)
          × (size
              ≡ (page + 1) * 4096 - (byte + 1) + suc (size - ((page + 1) * 4096 - (byte + 1)) - 1))
    next_Place rounds last_page page size byte p = (
      record {
        total = omega (arith, p.total);
        at = next_start rounds last_page page size byte p;
        end = omega (arith, p.total, p.end, p.here, p.last);
        from = omega (arith, p.from, p.here);
        here = omega arith;
        last = p.last;
        word = p.word;
      },
      omega (arith, p.total, p.end, p.here, p.last),
    )

    -- What follows an access that succeeded.
    module _ (last_page page size byte : ℕ) (memory : M) (processed : ℕ) where
      rest_of_last :
          Place 0 last_page page size byte
          → replay_pages access 0 entry last_page (page + 1) memory processed
            ≡ replay_bytes access size entry (byte + 1) memory processed
      unfolding replay_pages replay_bytes
      rest_of_last p =
          let e : size ≡ size + 0 = omega arith in
          let none_left =
            pass access entry size 0 (byte + 1) memory processed
              (rest_quiet last_page page size byte p) in
          sym (ap (λ n. replay_bytes access n entry (byte + 1) memory processed) e ∙ none_left)

    one_page :
        (rounds last_page page size byte : ℕ) (memory : M) (processed : ℕ)
        → Place rounds last_page page size byte
        → ((m : M)
            → replay_pages access rounds entry last_page (page + 1) m (inc64 processed)
              ≡ replay_bytes access size entry (byte + 1) m (inc64 processed))
        → replay_pages access (suc rounds) entry last_page page memory processed
          ≡ replay_bytes access (suc size) entry byte memory processed
    unfolding replay_pages replay_bytes
    one_page rounds last_page page size byte memory processed p rest =
        let more : ltb last_page page ≡ false = ground (arith, p.total) in
        let inner : (page == u64_max) ≡ false = ground (arith, p.here, p.word, p.end) in
        let begins : ((byte == entry.address) || (byte % 4096 == 0)) ≡ true =
          subst (λ b. ((b == entry.address) || (b % 4096 == 0)) ≡ true) p.at
            (start-begins page (omega (arith, p.here, p.word, p.end))) in
        let same = ap (λ b. access memory b entry.type) p.at in
        elim (Bool-cases (access memory byte entry.type).1) [
          | inl ok ↦
              let ok' : (access memory (start access entry page) entry.type).1 ≡ true =
                ap (λ r. r.1) same ∙ ok in
              let pages : replay_pages access (suc rounds) entry last_page page memory processed
                  ≡ replay_pages access rounds entry last_page (page + 1)
                      (access memory (start access entry page) entry.type).0 (inc64 processed) =
                rw (more, ok', inner, replay_pages) refl in
              let bytes : replay_bytes access (suc size) entry byte memory processed
                  ≡ replay_bytes access size entry (byte + 1) (access memory byte entry.type).0
                      (inc64 processed) =
                rw (begins, ok, replay_bytes) refl in
              pages
              ∙ ap
                  (λ r. replay_pages access rounds entry last_page (page + 1) r.0 (inc64 processed))
                  same
              ∙ rest (access memory byte entry.type).0
              ∙ sym bytes
          | inr failed ↦
              let failed' : (access memory (start access entry page) entry.type).1 ≡ false =
                ap (λ r. r.1) same ∙ failed in
              let pages : replay_pages access (suc rounds) entry last_page page memory processed
                  ≡ (((access memory (start access entry page) entry.type).0, processed), failure) =
                rw (more, failed', replay_pages) refl in
              let bytes : replay_bytes access (suc size) entry byte memory processed
                  ≡ (((access memory byte entry.type).0, processed), failure) =
                rw (begins, failed, replay_bytes) refl in
              pages ∙ ap (λ r. ((r.0, processed), failure)) same ∙ sym bytes
        ]

    replay_pages-bytes :
        (rounds last_page page size byte : ℕ) (memory : M) (processed : ℕ)
        → Place rounds last_page page size byte
        → replay_pages access (suc rounds) entry last_page page memory processed
          ≡ replay_bytes access (suc size) entry byte memory processed
    replay_pages-bytes zero last_page page size byte memory processed p =
        one_page 0 last_page page size byte memory processed p
          (λ m. rest_of_last last_page page size byte m (inc64 processed) p)
    replay_pages-bytes (suc rounds) last_page page size byte memory processed p =
        let (q, split) = next_Place rounds last_page page size byte p in
        let gap = (page + 1) * 4096 - (byte + 1) in
        let left = size - gap - 1 in
        let at_next : byte + 1 + gap ≡ (page + 1) * 4096 = omega (arith, p.here) in
        one_page (suc rounds) last_page page size byte memory processed p (λ m.
          replay_pages-bytes rounds last_page (page + 1) left ((page + 1) * 4096) m
            (inc64 processed) q
          ∙ sym (
              ap (λ n. replay_bytes access n entry (byte + 1) m (inc64 processed)) split
              ∙ pass access entry gap (suc left) (byte + 1) m (inc64 processed)
                  (next_quiet rounds last_page page size byte p)
              ∙ ap (λ b. replay_bytes access (suc left) entry b m (inc64 processed)) at_next))

    start_first : start access entry (page_number entry.address) ≡ entry.address
    start_first = ground arith

    -- Whatever the virtual memory does on an access, the replay of an entry with an address of 64
    -- bits fails without an access if its size is 0 or it ends past 64 bits. Otherwise it does
    -- what a walk over the bytes of the entry does, in order, which makes an access at the first
    -- byte and at each byte whose address is a multiple of 4096, counts those that succeed, and
    -- stops at the first that fails.
    pub replay_entry-bytes :
        (memory : M) (processed : ℕ)
        → entry.address < u64_mod
        → replay_entry access entry memory processed ≡ (
            if (entry.size == 0) || ltb u64_mod (entry.address + entry.size)
            then ((memory, processed), failure)
            else replay_bytes access entry.size entry entry.address memory processed)
    unfolding replay_entry page_number
    replay_entry-bytes memory processed word =
        elim (Bool-cases ((entry.size == 0) || ltb u64_mod (entry.address + entry.size))) [
          | inl bad ↦
              let test : ((entry.size == 0) || ltb (u64_max - entry.address) (entry.size - 1))
                  ≡ true =
                ground (arith, bad) in
              rw (bad, test, replay_entry) refl
          | inr fine ↦
              let test : ((entry.size == 0) || ltb (u64_max - entry.address) (entry.size - 1))
                  ≡ false =
                ground (arith, fine) in
              let first = page_number entry.address in
              let last = page_number (entry.address + (entry.size - 1)) in
              let step : replay_entry access entry memory processed
                  ≡ replay_pages access (last + 1 - first) entry last first memory processed =
                rw (test, replay_entry) refl in
              let some_bytes : 0 < entry.size = ground (arith, fine) in
              let inside : entry.address + entry.size ≤ u64_mod = ground (arith, fine) in
              let rounds : last + 1 - first ≡ suc (last - first) = omega arith in
              let size : suc (entry.size - 1) ≡ entry.size = omega (arith, some_bytes) in
              rw fine (
                step
                ∙ ap (λ n. replay_pages access n entry last first memory processed) rounds
                ∙ replay_pages-bytes (last - first) last first (entry.size - 1) entry.address memory
                    processed
                    (record {
                      total = omega arith;
                      at = start_first;
                      end = omega (arith, size);
                      from = omega arith;
                      here = refl;
                      last = refl;
                      word = inside;
                    })
                ∙ ap (λ n. replay_bytes access n entry entry.address memory processed) size)
        ]
