-- ===== src/Signals/Choose.antt =====
-- `ChooseSignal` of signal-util.c: the scan of the counters, in cyclic order.
use smlnj.Prelude.{
  ℕ, zero, suc, ◌+◌, ◌-◌, ◌%◌, ◌^◌, ◌<◌, ◌≤◌, ◌≡◌, refl, ◌≢◌, inl, inr, some, List, arith, ◌==◌,
  ltb, if◌then◌else◌, length, get_or, set, get_or-set_self, get_or-set_ne, sym, Bool-cases,
}
use smlnj.Signals.{
  SignalNumbers, SigCount, no_signals, Vproc, word_mod, delta, handle, next_sig, delta_of, scan,
  choose_signal,
}

module _ (c : SignalNumbers) where
  abbrev pub InMap : ℕ → Type 0
  InMap i = (c.min_system_sig ≤ i) × (i < c.sigmap_sz)

  -- how many steps of the scan lead from one signal to another: from 1 up to the map's size
  abbrev pub steps : ℕ → ℕ → ℕ
  steps i j = if ltb i j then j - i else j + (c.sigmap_sz - c.min_system_sig) - i

  pub record Found (counts : List SigCount) (i r : ℕ) : Type 0 where
    pub in_map : InMap r
    pub pending : delta_of c counts r ≢ 0
    pub first : (j : ℕ) → InMap j → steps i j < steps i r → delta_of c counts j ≡ 0

  next_sig-InMap : {i : ℕ} → InMap i → InMap (next_sig c i)
  unfolding next_sig
  next_sig-InMap h = (ground arith, ground arith)

  steps-pos : (i j : ℕ) → InMap i → InMap j → 0 < steps i j
  steps-pos i j hi hj = ground arith

  steps-next_sig :
      (i j : ℕ) → InMap i → InMap j → j ≢ next_sig c i → steps i j ≡ suc (steps (next_sig c i) j)
  unfolding next_sig
  steps-next_sig i j hi hj ne = ground arith

  steps-next_sig_self : (i : ℕ) → InMap i → steps i (next_sig c i) ≡ 1
  unfolding next_sig
  steps-next_sig_self i hi = ground arith

  pub steps-le : (i j : ℕ) → InMap i → InMap j → steps i j ≤ c.sigmap_sz - c.min_system_sig
  steps-le i j hi hj = ground arith

  pub scan-Found :
      (fuel : ℕ) (counts : List SigCount) (i s : ℕ)
      → InMap i
      → InMap s
      → delta_of c counts s ≢ 0
      → steps i s ≤ fuel
      → (r : ℕ) × (scan c fuel counts i ≡ some r) × Found counts i r
  unfolding scan
  scan-Found zero counts i s hi hs ps h = absurd (omega (arith, steps-pos i s hi hs))
  scan-Found (suc fuel) counts i s hi hs ps h =
      let i' = next_sig c i in
      let hi' = next_sig-InMap hi in
      elim (Bool-cases (delta_of c counts i' == 0)) [
        | inr hit ↦ (
          i',
          rw hit,
          record {
            in_map = hi';
            pending = ground arith;
            first =
                λ j hj lt. absurd (omega (arith, steps-pos i j hi hj, steps-next_sig_self i hi));
          },
        )
        | inl miss ↦
            let zero_here : delta_of c counts i' ≡ 0 = ground arith in
            let ne : s ≢ i' = λ e. ps (rw e zero_here) in
            let closer = steps-next_sig i s hi hs ne in
            let (r, run, f) = scan-Found fuel counts i' s hi' hs ps (omega arith) in
            let ne' : r ≢ i' = λ e. f.pending (rw e zero_here) in
            let further = steps-next_sig i r hi f.in_map ne' in
            (
              r,
              rw miss run,
              record {
                in_map = f.in_map;
                pending = f.pending;
                first = λ j hj lt. elim (Bool-cases (j == i')) [
                  | inl here ↦ let e : j ≡ i' = ground arith in rw e zero_here
                  | inr there ↦
                      let ne'' : j ≢ i' = ground arith in
                      f.first j hj (omega (arith, steps-next_sig i j hi hj ne''))
                ];
              },
            )
      ]

  -- what `ChooseSignal` leaves
  pub record Chosen (vsp vsp' : Vproc) : Type 0 where
    pub found : Found vsp.sig_counts vsp.next_pending_sig vsp'.sig_code
    pub reported : vsp'.sig_count ≡ delta_of c vsp.sig_counts vsp'.sig_code
    pub resumes : vsp'.next_pending_sig ≡ vsp'.sig_code
    pub handled : delta_of c vsp'.sig_counts vsp'.sig_code ≡ 0
    pub others :
        (j : ℕ)
        → j ≢ vsp'.sig_code
        → get_or vsp'.sig_counts j no_signals ≡ get_or vsp.sig_counts j no_signals
    pub total :
        vsp'.sig_count < 2 ^ 31
        → vsp'.total_sig_count.n_handled
          ≡ (vsp.total_sig_count.n_handled + vsp'.sig_count) % word_mod

  -- both counters are words
  pub record InRange (s : SigCount) : Type 0 where
    pub received_word : s.n_received < word_mod
    pub handled_word : s.n_handled < word_mod

  handle-delta : (s : SigCount) → InRange s → delta (handle (delta s) s) ≡ 0
  handle-delta s h = ground (arith, h.received_word, h.handled_word)

  handle-total :
      (d : ℕ) (s : SigCount) → d < 2 ^ 31 → (handle d s).n_handled ≡ (s.n_handled + d) % word_mod
  handle-total d s small = ground arith

  -- If some signal is pending, `ChooseSignal` ends within as many rounds as the map has signals.
  -- It reports the first pending signal after the last one that it chose, in cyclic order, with
  -- its count; it marks that signal as handled, adds a count below 2 ^ 31 to the total of handled
  -- signals, and leaves the other signals' counters alone.
  pub choose_signal-Chosen :
      (vsp : Vproc) (s : ℕ)
      → length vsp.sig_counts ≡ c.sigmap_sz
      → ((i : ℕ) → InRange (get_or vsp.sig_counts i no_signals))
      → InMap vsp.next_pending_sig
      → InMap s
      → delta_of c vsp.sig_counts s ≢ 0
      → (vsp' : Vproc) × (choose_signal c (c.sigmap_sz - c.min_system_sig) vsp ≡ some vsp')
        × Chosen vsp vsp'
  unfolding choose_signal
  choose_signal-Chosen vsp s len range hn hs ps =
      let (r, run, f) =
        scan-Found (c.sigmap_sz - c.min_system_sig) vsp.sig_counts vsp.next_pending_sig s hn hs ps
          (steps-le _ _ hn hs) in
      let d = delta_of c vsp.sig_counts r in
      let here : r < length vsp.sig_counts = omega (arith, f.in_map.1) in
      (
        record vsp {
          next_pending_sig = r;
          sig_code = r;
          sig_count = d;
          sig_counts = set vsp.sig_counts r (handle d (get_or vsp.sig_counts r no_signals));
          total_sig_count = handle d vsp.total_sig_count;
        },
        rw (run, choose_signal),
        record {
          found = f;
          reported = refl;
          resumes = refl;
          handled =
              rw (get_or-set_self vsp.sig_counts r _ no_signals here)
                (handle-delta (get_or vsp.sig_counts r no_signals) (range r));
          others = λ j ne. get_or-set_ne vsp.sig_counts r j _ no_signals (λ e. ne (sym e));
          total = λ small. handle-total d vsp.total_sig_count small;
        },
      )
