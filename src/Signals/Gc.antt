-- ===== src/Signals/Gc.antt =====
-- `GCSignal`: when a collection is recorded as a signal.
use smlnj.Prelude.{
  ℕ, ◌<◌, ◌≤◌, ◌≡◌, refl, ◌≢◌, ◌⊎◌, inl, inr, true, false, arith, ◌==◌, ◌&&◌, ◌||◌, not,
  if◌then◌else◌, ltb, Bool-cases, length, get_or, set, get_or-set_self, get_or-set_ne, sym,
}
use smlnj.Signals.{SignalNumbers, no_signals, Vproc, ml_sig_enabled, receive, gc_signal}

module _ (c : SignalNumbers) (vsp : Vproc) (n_gen : ℕ) where
  -- the conditions under which the collection of generation `n_gen` is a signal
  pub record Wanted : Type 0 where
    pub enabled : vsp.gc_sig_state ≡ ml_sig_enabled
    pub old_enough : vsp.gc_sig_threshold ≤ n_gen
    pub not_nested : (vsp.in_sig_handler ≡ false) ⊎ (vsp.sig_code ≢ c.runsig_gc)

  pub record Recorded (vsp' : Vproc) : Type 0 where
    pub counted :
        get_or vsp'.sig_counts c.runsig_gc no_signals
        ≡ receive (get_or vsp.sig_counts c.runsig_gc no_signals)
    pub total : vsp'.total_sig_count ≡ receive vsp.total_sig_count
    pub others :
        (j : ℕ)
        → j ≢ c.runsig_gc
        → get_or vsp'.sig_counts j no_signals ≡ get_or vsp.sig_counts j no_signals
    pub handler :
        vsp'.handler_pending ≡ (vsp.handler_pending || (vsp.in_ml_flag && not vsp.in_sig_handler))

  gc_signal-Recorded :
      c.runsig_gc < length vsp.sig_counts → Wanted → Recorded (gc_signal c vsp n_gen)
  unfolding gc_signal
  gc_signal-Recorded h w =
      let run : gc_signal c vsp n_gen ≡ record vsp {
        sig_counts =
            set vsp.sig_counts c.runsig_gc (receive (get_or vsp.sig_counts c.runsig_gc no_signals));
        total_sig_count = receive vsp.total_sig_count;
        handler_pending =
            if vsp.in_ml_flag && (not vsp.handler_pending && not vsp.in_sig_handler)
            then true
            else vsp.handler_pending;
      } =
        ground arith in
      rw run (record {
        counted = get_or-set_self vsp.sig_counts c.runsig_gc _ no_signals h;
        total = refl;
        others = λ j ne. get_or-set_ne vsp.sig_counts c.runsig_gc j _ no_signals (λ e. ne (sym e));
        handler = ground arith;
      })

  unnested :
      (vsp.in_sig_handler && (vsp.sig_code == c.runsig_gc)) ≡ false
      → (vsp.in_sig_handler ≡ false) ⊎ (vsp.sig_code ≢ c.runsig_gc)
  unnested h = elim (Bool-cases vsp.in_sig_handler) [
    | inr out ↦ inl out
    | inl inside ↦ inr (λ e. ground arith)
  ]

  skipped :
      ((vsp.gc_sig_state == ml_sig_enabled) ≡ false)
        ⊎ ((ltb n_gen vsp.gc_sig_threshold ≡ true)
            ⊎ ((vsp.in_sig_handler && (vsp.sig_code == c.runsig_gc)) ≡ true))
      → (¬ Wanted) × (gc_signal c vsp n_gen ≡ vsp)
  unfolding gc_signal
  skipped (inl off) = (λ w. ground (arith, w.enabled), ground arith)
  skipped (inr (inl young)) = (λ w. ground (arith, w.old_enough), ground arith)
  skipped (inr (inr nested)) = (λ w. ground (arith, w.not_nested), ground arith)

  -- `GCSignal` changes nothing unless GC signals are enabled, the generation reaches the
  -- threshold and no GC signal is being handled. Otherwise it counts one more GC signal, in the
  -- signal's counter and in the total, leaves the other counters alone, and asks for the handler
  -- exactly if ML code runs outside a handler or the handler was asked for before.
  pub gc_signal-cases :
      c.runsig_gc < length vsp.sig_counts
      → (Wanted × Recorded (gc_signal c vsp n_gen)) ⊎ ((¬ Wanted) × (gc_signal c vsp n_gen ≡ vsp))
  gc_signal-cases h = elim (Bool-cases (vsp.gc_sig_state == ml_sig_enabled)) [
    | inr off ↦ inr (skipped (inl off))
    | inl on ↦ elim (Bool-cases (ltb n_gen vsp.gc_sig_threshold)) [
      | inl young ↦ inr (skipped (inr (inl young)))
      | inr old ↦ elim (Bool-cases (vsp.in_sig_handler && (vsp.sig_code == c.runsig_gc))) [
        | inl nested ↦ inr (skipped (inr (inr nested)))
        | inr free ↦
            let w : Wanted = record {
              enabled = ground arith;
              old_enough = ground arith;
              not_nested = unnested free;
            } in
            inl (w, gc_signal-Recorded h w)
      ]
    ]
  ]
