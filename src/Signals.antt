-- ===== src/Signals.antt =====
-- runtime/mach-dep/signal-util.c: recording GC signals and choosing the next signal for the ML
-- handler. The signal numbers come from a header that the build generates, so they are parameters.
pub mod Choose
pub mod Gc
use smlnj.Prelude.{
  ℕ, zero, suc, ◌+◌, ◌-◌, ◌%◌, ◌^◌, ◌<◌, ◌≤◌, Bool, true, false, ◌&&◌, ◌||◌, not, Option, none,
  some, List, ◌==◌, ltb, leb, if◌then◌else◌, get_or, set,
}

-- what `system-signals.h` defines
pub record SignalNumbers : Type 0 where
  pub min_system_sig : ℕ
  pub sigmap_sz : ℕ
  pub runsig_gc : ℕ

-- `sig_count_t`: two counters of type `Word_t`
pub record SigCount : Type 0 where
  pub n_received : ℕ
  pub n_handled : ℕ

abbrev pub no_signals : SigCount
no_signals = record { n_received = 0; n_handled = 0 }

-- the signal fields of `vproc_state_t`
pub record Vproc : Type 0 where
  pub in_ml_flag : Bool
  pub handler_pending : Bool
  pub in_sig_handler : Bool
  pub total_sig_count : SigCount
  pub sig_counts : List SigCount
  pub sig_code : ℕ
  pub sig_count : ℕ
  pub next_pending_sig : ℕ
  pub gc_sig_state : ℕ
  pub gc_sig_threshold : ℕ

abbrev pub ml_sig_enabled : ℕ
ml_sig_enabled = 2

abbrev pub word_mod : ℕ
word_mod = 2 ^ 64

abbrev pub receive : SigCount → SigCount
receive s = record s { n_received = (s.n_received + 1) % word_mod }

-- `int delta = nReceived - nHandled`: the low 32 bits of the difference
abbrev pub delta : SigCount → ℕ
delta s = (s.n_received + word_mod - s.n_handled) % word_mod % 2 ^ 32

-- `nHandled += delta`, where the int is sign extended to a word
abbrev pub handle : ℕ → SigCount → SigCount
handle d s = record s {
  n_handled = (s.n_handled + (if leb (2 ^ 31) d then d + word_mod - 2 ^ 32 else d)) % word_mod;
}

module _ (c : SignalNumbers) where
  -- `GCSignal`
  unfoldable pub gc_signal : Vproc → ℕ → Vproc
  gc_signal vsp n_gen =
      if not (vsp.gc_sig_state == ml_sig_enabled) || ltb n_gen vsp.gc_sig_threshold
      then vsp
      else if vsp.in_sig_handler && (vsp.sig_code == c.runsig_gc)
      then vsp
      else record vsp {
        sig_counts =
            set vsp.sig_counts c.runsig_gc (receive (get_or vsp.sig_counts c.runsig_gc no_signals));
        total_sig_count = receive vsp.total_sig_count;
        handler_pending =
            if vsp.in_ml_flag && (not vsp.handler_pending && not vsp.in_sig_handler)
            then true
            else vsp.handler_pending;
      }

  -- `i++;  if (i == SIGMAP_SZ) i = MIN_SYSTEM_SIG`
  unfoldable pub next_sig : ℕ → ℕ
  next_sig i = if i + 1 == c.sigmap_sz then c.min_system_sig else i + 1

  abbrev pub delta_of : List SigCount → ℕ → ℕ
  delta_of counts i = delta (get_or counts i no_signals)

  -- the do-while loop, with fuel; `none` when it runs out
  unfoldable pub scan : ℕ → List SigCount → ℕ → Option ℕ
  unfolding next_sig
  scan zero counts i = none
  scan (suc fuel) counts i =
      let rest = scan fuel counts (next_sig i) in
      if delta_of counts (next_sig i) == 0 then rest else some (next_sig i)

  -- `ChooseSignal`
  unfoldable pub choose_signal : ℕ → Vproc → Option Vproc
  unfolding scan
  choose_signal fuel vsp = elim (scan fuel vsp.sig_counts vsp.next_pending_sig) [
    | none ↦ none
    | some i ↦
        let d = delta_of vsp.sig_counts i in
        some (record vsp {
          next_pending_sig = i;
          sig_code = i;
          sig_count = d;
          sig_counts = set vsp.sig_counts i (handle d (get_or vsp.sig_counts i no_signals));
          total_sig_count = handle d vsp.total_sig_count;
        })
  ]
