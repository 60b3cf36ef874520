-- ===== src/Daemon/Blocking.antt =====
-- main/smartmetd.cpp: what the threads of the process block, over the histories of Process.
use smartmet_server.Daemon.Signals.{Signal, sigbus, sigwinch, other_signal, sigterm, sighup, sigint}
use smartmet_server.Daemon.Masks.{
  Process, Mask, block_signals, core_signals, sigprof, blocked_set, sigkill, is_blockable, sigstop,
}
use smartmet_server.Base.{List, arith, Bool, not, some, refl, false, [], ◌∷◌, ◌≡◌, ◌&&◌, get_elem?}
use smartmet_server.Daemon.Process.{one_of_signals}

-- The signals that no thread blocks: those of the profiler and of core dumps, SIGKILL and SIGSTOP.
abbrev pub is_exempt : Signal → Bool
is_exempt s = one_of_signals s (sigkill ∷ sigstop ∷ sigprof ∷ core_signals)

-- A thread blocks nothing, or all but those.
abbrev pub IsMask : Mask → Type 0
IsMask m = (b : Bool) × ((s : Signal) → m s ≡ (b && not (is_exempt s)))

abbrev pub AllMasks : List Mask → Type 0
AllMasks [] = Unit
AllMasks (m ∷ ms) = IsMask m × AllMasks ms

-- main blocks nothing, and every thread has one of the two masks.
abbrev pub IsBlocking : Process → Type 0
IsBlocking p = (get_elem? p.masks 0 ≡ some (λ s. false)) × AllMasks p.masks

blocked_set-exempt : (s : Signal) → (blocked_set s && is_blockable s) ≡ not (is_exempt s)
blocked_set-exempt sigbus = refl
blocked_set-exempt sigwinch = refl
blocked_set-exempt sigterm = refl
blocked_set-exempt sighup = refl
blocked_set-exempt sigint = refl
blocked_set-exempt (other_signal n) = ground arith

-- After block_signals a thread blocks all but the exempt signals, whichever of the two it had.
pub block_signals-IsMask :
    (m : Mask) → IsMask m → (s : Signal) → block_signals m s ≡ not (is_exempt s)
unfolding block_signals
block_signals-IsMask m (b, h) s = ground (arith, h s, blocked_set-exempt s)
