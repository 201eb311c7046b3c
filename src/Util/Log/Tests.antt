-- ===== src/Util/Log/Tests.antt =====
-- The log after two short messages, and the theorems there.
use flopnix.Base.{ℕ, ◌≡◌, refl, List, [], ◌∷◌}
use flopnix.Util.Log.{log_half, klog}
use flopnix.Util.Log.Laws.{IsTail, log_all, logged, log_all-IsTail}

abbrev messages : List (List ℕ)
messages = (b'h' ∷ b'i' ∷ []) ∷ (b'!' ∷ []) ∷ []

abbrev line : List ℕ
line = b'h' ∷ []

log_run : log_all messages [] ≡ b'h' ∷ b'i' ∷ b'!' ∷ []
unfolding log_all klog
log_run = refl

log_all-IsTail_example : IsTail log_half (logged messages) (log_all messages [])
log_all-IsTail_example = log_all-IsTail messages
