-- ===== src/Tunnel/Tls/Guards.antt =====
-- What holds of a session whose ClientHello `handleTLS` has passed on.
use enimul.Common.{ℕ, List, [], ◌∷◌, ◌++◌, Bytes, ◌≡◌}
use enimul.Common.Int.{ℤ}
use enimul.Modes.{
  Mode, mode_unset, mode_raw, mode_direct, mode_tlsrf, mode_ttld, mode_block, mode_tls_alert,
}
use enimul.Policy.{Policy}
use enimul.Tunnel.{Event, sent, fragmented, desynced, Session}

-- How a mode passes a record on: as one event, or as none where the mode sends nothing.
abbrev pub Passes : Mode → ℕ → Bytes → Policy → List Event → Type 0
Passes mode_direct c rec p es = es ≡ sent c rec ∷ []
Passes mode_raw c rec p es = es ≡ sent c rec ∷ []
Passes mode_tlsrf c rec p es = es ≡ fragmented c p rec ∷ []
Passes mode_ttld c rec p es = (ttl : ℤ) × (es ≡ desynced c rec ttl ∷ [])
Passes mode_unset c rec p es = es ≡ []
Passes mode_block c rec p es = es ≡ []
Passes mode_tls_alert c rec p es = es ≡ []

-- The events that the last step adds to the log of a session, which it leaves as it is otherwise.
abbrev pub Sends : Mode → ℕ → Bytes → Session → Session → Type 0
Sends m c rec s s' =
    (es : List Event) × (s' ≡ record s { log = s.log ++ es }) × Passes m c rec s.policy es
