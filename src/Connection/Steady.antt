-- ===== src/Connection/Steady.antt =====
-- What no handler changes: the configuration of the connection, its place in the server's count, that
-- nobody listens for a disconnect, and that a connection which has timed out has closed its socket.
use smartmet_server.Base.{List, Bool, not, ◌||◌, true, false, [], ◌∷◌, ◌≡◌, ◌∙◌}
use smartmet_server.World.{World, Effect, disconnect_listen, close_socket}
use smartmet_server.Connection.State.{Conn}

-- Whether a read with notifyClientDisconnect as its handler was ever started.
unfoldable pub listens : {V : Type 0} → List (Effect V) → Bool
listens [] = false
listens (disconnect_listen ch ∷ log) = true
listens (_ ∷ log) = listens log

-- Whether the socket was closed.
unfoldable pub was_closed : {V : Type 0} → List (Effect V) → Bool
was_closed [] = false
was_closed (close_socket ∷ log) = true
was_closed (_ ∷ log) = was_closed log

module _ {w : World} where
  -- A connection that has timed out has closed its socket.
  abbrev pub is_sealed : Conn w → Bool
  is_sealed c = not c.has_timed_out || was_closed c.log

  -- From `c` to `d` the configuration, the counted flag, the flag of a disconnect and the listening are
  -- what they were, and a timeout leaves the socket closed.
  abbrev pub IsSteady : Conn w → Conn w → Type 0
  IsSteady c d =
      (d.settings ≡ c.settings)
      × ((d.counted ≡ c.counted)
          × ((d.prematurely_disconnected ≡ c.prematurely_disconnected)
              × ((listens d.log ≡ listens c.log) × (is_sealed c ≡ true → is_sealed d ≡ true))))

  pub IsSteady-trans : (c d e : Conn w) → IsSteady c d → IsSteady d e → IsSteady c e
  IsSteady-trans c d e (s, (n, (p, (l, h)))) (s', (n', (p', (l', h')))) =
      (s' ∙ s, (n' ∙ n, (p' ∙ p, (l' ∙ l, λ x. h' (h x)))))
