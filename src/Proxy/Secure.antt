-- ===== src/Proxy/Secure.antt =====
-- proxy/secure.rs: the clients that the secure server accepts, by the stream `incoming` and its
-- `HyperAcceptor`.
pub mod Accepted
use frl_online_proxy.Prelude.{ℕ, zero, suc, Option, none, some, List, [], ◌∷◌}
use frl_online_proxy.Outcome.{Outcome, ok, err, panic, Report}
use frl_online_proxy.Exec.{Exec, pure, ◌>>=◌}

-- `std::task::Poll`
pub data Poll (A : Type 0) : Type 0 where
  ready : A → Poll A
  pending : Poll A

-- How the handshake of a client goes: it ends with a TLS stream or an error, or the client does not
-- answer.
pub data Handshake (S : Type 0) : Type 0 where
  finished : Outcome Report S → Handshake S
  unfinished : Handshake S

-- What the listener gives: a connection with its handshake, or an error.
pub data Connection (S : Type 0) : Type 0 where
  connected : Handshake S → Connection S
  refused : Report → Connection S

module _ {S : Type 0} where
  -- `incoming`, polled once, with the connections that the listener has: the loop goes round until
  -- there is a stream to yield, or until it waits for the listener or for a handshake. The loop has
  -- no end, so that the stream has none.
  unfoldable pub poll_next :
      List (Connection S) → Outcome Report (Poll (Option S)) × List (Connection S)
  poll_next [] = (ok pending, [])
  poll_next (refused e ∷ rest) = poll_next rest
  poll_next (connected (finished (ok x)) ∷ rest) = (ok (ready (some x)), rest)
  poll_next (connected (finished (err e)) ∷ rest) = poll_next rest
  poll_next (connected (finished panic) ∷ rest) = (panic, rest)
  poll_next (connected unfinished ∷ rest) = (ok pending, connected unfinished ∷ rest)

  abbrev accept : Poll (Option S) → Poll (Option (Outcome Report S))
  accept (ready (some stream)) = ready (some (ok stream))
  accept (ready none) = ready none
  accept pending = pending

  -- `HyperAcceptor::poll_accept`
  unfoldable pub poll_accept : Exec (List (Connection S)) (Poll (Option (Outcome Report S)))
  unfolding poll_next
  poll_accept = do result ← poll_next; pure (accept result)
