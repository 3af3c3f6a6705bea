-- ===== src/Proxy/Secure/Accepted.antt =====
-- Which clients the secure server accepts, when it is polled again and again.
use frl_online_proxy.Prelude.{
  ◌≡◌, ◌≤◌, refl, ap, ℕ, zero, suc, none, some, List, [], ◌∷◌, length, arith,
}
use frl_online_proxy.Outcome.{ok, err, panic}
use frl_online_proxy.Proxy.Secure.{
  ready, pending, finished, unfinished, Connection, connected, refused, poll_accept,
}

module _ {S : Type 0} where
  -- The clients whose handshake succeeds, up to the first whose handshake does not end.
  abbrev pub admissible : List (Connection S) → List S
  admissible [] = []
  admissible (refused e ∷ rest) = admissible rest
  admissible (connected (finished (ok x)) ∷ rest) = x ∷ admissible rest
  admissible (connected (finished (err e)) ∷ rest) = admissible rest
  admissible (connected (finished panic) ∷ rest) = []
  admissible (connected unfinished ∷ rest) = []

  -- The streams that come of a number of polls; a panic ends the server.
  pub accepted : ℕ → List (Connection S) → List S
  accepted zero waiting = []
  accepted (suc polls) waiting = elim (poll_accept waiting).0 [
    | ok (ready (some (ok x))) ↦ x ∷ accepted polls (poll_accept waiting).1
    | ok (ready (some (err e))) ↦ accepted polls (poll_accept waiting).1
    | ok (ready (some panic)) ↦ []
    | ok (ready none) ↦ []
    | ok pending ↦ accepted polls (poll_accept waiting).1
    | err e ↦ []
    | panic ↦ []
  ]

  stalled :
      (polls : ℕ) (rest : List (Connection S)) → accepted polls (connected unfinished ∷ rest) ≡ []
  unfolding poll_accept accepted
  stalled zero rest = refl
  stalled (suc polls) rest = stalled polls rest

  -- Polled at least as often as there are connections, the secure server accepts exactly the clients
  -- whose handshake succeeds, in their order, whatever connections and handshakes fail between them;
  -- but none after a client whose handshake does not end.
  pub accepted-admissible :
      (polls : ℕ) (waiting : List (Connection S))
      → length waiting ≤ polls
      → accepted polls waiting ≡ admissible waiting
  unfolding poll_accept accepted
  accepted-admissible zero [] enough = refl
  accepted-admissible zero (x ∷ rest) enough = absurd (omega arith)
  accepted-admissible (suc polls) [] enough = accepted-admissible polls [] (omega arith)
  accepted-admissible (suc polls) (refused e ∷ rest) enough =
      accepted-admissible (suc polls) rest (omega arith)
  accepted-admissible (suc polls) (connected (finished (ok x)) ∷ rest) enough =
      ap (λ l. x ∷ l) (accepted-admissible polls rest (omega arith))
  accepted-admissible (suc polls) (connected (finished (err e)) ∷ rest) enough =
      accepted-admissible (suc polls) rest (omega arith)
  accepted-admissible (suc polls) (connected (finished panic) ∷ rest) enough = refl
  accepted-admissible (suc polls) (connected unfinished ∷ rest) enough = stalled polls rest
