-- ===== src/Tests/Server.antt =====
-- The theorems on the servers, from the acceptor of the secure one to the interrupt that ends them.
use frl_online_proxy.Prelude.{◌≡◌, refl, arith, ℕ, List, [], ◌∷◌}
use frl_online_proxy.Outcome.{ok, err, Report}
use frl_online_proxy.Proxy.Secure.{Connection, connected, refused, finished, unfinished}
use frl_online_proxy.Proxy.Secure.Accepted.{admissible, accepted, accepted-admissible}

abbrev failure : Report
failure = record { message = "tls" }

-- The second client is refused, the handshake of the third fails, and that of the fifth does not end.
abbrev clients : List (Connection ℕ)
clients =
    connected (finished (ok 1))
    ∷ refused failure
    ∷ connected (finished (err failure))
    ∷ connected (finished (ok 4))
    ∷ connected unfinished
    ∷ connected (finished (ok 6))
    ∷ []

accepted-admissible_example : accepted 6 clients ≡ admissible clients
accepted-admissible_example = accepted-admissible 6 clients (omega arith)

admissible-clients : admissible clients ≡ 1 ∷ 4 ∷ []
admissible-clients = refl
