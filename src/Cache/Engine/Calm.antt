-- ===== src/Cache/Engine/Calm.antt =====
-- The steps of the database end in errors, never in panics.
use frl_online_proxy.Prelude.{arith}
use frl_online_proxy.Exec.{◌>>◌, Calm, Calm-bind}
use frl_online_proxy.Cache.Tables.{Tables}
use frl_online_proxy.Cache.Engine.{Db, step, execute, query, transaction}

pub Calm-step : Calm step
unfolding step
Calm-step = record { at = λ c h. ground arith }

pub Calm-execute : (f : Tables → Tables) → Calm (execute f)
unfolding execute
Calm-execute f = Calm-bind step _ Calm-step λ a c h. record { at = λ d k. cc }

pub Calm-query : {A : Type 0} (g : Tables → A) → Calm (query g)
unfolding query
Calm-query g = Calm-bind step _ Calm-step λ a c h. record { at = λ d k. cc }

pub Calm-transaction : (body : Db (Unit {0})) → Calm body → Calm (transaction body)
unfolding transaction
Calm-transaction body calm =
    let attempted : Calm (step >> (body >> step)) =
      Calm-bind step _ Calm-step (λ a c h. Calm-bind body _ calm (λ b d k. Calm-step)) in
    record { at = λ c h. attempted.at c (ground arith) }
