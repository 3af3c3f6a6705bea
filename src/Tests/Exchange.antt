-- ===== src/Tests/Exchange.antt =====
-- The import of a file in which a forwarder has collected one answer.
use mathlib.Core.List.{Mem, Memᴰ}
use frl_online_proxy.Prelude.{◌≡◌, refl, some, List, [], ◌∷◌, sort_by, text_leb}
use frl_online_proxy.Outcome.{ok}
use frl_online_proxy.Settings.{cache, forward}
use frl_online_proxy.Cops.{Request, Response}
use frl_online_proxy.Cache.Keys.{activation_id, deactivation_id}
use frl_online_proxy.Cache.Tables.{Tables, insert_or_replace, delete_where}
use frl_online_proxy.Cache.Engine.{Conn, IsHealthy, step, execute, query, transaction}
use frl_online_proxy.Cache.Store.{
  activation_request_row, store_activation_request, store_activation_response,
}
use frl_online_proxy.Cache.Fetch.{
  fetch_forwarded_pairs, fetch_forwarded_activations, fetch_forwarded_deactivations, inner_join,
  respond, request_from_activation_row, response_from_activation_row, request_from_deactivation_row,
  response_from_deactivation_row,
}
use frl_online_proxy.Cache.Fetch.Forwarded.{fetch_forwarded_pairs-Mem}
use frl_online_proxy.Cache.Fetch.Answers.{held}
use frl_online_proxy.Cache.Invariant.{empty-IsWellFormed}
use frl_online_proxy.Cache.Open.{File, db_init}
use frl_online_proxy.Cache.Contract.{readdressed}
use frl_online_proxy.Cache.Exchange.{import, read_pairs}
use frl_online_proxy.Cache.Exchange.Refines.{import-refines}
use frl_online_proxy.Tests.Samples.{activate, license, fresh, open_in}
use frl_online_proxy.Tests.Cache.{plain, working}

abbrev collected : Tables
collected =
    (store_activation_response forward activate license
      (store_activation_request activate fresh).1).1.tables

abbrev brought : File
brought = record { content = some collected; faults = [] }

-- The response goes with the time of the request.
abbrev pairs : List (Request × Response)
pairs = (activate, record license { timestamp = "2021-03-01T00:00:10.000+0000" }) ∷ []

readable : read_pairs brought ≡ ok pairs
unfolding fetch_forwarded_pairs db_init step fetch_forwarded_activations query
    fetch_forwarded_deactivations sort_by inner_join store_activation_response transaction
    store_activation_request execute insert_or_replace delete_where activation_request_row
    activation_id deactivation_id request_from_activation_row response_from_activation_row
    request_from_deactivation_row response_from_deactivation_row text_leb
readable = refl

import-refines_example :
    ((import brought (open_in cache)).0 ≡ ok tt)
    × (d : Conn) × ((import brought (open_in cache)).1.db_pool ≡ some d)
    × (held d.tables activate ≡ some (readdressed activate license activate))
unfolding activation_id deactivation_id
import-refines_example =
    import-refines (open_in cache) fresh brought pairs activate refl empty-IsWellFormed working
      readable (plain, tt) plain

-- The forwarder's cache, with the request that was exported to it.
abbrev exported : Conn
exported = (store_activation_request activate fresh).1

collects : (store_activation_response forward activate license exported).0 ≡ ok tt
unfolding store_activation_response store_activation_request transaction execute step
collects = refl

working_still : IsHealthy (store_activation_response forward activate license exported).1
unfolding store_activation_response store_activation_request transaction execute step
working_still = record { opened = refl; faultless = refl }

is_stored : Mem (activation_request_row activate) exported.tables.activation_requests
unfolding store_activation_request transaction execute step insert_or_replace delete_where
is_stored = ∣ Memᴰ.head refl ∣₁

fetch_forwarded_pairs-Mem_example :
    (l : List (Request × Response)) × ((fetch_forwarded_pairs
        (store_activation_response forward activate license exported).1).0
      ≡ ok l)
    × Mem (activate, respond activate activate.timestamp "license") l
fetch_forwarded_pairs-Mem_example =
    fetch_forwarded_pairs-Mem activate license "license" exported refl refl is_stored collects
      working_still
