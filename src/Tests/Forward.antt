-- ===== src/Tests/Forward.antt =====
-- The theorems on an export and on a forwarding that COPS grants, of an activation and a deactivation.
use frl_online_proxy.Prelude.{◌≡◌, refl, Perm, All, All-sort_by, some, [], ◌∷◌, map, sort_by}
use frl_online_proxy.Outcome.{Outcome, ok, Report}
use frl_online_proxy.Settings.{forward}
use frl_online_proxy.Cops.Send.{
  to_network, by_kind, to_activation, to_deactivation, deactivation_uri,
}
use frl_online_proxy.Cache.Tables.{Tables, empty}
use frl_online_proxy.Cache.Engine.{Conn}
use frl_online_proxy.Cache.Store.{activation_request_row, deactivation_request_row}
use frl_online_proxy.Cache.Fetch.{request_from_deactivation_row, request_from_activation_row}
use frl_online_proxy.Cache.Invariant.{IsWellFormed, IsStored-row, IsStoredDeactivation-row}
use frl_online_proxy.Cache.Open.{Cache}
use frl_online_proxy.Cache.Methods.{fetch_forwarding_requests}
use frl_online_proxy.Cache.Methods.Laws.{IsLive}
use frl_online_proxy.Cache.Exchange.{Exchange, export}
use frl_online_proxy.Cache.Exchange.Exported.Complete.{no_file, export_complete}
use frl_online_proxy.Cache.Fetch.Unanswered.{waiting}
use frl_online_proxy.Proxy.Call.{call_cops}
use frl_online_proxy.Proxy.Forward.{Tally, forward_stored_requests}
use frl_online_proxy.Proxy.Forward.Complete.{forward_stored_requests_complete}
use frl_online_proxy.Proxy.Forward.Granted.{Granted}
use frl_online_proxy.Proxy.Forward.Held.{FetchedAnswers}
use frl_online_proxy.Tests.Samples.{activate, revoke, granted, world, conf_in, fresh, open_in}

abbrev collected : Tables
collected = record empty {
  activation_requests = activation_request_row activate ∷ [];
  deactivation_requests = deactivation_request_row revoke ∷ [];
}

abbrev pool : Conn
pool = record fresh { tables = collected }

abbrev self : Cache
self = record (open_in forward) { db_pool = some pool }

live : IsLive self collected
live = record {
  on = refl;
  pool = pool;
  is_pool = refl;
  healthy = record { opened = refl; faultless = refl };
  holds = refl;
}

well_formed : IsWellFormed collected
well_formed = record {
  activation_requests = (tt, tt);
  deactivation_requests = (tt, tt);
  activation_responses = tt;
  deactivation_responses = tt;
  stored = (IsStored-row activate, tt);
  stored_deactivations = (IsStoredDeactivation-row revoke, tt);
  keyed = tt;
}

grants_activation :
    Granted
      (world granted)
      (conf_in forward)
      (request_from_activation_row (activation_request_row activate))
unfolding call_cops to_network by_kind to_activation activation_request_row
    request_from_activation_row
grants_activation = record {
  resp = granted;
  text = "license";
  succeeds = record { got_it = refl; status = refl; body = refl };
}

grants_deactivation :
    Granted
      (world granted)
      (conf_in forward)
      (request_from_deactivation_row (deactivation_request_row revoke))
unfolding call_cops to_network by_kind to_deactivation deactivation_uri deactivation_request_row
    request_from_deactivation_row
grants_deactivation = record {
  resp = granted;
  text = "license";
  succeeds = record { got_it = refl; status = refl; body = refl };
}

abbrev grants :
    All (Granted (world granted) (conf_in forward)) (sort_by (λ r. r.timestamp) (waiting collected))
grants =
    All-sort_by (λ r. r.timestamp) (Granted (world granted) (conf_in forward)) (waiting collected)
      (grants_activation, (grants_deactivation, tt))

abbrev run : Outcome Report Tally × Cache
run = forward_stored_requests (world granted) (conf_in forward) "2021-03-01T00:00:50.000+0000" self

forward_stored_requests_complete_example :
    ((tally : Tally) × (run.0 ≡ ok tally))
    × FetchedAnswers
        (world granted)
        (conf_in forward)
        run.1
        (sort_by (λ r. r.timestamp) (waiting collected))
        grants
    × ((fetch_forwarding_requests run.1).0
        ≡ ok (
            sort_by
              (λ r. r.timestamp)
              (map request_from_deactivation_row collected.deactivation_requests)))
forward_stored_requests_complete_example =
    forward_stored_requests_complete (world granted) (conf_in forward)
      "2021-03-01T00:00:50.000+0000" self collected grants live refl well_formed

abbrev carried : Outcome Report (Unit {0}) × Exchange
carried = export (record { self = self; file = no_file })

export_complete_example :
    (carried.0 ≡ ok tt)
    × ((out : Tables) × (carried.1.file.content ≡ some out)
        × Perm (waiting out) (waiting collected))
export_complete_example = export_complete self collected live well_formed
