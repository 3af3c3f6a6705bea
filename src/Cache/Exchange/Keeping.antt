-- ===== src/Cache/Exchange/Keeping.antt =====
-- What an import, an export, clearing and closing keep of the databases.
pub mod Exports
use mathlib.Core.Path.{subst}
use frl_online_proxy.Prelude.{
  ◌≡◌, ◌⊎◌, inl, inr, refl, sym, Bool, true, false, Option, none, some, List, [], ◌∷◌, All, arith,
  if◌then◌else◌,
}
use frl_online_proxy.Outcome.{Outcome, ok, err, panic, Report}
use frl_online_proxy.Exec.{
  Exec, ◌>>=◌, ◌>>◌, Keeps, Keeps-bind, Keeps-after, Keeps-if, Keeps-lift, lift, pure,
}
use frl_online_proxy.Settings.{ProxyMode, cache}
use frl_online_proxy.Cops.{Request, Response}
use frl_online_proxy.Cache.Keys.{IsPlain}
use frl_online_proxy.Cache.Tables.{Tables, empty}
use frl_online_proxy.Cache.Engine.{Conn, Db, step, execute, transaction, close}
use frl_online_proxy.Cache.Engine.Laws.{Keeps-Writes, Writes-transaction, Runs-execute}
use frl_online_proxy.Cache.Fetch.{fetch_forwarded_pairs, fetch_unanswered_requests}
use frl_online_proxy.Cache.Invariant.Clean.{IsClean, empty-IsClean}
use frl_online_proxy.Cache.Invariant.Clean.Reads.{
  fetch_unanswered_requests-IsPlain, fetch_forwarded_pairs-IsPlain,
}
use frl_online_proxy.Cache.Open.{
  Cache, File, on_pool, found, db_init, close_cache, clear_all, clear,
}
use frl_online_proxy.Cache.Methods.{request_action, response_action}
use frl_online_proxy.Cache.Methods.Keeping.{
  Holds, KeepsTables, on_pool-Holds, request_action-Holds, response_action-Holds, IsClean-IsKept,
  unanswered-tables,
}
use frl_online_proxy.Cache.Exchange.{
  store_requests, store_pairs, pairs_in, read_pairs, import, Exchange, on_cache, write_out, export,
}

-- The tables of a file, if there is one, are clean.
abbrev InContent : Option Tables → Type 0
InContent none = Unit
InContent (some t) = IsClean t

abbrev pub IsCleanFile : File → Type 0
IsCleanFile f = InContent f.content

abbrev pub OnTables : Conn → Type 0
OnTables c = IsClean c.tables

db_init-tables :
    (create : Bool) (f : File) (c : Conn)
    → db_init create f ≡ ok c
    → (f.content ≡ some c.tables) ⊎ ((f.content ≡ none) × (c.tables ≡ empty))
unfolding db_init step
db_init-tables create f c h = ground arith

pub db_init-IsClean :
    (create : Bool) (f : File) (c : Conn)
    → IsCleanFile f
    → db_init create f ≡ ok c
    → IsClean c.tables
db_init-IsClean create f c h e = elim (db_init-tables create f c e) [
  | inl there ↦ subst InContent there h
  | inr p ↦ subst IsClean (sym p.1) empty-IsClean
]

store_pairs-Keeps :
    (pairs : List (Request × Response))
    → All (λ p. IsPlain p.0) pairs
    → Keeps OnTables (store_pairs pairs)
unfolding store_pairs
store_pairs-Keeps [] h = Keeps-lift (ok tt)
store_pairs-Keeps ((req, resp) ∷ pairs) (p, h) =
    Keeps-bind (response_action req.kind cache req resp) _
      (record { at = response_action-Holds IsClean IsClean-IsKept req.kind cache req resp p })
      λ _. store_pairs-Keeps pairs h

read_pairs-IsPlain :
    (f : File) (pairs : List (Request × Response))
    → IsCleanFile f
    → read_pairs f ≡ ok pairs
    → All (λ p. IsPlain p.0) pairs
read_pairs-IsPlain f pairs h e = go (db_init false f) refl (ground arith)
  where
    go :
        (o : Outcome Report Conn)
        → db_init false f ≡ o
        → pairs_in o ≡ ok pairs
        → All (λ p. IsPlain p.0) pairs
    go panic i got = cc
    go (err x) i got = cc
    go (ok c) i got = fetch_forwarded_pairs-IsPlain c pairs (db_init-IsClean false f c h i) got

pub on_pool-Keeps : {A : Type 0} (m : Db A) → Keeps OnTables m → Keeps (Holds IsClean) (on_pool m)
on_pool-Keeps m k = record { at = λ self h. on_pool-Holds IsClean m self k.at h }

pub close-Keeps : Keeps OnTables close
unfolding close
close-Keeps = record { at = λ c h. h }

-- An import of a file with clean tables keeps the cache clean, whatever fails.
pub import-Keeps : (f : File) → IsCleanFile f → Keeps (Holds IsClean) (import f)
unfolding import
import-Keeps f clean =
    Keeps-after (Holds IsClean) (lift (read_pairs f)) _ (Keeps-lift (read_pairs f))
      λ self pairs h got after.
        (Keeps-bind (on_pool (store_pairs pairs)) _
            (on_pool-Keeps _ (store_pairs-Keeps pairs (read_pairs-IsPlain f pairs clean got)))
            λ _. on_pool-Keeps close close-Keeps).at
          self after

pub close_cache-Keeps : Keeps (Holds IsClean) close_cache
unfolding close_cache close
close_cache-Keeps = record { at = λ self. go self.enabled self.mode self.db_pool }
  where
    go :
        (enabled : Bool) (mode : ProxyMode) (pool : Option Conn)
        → Holds IsClean (record { enabled = enabled; mode = mode; db_pool = pool })
        → Holds IsClean (close_cache (record { enabled = enabled; mode = mode; db_pool = pool })).1
    go false mode pool h = h
    go true mode none h = tt
    go true mode (some c) h = h

clear_all-Keeps : Keeps OnTables (transaction (execute clear_all))
clear_all-Keeps = record {
  at =
      (Keeps-Writes {P = IsClean} (Writes-transaction (Runs-execute clear_all))
        λ t h. empty-IsClean).at;
}

pub clear-Keeps :
    (sure : Bool) (answer : Outcome Report Bool) → Keeps (Holds IsClean) (clear sure answer)
unfolding clear
clear-Keeps sure answer =
    Keeps-bind (lift (if sure then ok true else answer)) _ (Keeps-lift _) λ confirm.
      Keeps-bind (if confirm then on_pool (transaction (execute clear_all)) else pure tt) _
        (Keeps-if confirm (on_pool-Keeps _ clear_all-Keeps) (Keeps-lift (ok tt)))
        λ _. close_cache-Keeps
