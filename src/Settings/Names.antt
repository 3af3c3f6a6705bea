-- ===== src/Settings/Names.antt =====
-- settings.rs: `TryFrom<&str>` of `ProxyMode`, `LogDestination` and `LogLevel`, which take any
-- prefix of a name in any case.
use frl_online_proxy.Prelude.{
  String, ◌≡◌, refl, ◌≢◌, ◌↔◌, Bool, true, List, map, arith, codes, lower, is_prefix, if◌then◌else◌,
  ℕ,
}
use frl_online_proxy.Outcome.{Outcome, ok, err, Report}
use frl_online_proxy.Settings.{
  ProxyMode, cache, store, forward, passthrough, LogDestination, console, file, LogLevel, off,
  error, warn, info, debug, trace,
}
use Prim.Native.String

-- `s.to_ascii_lowercase()`, by its code points
abbrev pub lowered : String → List ℕ
lowered s = map lower (codes s)

-- `name.starts_with(&sl)`
abbrev begins : String → List ℕ → Bool
begins name sl = is_prefix sl (codes name)

abbrev pub mode_name : ProxyMode → String
mode_name cache = "cache"
mode_name store = "store"
mode_name forward = "forward"
mode_name passthrough = "passthrough"

abbrev pub destination_name : LogDestination → String
destination_name console = "console"
destination_name file = "file"

abbrev pub level_name : LogLevel → String
level_name off = "off"
level_name error = "error"
level_name warn = "warn"
level_name info = "info"
level_name debug = "debug"
level_name trace = "trace"

abbrev quoted : String → String → String → Report
quoted before s after = record { message = String.◌++◌ before (String.◌++◌ s after) }

unfoldable pub mode_try_from : String → Outcome Report ProxyMode
mode_try_from s =
    let sl = lowered s in
    if begins "cache" sl
    then ok cache
    else if begins "store" sl
    then ok store
    else if begins "forward" sl
    then ok forward
    else if begins "passthrough" sl
    then ok passthrough
    else err (quoted "proxy mode '" s "' must be a prefix of cache, store, forward or passthrough")

unfoldable pub destination_try_from : String → Outcome Report LogDestination
destination_try_from s =
    let sl = lowered s in
    if begins "console" sl
    then ok console
    else if begins "file" sl
    then ok file
    else err (quoted "log destination '" s "' must be a prefix of console or file")

unfoldable pub level_try_from : String → Outcome Report LogLevel
level_try_from s =
    let sl = lowered s in
    if begins "off" sl
    then ok off
    else if begins "error" sl
    then ok error
    else if begins "warn" sl
    then ok warn
    else if begins "info" sl
    then ok info
    else if begins "debug" sl
    then ok debug
    else if begins "trace" sl
    then ok trace
    else err
        (quoted "log level '" s "' must be a prefix of off, error, warn, info, debug, or trace")

-- A non-empty text is read as a mode exactly if it is, in any case, a prefix of the mode's name.
mode_try_from_iff :
    (s : String) (m : ProxyMode)
    → s ≢ ""
    → (mode_try_from s ≡ ok m) ↔ (is_prefix (lowered s) (codes (mode_name m)) ≡ true)
unfolding mode_try_from
mode_try_from_iff String.[] m h = absurd (h refl)
mode_try_from_iff (String.◌∷◌ c s) cache h = ground arith
mode_try_from_iff (String.◌∷◌ c s) store h = ground arith
mode_try_from_iff (String.◌∷◌ c s) forward h = ground arith
mode_try_from_iff (String.◌∷◌ c s) passthrough h = ground arith

-- A non-empty text is read as a destination exactly if it is, in any case, a prefix of its name.
destination_try_from_iff :
    (s : String) (d : LogDestination)
    → s ≢ ""
    → (destination_try_from s ≡ ok d) ↔ (is_prefix (lowered s) (codes (destination_name d)) ≡ true)
unfolding destination_try_from
destination_try_from_iff String.[] d h = absurd (h refl)
destination_try_from_iff (String.◌∷◌ c s) console h = ground arith
destination_try_from_iff (String.◌∷◌ c s) file h = ground arith

-- A non-empty text is read as a level exactly if it is, in any case, a prefix of the level's name.
level_try_from_iff :
    (s : String) (l : LogLevel)
    → s ≢ ""
    → (level_try_from s ≡ ok l) ↔ (is_prefix (lowered s) (codes (level_name l)) ≡ true)
unfolding level_try_from
level_try_from_iff String.[] l h = absurd (h refl)
level_try_from_iff (String.◌∷◌ c s) off h = ground arith
level_try_from_iff (String.◌∷◌ c s) error h = ground arith
level_try_from_iff (String.◌∷◌ c s) warn h = ground arith
level_try_from_iff (String.◌∷◌ c s) info h = ground arith
level_try_from_iff (String.◌∷◌ c s) debug h = ground arith
level_try_from_iff (String.◌∷◌ c s) trace h = ground arith
