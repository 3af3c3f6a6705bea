-- ===== src/Proxy/Concurrent/Schedule/Runs.antt =====
-- What is run is a run of the step relation.
use mathlib.Core.Path.{subst}
use mathlib.Core.List.{append-nil, append_assoc}
use frl_online_proxy.Prelude.{
  ◌≡◌, refl, sym, ap, ℕ, zero, suc, String, Option, none, some, List, [], ◌∷◌, ◌++◌, arith, nth,
  without,
}
use frl_online_proxy.Outcome.{Outcome, Report}
use frl_online_proxy.Http.{World, HResponse}
use frl_online_proxy.Settings.{Settings}
use frl_online_proxy.Cops.{Request}
use frl_online_proxy.Proxy.Concurrent.{
  Server, Event, arrived, replied, dropped, arrive, reply, cancel, Reach, here, next,
}
use frl_online_proxy.Proxy.Concurrent.Schedule.{
  Activity, sends, answers, leaves, admitted, take_up, finish_at, settled, perform, perform_all,
}

-- A place in a list, by what is before and after it.
record Split {A : Type 0} (xs : List A) (i : ℕ) (x : A) : Type 0 where
  before : List A
  after : List A
  there : xs ≡ before ++ x ∷ after
  rest : without xs i ≡ before ++ after

nth-Split : {A : Type 0} (xs : List A) (i : ℕ) (x : A) → nth xs i ≡ some x → Split xs i x
nth-Split [] i x h = cc
nth-Split (y ∷ xs) zero x h = record {
  before = [];
  after = xs;
  there = ground (arith, h);
  rest = refl;
}
nth-Split (y ∷ xs) (suc i) x h =
    let s = nth-Split xs i x h in
    record {
      before = y ∷ s.before;
      after = s.after;
      there = ap (λ l. y ∷ l) s.there;
      rest = ap (λ l. y ∷ l) s.rest;
    }

abbrev arrival : Option Request → List Event
arrival none = []
arrival (some req) = arrived req ∷ []

abbrev answer : Outcome Report HResponse → String → Option Request → List Event
answer got now none = []
answer got now (some req) = replied req got now ∷ []

abbrev departure : Option Request → List Event
departure none = []
departure (some req) = dropped req ∷ []

without-none : {A : Type 0} (xs : List A) (i : ℕ) → nth xs i ≡ none → without xs i ≡ xs
without-none [] i h = refl
without-none (x ∷ xs) zero h = cc
without-none (x ∷ xs) (suc i) h = ap (λ l. x ∷ l) (without-none xs i h)

module _ (w : World) (conf : Settings) where
  -- The events of an activity on a server: none for what cannot be read or is not understood, and for
  -- an answer to a place, or a leaving from it, where no request waits.
  abbrev event : Activity → Server → List Event
  event (sends parts body now) s = arrival (admitted w conf parts body now)
  event (answers i got now) s = answer (settled w conf got) now (nth s.waiting i)
  event (leaves i) s = departure (nth s.waiting i)

  unfoldable events : List Activity → Server → List Event
  events [] s = []
  events (a ∷ rest) s = event a s ++ events rest (perform w conf a s)

  module _ {start s : Server} {trace : List Event} (r : Reach w conf start trace s) where
    none-Reach : Reach w conf start (trace ++ []) s
    none-Reach = subst (λ t. Reach w conf start t s) (sym (append-nil trace)) r

    take_up-Reach :
        (o : Option Request) → Reach w conf start (trace ++ arrival o) (take_up w conf o s)
    take_up-Reach none = none-Reach
    take_up-Reach (some req) = next trace (arrived req) r (arrive s req)

    finish_at-Reach :
        (i : ℕ) (got : Outcome Report HResponse) (now : String) (o : Option Request)
        → nth s.waiting i ≡ o
        → Reach w conf start (trace ++ answer got now o) (finish_at w conf i got now o s)
    finish_at-Reach i got now none h = none-Reach
    finish_at-Reach i got now (some req) h =
        let at = nth-Split s.waiting i req h in
        next trace (replied req got now) r
          (rw at.rest (reply s req got now at.before at.after at.there))

    leave-Reach :
        (i : ℕ) (o : Option Request)
        → nth s.waiting i ≡ o
        → Reach w conf start (trace ++ departure o) (record s { waiting = without s.waiting i })
    leave-Reach i none h = rw (without-none s.waiting i h) none-Reach
    leave-Reach i (some req) h =
        let at = nth-Split s.waiting i req h in
        next trace (dropped req) r (rw at.rest (cancel s req at.before at.after at.there))

    perform-Reach : (a : Activity) → Reach w conf start (trace ++ event a s) (perform w conf a s)
    perform-Reach (sends parts body now) = take_up-Reach (admitted w conf parts body now)
    perform-Reach (answers i got now) =
        finish_at-Reach i (settled w conf got) now (nth s.waiting i) refl
    perform-Reach (leaves i) = leave-Reach i (nth s.waiting i) refl

  from-Reach :
      (acts : List Activity) {start s : Server} {trace : List Event}
      → Reach w conf start trace s
      → Reach w conf start (trace ++ events acts s) (perform_all w conf acts s)
  unfolding events perform_all
  from-Reach [] r = none-Reach r
  from-Reach (a ∷ rest) {start} {s} {trace} r =
      subst (λ t. Reach w conf start t (perform_all w conf rest (perform w conf a s)))
        (append_assoc trace (event a s) (events rest (perform w conf a s)))
        (from-Reach rest (perform-Reach r a))

  -- The runs of a server are runs of the step relation.
  perform_all-Reach :
      (acts : List Activity) (s : Server)
      → Reach w conf s (events acts s) (perform_all w conf acts s)
  perform_all-Reach acts s = from-Reach acts here
