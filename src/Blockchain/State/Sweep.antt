-- ===== src/Blockchain/State/Sweep.antt =====
-- A loop over the stored events that updates the status of some of them, as the indexer and the
-- reconciliation run it, and what it leaves.
use truthbounty_api.Prelude.{
  ℕ, ◌≡◌, refl, sym, ap, ◌∙◌, subst, Option, none, some, List, [], ◌∷◌, ◌++◌, nat_eq, string_eq,
  pair_eq, option_eq, Result, ok, ◌>>=◌,
}
use truthbounty_api.Prelude.Maps.{
  JsMap, values, IsMap, put-IsMap, get-middle, put-middle, get-before,
}
use truthbounty_api.Blockchain.Types.{EventId, PendingEvent, Status, ChainState}
use truthbounty_api.Blockchain.State.{State, update_event_status, with_status, recount}
use truthbounty_api.Blockchain.State.Counting.{update_event_status-some}
use mathlib.Core.List.{append_assoc}
use mathlib.Core.Path.{fun_ext}

-- What to do with an event: nothing, or a new status with a number of confirmations.
abbrev pub Plan : Type 0
Plan = PendingEvent → Option (Status × ℕ)

abbrev pub planned : Option (Status × ℕ) → ℕ → PendingEvent → PendingEvent
planned none now e = e
planned (some (st, n)) now e = with_status st (some n) now e

abbrev pub recounted : Option (Status × ℕ) → PendingEvent → ChainState → ChainState
recounted none e c = c
recounted (some (st, n)) e c = recount st e.status c

unfoldable pub update : Option (Status × ℕ) → ℕ → PendingEvent → State → Result State
update none now e s = ok s
update (some (st, n)) now e s = update_event_status e.id st (some n) now s

unfoldable pub sweep : Plan → ℕ → List PendingEvent → State → Result State
unfolding update
sweep plan now [] s = ok s
sweep plan now (e ∷ es) s = update (plan e) now e s >>= λ t. sweep plan now es t

abbrev pub map_events :
    (PendingEvent → PendingEvent) → JsMap EventId PendingEvent → JsMap EventId PendingEvent
map_events f [] = []
map_events f ((k, e) ∷ m) = (k, f e) ∷ map_events f m

abbrev pub mapped {ℓ} : {A : Type ℓ} → (A → A) → Option A → Option A
mapped f none = none
mapped f (some e) = some (f e)

abbrev pub recount_all : Plan → List PendingEvent → ChainState → ChainState
recount_all plan [] c = c
recount_all plan (e ∷ es) c = recount_all plan es (recounted (plan e) e c)

-- Each event stands under its own id.
abbrev pub IsKeyed : JsMap EventId PendingEvent → Type 0
IsKeyed [] = Unit
IsKeyed ((k, e) ∷ m) = (e.id ≡ k) × IsKeyed m

pub with_status-id :
    (st : Status) (n : Option ℕ) (now : ℕ) (e : PendingEvent) → (with_status st n now e).id ≡ e.id
with_status-id Status.pending n now e = refl
with_status-id Status.confirmed n now e = refl
with_status-id Status.orphaned n now e = refl

abbrev pub at_events : State → JsMap EventId PendingEvent → ChainState → State
at_events s m c = record s { events = m; chain_state = c }

update-middle :
    (o : Option (Status × ℕ)) (now : ℕ) (s : State) (c : ChainState) (e : PendingEvent)
    (m n : JsMap EventId PendingEvent)
    → IsMap (m ++ ((e.id, e) ∷ n))
    → update o now e (at_events s (m ++ ((e.id, e) ∷ n)) c)
      ≡ ok (at_events s (m ++ ((e.id, planned o now e) ∷ n)) (recounted o e c))
unfolding update
update-middle none now s c e m n w = refl
update-middle (some (st, a)) now s c e m n w =
    let old = get-before e.id e m n w in
    update_event_status-some e.id st (some a) now (at_events s (m ++ ((e.id, e) ∷ n)) c) e
      (get-middle e.id e m n old)
    ∙ ap (λ q. ok (at_events s q (recount st e.status c)))
        (put-middle e.id e (with_status st (some a) now e) m n old)

-- The same, at a key that is the event's id.
update-at :
    (o : Option (Status × ℕ)) (now : ℕ) (s : State) (c : ChainState) (k : EventId)
    (e : PendingEvent) (m n : JsMap EventId PendingEvent)
    → e.id ≡ k
    → IsMap (m ++ ((k, e) ∷ n))
    → update o now e (at_events s (m ++ ((k, e) ∷ n)) c)
      ≡ ok (at_events s (m ++ ((k, planned o now e) ∷ n)) (recounted o e c))
update-at o now s c k e m n p =
    subst
      (λ j.
        IsMap (m ++ ((j, e) ∷ n))
        → update o now e (at_events s (m ++ ((j, e) ∷ n)) c)
          ≡ ok (at_events s (m ++ ((j, planned o now e) ∷ n)) (recounted o e c)))
      p (update-middle o now s c e m n)

IsMap-middle :
    (k : EventId) (e f : PendingEvent) (m n : JsMap EventId PendingEvent)
    → IsMap (m ++ ((k, e) ∷ n))
    → IsMap (m ++ ((k, f) ∷ n))
IsMap-middle k e f m n w =
    subst IsMap (put-middle k e f m n (get-before k e m n w)) (put-IsMap k f (m ++ ((k, e) ∷ n)) w)

sweep-middle :
    (plan : Plan) (now : ℕ) (s : State) (c : ChainState) (m n : JsMap EventId PendingEvent)
    → IsMap (m ++ n)
    → IsKeyed n
    → sweep plan now (values n) (at_events s (m ++ n) c)
      ≡ ok (
          at_events s
            (m ++ map_events (λ e. planned (plan e) now e) n)
            (recount_all plan (values n) c))
unfolding sweep
sweep-middle plan now s c m [] w h = refl
sweep-middle plan now s c m ((k, e) ∷ n) w h =
    let f = planned (plan e) now e in
    let rest = recounted (plan e) e c in
    let assoc = append_assoc m ((k, f) ∷ []) in
    rw (update-at (plan e) now s c k e m n h.0 w) (
      subst
        (λ (q : JsMap EventId PendingEvent → JsMap EventId PendingEvent).
          sweep plan now (values n) (at_events s (q n) rest)
          ≡ ok (
              at_events s (q (map_events (λ x. planned (plan x) now x) n))
                (recount_all plan (values n) rest)))
        (fun_ext assoc)
        (sweep-middle plan now s rest (m ++ ((k, f) ∷ [])) n
          (subst IsMap (sym (assoc n)) (IsMap-middle k e f m n w)) h.1))

-- A sweep over all events of a map with distinct keys, each event under its own id, never throws: it
-- changes every event by the plan, and nothing else but the counts.
pub sweep_lem :
    (plan : Plan) (now : ℕ) (s : State)
    → IsMap s.events
    → IsKeyed s.events
    → sweep plan now (values s.events) s
      ≡ ok (
          at_events s
            (map_events (λ e. planned (plan e) now e) s.events)
            (recount_all plan (values s.events) s.chain_state))
sweep_lem plan now s w h = sweep-middle plan now s s.chain_state [] s.events w h
