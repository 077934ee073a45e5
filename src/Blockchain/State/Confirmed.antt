-- ===== src/Blockchain/State/Confirmed.antt =====
-- What `evictOldEvents` leaves: it drops confirmed events only.
use mathlib.Core.List.{Mem, mem-append_left, mem-cons, not-mem-nil}
use mathlib.Core.List.Perm
use mathlib.Core.Logic.Or
use mathlib.Core.HLevel.{⊥_prop}
use mathlib.Core.Logic.{◌∨₁◌, ∨₁_prop}
use truthbounty_api.Prelude.{
  ◌===◌, beq_refl, eq_of_beq, ℕ, ◌-◌, Option, ◌≡◌, ◌≢◌, ◌∙◌, inl, inr, some, List, [], ◌∷◌, arith,
  leb, min, length, take, drop, take-append-drop, Bool-cases, nat_eq, string_eq, pair_eq, option_eq,
  none, subst,
}
use truthbounty_api.Prelude.Maps.{JsMap, get, get-delete_all_ne, IsMap}
use truthbounty_api.Prelude.Sorting.{sort_by, sort_by-perm}
use truthbounty_api.Blockchain.Types.{EventId, PendingEvent, confirmed, status_beq}
use truthbounty_api.Blockchain.State.{State, firsts, confirmed_times, evict_old_events, time_rank}
use truthbounty_api.Blockchain.State.Eviction.{firsts-append, firsts-perm}

listed-confirmed_cons :
    (id j : EventId) (f : PendingEvent) (m : JsMap EventId PendingEvent)
    → Mem id (firsts (confirmed_times ((j, f) ∷ m)))
    → ((f.status ≡ confirmed) × (id ≡ j)) ∨₁ Mem id (firsts (confirmed_times m))
listed-confirmed_cons id j f m h = elim (Bool-cases (status_beq f.status confirmed)) [
  | inl same ↦
      let h' : Mem id (j ∷ firsts (confirmed_times m)) = rw same at h in
      Or.elim ∨₁_prop (mem-cons.0 h') (λ p. Or.inl (ground arith, p)) (λ t. Or.inr t)
  | inr other ↦ Or.inr (rw other at h)
]

listed-get :
    (id : EventId) (m : JsMap EventId PendingEvent)
    → Mem id (firsts (confirmed_times m))
    → get id m ≢ none
listed-get id [] h = absurd (not-mem-nil h)
listed-get id ((j, f) ∷ m) h = elim (Bool-cases (j === id)) [
  | inl same ↦ rw same (λ p. cc)
  | inr other ↦ rw other (
      Or.elim (hlevel) (listed-confirmed_cons id j f m h)
        (λ (c : (f.status ≡ confirmed) × (id ≡ j)). cc (beq_refl id, other, c.1)) (listed-get id m))
]

-- Only confirmed events are listed for eviction.
pub listed-confirmed :
    (id : EventId) (e : PendingEvent) (m : JsMap EventId PendingEvent)
    → IsMap m
    → get id m ≡ some e
    → e.status ≢ confirmed
    → ¬ Mem id (firsts (confirmed_times m))
listed-confirmed id e [] w g n h = not-mem-nil h
listed-confirmed id e ((j, f) ∷ m) w g n h = elim (Bool-cases (j === id)) [
  | inl same ↦
      Or.elim ⊥_prop (listed-confirmed_cons id j f m h)
        (λ c. let p : some f ≡ some e = rw same at g in n (ground (arith, p, c.0)))
        (λ t. listed-get id m t (rw (eq_of_beq j id same) at (w.0)))
  | inr other ↦
      Or.elim ⊥_prop (listed-confirmed_cons id j f m h) (λ c. cc (beq_refl id, other, c.1))
        (listed-confirmed id e m w.1 (rw other at g) n)
]

abbrev pub by_time : JsMap EventId PendingEvent → List (EventId × Option ℕ)
by_time m = sort_by (λ (p : EventId × Option ℕ). time_rank p.1) (confirmed_times m)

pub mem-by_time :
    (id : EventId) (m : JsMap EventId PendingEvent) (k : ℕ)
    → Mem id (firsts (take k (by_time m)))
    → Mem id (firsts (confirmed_times m))
mem-by_time id m k h =
    Perm.subset (Perm.symm (firsts-perm (sort_by-perm _ (confirmed_times m)))) id (
      subst (λ l. Mem id (firsts l)) (take-append-drop k (by_time m))
        (rw (firsts-append (take k (by_time m)) (drop k (by_time m))) (mem-append_left _ h)))

-- Event eviction drops confirmed events only: an event that is stored and not confirmed is still
-- there afterwards, whatever the limit is, where the map's keys are distinct.
evict_old_events_keeps_unconfirmed :
    (id : EventId) (e : PendingEvent) (s : State)
    → IsMap s.events
    → get id s.events ≡ some e
    → e.status ≢ confirmed
    → get id (evict_old_events s).events ≡ some e
unfolding evict_old_events
evict_old_events_keeps_unconfirmed id e s w g n =
    elim (Bool-cases (leb (length s.events) s.max_events_in_memory)) [
      | inl fits ↦ rw (fits, evict_old_events) g
      | inr full ↦
          let k = min (length s.events - s.max_events_in_memory) (length (by_time s.events)) in
          rw (full, evict_old_events)
            (get-delete_all_ne (firsts (take k (by_time s.events))) id s.events
                (λ h. listed-confirmed id e s.events w g n (mem-by_time id s.events k h))
              ∙ g)
    ]
