-- ===== src/Blockchain/Reconcile/Depth.antt =====
-- src/blockchain/reconciliation.service.ts: which events `reconcileOrphanedEvents` confirms, by
-- their distance to the head.
use mathlib.Core.List.{Mem, mem-cons_of_mem, mem-cons_self, not-mem-nil, mem_of_ne_of_mem}
use truthbounty_api.Prelude.{
  ℕ, ◌-◌, ◌≤◌, ◌≡◌, ◌⊎◌, refl, sym, ap, ◌∙◌, subst, inl, inr, none, some, List, [], ◌∷◌, arith,
  Bool-cases, leb, nat_eq, string_eq, pair_eq, option_eq, ok, ◌===◌, eq_of_beq, beq_refl,
}
use truthbounty_api.Prelude.Maps.{JsMap, get, values, IsMap}
use truthbounty_api.Blockchain.Types.{EventId, PendingEvent, confirmed, orphaned, status_beq}
use truthbounty_api.Blockchain.State.{State, select, get_orphaned_events}
use truthbounty_api.Blockchain.State.Sweep.{IsKeyed, mapped}
use truthbounty_api.Blockchain.State.Invariant.{IsWellKeyed, get-map_events}
use truthbounty_api.Blockchain.Reorg.{calculate_confirmations, is_event_confirmed}
use truthbounty_api.Blockchain.Reconcile.{reconcile_orphaned_events}
use truthbounty_api.Blockchain.Reconcile.Revival.{
  revive_event, revived_ids, reconcile_orphaned_events-map_events,
}

-- An orphaned event at least the depth below the head.
abbrev pub IsDeepOrphan : ℕ → ℕ → PendingEvent → Type 0
IsDeepOrphan depth head e = (e.status ≡ orphaned) × (depth ≤ head - e.block_number)

abbrev ids_in : ℕ → ℕ → JsMap EventId PendingEvent → List EventId
ids_in depth head m = revived_ids depth head (select (λ e. status_beq e.status orphaned) (values m))

revive_event_cases :
    (depth head now : ℕ) (e : PendingEvent)
    → (¬ IsDeepOrphan depth head e → revive_event depth head now e ≡ e)
      × (IsDeepOrphan depth head e
          → revive_event depth head now e ≡ record e {
            status = confirmed;
            confirmations = head - e.block_number;
            confirmed_at = some now;
          })
unfolding is_event_confirmed calculate_confirmations
revive_event_cases depth head now e = (λ out. ground arith, λ d. ground arith)

-- The ids that one more event adds.
ids_in-cons :
    (depth head : ℕ) (k : EventId) (e : PendingEvent) (m : JsMap EventId PendingEvent)
    → (IsDeepOrphan depth head e → ids_in depth head ((k, e) ∷ m) ≡ e.id ∷ ids_in depth head m)
      × (¬ IsDeepOrphan depth head e → ids_in depth head ((k, e) ∷ m) ≡ ids_in depth head m)
unfolding is_event_confirmed calculate_confirmations
ids_in-cons depth head k e m = (λ d. ground arith, λ out. ground arith)

deep_or_not :
    (depth head : ℕ) (e : PendingEvent) → IsDeepOrphan depth head e ⊎ ¬ IsDeepOrphan depth head e
deep_or_not depth head e = elim (Bool-cases (status_beq e.status orphaned)) [
  | inr other ↦ inr (λ d. ground arith)
  | inl old ↦ elim (Bool-cases (leb depth (head - e.block_number))) [
    | inl deep ↦ inl (ground arith, ground arith)
    | inr shallow ↦ inr (λ d. ground arith)
  ]
]

mem-ids_in :
    (depth head : ℕ) (m : JsMap EventId PendingEvent) (id : EventId) (e : PendingEvent)
    → IsKeyed m
    → get id m ≡ some e
    → IsDeepOrphan depth head e
    → Mem id (ids_in depth head m)
mem-ids_in depth head [] id e h g d = cc
mem-ids_in depth head ((k, f) ∷ m) id e h g d =
    let more = ids_in-cons depth head k f m in
    elim (Bool-cases (k === id)) [
      | inl same ↦
          let p : some f ≡ some e = rw same at g in
          let df : IsDeepOrphan depth head f = (ground arith, ground arith) in
          subst (Mem id) (sym (more.0 df)) (rw (h.0 ∙ eq_of_beq k id same) mem-cons_self)
      | inr other ↦
          let rest = mem-ids_in depth head m id e h.1 (rw other at g) d in
          elim (deep_or_not depth head f) [
            | inl df ↦ subst (Mem id) (sym (more.0 df)) (mem-cons_of_mem f.id rest)
            | inr out ↦ subst (Mem id) (sym (more.1 out)) rest
          ]
    ]

of_mem-ids_in :
    (depth head : ℕ) (m : JsMap EventId PendingEvent) (id : EventId)
    → IsMap m
    → IsKeyed m
    → Mem id (ids_in depth head m)
    → (e : PendingEvent) × (get id m ≡ some e) × IsDeepOrphan depth head e
of_mem-ids_in depth head [] id w h i = absurd (not-mem-nil i)
of_mem-ids_in depth head ((k, f) ∷ m) id w h i =
    let more = ids_in-cons depth head k f m in
    elim (Bool-cases (k === id)) [
      | inl same ↦ elim (deep_or_not depth head f) [
        | inl df ↦ (f, rw same refl, df)
        | inr out ↦
            let (e, g, d) = of_mem-ids_in depth head m id w.1 h.1 (subst (Mem id) (more.1 out) i) in
            let gone : get id m ≡ none = rw (eq_of_beq k id same) at w.0 in cc (g, gone)
      ]
      | inr other ↦
          let apart : ¬ (id ≡ f.id) = λ p. let yes = beq_refl id in cc (yes, other, p, h.0) in
          let rest : Mem id (ids_in depth head m) = elim (deep_or_not depth head f) [
            | inl df ↦ mem_of_ne_of_mem apart (subst (Mem id) (more.0 df) i)
            | inr out ↦ subst (Mem id) (more.1 out) i
          ] in
          let (e, g, d) = of_mem-ids_in depth head m id w.1 h.1 rest in (e, rw other g, d)
    ]

-- From a state whose events stand under their own ids, no id twice, the pass never throws.
-- Afterwards each stored event that is orphaned and lies at least the confirmation depth below the
-- head is confirmed at the time of the pass with that distance as its number of confirmations,
-- its other fields as before; each other stored event is the same; no event is added; and blocks
-- and history are the same. The returned ids are those of the confirmed events, no others. The
-- depth alone decides: the event's block need not be canonical, where comments in the code ask
-- for a canonical one.
pub reconcile_orphaned_events_lem :
    (depth head now : ℕ) (s : State)
    → IsWellKeyed s.events
    → (ids : List EventId) × (t : State) × (reconcile_orphaned_events depth head now s
        ≡ ok (ids, t))
      × ((id : EventId) (e : PendingEvent)
          → get id s.events ≡ some e
          → (IsDeepOrphan depth head e
              → (get id t.events
                  ≡ some (record e {
                    status = confirmed;
                    confirmations = head - e.block_number;
                    confirmed_at = some now;
                  }))
                × Mem id ids)
            × (¬ IsDeepOrphan depth head e → get id t.events ≡ some e))
      × ((id : EventId)
          → Mem id ids
          → (e : PendingEvent) × (get id s.events ≡ some e) × IsDeepOrphan depth head e)
      × ((id : EventId) → get id s.events ≡ none → get id t.events ≡ none)
      × (t.blocks ≡ s.blocks)
      × (t.reorg_history ≡ s.reorg_history)
unfolding get_orphaned_events
reconcile_orphaned_events_lem depth head now s w =
    let f = revive_event depth head now in
    (
      _,
      _,
      reconcile_orphaned_events-map_events depth head now s w,
      λ id e g.
          let there = get-map_events f id s.events ∙ ap (mapped f) g in
          let cases = revive_event_cases depth head now e in
          (
            λ d. (there ∙ ap some (cases.1 d), mem-ids_in depth head s.events id e w.keyed g d),
            λ out. there ∙ ap some (cases.0 out),
          ),
      λ id i. of_mem-ids_in depth head s.events id w.distinct w.keyed i,
      λ id g. get-map_events f id s.events ∙ ap (mapped f) g,
      refl,
      refl,
    )
