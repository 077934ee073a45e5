-- ===== src/Blockchain/State/Tally.antt =====
-- How many stored events have a status, under each change of the map.
use mathlib.Core.List.{Mem, mem-cons_self, mem-cons_of_mem}
use truthbounty_api.Prelude.{
  ℕ, ◌+◌, ◌≡◌, ◌≢◌, refl, sym, ap, ◌∙◌, inl, inr, none, some, List, [], ◌∷◌, arith, Bool-cases,
  Option-cases, if◌then◌else◌, ◌===◌, nat_eq, string_eq, pair_eq, option_eq, take, eq_of_beq,
  beq_refl,
}
use truthbounty_api.Prelude.Maps.{
  JsMap, get, put, delete, delete_all, IsMap, delete-IsMap, get-delete_ne, get-delete_self,
}
use truthbounty_api.Prelude.Sorting.{All}
use truthbounty_api.Blockchain.Types.{
  EventId, PendingEvent, Status, pending, confirmed, orphaned, status_beq,
}
use truthbounty_api.Blockchain.State.Confirmed.{listed-confirmed, mem-by_time, by_time}
use truthbounty_api.Blockchain.State.{tally, firsts}

abbrev pub one : Status → PendingEvent → ℕ
one st e = if status_beq e.status st then 1 else 0

pub tally-put_new :
    (st : Status) (k : EventId) (v : PendingEvent) (m : JsMap EventId PendingEvent)
    → get k m ≡ none
    → tally st (put k v m) ≡ tally st m + one st v
tally-put_new st k v [] h = ground arith
tally-put_new st k v ((j, w) ∷ m) h = elim (Bool-cases (j === k)) [
  | inl same ↦ cc (rw same at h)
  | inr other ↦ rw other (ground (arith, tally-put_new st k v m (rw other at h)))
]

pub tally-put_old :
    (st : Status) (k : EventId) (v w : PendingEvent) (m : JsMap EventId PendingEvent)
    → get k m ≡ some w
    → tally st (put k v m) + one st w ≡ tally st m + one st v
tally-put_old st k v w [] h = cc
tally-put_old st k v w ((j, u) ∷ m) h = elim (Bool-cases (j === k)) [
  | inl same ↦ let p : some u ≡ some w = rw same at h in rw same (ground (arith, p))
  | inr other ↦ rw other (ground (arith, tally-put_old st k v w m (rw other at h)))
]

pub tally-delete :
    (st : Status) (k : EventId) (w : PendingEvent) (m : JsMap EventId PendingEvent)
    → get k m ≡ some w
    → tally st (delete k m) + one st w ≡ tally st m
tally-delete st k w [] h = cc
tally-delete st k w ((j, u) ∷ m) h = elim (Bool-cases (j === k)) [
  | inl same ↦ let p : some u ≡ some w = rw same at h in rw same (ground (arith, p))
  | inr other ↦ rw other (ground (arith, tally-delete st k w m (rw other at h)))
]

delete-none : (k : EventId) (m : JsMap EventId PendingEvent) → get k m ≡ none → delete k m ≡ m
delete-none k [] h = refl
delete-none k ((j, u) ∷ m) h = elim (Bool-cases (j === k)) [
  | inl same ↦ cc (rw same at h)
  | inr other ↦ rw other (ap (◌∷◌ (j, u)) (delete-none k m (rw other at h)))
]

-- Every event that a list of ids names in a map is confirmed.
abbrev pub OnlyConfirmed : List EventId → JsMap EventId PendingEvent → Type 0
OnlyConfirmed ks m = All (λ k. (e : PendingEvent) → get k m ≡ some e → e.status ≡ confirmed) ks

get-delete-some :
    (k j : EventId) (m : JsMap EventId PendingEvent) {e : PendingEvent}
    → IsMap m
    → get j (delete k m) ≡ some e
    → get j m ≡ some e
get-delete-some k j m w h = elim (Bool-cases (k === j)) [
  | inl same ↦ cc (get-delete_self k m w, rw (sym (eq_of_beq k j same)) at h)
  | inr other ↦ sym (get-delete_ne k j m (λ p. cc (beq_refl j, other, p))) ∙ h
]

OnlyConfirmed-delete :
    (k : EventId) (ks : List EventId) (m : JsMap EventId PendingEvent)
    → IsMap m
    → OnlyConfirmed ks m
    → OnlyConfirmed ks (delete k m)
OnlyConfirmed-delete k [] m w h = tt
OnlyConfirmed-delete k (j ∷ ks) m w h =
    (λ e g. h.0 e (get-delete-some k j m w g), OnlyConfirmed-delete k ks m w h.1)

pub tally-delete_all :
    (st : Status) (ks : List EventId) (m : JsMap EventId PendingEvent)
    → st ≢ confirmed
    → IsMap m
    → OnlyConfirmed ks m
    → tally st (delete_all ks m) ≡ tally st m
tally-delete_all st [] m n w h = refl
tally-delete_all st (k ∷ ks) m n w h =
    tally-delete_all st ks (delete k m) n (delete-IsMap k m w) (OnlyConfirmed-delete k ks m w h.1)
    ∙ elim (Option-cases (get k m)) [
      | inl gone ↦ ap (tally st) (delete-none k m gone)
      | inr (e, found) ↦ ground (arith, tally-delete st k e m found, h.0 e found)
    ]

All-of_mem :
    (ks : List EventId) (P : EventId → Type 0) → ((k : EventId) → Mem k ks → P k) → All P ks
All-of_mem [] P h = tt
All-of_mem (k ∷ ks) P h = (h k mem-cons_self, All-of_mem ks P (λ j i. h j (mem-cons_of_mem k i)))

confirmed_of_not_ne : (st : Status) → ¬ (st ≢ confirmed) → st ≡ confirmed
confirmed_of_not_ne pending h = absurd (h (λ e. cc))
confirmed_of_not_ne confirmed h = refl
confirmed_of_not_ne orphaned h = absurd (h (λ e. cc))

pub OnlyConfirmed-by_time :
    (k : ℕ) (m : JsMap EventId PendingEvent)
    → IsMap m
    → OnlyConfirmed (firsts (take k (by_time m))) m
OnlyConfirmed-by_time k m w =
    All-of_mem _ (λ id. (e : PendingEvent) → get id m ≡ some e → e.status ≡ confirmed)
      λ id h e g.
        confirmed_of_not_ne e.status (λ n. listed-confirmed id e m w g n (mem-by_time id m k h))
