-- ===== src/Staking/Audit.antt =====
-- The stakes against the audit table of events, and what a repeated event does.
use truthbounty_api.Prelude.{
  ℕ, String, ◌≡◌, ◌≢◌, refl, sym, ap, ◌∙◌, inl, inr, Option, none, some, List, [], ◌∷◌, string_eq,
  pair_eq, ◌===◌, if◌then◌else◌, Bool-cases, beq_refl, eq_of_beq,
}
use truthbounty_api.Prelude.Int.{ℤ, pos, ◌+ℤ◌, eq_of_parts, int_laws}
use mathlib.Core.Option.{some-injective}
use truthbounty_api.Prelude.Maps.{JsMap, get, put, values}
use truthbounty_api.Staking.{stake_deposited, StakeEvent, Ledger, key_of, save_stake, handle_event}
use truthbounty_api.Staking.Balance.{
  amount_at, share, or_zero, add_swap, parts_of_eq, handle_event-amount,
}

abbrev pub audited : String × String → List StakeEvent → ℤ
audited k [] = pos 0
audited k (e ∷ es) = share k e +ℤ audited k es

-- Every stake is the sum of the audit table.
abbrev pub IsAudited : Ledger → Type 0
IsAudited l = (k : String × String) → amount_at k l ≡ audited k (values l.stake_events)

add_comm : (a b : ℤ) → a +ℤ b ≡ b +ℤ a
add_comm a b = eq_of_parts _ _ (omega int_laws)

audited-put :
    (k : String × String) (e : StakeEvent) (m : JsMap String StakeEvent)
    → get e.tx_hash m ≡ none
    → audited k (values (put e.tx_hash e m)) ≡ share k e +ℤ audited k (values m)
audited-put k e [] fresh = refl
audited-put k e ((h, f) ∷ m) fresh = elim (Bool-cases (h === e.tx_hash)) [
  | inl same ↦ let never : some f ≡ none = rw same at fresh in cc
  | inr other ↦
      let fresh' : get e.tx_hash m ≡ none = rw other at fresh in
      rw other (
        ap (λ t. share k f +ℤ t) (audited-put k e m fresh')
        ∙ add_swap (share k f) (share k e) (audited k (values m)))
]

save_stake-events :
    (e : StakeEvent) (now : ℕ) (l : Ledger) (o : Option ℤ)
    → ((save_stake e now l o).0).stake_events ≡ l.stake_events
save_stake-events e now l none = refl
save_stake-events e now l (some d) = refl

handle_event-events :
    (e : StakeEvent) (now : ℕ) (l : Ledger)
    → ((handle_event e now l).0).stake_events ≡ put e.tx_hash e l.stake_events
unfolding handle_event
handle_event-events e now l =
    save_stake-events e now (record l { stake_events = put e.tx_hash e l.stake_events }) e.amount

-- An event with a new transaction hash keeps every stake equal to the sum of the audit table, also
-- when its amount is no number and the call throws.
handle_event-IsAudited :
    (e : StakeEvent) (now : ℕ) (l : Ledger)
    → get e.tx_hash l.stake_events ≡ none
    → IsAudited l
    → IsAudited (handle_event e now l).0
handle_event-IsAudited e now l fresh h k =
    handle_event-amount k e now l
    ∙ ap (λ a. a +ℤ share k e) (h k)
    ∙ add_comm (audited k (values l.stake_events)) (share k e)
    ∙ sym (
        ap (λ m. audited k (values m)) (handle_event-events e now l)
        ∙ audited-put k e l.stake_events fresh)

put_same :
    (h : String) (e : StakeEvent) (m : JsMap String StakeEvent) → get h m ≡ some e → put h e m ≡ m
put_same h e [] found = cc
put_same h e ((j, f) ∷ m) found = elim (Bool-cases (j === h)) [
  | inl same ↦
      let is_e : some f ≡ some e = rw same at found in
      rw same (
        ap (λ x. (x, e) ∷ m) (sym (eq_of_beq j h same))
        ∙ ap (λ x. (j, x) ∷ m) (sym (some-injective _ _ is_e)))
  | inr other ↦
      let later : get h m ≡ some e = rw other at found in
      rw other (ap (λ x. (j, f) ∷ x) (put_same h e m later))
]

share_self :
    (e : StakeEvent) (d : ℤ) → e.amount ≡ some d → e.type ≡ stake_deposited → share (key_of e) e ≡ d
share_self e d amount deposit =
    ap (λ b. if b then or_zero e.type e.amount else pos 0) (beq_refl (key_of e))
    ∙ ap (λ o. or_zero e.type o) amount
    ∙ ap (λ t. or_zero t (some d)) deposit

cancel : (a d : ℤ) → a ≡ a +ℤ d → d ≡ pos 0
cancel a d h = let parts = parts_of_eq a (a +ℤ d) h in eq_of_parts d (pos 0) (omega int_laws)

-- A deposit that was handled before and comes again leaves the audit table as it is but adds its
-- amount to the stake once more: stakes that were the sum of the audit table are so no longer, if
-- the amount is not zero.
handle_event_again :
    (e : StakeEvent) (d : ℤ) (now : ℕ) (l : Ledger)
    → get e.tx_hash l.stake_events ≡ some e
    → e.amount ≡ some d
    → e.type ≡ stake_deposited
    → d ≢ pos 0
    → IsAudited l
    → (((handle_event e now l).0).stake_events ≡ l.stake_events)
      × (amount_at (key_of e) (handle_event e now l).0 ≡ amount_at (key_of e) l +ℤ d)
      × ¬ IsAudited (handle_event e now l).0
handle_event_again e d now l before amount deposit some_amount h =
    let table = handle_event-events e now l ∙ put_same e.tx_hash e l.stake_events before in
    let k = key_of e in
    let more =
      handle_event-amount k e now l
      ∙ ap (λ a. amount_at k l +ℤ a) (share_self e d amount deposit) in
    (
      table,
      more,
      λ still. some_amount (
          cancel (amount_at k l) d
            (h k ∙ ap (λ m. audited k (values m)) (sym table) ∙ sym (still k) ∙ more)),
    )
