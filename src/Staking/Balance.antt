-- ===== src/Staking/Balance.antt =====
-- The amount of a stake as the sum of the events that were handled.
use mathlib.Core.List.{Perm, Permᴰ}
use mathlib.Core.Logic.{∥∥₁_elim}
use native.Mathlib.Nat.{ℕ_set}
use truthbounty_api.Prelude.{
  ℕ, ◌+◌, String, ◌≡◌, refl, sym, ap, ◌∙◌, Option, none, some, Bool, true, false, List, [], ◌∷◌,
  string_eq, pair_eq, ◌===◌, if◌then◌else◌, eq_of_beq,
}
use truthbounty_api.Prelude.Int.{ℤ, pos, pos_part, neg_part, ◌+ℤ◌, ◌-ℤ◌, eq_of_parts, int_laws}
use truthbounty_api.Prelude.Maps.{JsMap, get, put, get-put}
use truthbounty_api.Staking.{
  StakingEventType, stake_deposited, stake_withdrawn, stake_slashed, StakeEvent, Stake, Ledger,
  key_of, current, apply_delta, stake_after, save_stake, handle_event, sync,
}

-- The stored amount under a wallet and a claim.
abbrev pub amount_at : String × String → Ledger → ℤ
amount_at k l = current (get k l.stakes)

-- The signed amount of an event.
abbrev pub signed : StakingEventType → ℤ → ℤ
signed stake_deposited d = d
signed stake_withdrawn d = pos 0 -ℤ d
signed stake_slashed d = pos 0 -ℤ d

abbrev pub or_zero : StakingEventType → Option ℤ → ℤ
or_zero t none = pos 0
or_zero t (some d) = signed t d

-- What an event adds to the stake under a key.
abbrev pub share : String × String → StakeEvent → ℤ
share k e = if key_of e === k then or_zero e.type e.amount else pos 0

abbrev pub total : String × String → List (StakeEvent × ℕ) → ℤ
total k [] = pos 0
total k ((e, now) ∷ es) = share k e +ℤ total k es

apply_delta-signed : (t : StakingEventType) (a d : ℤ) → apply_delta t a d ≡ a +ℤ signed t d
apply_delta-signed stake_deposited a d = refl
apply_delta-signed stake_withdrawn a d = eq_of_parts _ _ (omega int_laws)
apply_delta-signed stake_slashed a d = eq_of_parts _ _ (omega int_laws)

pub add_zero : (a : ℤ) → a ≡ a +ℤ pos 0
add_zero a = eq_of_parts _ _ (omega int_laws)

pub add_assoc : (a b c : ℤ) → (a +ℤ b) +ℤ c ≡ a +ℤ (b +ℤ c)
add_assoc a b c = eq_of_parts _ _ (omega int_laws)

pub add_swap : (a b c : ℤ) → a +ℤ (b +ℤ c) ≡ b +ℤ (a +ℤ c)
add_swap a b c = eq_of_parts _ _ (omega int_laws)

put_amount :
    (hit : Bool) (k : String × String) (e : StakeEvent) (d : ℤ) (now : ℕ)
    (m : JsMap (String × String) Stake)
    → (key_of e === k) ≡ hit
    → current (get k (put (key_of e) (stake_after e d now (get (key_of e) m)) m))
      ≡ current (get k m) +ℤ (if hit then signed e.type d else pos 0)
put_amount true k e d now m same =
    ap current (get-put (key_of e) k (stake_after e d now (get (key_of e) m)) m)
    ∙ ap (λ b. current (if b then some (stake_after e d now (get (key_of e) m)) else get k m)) same
    ∙ apply_delta-signed e.type (current (get (key_of e) m)) d
    ∙ ap (λ j. current (get j m) +ℤ signed e.type d) (eq_of_beq (key_of e) k same)
put_amount false k e d now m other =
    ap current (get-put (key_of e) k (stake_after e d now (get (key_of e) m)) m)
    ∙ ap (λ b. current (if b then some (stake_after e d now (get (key_of e) m)) else get k m)) other
    ∙ add_zero (current (get k m))

save_stake-amount :
    (hit : Bool) (k : String × String) (e : StakeEvent) (now : ℕ) (l : Ledger) (o : Option ℤ)
    → (key_of e === k) ≡ hit
    → amount_at k (save_stake e now l o).0
      ≡ amount_at k l +ℤ (if hit then or_zero e.type o else pos 0)
save_stake-amount true k e now l none same = add_zero (amount_at k l)
save_stake-amount false k e now l none other = add_zero (amount_at k l)
save_stake-amount hit k e now l (some d) is = put_amount hit k e d now l.stakes is

pub handle_event-amount :
    (k : String × String) (e : StakeEvent) (now : ℕ) (l : Ledger)
    → amount_at k (handle_event e now l).0 ≡ amount_at k l +ℤ share k e
unfolding handle_event
handle_event-amount k e now l =
    save_stake-amount (key_of e === k) k e now
      (record l { stake_events = put e.tx_hash e l.stake_events }) e.amount refl

-- After any feed of events, a stake has its amount before plus the deposits less the withdrawals and
-- slashes of its wallet and claim in the feed; an event without a number as its amount adds nothing.
pub sync-amount :
    (k : String × String) (es : List (StakeEvent × ℕ)) (l : Ledger)
    → amount_at k (sync es l) ≡ amount_at k l +ℤ total k es
sync-amount k [] l = add_zero (amount_at k l)
sync-amount k ((e, now) ∷ es) l =
    sync-amount k es (handle_event e now l).0
    ∙ ap (λ a. a +ℤ total k es) (handle_event-amount k e now l)
    ∙ add_assoc (amount_at k l) (share k e) (total k es)

total_permᴰ :
    (k : String × String) {es fs : List (StakeEvent × ℕ)} → Permᴰ es fs → total k es ≡ total k fs
total_permᴰ k Permᴰ.nil = refl
total_permᴰ k (Permᴰ.cons {b = b} {l₁ = l} e p) =
    ap (λ x. share k x.0 +ℤ total k l) e ∙ ap (λ t. share k b.0 +ℤ t) (total_permᴰ k p)
total_permᴰ k (Permᴰ.swap {a = a} {b = b} {a' = c} {l = l} e f) =
    add_swap (share k a.0) (share k b.0) (total k l)
    ∙ ap (λ x. share k x.0 +ℤ (share k a.0 +ℤ total k l)) f
    ∙ ap (λ x. share k c.0 +ℤ (share k x.0 +ℤ total k l)) e
total_permᴰ k (Permᴰ.trans p q) = total_permᴰ k p ∙ total_permᴰ k q

pub parts_of_eq : (a b : ℤ) → a ≡ b → pos_part a + neg_part b ≡ pos_part b + neg_part a
parts_of_eq a b e = rw e refl

total_perm :
    (k : String × String) (es fs : List (StakeEvent × ℕ)) → Perm es fs → total k es ≡ total k fs
total_perm k es fs p =
    eq_of_parts (total k es) (total k fs)
      (∥∥₁_elim p (ℕ_set _ _) (λ d. parts_of_eq (total k es) (total k fs) (total_permᴰ k d)))

-- The order of a feed does not matter to the amounts: two feeds with the same events, each as
-- often, leave the same amount under every wallet and claim.
sync_order :
    (k : String × String) (es fs : List (StakeEvent × ℕ)) (l : Ledger)
    → Perm es fs
    → amount_at k (sync es l) ≡ amount_at k (sync fs l)
sync_order k es fs l p =
    sync-amount k es l
    ∙ ap (λ a. amount_at k l +ℤ a) (total_perm k es fs p)
    ∙ sym (sync-amount k fs l)
