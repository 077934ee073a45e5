-- ===== src/Staking/Tests.antt =====
-- The theorems on stakes at concrete events.
use truthbounty_api.Prelude.{String, ◌≡◌, refl, some, [], ◌∷◌, string_eq}
use truthbounty_api.Prelude.Maps.{get}
use truthbounty_api.Prelude.Int.{pos, ◌+ℤ◌}
use truthbounty_api.Staking.{
  stake_deposited, stake_withdrawn, StakeEvent, Ledger, handle_event, sync,
}
use truthbounty_api.Staking.Balance.{amount_at, total, sync-amount}
use truthbounty_api.Staking.Audit.{IsAudited}

abbrev deposit : StakeEvent
deposit = record {
  type = stake_deposited;
  wallet_address = "w";
  claim_id = "c";
  amount = some (pos 5);
  tx_hash = "t1";
  block_number = 1;
  timestamp = 1;
}

abbrev withdrawal : StakeEvent
withdrawal = record deposit { type = stake_withdrawn; amount = some (pos 2); tx_hash = "t2" }

abbrev no_stakes : Ledger
no_stakes = record { stake_events = []; stakes = [] }

abbrev key : String × String
key = ("w", "c")

no_stakes-IsAudited : IsAudited no_stakes
no_stakes-IsAudited k = refl

sync-amount_example :
    amount_at key (sync ((deposit, 1) ∷ (withdrawal, 2) ∷ []) no_stakes)
    ≡ pos 0 +ℤ total key ((deposit, 1) ∷ (withdrawal, 2) ∷ [])
sync-amount_example = sync-amount key ((deposit, 1) ∷ (withdrawal, 2) ∷ []) no_stakes

stored : get "t1" ((handle_event deposit 1 no_stakes).0).stake_events ≡ some deposit
unfolding handle_event
stored = refl
