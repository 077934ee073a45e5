-- ===== src/Staking.antt =====
-- src/staking: the stakes that follow the contract's events. An event's amount is what `BigInt` makes
-- of its text, or `none` where that throws; a stake's amount is the integer that its text shows.
-- `now` is `new Date()`.
pub mod Balance
pub mod Audit
mod Tests
use truthbounty_api.Prelude.{
  ℕ, String, Option, none, some, Bool, List, [], ◌∷◌, Result, ok, err, Exception, string_eq,
  pair_eq, ◌===◌, if◌then◌else◌,
}
use truthbounty_api.Prelude.Int.{ℤ, pos, ◌+ℤ◌, ◌-ℤ◌}
use truthbounty_api.Prelude.Maps.{JsMap, get, put}

pub data StakingEventType : Type 0 where
  stake_deposited stake_withdrawn stake_slashed : StakingEventType

-- `mapContractEventName`
unfoldable pub map_contract_event_name : String → Option StakingEventType
map_contract_event_name name =
    if name === "StakeDeposited"
    then some stake_deposited
    else if name === "StakeWithdrawn"
    then some stake_withdrawn
    else if name === "StakeSlashed"
    then some stake_slashed
    else none

pub record StakeEvent : Type 0 where
  pub type : StakingEventType
  pub wallet_address : String
  pub claim_id : String
  pub amount : Option ℤ
  pub tx_hash : String
  pub block_number : ℕ
  pub timestamp : ℕ

pub record Stake : Type 0 where
  pub wallet_address : String
  pub claim_id : String
  pub amount : ℤ
  pub last_tx_hash : String
  pub updated_at : ℕ

-- The two tables, with the columns of their unique indices as keys.
pub record Ledger : Type 0 where
  pub stake_events : JsMap String StakeEvent
  pub stakes : JsMap (String × String) Stake

abbrev pub key_of : StakeEvent → String × String
key_of e = (e.wallet_address, e.claim_id)

-- The amount of the stake that is found, or of the one that is created.
abbrev pub current : Option Stake → ℤ
current none = pos 0
current (some s) = s.amount

abbrev pub apply_delta : StakingEventType → ℤ → ℤ → ℤ
apply_delta stake_deposited amount delta = amount +ℤ delta
apply_delta stake_withdrawn amount delta = amount -ℤ delta
apply_delta stake_slashed amount delta = amount -ℤ delta

abbrev pub stake_after : StakeEvent → ℤ → ℕ → Option Stake → Stake
stake_after e delta now found = record {
  wallet_address = e.wallet_address;
  claim_id = e.claim_id;
  amount = apply_delta e.type (current found) delta;
  last_tx_hash = e.tx_hash;
  updated_at = now;
}

abbrev pub save_stake : StakeEvent → ℕ → Ledger → Option ℤ → Ledger × Result (Unit {0})
save_stake e now l none = (l, err Exception.error)
save_stake e now l (some delta) = (
  record l { stakes = put (key_of e) (stake_after e delta now (get (key_of e) l.stakes)) l.stakes },
  ok tt,
)

-- The audit row is stored first, also when the amount is no number.
unfoldable pub handle_event : StakeEvent → ℕ → Ledger → Ledger × Result (Unit {0})
handle_event e now l =
    save_stake e now (record l { stake_events = put e.tx_hash e l.stake_events }) e.amount

-- The events of a feed, one after another; one that throws does not stop the next.
abbrev pub sync : List (StakeEvent × ℕ) → Ledger → Ledger
sync [] l = l
sync ((e, now) ∷ es) l = sync es (handle_event e now l).0
