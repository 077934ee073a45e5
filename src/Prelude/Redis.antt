-- ===== src/Prelude/Redis.antt =====
-- src/redis/redis.service.ts: `get` and `set` of texts that expire, where the client is at hand. The
-- values stand for what the texts are parsed to. The clock is in milliseconds, a TTL in seconds.
use Prim.Native.Nat.{ℕ, ◌+◌, ◌*◌}
use Prim.Native.String.{String}
use mathlib.Core.Bool.{Bool, true}
use mathlib.Core.Option.{Option, none, some}
use truthbounty_api.Prelude.Tests.{ltb, ◌==◌, if◌then◌else◌}
use truthbounty_api.Prelude.Classes.{string_eq}
use truthbounty_api.Prelude.Maps.{JsMap, get, put}

pub record Entry (V : Type 0) : Type 0 where
  pub value : V
  pub until : Option ℕ

-- The time an entry lasts to: no limit, for a TTL of 0.
abbrev pub expiry : ℕ → ℕ → Option ℕ
expiry now ttl = if ttl == 0 then none else some (now + ttl * 1000)

abbrev pub is_live : ℕ → Option ℕ → Bool
is_live now none = true
is_live now (some t) = ltb now t

module _ {V : Type 0} where
  abbrev pub if_live : ℕ → Option (Entry V) → Option V
  if_live now none = none
  if_live now (some e) = if is_live now e.until then some e.value else none

  abbrev pub read : ℕ → String → JsMap String (Entry V) → Option V
  read now k m = if_live now (get k m)

  -- `set` with `setex` for a TTL that is not 0.
  abbrev pub write : ℕ → ℕ → String → V → JsMap String (Entry V) → JsMap String (Entry V)
  write now ttl k v m = put k (record { value = v; until = expiry now ttl }) m
