-- ===== src/Auth/Tokens/Ttl.antt =====
-- parseTtlToSeconds of src/auth/services/token.service.ts: the text against ^(\d+)(s|m|h|d)$, for
-- numbers below 2 ^ 53.
use Prim.Native.Char.{code}
use truthbounty_api.Prelude.{
  ℕ, ◌+◌, ◌-◌, ◌*◌, ◌==◌, String, Bool, true, false, ◌&&◌, leb, if◌then◌else◌,
}

abbrev pub is_digit : ℕ → Bool
is_digit c = leb 48 c && leb c 57

-- The switch over the unit: s, m, h or d.
abbrev pub seconds_of : ℕ → ℕ → ℕ
seconds_of value unit =
    if unit == 115
    then value
    else if unit == 109
    then value * 60
    else if unit == 104
    then value * 3600
    else if unit == 100
    then value * 86400
    else 900

-- A unit ends the text.
abbrev pub unit_at_end : ℕ → ℕ → String → ℕ
unit_at_end value unit String.[] = seconds_of value unit
unit_at_end value unit (String.◌∷◌ c s) = 900

-- The digits read so far, and whether there are any.
abbrev pub parse_from : ℕ → Bool → String → ℕ
parse_from value some_digits String.[] = 900
parse_from value some_digits (String.◌∷◌ c s) =
    let rest = parse_from (value * 10 + (code c - 48)) true s in
    if is_digit (code c) then rest else if some_digits then unit_at_end value (code c) s else 900

unfoldable pub parse_ttl_to_seconds : String → ℕ
parse_ttl_to_seconds ttl = parse_from 0 false ttl
