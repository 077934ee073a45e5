-- ===== src/FeatureFlags/Flags/Hash.antt =====
-- stableHash of src/feature-flags/feature-flags.service.ts, in 32-bit arithmetic.
use Prim.Native.Char.{code}
use native.Mathlib.Nat.{zero-mul}
use native.Mathlib.Numerals.{unary_clauses}
use truthbounty_api.Prelude.{
  ℕ, ◌+◌, ◌-◌, ◌*◌, ◌/◌, ◌%◌, ◌^◌, ◌<◌, String, ◌≡◌, ap, ◌∙◌, List, [], ◌∷◌, arith, ltb,
  if◌then◌else◌, length,
}

-- The UTF-16 units of a text, as `charCodeAt` gives them.
abbrev pub units : String → List ℕ
units String.[] = []
units (String.◌∷◌ c s) =
    let rest = units s in
    if ltb (code c) 65536
    then code c ∷ rest
    else (55296 + (code c - 65536) / 1024) ∷ (56320 + (code c - 65536) % 1024) ∷ rest

-- A 32-bit integer is its residue below 2 ^ 32: `hash << 5`, and the sum under `| 0`.
abbrev pub shl5 : ℕ → ℕ
shl5 h = h * 32 % 2 ^ 32

abbrev pub hash_step : ℕ → ℕ → ℕ
hash_step h c = (shl5 h + (2 ^ 32 - h) + c) % 2 ^ 32

abbrev pub hash_from : ℕ → List ℕ → ℕ
hash_from h [] = h
hash_from h (c ∷ cs) = hash_from (hash_step h c) cs

-- `Math.abs` of the integer that the residue stands for.
abbrev pub abs_int32 : ℕ → ℕ
abs_int32 h = if ltb h (2 ^ 31) then h else 2 ^ 32 - h

unfoldable pub stable_hash : String → ℕ
stable_hash input = abs_int32 (hash_from 0 (units input))

-- The number whose digits to the base 31 are the units.
abbrev pub power_sum : List ℕ → ℕ
power_sum [] = 0
power_sum (c ∷ cs) = c * 31 ^ length cs + power_sum cs

hash_step_lem : (h c : ℕ) → h < 2 ^ 32 → hash_step h c ≡ (31 * h + c) % 2 ^ 32
hash_step_lem h c le = omega arith

-- A factor may be reduced first.
reduced_factor : (x p s : ℕ) → (x % 2 ^ 32 * p + s) % 2 ^ 32 ≡ (x * p + s) % 2 ^ 32
reduced_factor x p s =
    let q = x / 2 ^ 32 in
    let r = x % 2 ^ 32 in
    let whole : x ≡ 4294967296 * q + r = omega arith in
    let split : x * p ≡ 4294967296 * (q * p) + r * p = ap (λ y. y * p) whole ∙ grind arith in
    omega arith

hash_from_lem :
    (h : ℕ) (cs : List ℕ)
    → h < 2 ^ 32
    → hash_from h cs ≡ (h * 31 ^ length cs + power_sum cs) % 2 ^ 32
hash_from_lem h [] small = omega arith
hash_from_lem h (c ∷ cs) small =
    let p = 31 ^ length cs in
    let first = hash_step_lem h c small in
    let rest = hash_from_lem (hash_step h c) cs (omega arith) in
    let digits : (31 * h + c) * p + power_sum cs
        ≡ h * 31 ^ length (c ∷ cs) + (c * p + power_sum cs) =
      simp unary_clauses (grind arith) in
    rest
    ∙ ap (λ y. (y * p + power_sum cs) % 2 ^ 32) first
    ∙ reduced_factor (31 * h + c) p (power_sum cs)
    ∙ ap (λ y. y % 2 ^ 32) digits

-- The hash of the rollout is the hash of Java's String: the number whose digits to the base 31 are
-- the UTF-16 units of the text, in 32-bit two's complement, and its absolute value.
pub stable_hash_lem :
    (input : String) → stable_hash input ≡ abs_int32 (power_sum (units input) % 2 ^ 32)
unfolding stable_hash
stable_hash_lem input =
    let p = 31 ^ length (units input) in
    let none_ = zero-mul p in
    let start : 0 * p + power_sum (units input) ≡ power_sum (units input) = omega arith in
    ap abs_int32 (hash_from_lem 0 (units input) (omega arith) ∙ ap (λ y. y % 2 ^ 32) start)
