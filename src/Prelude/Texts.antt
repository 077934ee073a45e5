-- ===== src/Prelude/Texts.antt =====
-- JavaScript's `length` of a text: its UTF-16 units.
use Prim.Native.Nat.{ℕ, ◌+◌}
use Prim.Native.String.{String, [], ◌∷◌, ◌++◌}
use Prim.Native.Char.{char, code, IsScalar}
use mathlib.Core.Path.{◌≡◌, refl, sym, ap, ◌∙◌}
use mathlib.Core.Bool.{Bool, true, false, ◌||◌}
use native.Mathlib.Omega.{arith}
use text.Mathlib.TextLemmas.{nil-append, cons-append, head-eq_of_cons-eq, tail-eq_of_cons-eq}
use truthbounty_api.Prelude.Tests.{leb, ◌==◌, if◌then◌else◌}

abbrev pub utf16_length : String → ℕ
utf16_length [] = 0
utf16_length (c ∷ s) = (if leb 65536 (code c) then 2 else 1) + utf16_length s

-- Does a character with the code stand in the text?
abbrev pub has_code : ℕ → String → Bool
has_code n [] = false
has_code n (c ∷ s) = (code c == n) || has_code n s

pub has_code-append : (n : ℕ) (s t : String) → has_code n (s ++ t) ≡ (has_code n s || has_code n t)
has_code-append n [] t = ap (has_code n) (nil-append t)
has_code-append n (c ∷ s) t =
    ap (has_code n) (cons-append c s t) ∙ ground (arith, has_code-append n s t)

-- A text that the other starts with hides none of its characters.
pub has_code-append_right :
    (n : ℕ) (s t : String) → has_code n t ≡ true → has_code n (s ++ t) ≡ true
has_code-append_right n s t h = ground (arith, has_code-append n s t)

-- Two joined texts with the same separator, which neither first part has.
pub separated_inj :
    (n : ℕ) (p : IsScalar n) (a b s t : String)
    → has_code n a ≡ false
    → has_code n b ≡ false
    → a ++ (char n p ∷ s) ≡ b ++ (char n p ∷ t)
    → (a ≡ b) × (s ≡ t)
separated_inj n p [] [] s t h h' e =
    (refl, tail-eq_of_cons-eq (sym (nil-append _) ∙ e ∙ nil-append _))
separated_inj n p [] (d ∷ b) s t h h' e =
    let first = head-eq_of_cons-eq (sym (nil-append (char n p ∷ s)) ∙ e ∙ cons-append d b _) in
    absurd (ground (arith, ap code first, h'))
separated_inj n p (c ∷ a) [] s t h h' e =
    let first = head-eq_of_cons-eq (sym (cons-append c a _) ∙ e ∙ nil-append (char n p ∷ t)) in
    absurd (ground (arith, ap code first, h))
separated_inj n p (c ∷ a) (d ∷ b) s t h h' e =
    let whole = sym (cons-append c a _) ∙ e ∙ cons-append d b _ in
    let rest =
      separated_inj n p a b s t (ground (arith, h)) (ground (arith, h'))
        (tail-eq_of_cons-eq whole) in
    let first = head-eq_of_cons-eq whole in let same = rest.0 in (cc, rest.1)
