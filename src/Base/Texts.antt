-- ===== src/Base/Texts.antt =====
-- Texts as lists of code units, for the code that walks or searches them, and the numbers that
-- `Number.parseInt` reads from them.
use Prim.Native.Nat.{ℕ, ◌+◌, ◌-◌, ◌*◌, max}
use Prim.Native.Char.{code}
use Prim.Native.String.{String}
use mathlib.Core.Path.{◌≡◌, refl}
use native.Mathlib.Omega.{arith}
use mathlib.Core.Bool.{Bool, true, false, ◌&&◌, ◌||◌}
use mathlib.Core.List.{List, [], ◌∷◌, reverse}
use mathlib.Core.Option.{Option, none, some}
use autonomous_csa.Base.Tests.{leb, ◌==◌, if◌then◌else◌}

abbrev pub Text : Type 0
Text = List ℕ

abbrev pub codes : String → Text
codes String.[] = []
codes (String.◌∷◌ c s) = code c ∷ codes s

-- `a === b` on strings.
unfoldable pub text_eq : Text → Text → Bool
text_eq [] [] = true
text_eq [] (_ ∷ _) = false
text_eq (_ ∷ _) [] = false
text_eq (x ∷ xs) (y ∷ ys) = x == y && text_eq xs ys

pub text_eq_refl : (s : Text) → text_eq s s ≡ true
unfolding text_eq
text_eq_refl [] = refl
text_eq_refl (c ∷ s) = ground (arith, text_eq_refl s)

pub text_eq→eq : (s t : Text) → text_eq s t ≡ true → s ≡ t
unfolding text_eq
text_eq→eq [] [] h = refl
text_eq→eq [] (d ∷ t) h = ground (arith, h)
text_eq→eq (c ∷ s) [] h = ground (arith, h)
text_eq→eq (c ∷ s) (d ∷ t) h = ground (arith, h, text_eq→eq s t)

pub text_eq_sym : (s t : Text) → text_eq s t ≡ text_eq t s
unfolding text_eq
text_eq_sym [] [] = refl
text_eq_sym [] (d ∷ t) = refl
text_eq_sym (c ∷ s) [] = refl
text_eq_sym (c ∷ s) (d ∷ t) = ground (arith, text_eq_sym s t)

-- `text.startsWith(prefix)`.
unfoldable pub starts_with : Text → Text → Bool
starts_with text [] = true
starts_with [] (_ ∷ _) = false
starts_with (x ∷ xs) (y ∷ ys) = x == y && starts_with xs ys

-- `text.includes(pattern)`.
unfoldable pub includes : Text → Text → Bool
unfolding starts_with
includes [] pattern = starts_with [] pattern
includes (x ∷ xs) pattern = starts_with (x ∷ xs) pattern || includes xs pattern

abbrev cons_part : ℕ → List Text → List Text
cons_part c [] = (c ∷ []) ∷ []
cons_part c (part ∷ parts) = (c ∷ part) ∷ parts

-- `text.split(separator)` for a separator of one unit.
unfoldable pub split_on : ℕ → Text → List Text
split_on d [] = [] ∷ []
split_on d (c ∷ s) = let parts = split_on d s in if c == d then [] ∷ parts else cons_part c parts

-- The white space that `trim` removes: ECMAScript's WhiteSpace and LineTerminator.
unfoldable pub is_space : ℕ → Bool
is_space c =
    (leb 9 c && leb c 13)
    || (leb 8192 c && leb c 8202)
    || (c == 32 || c == 160 || c == 5760 || c == 8232 || c == 8233)
    || (c == 8239 || c == 8287 || c == 12288 || c == 65279)

unfoldable pub trim_start : Text → Text
unfolding is_space
trim_start [] = []
trim_start (c ∷ s) = if is_space c then trim_start s else c ∷ s

-- `text.trim()`.
unfoldable pub trim : Text → Text
unfolding trim_start
trim s = reverse (trim_start (reverse (trim_start s)))

-- The integers; `negsuc n` is -(n + 1).
pub data ℤ : Type 0 where
  pos : ℕ → ℤ
  negsuc : ℕ → ℤ

-- `Math.max(z, floor)` for a floor that is not negative.
abbrev pub at_least : ℕ → ℤ → ℕ
at_least floor (pos n) = max n floor
at_least floor (negsuc n) = floor

abbrev is_digit : ℕ → Bool
is_digit c = leb b'0' c && leb c b'9'

-- The value of the leading digits, after `seen` says whether there was one.
unfoldable pub digits_from : ℕ → Bool → Text → Option ℕ
digits_from acc seen [] = if seen then some acc else none
digits_from acc seen (c ∷ s) =
    let more = digits_from (10 * acc + (c - b'0')) true s in
    if is_digit c then more else if seen then some acc else none

abbrev negated : Option ℕ → Option ℤ
negated none = none
negated (some n) = some (if n == 0 then pos 0 else negsuc (n - 1))

abbrev as_pos : Option ℕ → Option ℤ
as_pos none = none
as_pos (some n) = some (pos n)

signed : Text → Option ℤ
unfolding digits_from
signed [] = none
signed (c ∷ s) =
    if c == b'-'
    then negated (digits_from 0 false s)
    else if c == b'+'
    then as_pos (digits_from 0 false s)
    else as_pos (digits_from 0 false (c ∷ s))

-- `Number.parseInt(text, 10)`; `none` is NaN. Values are exact, as they are below 2^53.
unfoldable pub parse_int : Text → Option ℤ
unfolding signed trim_start
parse_int s = signed (trim_start s)
