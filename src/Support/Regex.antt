-- ===== src/Support/Regex.antt =====
-- The regular expressions of the detectors, over code units, as `RegExp.prototype.test` runs them:
-- a pattern matches if it matches from some position.
use autonomous_csa.Base.{
  ℕ, zero, suc, Bool, true, false, ◌&&◌, ◌||◌, not, List, [], ◌∷◌, ◌++◌, Option, none, some, Text,
  leb, ◌==◌, if◌then◌else◌,
}

pub data Regex : Type 0 where
  empty boundary : Regex
  one_of : (ℕ → Bool) → Regex
  many_of : (ℕ → Bool) → Regex
  seq either : Regex → Regex → Regex

-- The class of `\b`.
abbrev pub is_word : ℕ → Bool
is_word c =
    (leb b'a' c && leb c b'z')
    || (leb b'A' c && leb c b'Z')
    || (leb b'0' c && leb c b'9')
    || c == b'_'

abbrev pub is_word_at : Option ℕ → Bool
is_word_at none = false
is_word_at (some c) = is_word c

abbrev pub first : Text → Option ℕ
first [] = none
first (c ∷ s) = some c

abbrev pub differ : Bool → Bool → Bool
differ true b = not b
differ false b = b

-- A position: the code unit before it, and the text after it.
abbrev pub Position : Type 0
Position = Option ℕ × Text

abbrev pub on_all : (Position → List Position) → List Position → List Position
on_all f [] = []
on_all f (p ∷ ps) = f p ++ on_all f ps

unfoldable pub many_ends : (ℕ → Bool) → Option ℕ → Text → List Position
many_ends p prev [] = (prev, []) ∷ []
many_ends p prev (c ∷ s) =
    let more = many_ends p (some c) s in if p c then (prev, c ∷ s) ∷ more else (prev, c ∷ s) ∷ []

-- Where the matches from a position end.
unfoldable pub ends : Regex → Option ℕ → Text → List Position
unfolding many_ends
ends empty prev s = (prev, s) ∷ []
ends boundary prev s =
    if differ (is_word_at prev) (is_word_at (first s)) then (prev, s) ∷ [] else []
ends (one_of p) prev [] = []
ends (one_of p) prev (c ∷ s) = if p c then (some c, s) ∷ [] else []
ends (many_of p) prev s = many_ends p prev s
ends (seq r q) prev s = on_all (λ e. ends q e.0 e.1) (ends r prev s)
ends (either r q) prev s = ends r prev s ++ ends q prev s

abbrev pub is_match : List Position → Bool
is_match [] = false
is_match (_ ∷ _) = true

unfoldable pub test_from : Regex → Option ℕ → Text → Bool
unfolding ends
test_from r prev [] = is_match (ends r prev [])
test_from r prev (c ∷ s) = is_match (ends r prev (c ∷ s)) || test_from r (some c) s

-- `pattern.test(text)`.
unfoldable pub test : Regex → Text → Bool
unfolding test_from
test r s = test_from r none s

-- `r{n}`.
unfoldable pub times : ℕ → Regex → Regex
times zero r = empty
times (suc n) r = seq r (times n r)

-- `r{0,n}`.
unfoldable pub up_to : ℕ → Regex → Regex
up_to zero r = empty
up_to (suc n) r = either (seq r (up_to n r)) empty

-- The text itself.
unfoldable pub literal : Text → Regex
literal [] = empty
literal (c ∷ s) = seq (one_of (λ d. d == c)) (literal s)
