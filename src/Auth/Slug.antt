-- ===== src/Auth/Slug.antt =====
-- `normalizeEmail` and `normalizeOrganizationSlug` of apps/api/src/auth/auth.service.ts. The lower
-- case of a text is the language's `toLowerCase`, a parameter.
use autonomous_csa.Base.{
  ℕ, ◌≤◌, ◌≡◌, Bool, true, false, ◌&&◌, ◌||◌, [], ◌∷◌, Text, trim, leb, ltb, ◌==◌, length,
  if◌then◌else◌,
}
use autonomous_csa.Http.{Response, refuse, reply, conflict}

-- `[a-z0-9]`.
abbrev pub is_slug_char : ℕ → Bool
is_slug_char c = (leb b'a' c && leb c b'z') || (leb b'0' c && leb c b'9')

-- `.replace(/[^a-z0-9]+/g, '-')`; `in_run` says that the unit before is in the run that was replaced.
unfoldable pub dash_runs : (in_run : Bool) → Text → Text
dash_runs in_run [] = []
dash_runs in_run (c ∷ s) =
    if is_slug_char c
    then c ∷ dash_runs false s
    else if in_run
    then dash_runs true s
    else b'-' ∷ dash_runs true s

-- The two branches of `.replace(/^-+|-+$/g, '')`.
unfoldable pub strip_start : Text → Text
strip_start [] = []
strip_start (c ∷ s) = if c == b'-' then strip_start s else c ∷ s

abbrev cons_stripped : ℕ → Text → Text
cons_stripped c [] = if c == b'-' then [] else c ∷ []
cons_stripped c (d ∷ s) = c ∷ d ∷ s

unfoldable pub strip_end : Text → Text
strip_end [] = []
strip_end (c ∷ s) = cons_stripped c (strip_end s)

-- `.replace(/-{2,}/g, '-')`; `in_run` says that the unit before is a dash.
unfoldable pub squeeze : (in_run : Bool) → Text → Text
squeeze in_run [] = []
squeeze in_run (c ∷ s) =
    if c == b'-'
    then if in_run then squeeze true s else b'-' ∷ squeeze true s
    else c ∷ squeeze false s

unfoldable pub slug_of : (Text → Text) → Text → Text
unfolding trim dash_runs strip_start strip_end squeeze
slug_of to_lower_case value =
    squeeze false (strip_end (strip_start (dash_runs false (to_lower_case (trim value)))))

unfoldable pub normalize_organization_slug : (Text → Text) → Text → Response Text
unfolding slug_of
normalize_organization_slug to_lower_case value =
    let slug = slug_of to_lower_case value in
    if ltb (length slug) 3 || ltb 64 (length slug)
    then refuse
        (conflict "Organization slug must be between 3 and 64 characters after normalization")
    else reply slug

unfoldable pub normalize_email : (Text → Text) → Text → Text
unfolding trim
normalize_email to_lower_case email = to_lower_case (trim email)

-- Words of letters and digits with one dash between two: `after_word` says that the unit before is
-- in a word.
abbrev pub has_slug_shape : (after_word : Bool) → Text → Bool
has_slug_shape after_word [] = after_word
has_slug_shape after_word (c ∷ s) =
    if is_slug_char c
    then has_slug_shape true s
    else c == b'-' && after_word && has_slug_shape false s

abbrev pub IsSlug : Text → Type 0
IsSlug s = (has_slug_shape false s ≡ true) × (3 ≤ length s) × (length s ≤ 64)
