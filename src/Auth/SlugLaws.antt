-- ===== src/Auth/SlugLaws.antt =====
-- The slugs that `normalizeOrganizationSlug` returns (apps/api/src/auth/auth.service.ts).
use mathlib.Core.List.{reverse, ◌++◌, reverse-reverse, reverse-cons}
use autonomous_csa.Base.{
  ℕ, ◌≡◌, refl, Bool, true, false, not, ◌&&◌, ◌||◌, [], ◌∷◌, Text, trim, ltb, ◌==◌, length, any,
  is_space, trim_start, arith,
}
use autonomous_csa.Http.{reply}
use autonomous_csa.Auth.Slug.{
  is_slug_char, dash_runs, strip_start, strip_end, squeeze, slug_of, normalize_organization_slug,
  has_slug_shape, IsSlug,
}

-- What is left of a text after its last dashes are gone.
abbrev is_clean : Bool → Text → Bool
is_clean w [] = true
is_clean w (c ∷ s) = has_slug_shape w (c ∷ s)

strip_end-dash_runs :
    (s : Text) (in_run : Bool) → is_clean (not in_run) (strip_end (dash_runs in_run s)) ≡ true
unfolding strip_end dash_runs
strip_end-dash_runs [] in_run = refl
strip_end-dash_runs (c ∷ s) in_run =
    ground (arith, strip_end-dash_runs s true, strip_end-dash_runs s false)

strip_start-dash_runs : (s : Text) → strip_start (dash_runs true s) ≡ dash_runs true s
unfolding strip_start dash_runs
strip_start-dash_runs [] = refl
strip_start-dash_runs (c ∷ s) = ground (arith, strip_start-dash_runs s)

strip-is_clean : (s : Text) → is_clean false (strip_end (strip_start (dash_runs false s))) ≡ true
unfolding strip_start strip_end dash_runs
strip-is_clean [] = refl
strip-is_clean (c ∷ s) =
    ground (arith, strip_end-dash_runs s true, strip_end-dash_runs s false, strip_start-dash_runs s)

squeeze_lem : (s : Text) (w : Bool) → has_slug_shape w s ≡ true → squeeze (not w) s ≡ s
unfolding squeeze
squeeze_lem [] w h = refl
squeeze_lem (c ∷ s) w h = ground (arith, squeeze_lem s true, squeeze_lem s false)

squeeze_clean : (s : Text) → is_clean false s ≡ true → squeeze false s ≡ s
unfolding squeeze
squeeze_clean [] h = refl
squeeze_clean (c ∷ s) h = ground (arith, squeeze_lem s true)

slug_of-is_clean :
    (to_lower_case : Text → Text) (value : Text)
    → is_clean false (slug_of to_lower_case value) ≡ true
unfolding slug_of
slug_of-is_clean to_lower_case value =
    let clean = strip-is_clean (to_lower_case (trim value)) in rw (squeeze_clean _ clean) clean

is_clean-IsSlug :
    (s : Text)
    → is_clean false s ≡ true
    → ltb (length s) 3 ≡ false
    → ltb 64 (length s) ≡ false
    → IsSlug s
is_clean-IsSlug [] h lo hi = ground arith
is_clean-IsSlug (c ∷ s) h lo hi = ground arith

-- A slug that the normalization returns consists of words of small letters and digits with one dash
-- between two of them, and has 3 to 64 units.
pub normalize_organization_slug-IsSlug :
    (to_lower_case : Text → Text) (value slug : Text)
    → normalize_organization_slug to_lower_case value ≡ reply slug
    → IsSlug slug
unfolding normalize_organization_slug
normalize_organization_slug-IsSlug to_lower_case value slug e =
    ground
      (arith, slug_of-is_clean to_lower_case value, is_clean-IsSlug (slug_of to_lower_case value))

any-append : (p : ℕ → Bool) (s t : Text) → any p (s ++ t) ≡ (any p s || any p t)
any-append p [] t = refl
any-append p (c ∷ s) t = ground (arith, any-append p s t)

any-reverse : (p : ℕ → Bool) (s : Text) → any p s ≡ false → any p (reverse s) ≡ false
any-reverse p [] h = refl
any-reverse p (c ∷ s) h =
    rw (reverse-cons c s, any-append p (reverse s) (c ∷ [])) (ground (arith, any-reverse p s))

trim_start_lem : (s : Text) → any is_space s ≡ false → trim_start s ≡ s
unfolding trim_start
trim_start_lem [] h = refl
trim_start_lem (c ∷ s) h = ground arith

trim_lem : (s : Text) → any is_space s ≡ false → trim s ≡ s
unfolding trim
trim_lem s h =
    rw
      (trim_start_lem s h, trim_start_lem (reverse s) (any-reverse is_space s h), reverse-reverse s)
      refl

-- The units of a slug.
abbrev pub is_slug_unit : ℕ → Bool
is_slug_unit c = is_slug_char c || c == b'-'

slug_units :
    (s : Text) (w : Bool) → has_slug_shape w s ≡ true → any (λ c. not (is_slug_unit c)) s ≡ false
slug_units [] w h = refl
slug_units (c ∷ s) w h = ground (arith, slug_units s true, slug_units s false)

not_space : (c : ℕ) → is_slug_unit c ≡ true → is_space c ≡ false
unfolding is_space
not_space c h = ground arith

slug_spaces : (s : Text) → any (λ c. not (is_slug_unit c)) s ≡ false → any is_space s ≡ false
slug_spaces [] h = refl
slug_spaces (c ∷ s) h = ground (arith, not_space c, slug_spaces s)

dash_runs_lem :
    (s : Text) (w r : Bool) → (w && r) ≡ false → has_slug_shape w s ≡ true → dash_runs r s ≡ s
unfolding dash_runs
dash_runs_lem [] w r q h = refl
dash_runs_lem (c ∷ s) w r q h =
    ground (arith, dash_runs_lem s true false, dash_runs_lem s false true)

strip_start_lem : (s : Text) → has_slug_shape false s ≡ true → strip_start s ≡ s
unfolding strip_start
strip_start_lem [] h = refl
strip_start_lem (c ∷ s) h = ground arith

strip_end_lem : (s : Text) (w : Bool) → has_slug_shape w s ≡ true → strip_end s ≡ s
unfolding strip_end
strip_end_lem [] w h = refl
strip_end_lem (c ∷ []) w h = ground arith
strip_end_lem (c ∷ d ∷ s) w h =
    ground (arith, strip_end_lem (d ∷ s) true, strip_end_lem (d ∷ s) false)

slug-is_clean : (s : Text) → has_slug_shape false s ≡ true → is_clean false s ≡ true
slug-is_clean [] h = refl
slug-is_clean (c ∷ s) h = h

slug_of_lem :
    (to_lower_case : Text → Text) (s : Text)
    → to_lower_case s ≡ s
    → has_slug_shape false s ≡ true
    → slug_of to_lower_case s ≡ s
unfolding slug_of
slug_of_lem to_lower_case s low h =
    rw
      (
        trim_lem s (slug_spaces s (slug_units s false h)),
        low,
        dash_runs_lem s false false refl h,
        strip_start_lem s h,
        strip_end_lem s false h,
        squeeze_clean s (slug-is_clean s h),
      )
      refl

-- Where the lower case of a text of small letters, digits and dashes is that text, every slug is
-- returned as it is: those are the texts that the normalization returns.
pub IsSlug-normalize_organization_slug :
    (to_lower_case : Text → Text) (slug : Text)
    → ((s : Text) → any (λ c. not (is_slug_unit c)) s ≡ false → to_lower_case s ≡ s)
    → IsSlug slug
    → normalize_organization_slug to_lower_case slug ≡ reply slug
unfolding normalize_organization_slug
IsSlug-normalize_organization_slug to_lower_case slug low h =
    rw (slug_of_lem to_lower_case slug (low slug (slug_units slug false h.0)) h.0) (ground arith)
