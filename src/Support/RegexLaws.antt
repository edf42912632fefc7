-- ===== src/Support/RegexLaws.antt =====
-- What it means for a pattern to match, a relation on positions, and the matcher of `Regex`.
use autonomous_csa.Base.{
  ℕ, ◌≡◌, refl, sym, subst, ◌⊎◌, inl, inr, ◌↔◌, Bool, true, false, ◌||◌, List, [], ◌∷◌, ◌++◌,
  Option, none, some, Text, arith, Bool-cases, if◌then◌else◌,
}
use autonomous_csa.Support.Regex.{
  Regex, empty, boundary, one_of, many_of, seq, either, Position, on_all, many_ends, ends, is_match,
  is_word_at, first, differ, test_from, test,
}

-- Any number of code units of a class.
pub data Many (p : ℕ → Bool) : Option ℕ → Text → Option ℕ → Text → Type 0 where
  m_stop : {prev : Option ℕ} {s : Text} → Many p prev s prev s
  m_more :
      {prev prev' : Option ℕ} {c : ℕ} {s s' : Text}
      → p c ≡ true
      → Many p (some c) s prev' s'
      → Many p prev (c ∷ s) prev' s'

pub data Matches : Regex → Option ℕ → Text → Option ℕ → Text → Type 0 where
  m_empty : {prev : Option ℕ} {s : Text} → Matches empty prev s prev s
  m_boundary :
      {prev : Option ℕ} {s : Text}
      → differ (is_word_at prev) (is_word_at (first s)) ≡ true
      → Matches boundary prev s prev s
  m_one :
      {p : ℕ → Bool} {prev : Option ℕ} {c : ℕ} {s : Text}
      → p c ≡ true
      → Matches (one_of p) prev (c ∷ s) (some c) s
  m_many :
      {p : ℕ → Bool} {prev prev' : Option ℕ} {s s' : Text}
      → Many p prev s prev' s'
      → Matches (many_of p) prev s prev' s'
  m_seq :
      {r q : Regex} {prev mid prev' : Option ℕ} {s m s' : Text}
      → Matches r prev s mid m
      → Matches q mid m prev' s'
      → Matches (seq r q) prev s prev' s'
  m_left :
      {r q : Regex} {prev prev' : Option ℕ} {s s' : Text}
      → Matches r prev s prev' s'
      → Matches (either r q) prev s prev' s'
  m_right :
      {r q : Regex} {prev prev' : Option ℕ} {s s' : Text}
      → Matches q prev s prev' s'
      → Matches (either r q) prev s prev' s'

-- A pattern matches from this position or from a later one.
pub data Occurs (r : Regex) : Option ℕ → Text → Type 0 where
  at : {prev prev' : Option ℕ} {s s' : Text} → Matches r prev s prev' s' → Occurs r prev s
  later : {prev : Option ℕ} {c : ℕ} {s : Text} → Occurs r (some c) s → Occurs r prev (c ∷ s)

abbrev In : Position → List Position → Type 0
In p [] = ⊥
In p (q ∷ qs) = (q ≡ p) ⊎ In p qs

In-append_left : (p : Position) (ps qs : List Position) → In p ps → In p (ps ++ qs)
In-append_left p [] qs h = absurd h
In-append_left p (x ∷ ps) qs (inl e) = inl e
In-append_left p (x ∷ ps) qs (inr h) = inr (In-append_left p ps qs h)

In-append_right : (p : Position) (ps qs : List Position) → In p qs → In p (ps ++ qs)
In-append_right p [] qs h = h
In-append_right p (x ∷ ps) qs h = inr (In-append_right p ps qs h)

In-append_cases : (p : Position) (ps qs : List Position) → In p (ps ++ qs) → In p ps ⊎ In p qs
In-append_cases p [] qs h = inr h
In-append_cases p (x ∷ ps) qs (inl e) = inl (inl e)
In-append_cases p (x ∷ ps) qs (inr h) = elim (In-append_cases p ps qs h) [
  | inl l ↦ inl (inr l)
  | inr r ↦ inr r
]

In-on_all :
    (f : Position → List Position) (p q : Position) (ps : List Position)
    → In q ps
    → In p (f q)
    → In p (on_all f ps)
In-on_all f p q [] h k = absurd h
In-on_all f p q (x ∷ ps) (inl e) k =
    In-append_left p (f x) (on_all f ps) (subst (λ y. In p (f y)) (sym e) k)
In-on_all f p q (x ∷ ps) (inr h) k = In-append_right p (f x) (on_all f ps) (In-on_all f p q ps h k)

In-on_all_cases :
    (f : Position → List Position) (p : Position) (ps : List Position)
    → In p (on_all f ps)
    → (q : Position) × In q ps × In p (f q)
In-on_all_cases f p [] h = absurd h
In-on_all_cases f p (x ∷ ps) h = elim (In-append_cases p (f x) (on_all f ps) h) [
  | inl l ↦ (x, inl refl, l)
  | inr r ↦ let (q, i, k) = In-on_all_cases f p ps r in (q, inr i, k)
]

many_here : (p : ℕ → Bool) (prev : Option ℕ) (s : Text) → In (prev, s) (many_ends p prev s)
unfolding many_ends
many_here p prev [] = inl refl
many_here p prev (c ∷ s) = elim (Bool-cases (p c)) [
  | inl y ↦ rw (y, In) (inl refl)
  | inr n ↦ rw (n, In) (inl refl)
]

Many-complete :
    {p : ℕ → Bool} {prev prev' : Option ℕ} {s s' : Text}
    → Many p prev s prev' s'
    → In (prev', s') (many_ends p prev s)
unfolding many_ends
Many-complete {p} {prev} {s} m_stop = many_here p prev s
Many-complete (m_more y m) = rw (y, In) (inr (Many-complete m))

complete :
    {r : Regex} {prev prev' : Option ℕ} {s s' : Text}
    → Matches r prev s prev' s'
    → In (prev', s') (ends r prev s)
unfolding ends
complete m_empty = inl refl
complete (m_boundary b) = rw (b, In) (inl refl)
complete (m_one y) = rw (y, In) (inl refl)
complete (m_many m) = Many-complete m
complete (m_seq {r} {q} {prev} {s} m n) =
    In-on_all (λ e. ends q e.0 e.1) _ _ (ends r prev s) (complete m) (complete n)
complete (m_left {r} {q} {prev} {s} m) =
    In-append_left _ (ends r prev s) (ends q prev s) (complete m)
complete (m_right {r} {q} {prev} {s} m) =
    In-append_right _ (ends r prev s) (ends q prev s) (complete m)

In-more :
    (b : Bool) (x q : Position) (more : List Position)
    → In q (if b then x ∷ more else x ∷ [])
    → (x ≡ q) ⊎ ((b ≡ true) × In q more)
In-more true x q more (inl e) = inl e
In-more true x q more (inr h) = inr (refl, h)
In-more false x q more (inl e) = inl e
In-more false x q more (inr h) = absurd h

In-one : (b : Bool) (x q : Position) → In q (if b then x ∷ [] else []) → (b ≡ true) × (x ≡ q)
In-one true x q (inl e) = (refl, e)
In-one true x q (inr h) = absurd h
In-one false x q h = absurd h

Many-sound :
    (p : ℕ → Bool) (prev : Option ℕ) (s : Text) (q : Position)
    → In q (many_ends p prev s)
    → Many p prev s q.0 q.1
unfolding many_ends
Many-sound p prev [] q (inl e) = subst (λ (y : Position). Many p prev [] y.0 y.1) e m_stop
Many-sound p prev [] q (inr h) = absurd h
Many-sound p prev (c ∷ s) q h = elim (In-more (p c) (prev, c ∷ s) q (many_ends p (some c) s) h) [
  | inl e ↦ subst (λ (y : Position). Many p prev (c ∷ s) y.0 y.1) e m_stop
  | inr (y, k) ↦ m_more y (Many-sound p (some c) s q k)
]

abbrev Ends : Regex → Option ℕ → Text → Position → Type 0
Ends r prev s (prev', s') = Matches r prev s prev' s'

sound :
    (r : Regex) (prev : Option ℕ) (s : Text) (q : Position) → In q (ends r prev s) → Ends r prev s q
unfolding ends
sound empty prev s q (inl e) = subst (Ends empty prev s) e m_empty
sound empty prev s q (inr h) = absurd h
sound boundary prev s q h =
    let (b, e) = In-one (differ (is_word_at prev) (is_word_at (first s))) (prev, s) q h in
    subst (Ends boundary prev s) e (m_boundary b)
sound (one_of p) prev [] q h = absurd h
sound (one_of p) prev (c ∷ s) q h =
    let (y, e) = In-one (p c) (some c, s) q h in subst (Ends (one_of p) prev (c ∷ s)) e (m_one y)
sound (many_of p) prev s (prev', s') h = m_many (Many-sound p prev s (prev', s') h)
sound (seq r q) prev s (prev', s') h =
    let ((mid, m), i, k) = In-on_all_cases (λ e. ends q e.0 e.1) (prev', s') (ends r prev s) h in
    m_seq (sound r prev s (mid, m) i) (sound q mid m (prev', s') k)
sound (either r q) prev s (prev', s') h =
    elim (In-append_cases (prev', s') (ends r prev s) (ends q prev s) h) [
      | inl l ↦ m_left (sound r prev s (prev', s') l)
      | inr k ↦ m_right (sound q prev s (prev', s') k)
    ]

is_match_of_In : (q : Position) (ps : List Position) → In q ps → is_match ps ≡ true
is_match_of_In q [] h = absurd h
is_match_of_In q (p ∷ ps) h = refl

In-is_match : (ps : List Position) → is_match ps ≡ true → (q : Position) × In q ps
In-is_match [] h = cc
In-is_match (p ∷ ps) h = (p, inl refl)

or_right : (b : Bool) → (b || true) ≡ true
or_right b = ground arith

test_from_complete :
    (r : Regex) {prev : Option ℕ} {s : Text} → Occurs r prev s → test_from r prev s ≡ true
unfolding test_from
test_from_complete r {prev} {s = []} (at m) = is_match_of_In _ (ends r prev []) (complete m)
test_from_complete r {prev} {s = c ∷ s} (at m) =
    rw (is_match_of_In _ (ends r prev (c ∷ s)) (complete m))
test_from_complete r (later o) = rw (test_from_complete r o) (or_right _)

test_from_sound :
    (r : Regex) (prev : Option ℕ) (s : Text) → test_from r prev s ≡ true → Occurs r prev s
unfolding test_from
test_from_sound r prev [] h =
    let (q, i) = In-is_match (ends r prev []) h in at (sound r prev [] q i)
test_from_sound r prev (c ∷ s) h = elim (Bool-cases (is_match (ends r prev (c ∷ s)))) [
  | inl y ↦ let (q, i) = In-is_match (ends r prev (c ∷ s)) y in at (sound r prev (c ∷ s) q i)
  | inr n ↦ later (test_from_sound r (some c) s (rw n at h))
]

-- The matcher answers true exactly if the pattern matches from some position of the text.
pub test_iff : (r : Regex) (s : Text) → (test r s ≡ true) ↔ Occurs r none s
unfolding test
test_iff r s = (test_from_sound r none s, test_from_complete r)
