-- ===== src/Support/ClassifierLaws.antt =====
-- What the words of an error decide.
use autonomous_csa.Base.{
  ◌≡◌, refl, ◌⊎◌, ◌↔◌, inl, inr, Bool, true, false, ◌||◌, List, [], ◌∷◌, ◌++◌, Text, codes,
  includes, starts_with, arith, ==_iff, ◌==◌, ◌&&◌, String, subst, sym, ap,
}
use autonomous_csa.Support.Classifier.{
  SerializedError, RetryDisposition, RetryClassification, includes_any, get_haystack,
  classification_of, classify_retryable_error, blocked_patterns, configuration_patterns,
  validation_patterns,
}

-- A pattern occurs in a text.
abbrev pub Contains : Text → Text → Type 0
Contains text pattern = (pre : Text) × (post : Text) × (text ≡ pre ++ (pattern ++ post))

and-true : (a b : Bool) → (a && b) ≡ true → (a ≡ true) × (b ≡ true)
and-true a b h = ground (arith, h)

or-true : (a b : Bool) → (a || b) ≡ true → (a ≡ true) ⊎ (b ≡ true)
or-true a b h = ground (arith, h)

starts_with-append : (p post : Text) → starts_with (p ++ post) p ≡ true
unfolding starts_with
starts_with-append [] [] = refl
starts_with-append [] (x ∷ post) = refl
starts_with-append (x ∷ p) post = ground (arith, starts_with-append p post)

includes_of_starts_with : (text p : Text) → starts_with text p ≡ true → includes text p ≡ true
unfolding includes
includes_of_starts_with [] p h = h
includes_of_starts_with (x ∷ text) p h = ground (arith, h)

includes-Contains : (pre p post : Text) → includes (pre ++ (p ++ post)) p ≡ true
unfolding includes
includes-Contains [] p post = includes_of_starts_with (p ++ post) p (starts_with-append p post)
includes-Contains (x ∷ pre) p post = ground (arith, includes-Contains pre p post)

starts_with-split : (text p : Text) → starts_with text p ≡ true → (post : Text) × (text ≡ p ++ post)
unfolding starts_with
starts_with-split text [] h = (text, refl)
starts_with-split [] (y ∷ p) h = ground (arith, h)
starts_with-split (x ∷ text) (y ∷ p) h =
    let found = and-true (x == y) (starts_with text p) h in
    let rest = starts_with-split text p found.1 in (rest.0, cc (((==_iff x y).0) found.0, rest.1))

includes-Contains_of : (text p : Text) → includes text p ≡ true → Contains text p
unfolding includes
includes-Contains_of [] p h = let found = starts_with-split [] p h in ([], found.0, found.1)
includes-Contains_of (x ∷ text) p h =
    elim (or-true (starts_with (x ∷ text) p) (includes text p) h) [
      | inl y ↦ let found = starts_with-split (x ∷ text) p y in ([], found.0, found.1)
      | inr y ↦
          let found = includes-Contains_of text p y in
          (x ∷ found.0, found.1, ap (λ t. x ∷ t) found.2)
    ]

-- `text.includes(pattern)` finds a pattern exactly where it occurs.
includes_iff : (text p : Text) → (includes text p ≡ true) ↔ Contains text p
includes_iff text p = (
  includes-Contains_of text p,
  λ found. subst (λ t. includes t p ≡ true) (sym found.2) (includes-Contains found.0 p found.1),
)

-- Some pattern of a list occurs in a text.
abbrev pub ContainsAny : Text → List String → Type 0
ContainsAny text [] = ⊥
ContainsAny text (p ∷ ps) = Contains text (codes p) ⊎ ContainsAny text ps

includes_any_iff :
    (text : Text) (ps : List String) → (includes_any text ps ≡ true) ↔ ContainsAny text ps
unfolding includes_any
includes_any_iff text [] = ground arith
includes_any_iff text (p ∷ ps) =
    ground (arith, includes_iff text (codes p), includes_any_iff text ps)

not_retryable_of :
    {A B C : Type 0} (error : SerializedError) (b c v r t p : Bool)
    → ((b ≡ true) ↔ A)
    → ((c ≡ true) ↔ B)
    → ((v ≡ true) ↔ C)
    → ((classification_of error b c v r t p).retryable ≡ false) ↔ (A ⊎ (B ⊎ C))
unfolding classification_of
not_retryable_of error b c v r t p h k l = ground (arith, h, k, l)

-- An error is not retried exactly when, in lower case, its code, name and message say that the
-- draft was blocked, the configuration is wrong or the request is invalid.
pub not_retryable_iff :
    (error : SerializedError)
    → ((classify_retryable_error error).retryable ≡ false) ↔ (
        ContainsAny (get_haystack error) blocked_patterns
        ⊎ (ContainsAny (get_haystack error) configuration_patterns
            ⊎ ContainsAny (get_haystack error) validation_patterns))
unfolding classify_retryable_error
not_retryable_iff error =
    not_retryable_of error _ _ _ _ _ _ (includes_any_iff (get_haystack error) blocked_patterns)
      (includes_any_iff (get_haystack error) configuration_patterns)
      (includes_any_iff (get_haystack error) validation_patterns)

-- What the fields of a classification say of each other.
abbrev pub IsConsistent : RetryClassification → Type 0
IsConsistent c =
    ((c.retryable ≡ true) ↔ (c.disposition ≡ RetryDisposition.retryable))
    × ((c.should_dead_letter ≡ false) ↔ (c.disposition ≡ RetryDisposition.blocked))
    × ((c.use_unrecoverable_error ≡ true) ↔ ((c.retryable ≡ false) × (c.should_dead_letter ≡ true)))

classification_of-IsConsistent :
    (error : SerializedError) (b c v r t p : Bool)
    → IsConsistent (classification_of error b c v r t p)
unfolding classification_of
classification_of-IsConsistent error b c v r t p = ground arith

-- Every classification is consistent: the error is retried exactly when the disposition is
-- RETRYABLE, it is dead-lettered exactly when that is not BLOCKED, and the queue is told to give up
-- exactly on an error that is dead-lettered and not retried.
pub classify_retryable_error-IsConsistent :
    (error : SerializedError) → IsConsistent (classify_retryable_error error)
unfolding classify_retryable_error
classify_retryable_error-IsConsistent error = classification_of-IsConsistent error _ _ _ _ _ _
