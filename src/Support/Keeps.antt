-- ===== src/Support/Keeps.antt =====
-- Computations of a job that keep an invariant of the store, whether they return or throw, and
-- return a value of which a predicate holds.
use autonomous_csa.Base.{Bool, true, false, List, [], ◌∷◌, Option, none, some, if◌then◌else◌}
use autonomous_csa.Support.Classifier.{SerializedError}
use autonomous_csa.Support.Store.{
  Store, Answer, returned, thrown, Run, run_next, after_fault, ◌>>=◌, ◌>>◌, call, return, throw,
}
use autonomous_csa.Support.Job.{rethrown, rethrowing}

abbrev pub Post : {E A : Type 0} → (A → Type 0) → Answer E A → Type 0
Post P (returned a) = P a
Post P (thrown e) = Unit

-- No condition on a value.
abbrev pub Any : {A : Type 0} → A → Type 0
Any _ = Unit

abbrev pub with_faults : Store → List (Option SerializedError) → Store
with_faults s faults = record s { faults = faults }

module _ (I : Store → Type 0) where
  abbrev pub Ends : {E A : Type 0} → (A → Type 0) → Answer E A × Store → Type 0
  Ends P (answer, s) = I s × Post P answer

  abbrev pub Keeps : {E A : Type 0} → (A → Type 0) → Run E A → Type 0
  Keeps P m = (s : Store) → I s → Ends P (m s)

  pub return-Keeps :
      {A : Type 0} (E : Type 0) (P : A → Type 0) (a : A) → P a → Keeps {E = E} P (return a)
  unfolding return
  return-Keeps E P a p s h = (h, p)

  pub throw-Keeps : {E A : Type 0} (P : A → Type 0) (e : E) → Keeps {A = A} P (throw e)
  unfolding throw
  throw-Keeps P e s h = (h, tt)

  next-Ends :
      {E A B : Type 0} (P : A → Type 0) (Q : B → Type 0) (f : A → Run E B) (r : Answer E A × Store)
      → Ends P r
      → ((a : A) → P a → Keeps Q (f a))
      → Ends Q (run_next f r)
  next-Ends P Q f (returned a, s) (h, p) k = k a p s h
  next-Ends P Q f (thrown e, s) (h, p) k = (h, tt)

  pub bind-Keeps :
      {E A B : Type 0} (P : A → Type 0) (Q : B → Type 0) (m : Run E A) (f : A → Run E B)
      → Keeps P m
      → ((a : A) → P a → Keeps Q (f a))
      → Keeps Q (m >>= f)
  unfolding ◌>>=◌
  bind-Keeps P Q m f h k s i = next-Ends P Q f (m s) (h s i) k

  pub then-Keeps :
      {E A B : Type 0} (P : A → Type 0) (Q : B → Type 0) (m : Run E A) (n : Run E B)
      → Keeps P m
      → Keeps Q n
      → Keeps Q (m >> n)
  unfolding ◌>>◌
  then-Keeps P Q m n h k s i = next-Ends P Q (λ _. n) (m s) (h s i) (λ _ _. k)

  rethrown-Ends :
      {A : Type 0} (P : A → Type 0) (r : Answer SerializedError A × Store)
      → Ends P r
      → Ends P (rethrown r)
  rethrown-Ends P (returned a, s) h = h
  rethrown-Ends P (thrown e, s) h = h

  pub rethrowing-Keeps :
      {A : Type 0} (P : A → Type 0) (m : Run SerializedError A) → Keeps P m → Keeps P (rethrowing m)
  unfolding rethrowing
  rethrowing-Keeps P m h s i = rethrown-Ends P (m s) (h s i)

  pub if-Keeps :
      {E A : Type 0} (P : A → Type 0) (b : Bool) (m n : Run E A)
      → Keeps P m
      → Keeps P n
      → Keeps P (if b then m else n)
  if-Keeps P true m n h k = h
  if-Keeps P false m n h k = k

  -- The invariant does not depend on the faults to come.
  abbrev pub IsFaultFree : Type 0
  IsFaultFree = (s : Store) (fs : List (Option SerializedError)) → I s → I (with_faults s fs)

  fault-Ends :
      {A : Type 0} (P : A → Type 0) (f : Run SerializedError A) (s : Store)
      (fs : List (Option SerializedError))
      → IsFaultFree
      → I s
      → Ends P (f s)
      → ((gs : List (Option SerializedError)) → Ends P (f (with_faults s gs)))
      → Ends P (after_fault f s fs)
  fault-Ends P f s [] law i h k = h
  fault-Ends P f s (none ∷ fs) law i h k = k fs
  fault-Ends P f s (some e ∷ fs) law i h k = (law s fs i, tt)

  -- A call in a given store, whatever faults await.
  pub call-Ends :
      {A : Type 0} (P : A → Type 0) (f : Run SerializedError A) (s : Store)
      → IsFaultFree
      → I s
      → ((fs : List (Option SerializedError)) → Ends P (f (with_faults s fs)))
      → Ends P (call f s)
  unfolding call
  call-Ends P f s law i h = fault-Ends P f s s.faults law i (h s.faults) h

  pub call-Keeps :
      {A : Type 0} (P : A → Type 0) (f : Run SerializedError A)
      → IsFaultFree
      → Keeps P f
      → Keeps P (call f)
  call-Keeps P f law h s i = call-Ends P f s law i (λ fs. h (with_faults s fs) (law s fs i))

  query-Ends :
      {A B : Type 0} (Q : B → Type 0) (q : Store → A) (f : A → Run SerializedError B) (s : Store)
      (fs : List (Option SerializedError))
      → IsFaultFree
      → I s
      → ((t : Store) → I t → Ends Q (f (q t) t))
      → Ends Q (run_next f (after_fault (λ t. (returned (q t), t)) s fs))
  query-Ends Q q f s [] law i h = h s i
  query-Ends Q q f s (none ∷ fs) law i h = h (with_faults s fs) (law s fs i)
  query-Ends Q q f s (some e ∷ fs) law i h = (law s fs i, tt)

  -- A query, and what follows in the store that answered it.
  pub query-Keeps :
      {A B : Type 0} (Q : B → Type 0) (q : Store → A) (f : A → Run SerializedError B)
      → IsFaultFree
      → ((t : Store) → I t → Ends Q (f (q t) t))
      → Keeps Q (call (λ t. (returned (q t), t)) >>= f)
  unfolding ◌>>=◌ call
  query-Keeps Q q f law h s i = query-Ends Q q f s s.faults law i h
