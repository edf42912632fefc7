-- ===== src/Http.antt =====
-- The exceptions of @nestjs/common that the services throw, as values, and the response to a request.
use autonomous_csa.Base.{
  String, Bool, true, false, Option, none, some, if◌then◌else◌, ◌≡◌, refl, ap, arith,
}

pub data HttpError : Type 0 where
  bad_request unauthorized forbidden not_found conflict : String → HttpError
  too_many_requests service_unavailable : String → HttpError
  -- An error of another class, which is answered as one of the server.
  internal_error : String → HttpError

pub data Response {ℓ} (A : Type ℓ) : Type ℓ where
  refuse : HttpError → Response A
  reply : A → Response A

-- `if (bad) throw error`, before the rest of a handler.
abbrev pub refuse_if {ℓ} : {A : Type ℓ} → Bool → HttpError → Response A → Response A
refuse_if true error rest = refuse error
refuse_if false error rest = rest

-- `await` of a method that may throw.
infixl 5 ◌>>=◌
abbrev pub ◌>>=◌ {κ ℓ} : {B : Type κ} {A : Type ℓ} → Response A → (A → Response B) → Response B
refuse error >>= rest = refuse error
reply a >>= rest = rest a

pub bind_replied {κ ℓ} :
    {B : Type κ} {A : Type ℓ} (r : Response A) (rest : A → Response B) (b : B)
    → (r >>= rest) ≡ reply b
    → (a : A) × (r ≡ reply a) × (rest a ≡ reply b)
bind_replied (refuse error) rest b e = ground (arith, e)
bind_replied (reply a) rest b e = (a, refl, e)

pub refuse_if_replied {ℓ} :
    {A : Type ℓ} (bad : Bool) (error : HttpError) (rest : Response A) (a : A)
    → refuse_if bad error rest ≡ reply a
    → (bad ≡ false) × (rest ≡ reply a)
refuse_if_replied true error rest a e = ground (arith, e)
refuse_if_replied false error rest a e = (refl, e)

-- A handler passes on the state `S` that it leaves, with its answer. The two continuations: what is
-- missing, and what is refused, ends the handler with the state as it is.
module _ {σ κ ℓ} {S : Type σ} {B : Type κ} {A : Type ℓ} (s : S) where
  unfoldable pub on_found : HttpError → Option A → (A → S × Response B) → S × Response B
  on_found error none rest = (s, refuse error)
  on_found error (some a) rest = rest a

  unfoldable pub on_reply : Response A → (A → S × Response B) → S × Response B
  on_reply (refuse error) rest = (s, refuse error)
  on_reply (reply a) rest = rest a

  pub on_found_keeps {π} :
      (P : S → Type π) (error : HttpError) (o : Option A) (rest : A → S × Response B)
      → P s
      → ((a : A) → o ≡ some a → P (rest a).0)
      → P (on_found error o rest).0
  unfolding on_found
  on_found_keeps P error none rest stays goes = stays
  on_found_keeps P error (some a) rest stays goes = goes a refl

  -- With the answer: what is missing is refused.
  pub on_found_cases {π} :
      (P : S × Response B → Type π) (error : HttpError) (o : Option A) (rest : A → S × Response B)
      → ((e : HttpError) → P (s, refuse e))
      → ((a : A) → o ≡ some a → P (rest a))
      → P (on_found error o rest)
  unfolding on_found
  on_found_cases P error none rest refused goes = refused error
  on_found_cases P error (some a) rest refused goes = goes a refl

  pub on_reply_cases {π} :
      (P : S × Response B → Type π) (r : Response A) (rest : A → S × Response B)
      → ((e : HttpError) → P (s, refuse e))
      → ((a : A) → r ≡ reply a → P (rest a))
      → P (on_reply r rest)
  unfolding on_reply
  on_reply_cases P (refuse error) rest refused goes = refused error
  on_reply_cases P (reply a) rest refused goes = goes a refl

  -- What replied was found.
  pub on_found_replied :
      (error : HttpError) (o : Option A) (rest : A → S × Response B) (s' : S) (b : B)
      → on_found error o rest ≡ (s', reply b)
      → (a : A) × (o ≡ some a) × (rest a ≡ (s', reply b))
  unfolding on_found
  on_found_replied error none rest s' b e = ground (arith, ap (λ p. p.1) e)
  on_found_replied error (some a) rest s' b e = (a, refl, e)

  pub on_found_missing :
      (error : HttpError) (o : Option A) (rest : A → S × Response B)
      → o ≡ none
      → on_found error o rest ≡ (s, refuse error)
  unfolding on_found
  on_found_missing error o rest e = rw (e) refl

  pub on_found_refused :
      (error : HttpError) (o : Option A) (rest : A → S × Response B)
      → ((a : A) → (e : HttpError) × (rest a ≡ (s, refuse e)))
      → (e : HttpError) × (on_found error o rest ≡ (s, refuse e))
  unfolding on_found
  on_found_refused error none rest h = (error, refl)
  on_found_refused error (some a) rest h = h a

  pub on_reply_keeps {π} :
      (P : S → Type π) (r : Response A) (rest : A → S × Response B)
      → P s
      → ((a : A) → r ≡ reply a → P (rest a).0)
      → P (on_reply r rest).0
  unfolding on_reply
  on_reply_keeps P (refuse error) rest stays goes = stays
  on_reply_keeps P (reply a) rest stays goes = goes a refl

module _ {σ κ} {S : Type σ} {B : Type κ} (s : S) where
  -- `if (bad) throw error`.
  unfoldable pub throw_if : Bool → HttpError → S × Response B → S × Response B
  throw_if bad error rest = if bad then (s, refuse error) else rest

  pub throw_if_keeps {π} :
      (P : S → Type π) (bad : Bool) (error : HttpError) (rest : S × Response B)
      → P s
      → (bad ≡ false → P rest.0)
      → P (throw_if bad error rest).0
  unfolding throw_if
  throw_if_keeps P true error rest stays goes = stays
  throw_if_keeps P false error rest stays goes = goes refl

  pub throw_if_cases {π} :
      (P : S × Response B → Type π) (bad : Bool) (error : HttpError) (rest : S × Response B)
      → ((e : HttpError) → P (s, refuse e))
      → (bad ≡ false → P rest)
      → P (throw_if bad error rest)
  unfolding throw_if
  throw_if_cases P true error rest refused goes = refused error
  throw_if_cases P false error rest refused goes = goes refl
