-- ===== src/Support/DetectorLaws.antt =====
-- Keys in a draft and the patterns of apps/worker/src/guardrails/secret-detector.ts.
use autonomous_csa.Base.{
  ℕ, zero, suc, ◌≡◌, ◌≢◌, Bool, true, [], ◌∷◌, ◌++◌, Option, none, some, Text, codes, All, length,
  arith, ==_refl, subst, ◌⊎◌, inl, inr,
}
use mathlib.Core.List.{append_assoc, append-nil}
use autonomous_csa.Support.Regex.{Regex, one_of, many_of, seq, test, times, literal}
use autonomous_csa.Support.RegexLaws.{
  Matches, m_empty, m_one, m_many, m_stop, m_seq, Occurs, at, later, test_iff,
}
use autonomous_csa.Support.Detectors.{
  is_alnum, is_upper_alnum, openai_key, aws_access_key, github_pat, detect_secrets,
}

-- Consumes the text from any position, whatever follows.
abbrev Consumes : Regex → Text → Type 0
Consumes r s =
    (prev : Option ℕ) (rest : Text) → (prev' : Option ℕ) × Matches r prev (s ++ rest) prev' rest

literal-Consumes : (s : Text) → Consumes (literal s) s
unfolding literal
literal-Consumes [] prev rest = (prev, m_empty)
literal-Consumes (c ∷ s) prev rest =
    let (prev', m) = literal-Consumes s (some c) rest in (prev', m_seq (m_one (==_refl c)) m)

times-Consumes :
    (p : ℕ → Bool) (n : ℕ) (s : Text)
    → All (λ c. p c ≡ true) s
    → length s ≡ n
    → Consumes (times n (one_of p)) s
unfolding times
times-Consumes p zero [] h e prev rest = (prev, m_empty)
times-Consumes p zero (c ∷ s) h e prev rest = absurd (omega arith)
times-Consumes p (suc n) [] h e prev rest = absurd (omega arith)
times-Consumes p (suc n) (c ∷ s) (y, h) e prev rest =
    let (prev', m) = times-Consumes p n s h (omega arith) (some c) rest in
    (prev', m_seq (m_one y) m)

many_of-Consumes : (p : ℕ → Bool) → Consumes (many_of p) []
many_of-Consumes p prev rest = (prev, m_many m_stop)

seq-Consumes :
    (r q : Regex) (s t : Text) → Consumes r s → Consumes q t → Consumes (seq r q) (s ++ t)
seq-Consumes r q s t h k prev rest =
    let (mid, m) = h prev (t ++ rest) in
    let (prev', n) = k mid rest in (prev', rw append_assoc (m_seq m n))

Occurs-append :
    (r : Regex) (prev : Option ℕ) (pre s : Text)
    → ((p : Option ℕ) → Occurs r p s)
    → Occurs r prev (pre ++ s)
Occurs-append r prev [] s h = h prev
Occurs-append r prev (c ∷ pre) s h = later (Occurs-append r (some c) pre s h)

test_of_Consumes :
    (r : Regex) (pre s post : Text) → Consumes r s → test r (pre ++ (s ++ post)) ≡ true
test_of_Consumes r pre s post h =
    (test_iff r (pre ++ (s ++ post))).1
      (Occurs-append r none pre (s ++ post) (λ p. let (prev', m) = h p post in at m))

-- A key of one of the three plain kinds: a prefix, and as many characters of its class as it takes.
pub data IsKey : Text → Type 0 where
  is_openai : (s : Text) → All (λ c. is_alnum c ≡ true) s → length s ≡ 20 → IsKey (codes "sk-" ++ s)
  is_aws :
      (s : Text) → All (λ c. is_upper_alnum c ≡ true) s → length s ≡ 16 → IsKey (codes "AKIA" ++ s)
  is_github :
      (s : Text) → All (λ c. is_alnum c ≡ true) s → length s ≡ 36 → IsKey (codes "ghp_" ++ s)

openai_key-Consumes :
    (s : Text)
    → All (λ c. is_alnum c ≡ true) s
    → length s ≡ 20
    → Consumes openai_key (codes "sk-" ++ s)
unfolding openai_key
openai_key-Consumes s h e =
    seq-Consumes (literal (codes "sk-")) _ (codes "sk-") s (literal-Consumes (codes "sk-")) (
      subst (Consumes (seq (times 20 (one_of is_alnum)) (many_of is_alnum))) (append-nil s) (
        seq-Consumes (times 20 (one_of is_alnum)) (many_of is_alnum) s []
          (times-Consumes is_alnum 20 s h e) (many_of-Consumes is_alnum)))

aws_access_key-Consumes :
    (s : Text)
    → All (λ c. is_upper_alnum c ≡ true) s
    → length s ≡ 16
    → Consumes aws_access_key (codes "AKIA" ++ s)
unfolding aws_access_key
aws_access_key-Consumes s h e =
    seq-Consumes (literal (codes "AKIA")) (times 16 (one_of is_upper_alnum)) (codes "AKIA") s
      (literal-Consumes (codes "AKIA")) (times-Consumes is_upper_alnum 16 s h e)

github_pat-Consumes :
    (s : Text)
    → All (λ c. is_alnum c ≡ true) s
    → length s ≡ 36
    → Consumes github_pat (codes "ghp_" ++ s)
unfolding github_pat
github_pat-Consumes s h e =
    seq-Consumes (literal (codes "ghp_")) (times 36 (one_of is_alnum)) (codes "ghp_") s
      (literal-Consumes (codes "ghp_")) (times-Consumes is_alnum 36 s h e)

detected :
    (text : Text)
    → (test openai_key text ≡ true)
      ⊎ (test aws_access_key text ≡ true)
      ⊎ (test github_pat text ≡ true)
    → detect_secrets text ≢ []
unfolding detect_secrets
detected text (inl y) = ground (arith, y)
detected text (inr (inl y)) = ground (arith, y)
detected text (inr (inr y)) = ground (arith, y)

-- A draft that holds such a key has a secret detected, whatever stands before and after the key.
pub detect_secrets-IsKey :
    {key : Text} (pre post : Text) → IsKey key → detect_secrets (pre ++ (key ++ post)) ≢ []
detect_secrets-IsKey pre post (is_openai s h e) =
    detected _
      (inl (test_of_Consumes openai_key pre (codes "sk-" ++ s) post (openai_key-Consumes s h e)))
detect_secrets-IsKey pre post (is_aws s h e) = detected _ (
    inr (
      inl (
        test_of_Consumes aws_access_key pre (codes "AKIA" ++ s) post
          (aws_access_key-Consumes s h e))))
detect_secrets-IsKey pre post (is_github s h e) = detected _ (
    inr
      (inr (test_of_Consumes github_pat pre (codes "ghp_" ++ s) post (github_pat-Consumes s h e))))
