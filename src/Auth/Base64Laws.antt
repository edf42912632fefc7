-- ===== src/Auth/Base64Laws.antt =====
-- The parts of a token as texts: `base64UrlEncode`, `base64UrlDecode` and `split('.')`
-- (apps/api/src/auth/token.service.ts).
use mathlib.Core.List.{append-nil, append_assoc}
use autonomous_csa.Base.{
  ◌∙◌, ℕ, zero, suc, ◌+◌, ◌-◌, ◌%◌, ◌≡◌, ◌≤◌, refl, ap, Bool-cases, inl, inr, Bool, true, false,
  ◌&&◌, ◌||◌, [], ◌∷◌, ◌++◌, map, length, length-append, any, count, Text, split_on, leb, ◌==◌,
  if◌then◌else◌, arith,
}
use autonomous_csa.Auth.Tokens.{
  to_url, of_url, unpadded, cons_unpadded, equal_signs, padded, dotted,
}

abbrev is_base64_unit : ℕ → Bool
is_base64_unit c =
    (leb b'A' c && leb c b'Z')
    || (leb b'a' c && leb c b'z')
    || (leb b'0' c && leb c b'9')
    || (c == b'+' || c == b'/')

abbrev is_padding : Text → Bool
is_padding [] = true
is_padding (c ∷ s) = c == b'=' && is_padding s

-- Units of the alphabet, then signs of equality.
abbrev pub is_base64 : Text → Bool
is_base64 [] = true
is_base64 (c ∷ s) = if c == b'=' then is_padding s else is_base64_unit c && is_base64 s

abbrev pub padding_length : Text → ℕ
padding_length = count (λ c. c == b'=')

of_url-to_url : (c : ℕ) → is_base64_unit c ≡ true → of_url (to_url c) ≡ c
of_url-to_url c h = ground arith

unpadded_padding : (s : Text) → is_padding s ≡ true → unpadded s ≡ []
unfolding unpadded
unpadded_padding [] h = refl
unpadded_padding (c ∷ s) h = ground (arith, unpadded_padding s)

url_padding : (s : Text) → is_padding s ≡ true → unpadded (map to_url s) ≡ []
unfolding unpadded
url_padding [] h = refl
url_padding (c ∷ s) h = ground (arith, url_padding s)

cons_unpadded_lem : (c : ℕ) (s : Text) → (c == b'=') ≡ false → cons_unpadded c s ≡ c ∷ s
cons_unpadded_lem c [] h = ground (arith, h)
cons_unpadded_lem c (d ∷ s) h = refl

to_url_equals : (c : ℕ) → (c == b'=') ≡ false → (to_url c == b'=') ≡ false
to_url_equals c h = ground arith

cons_base64 :
    (c : ℕ) (s : Text)
    → (c == b'=') ≡ false
    → is_base64 (c ∷ s) ≡ true
    → (is_base64_unit c ≡ true) × (is_base64 s ≡ true)
cons_base64 c s e h = ground (arith, h)

all_padding :
    (c : ℕ) (s : Text) → (c == b'=') ≡ true → is_base64 (c ∷ s) ≡ true → is_padding (c ∷ s) ≡ true
all_padding c s e h = ground (arith, h)

-- What `base64_url_encode` leaves of a text: nothing of the padding, and each unit of the alphabet in
-- its new form.
unfoldable pub url_of : Text → Text
unfolding unpadded
url_of s = unpadded (map to_url s)

url_of-padding :
    (c : ℕ) (s : Text)
    → (c == b'=') ≡ true
    → is_base64 (c ∷ s) ≡ true
    → (url_of (c ∷ s) ≡ []) × (unpadded (c ∷ s) ≡ [])
unfolding url_of
url_of-padding c s e h =
    let pad = all_padding c s e h in (url_padding (c ∷ s) pad, unpadded_padding (c ∷ s) pad)

url_of-unit : (c : ℕ) (s : Text) → (c == b'=') ≡ false → url_of (c ∷ s) ≡ to_url c ∷ url_of s
unfolding url_of unpadded
url_of-unit c s e = cons_unpadded_lem (to_url c) (unpadded (map to_url s)) (to_url_equals c e)

unpadded_unit : (c : ℕ) (s : Text) → (c == b'=') ≡ false → unpadded (c ∷ s) ≡ c ∷ unpadded s
unfolding unpadded
unpadded_unit c s e = cons_unpadded_lem c (unpadded s) e

pub map-url_of : (s : Text) → is_base64 s ≡ true → map of_url (url_of s) ≡ unpadded s
unfolding url_of unpadded
map-url_of [] h = refl
map-url_of (c ∷ s) h = elim (Bool-cases (c == b'=')) [
  | inl e ↦ let p = url_of-padding c s e h in rw (p.0, p.1) refl
  | inr e ↦
      let p = cons_base64 c s e h in
      rw (url_of-unit c s e, unpadded_unit c s e, of_url-to_url c p.0, map-url_of s p.1) refl
]

padding_lem : (s : Text) → is_padding s ≡ true → equal_signs (padding_length s) ≡ s
padding_lem [] h = refl
padding_lem (c ∷ s) h = ground (arith, padding_lem s)

unpadded-append : (s : Text) → is_base64 s ≡ true → unpadded s ++ equal_signs (padding_length s) ≡ s
unfolding unpadded
unpadded-append [] h = refl
unpadded-append (c ∷ s) h = ground (arith, unpadded-append s, unpadded_padding s, padding_lem s)

length-equal_signs : (n : ℕ) → length (equal_signs n) ≡ n
length-equal_signs zero = refl
length-equal_signs (suc n) = ap suc (length-equal_signs n)

length-unpadded :
    (s : Text) → is_base64 s ≡ true → length (unpadded s) + padding_length s ≡ length s
length-unpadded s h =
    let n = padding_length s in
    ground (
      arith,
      length-append (unpadded s) (equal_signs n),
      length-equal_signs n,
      ap length (unpadded-append s h),
    )

unfoldable pub is_dot : ℕ → Bool
is_dot c = c == b'.'

to_url_dot : (c : ℕ) → is_base64_unit c ≡ true → is_dot (to_url c) ≡ false
unfolding is_dot
to_url_dot c h = ground arith

pub no_dot : (s : Text) → is_base64 s ≡ true → any is_dot (url_of s) ≡ false
unfolding url_of unpadded
no_dot [] h = refl
no_dot (c ∷ s) h = elim (Bool-cases (c == b'=')) [
  | inl e ↦ rw ((url_of-padding c s e h).0) refl
  | inr e ↦
      let p = cons_base64 c s e h in rw (url_of-unit c s e, to_url_dot c p.0, no_dot s p.1) refl
]

split_on_lem : (s : Text) → any is_dot s ≡ false → split_on b'.' s ≡ s ∷ []
unfolding split_on is_dot
split_on_lem [] h = refl
split_on_lem (c ∷ s) h = ground (arith, split_on_lem s)

split_on-dotted :
    (s t : Text) → any is_dot s ≡ false → split_on b'.' (dotted s t) ≡ s ∷ split_on b'.' t
unfolding split_on is_dot
split_on-dotted [] t h = refl
split_on-dotted (c ∷ s) t h = ground (arith, split_on-dotted s t)

missing_padding : (l n : ℕ) → (l + n) % 4 ≡ 0 → n ≤ 2 → (l % 4 == 0) ≡ false → 4 - l % 4 ≡ n
missing_padding l n four two some_left = ground arith

no_padding : (l n : ℕ) → (l + n) % 4 ≡ 0 → n ≤ 2 → (l % 4 == 0) ≡ true → n ≡ 0
no_padding l n four two none_left = ground arith

padded_lem : (u : Text) (n : ℕ) → (length u + n) % 4 ≡ 0 → n ≤ 2 → padded u ≡ u ++ equal_signs n
padded_lem u n four two = elim (Bool-cases (length u % 4 == 0)) [
  | inl e ↦ rw (e, no_padding (length u) n four two e, append-nil u) refl
  | inr e ↦ rw (e, missing_padding (length u) n four two e) refl
]

pub padded-unpadded :
    (s : Text)
    → is_base64 s ≡ true
    → length s % 4 ≡ 0
    → padding_length s ≤ 2
    → padded (unpadded s) ≡ s
padded-unpadded s h four two =
    padded_lem (unpadded s) (padding_length s) (ap (λ n. n % 4) (length-unpadded s h) ∙ four) two
    ∙ unpadded-append s h

pub split_three :
    (a b c : Text)
    → any is_dot a ≡ false
    → any is_dot b ≡ false
    → any is_dot c ≡ false
    → split_on b'.' (dotted (dotted a b) c) ≡ a ∷ b ∷ c ∷ []
split_three a b c ha hb hc =
    rw
      (
        append_assoc a (b'.' ∷ b) (b'.' ∷ c),
        split_on-dotted a (dotted b c) ha,
        split_on-dotted b c hb,
        split_on_lem c hc,
      )
      refl
