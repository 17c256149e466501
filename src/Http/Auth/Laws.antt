-- ===== src/Http/Auth/Laws.antt =====
-- The comparison of tokens, and whom the read router lets in.
use Prim.Native.Nat.{bit_or, bit_xor, bit_or-bitwise, bit_xor-bitwise, digits, differ}
use triggerlane.Common.{
  ℕ, zero, suc, ◌/◌, ◌%◌, ◌≤◌, max, ◌≡◌, refl, ◌↔◌, arith, true, List, [], ◌∷◌, ◌++◌, ap, length,
  Option, some, none, sym, ◌∙◌, false, inl, inr, Option-cases,
}
use triggerlane.Http.Auth.{
  Headers, strip_prefix, difference, constant_time_eq, ReadAuth, bearer, token_matches, header_text,
  authorized, and_then,
}

differ_zero : (x y : ℕ) → differ x y ≡ 0 → x ≡ y
differ_zero zero y h = omega arith
differ_zero (suc x) zero h = omega arith
differ_zero (suc x) (suc y) h = omega (arith, differ_zero x y h)

or_digits : (n a b : ℕ) → a ≤ n → digits (λ d. d) max n a b ≡ 0 → (a ≡ 0) × (b ≡ 0)
or_digits zero zero b le h = (refl, h)
or_digits zero (suc a) b le h = absurd (omega arith)
or_digits (suc n) zero b le h = (refl, h)
or_digits (suc n) (suc a) b le h =
    let (p, q) = or_digits n (suc a / 2) (b / 2) (omega arith) (omega arith) in
    (omega arith, omega arith)

xor_digits : (n a b : ℕ) → a ≤ n → digits (λ d. d) differ n a b ≡ 0 → a ≡ b
xor_digits zero zero b le h = omega arith
xor_digits zero (suc a) b le h = absurd (omega arith)
xor_digits (suc n) zero b le h = omega arith
xor_digits (suc n) (suc a) b le h = omega (
  arith,
  xor_digits n (suc a / 2) (b / 2) (omega arith) (omega arith),
  differ_zero (suc a % 2) (b % 2) (omega arith),
)

differ_same : (x : ℕ) → differ x x ≡ 0
differ_same zero = refl
differ_same (suc x) = differ_same x

xor_digits_same : (n a : ℕ) → a ≤ n → digits (λ d. d) differ n a a ≡ 0
xor_digits_same zero a le = omega arith
xor_digits_same (suc n) zero le = refl
xor_digits_same (suc n) (suc a) le =
    omega (arith, xor_digits_same n (suc a / 2) (omega arith), differ_same (suc a % 2))

-- One round of the fold keeps 0 exactly for two bytes that agree.
round_zero : (acc x y : ℕ) → bit_or acc (bit_xor x y) ≡ 0 → (acc ≡ 0) × (x ≡ y)
round_zero acc x y h =
    let (p, q) =
      or_digits acc acc (bit_xor x y) (omega arith) (sym (bit_or-bitwise acc (bit_xor x y)) ∙ h) in
    (p, xor_digits x x y (omega arith) (sym (bit_xor-bitwise x y) ∙ q))

round_same : (x : ℕ) → bit_or 0 (bit_xor x x) ≡ 0
round_same x =
    bit_or-bitwise 0 (bit_xor x x) ∙ bit_xor-bitwise x x ∙ xor_digits_same x x (omega arith)

difference_zero :
    (acc : ℕ) (a b : List ℕ) → length a ≡ length b → difference acc a b ≡ 0 → (acc ≡ 0) × (a ≡ b)
unfolding difference
difference_zero acc [] [] same h = (h, refl)
difference_zero acc [] (y ∷ b) same h = absurd (omega (arith, same))
difference_zero acc (x ∷ a) [] same h = absurd (omega (arith, same))
difference_zero acc (x ∷ a) (y ∷ b) same h =
    let (p, q) = difference_zero (bit_or acc (bit_xor x y)) a b (omega (arith, same)) h in
    let (r, e) = round_zero acc x y p in (r, cc (e, q))

difference_same : (a : List ℕ) → difference 0 a a ≡ 0
unfolding difference
difference_same [] = refl
difference_same (x ∷ a) = ap (λ acc. difference acc a a) (round_same x) ∙ difference_same a

constant_time_eq_same : (a : List ℕ) → constant_time_eq a a ≡ true
unfolding constant_time_eq
constant_time_eq_same a = ground (arith, difference_same a)

constant_time_eq_sound : (a b : List ℕ) → constant_time_eq a b ≡ true → a ≡ b
unfolding constant_time_eq
constant_time_eq_sound a b h = ground (arith, difference_zero 0 a b)

-- The comparison that looks at every byte says true exactly for equal texts.
pub constant_time_eq_iff : (a b : List ℕ) → (constant_time_eq a b ≡ true) ↔ (a ≡ b)
constant_time_eq_iff a b = (
  constant_time_eq_sound a b,
  λ e. ap (λ c. constant_time_eq a c) (sym e) ∙ constant_time_eq_same a,
)

pub strip_prefix-some :
    (prefix text rest : List ℕ) → strip_prefix prefix text ≡ some rest → text ≡ prefix ++ rest
unfolding strip_prefix
strip_prefix-some [] text rest h = ground arith
strip_prefix-some (p ∷ prefix) [] rest h = ground arith
strip_prefix-some (p ∷ prefix) (c ∷ text) rest h =
    ground (arith, strip_prefix-some prefix text rest)

pub strip_prefix-append : (prefix rest : List ℕ) → strip_prefix prefix (prefix ++ rest) ≡ some rest
unfolding strip_prefix
strip_prefix-append [] rest = refl
strip_prefix-append (p ∷ prefix) rest = ground (arith, strip_prefix-append prefix rest)

token_sound :
    (auth : ReadAuth) (text : List ℕ)
    → token_matches auth (strip_prefix bearer text) ≡ true
    → text ≡ bearer ++ auth.token
token_sound auth text h = elim (Option-cases (strip_prefix bearer text)) [
  | inl e ↦ (let q : false ≡ true = sym (ap (token_matches auth) e) ∙ h in ground arith)
  | inr (rest, e) ↦
      strip_prefix-some bearer text rest e
      ∙ ap (λ r. bearer ++ r)
          (constant_time_eq_sound rest auth.token (sym (ap (token_matches auth) e) ∙ h))
]

text_iff :
    (auth : ReadAuth) (found : Option (List ℕ))
    → (token_matches auth (and_then found (strip_prefix bearer)) ≡ true)
      ↔ (found ≡ some (bearer ++ auth.token))
text_iff auth none = (λ h. ground arith, λ h. ground arith)
text_iff auth (some text) = (
  λ h. ap some (token_sound auth text h),
  λ e.
      ap (λ found. token_matches auth (and_then found (strip_prefix bearer))) e
      ∙ ap (token_matches auth) (strip_prefix-append bearer auth.token)
      ∙ constant_time_eq_same auth.token,
)

-- A request is let in exactly if its Authorization header is the text `Bearer ` with the token
-- behind it.
pub authorized_iff :
    (H : Headers) (auth : ReadAuth) (headers : H.HeaderMap)
    → (authorized H auth headers ≡ true)
      ↔ (header_text H "authorization" headers ≡ some (bearer ++ auth.token))
unfolding authorized
authorized_iff H auth headers = text_iff auth (header_text H "authorization" headers)
