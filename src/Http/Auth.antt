-- ===== src/Http/Auth.antt =====
-- The bearer token of the read router. `HeaderMap` is the parameter `Headers`.
pub mod Laws
use Prim.Native.Nat.{bit_or, bit_xor}
use triggerlane.Common.{
  ℕ, String, ◌==◌, nat_eq, Bool, true, false, not, List, [], ◌∷◌, Option, none, some, Action, raise,
  length, if◌then◌else◌,
}
use triggerlane.Http.{HttpRouteError, unauthorized}

-- What is used of a request's headers: the value under a name, and its text, given by its bytes,
-- if it is one.
pub record Headers : Type 1 where
  pub HeaderMap : Type 0
  pub Value : Type 0
  pub get : String → HeaderMap → Option Value
  pub to_str : Value → Option (List ℕ)

-- `Option::and_then`
abbrev pub and_then : {A B : Type 0} → Option A → (A → Option B) → Option B
and_then none f = none
and_then (some a) f = f a

-- `strip_prefix`, on the bytes of a text.
unfoldable pub strip_prefix : List ℕ → List ℕ → Option (List ℕ)
strip_prefix [] text = some text
strip_prefix (p ∷ prefix) [] = none
strip_prefix (p ∷ prefix) (c ∷ text) = if p == c then strip_prefix prefix text else none

-- The fold of `constant_time_eq` over the pairs of bytes.
unfoldable pub difference : ℕ → List ℕ → List ℕ → ℕ
difference acc [] b = acc
difference acc (x ∷ a) [] = acc
difference acc (x ∷ a) (y ∷ b) = difference (bit_or acc (bit_xor x y)) a b

unfoldable pub constant_time_eq : List ℕ → List ℕ → Bool
unfolding difference
constant_time_eq a b = if not (length a == length b) then false else difference 0 a b == 0

pub record ReadAuth : Type 0 where
  pub token : List ℕ

-- "Bearer "
abbrev pub bearer : List ℕ
bearer = b'B' ∷ b'e' ∷ b'a' ∷ b'r' ∷ b'e' ∷ b'r' ∷ 32 ∷ []

abbrev pub token_matches : ReadAuth → Option (List ℕ) → Bool
token_matches auth none = false
token_matches auth (some presented) = constant_time_eq presented auth.token

module _ (H : Headers) where
  abbrev pub header_text : String → H.HeaderMap → Option (List ℕ)
  header_text name headers = and_then (H.get name headers) H.to_str

  -- `ReadAuth::authorized`
  unfoldable pub authorized : ReadAuth → H.HeaderMap → Bool
  unfolding constant_time_eq strip_prefix
  authorized auth headers =
      token_matches auth (and_then (header_text "authorization" headers) (strip_prefix bearer))

  -- `require_read_auth`, before the rest of the router.
  unfoldable pub require_read_auth :
      {S A : Type 0}
      → ReadAuth
      → H.HeaderMap
      → Action S HttpRouteError A
      → Action S HttpRouteError A
  unfolding authorized
  require_read_auth auth headers next = if authorized auth headers then next else raise unauthorized
