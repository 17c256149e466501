-- ===== src/Http/Webhook.antt =====
-- `WebhookVerifier`. The crates `hex`, `hmac` and `sha2` are the parameter `Signatures`.
pub mod Laws
use triggerlane.Common.{ℕ, String, Bool, false, List, [], ◌∷◌, Option, none, some}
use triggerlane.Event.{unwrap_or}
use triggerlane.Http.Auth.{Headers, header_text, strip_prefix}

-- HMAC-SHA256 and the decoding of hexadecimal digits.
pub record Signatures : Type 1 where
  pub Mac : Type 0
  pub decode : List ℕ → Option (List ℕ)
  pub new_from_slice : List ℕ → Option Mac
  pub update : List ℕ → Mac → Mac
  pub verify_slice : List ℕ → Mac → Bool

pub record WebhookVerifier : Type 0 where
  pub secret : List ℕ
  pub header : String

abbrev pub github_signature_header : String
github_signature_header = "x-hub-signature-256"

unfoldable pub github : List ℕ → WebhookVerifier
github secret = record { secret = secret; header = github_signature_header }

-- "sha256="
abbrev pub sha256_prefix : List ℕ
sha256_prefix = b's' ∷ b'h' ∷ b'a' ∷ b'2' ∷ b'5' ∷ b'6' ∷ b'=' ∷ []

module _ (H : Headers) (G : Signatures) where
  abbrev pub verify_mac : List ℕ → List ℕ → Option G.Mac → Bool
  verify_mac expected body none = false
  verify_mac expected body (some mac) = G.verify_slice expected (G.update body mac)

  abbrev pub verify_decoded : WebhookVerifier → List ℕ → Option (List ℕ) → Bool
  verify_decoded verifier body none = false
  verify_decoded verifier body (some expected) =
      verify_mac expected body (G.new_from_slice verifier.secret)

  abbrev pub verify_text : WebhookVerifier → List ℕ → Option (List ℕ) → Bool
  verify_text verifier body none = false
  verify_text verifier body (some value) =
      verify_decoded verifier body (G.decode (unwrap_or (strip_prefix sha256_prefix value) value))

  -- `WebhookVerifier::verify`
  unfoldable pub verify : WebhookVerifier → H.HeaderMap → List ℕ → Bool
  unfolding strip_prefix
  verify verifier headers body = verify_text verifier body (header_text H verifier.header headers)
