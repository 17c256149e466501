-- ===== src/Http/Webhook/Laws.antt =====
-- Which requests carry a valid signature.
use triggerlane.Common.{
  ℕ, true, List, ◌++◌, Option, none, some, ◌≡◌, ◌↔◌, ◌⊎◌, inl, inr, refl, sym, ◌∙◌, ap, arith,
}
use triggerlane.Event.{unwrap_or}
use triggerlane.Http.Auth.{Headers, header_text, strip_prefix}
use triggerlane.Http.Auth.Laws.{strip_prefix-some, strip_prefix-append}
use triggerlane.Http.Webhook.{
  Signatures, WebhookVerifier, sha256_prefix, verify_mac, verify_decoded, verify_text, verify,
}

-- The hexadecimal digits of a header's text: what is behind `sha256=`, or all of a text that does not
-- begin with it.
abbrev pub HexOf : List ℕ → List ℕ → Type 0
HexOf text hex =
    (text ≡ sha256_prefix ++ hex)
    ⊎ ((text ≡ hex) × ((rest : List ℕ) → ¬ (text ≡ sha256_prefix ++ rest)))

hex_sound : (text : List ℕ) → HexOf text (unwrap_or (strip_prefix sha256_prefix text) text)
hex_sound text = by_answer (strip_prefix sha256_prefix text) refl
  where
    by_answer :
        (answer : Option (List ℕ))
        → strip_prefix sha256_prefix text ≡ answer
        → HexOf text (unwrap_or answer text)
    by_answer (some hex) e = inl (strip_prefix-some sha256_prefix text hex e)
    by_answer none e = inr (
      refl,
      λ rest same.
          (let q : none ≡ some rest =
              sym e
              ∙ ap (strip_prefix sha256_prefix) same
              ∙ strip_prefix-append sha256_prefix rest in
            ground arith),
    )

hex_complete :
    (text hex : List ℕ) → HexOf text hex → unwrap_or (strip_prefix sha256_prefix text) text ≡ hex
hex_complete text hex (inl e) =
    ap (λ s. unwrap_or (strip_prefix sha256_prefix s) text) e
    ∙ ap (λ o. unwrap_or o text) (strip_prefix-append sha256_prefix hex)
hex_complete text hex (inr (same, bare)) = by_answer (strip_prefix sha256_prefix text) refl
  where
    by_answer :
        (answer : Option (List ℕ))
        → strip_prefix sha256_prefix text ≡ answer
        → unwrap_or answer text ≡ hex
    by_answer (some rest) e = absurd (bare rest (strip_prefix-some sha256_prefix text rest e))
    by_answer none e = same

module _ (H : Headers) (G : Signatures) where
  -- The header's text has digits that decode to the code of the body under the secret.
  abbrev pub Signed : WebhookVerifier → H.HeaderMap → List ℕ → Type 0
  Signed verifier headers body =
      (text : List ℕ) × (hex : List ℕ) × (code : List ℕ) × (mac : G.Mac) × (header_text H
          verifier.header headers
        ≡ some text)
      × HexOf text hex
      × (G.decode hex ≡ some code)
      × (G.new_from_slice verifier.secret ≡ some mac)
      × (G.verify_slice code (G.update body mac) ≡ true)

  mac_sound :
      (code body : List ℕ) (o : Option G.Mac)
      → verify_mac H G code body o ≡ true
      → (mac : G.Mac) × (o ≡ some mac) × (G.verify_slice code (G.update body mac) ≡ true)
  mac_sound code body none h = ground arith
  mac_sound code body (some mac) h = (mac, refl, h)

  decoded_sound :
      (verifier : WebhookVerifier) (body : List ℕ) (o : Option (List ℕ))
      → verify_decoded H G verifier body o ≡ true
      → (code : List ℕ) × (mac : G.Mac) × (o ≡ some code)
        × (G.new_from_slice verifier.secret ≡ some mac)
        × (G.verify_slice code (G.update body mac) ≡ true)
  decoded_sound verifier body none h = ground arith
  decoded_sound verifier body (some code) h =
      let (mac, e, valid) = mac_sound code body (G.new_from_slice verifier.secret) h in
      (code, mac, refl, e, valid)

  text_sound :
      (verifier : WebhookVerifier) (headers : H.HeaderMap) (body : List ℕ) (o : Option (List ℕ))
      → header_text H verifier.header headers ≡ o
      → verify_text H G verifier body o ≡ true
      → Signed verifier headers body
  text_sound verifier headers body none e h = ground arith
  text_sound verifier headers body (some text) e h =
      let hex = unwrap_or (strip_prefix sha256_prefix text) text in
      let (code, mac, decoded, keyed, valid) = decoded_sound verifier body (G.decode hex) h in
      (text, hex, code, mac, e, hex_sound text, decoded, keyed, valid)

  verify_sound :
      (verifier : WebhookVerifier) (headers : H.HeaderMap) (body : List ℕ)
      → verify H G verifier headers body ≡ true
      → Signed verifier headers body
  unfolding verify
  verify_sound verifier headers body h =
      text_sound verifier headers body (header_text H verifier.header headers) refl h

  verify_complete :
      (verifier : WebhookVerifier) (headers : H.HeaderMap) (body : List ℕ)
      → Signed verifier headers body
      → verify H G verifier headers body ≡ true
  unfolding verify
  verify_complete verifier headers body (text, hex, code, mac, e, digits, decoded, keyed, valid) =
      ap (verify_text H G verifier body) e
      ∙ ap (λ d. verify_decoded H G verifier body (G.decode d)) (hex_complete text hex digits)
      ∙ ap (verify_decoded H G verifier body) decoded
      ∙ ap (verify_mac H G code body) keyed
      ∙ valid

  -- The verifier accepts exactly the bodies that the request carries a valid signature of.
  pub verify_iff :
      (verifier : WebhookVerifier) (headers : H.HeaderMap) (body : List ℕ)
      → (verify H G verifier headers body ≡ true) ↔ Signed verifier headers body
  verify_iff verifier headers body =
      (verify_sound verifier headers body, verify_complete verifier headers body)
