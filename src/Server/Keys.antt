-- ===== src/Server/Keys.antt =====
-- Who passes auth of internal/server/server.go.
use audio_server.Common.{
  ◌≡◌, refl, ap, sym, ◌∙◌, ◌++◌, is_empty, true, false, Bool-cases, [], ◌∷◌, ◌⊎◌, inl, inr, arith,
}
use audio_server.Segment.Text.{Text}
use audio_server.Server.Text.{text_eq, trim, after_prefix}
use audio_server.Server.Setup.{Server}
use audio_server.Server.Auth.{bearer, bearer_token, Headers, or_key, auth}

text_eq_refl : (t : Text) → text_eq t t ≡ true
unfolding text_eq
text_eq_refl [] = refl
text_eq_refl (c ∷ cs) = ground (arith, text_eq_refl cs)

text_eq→eq : (s t : Text) → text_eq s t ≡ true → s ≡ t
unfolding text_eq
text_eq→eq [] [] h = refl
text_eq→eq (c ∷ cs) (d ∷ ds) h =
    ap (λ e. e ∷ cs) (ground (arith, h)) ∙ ap (λ es. d ∷ es) (text_eq→eq cs ds (ground (arith, h)))
text_eq→eq [] (d ∷ ds) h = ground (arith, h)
text_eq→eq (c ∷ cs) [] h = ground (arith, h)

bearer_token-bearer : (t : Text) → bearer_token (bearer ++ t) ≡ trim t
unfolding bearer_token after_prefix
bearer_token-bearer t = refl

-- How a request comes to be answered 401 or let through.
abbrev pub Judged : Server → Headers → Type 0
Judged s h =
    (auth s h ≡ false)
    ⊎ (is_empty s.api_key ≡ true)
    ⊎ (bearer_token h.authorization ≡ s.api_key)
    ⊎ (h.x_api_key ≡ s.api_key)

or_key-cases : (t k : Text) → (or_key t k ≡ t) ⊎ (or_key t k ≡ k)
or_key-cases [] k = inr refl
or_key-cases (c ∷ cs) k = inl refl

judged : (s : Server) (h : Headers) → Judged s h
unfolding auth
judged s h = elim (Bool-cases (is_empty s.api_key)) [
  | inl e ↦ inr (inl e)
  | inr e ↦
      let sent = or_key (bearer_token h.authorization) h.x_api_key in
      elim (Bool-cases (text_eq sent s.api_key)) [
        | inl q ↦ elim (or_key-cases (bearer_token h.authorization) h.x_api_key) [
          | inl o ↦ inr (inr (inl (sym o ∙ text_eq→eq sent s.api_key q)))
          | inr o ↦ inr (inr (inr (sym o ∙ text_eq→eq sent s.api_key q)))
        ]
        | inr q ↦ inl (ground (arith, e, q))
      ]
]

or_key_same : (t k : Text) → is_empty t ≡ false → or_key t k ≡ t
or_key_same [] k h = ground (arith, h)
or_key_same (c ∷ cs) k h = refl

-- If the configured key has no space around it, a request that sends it as a bearer token passes,
-- whatever the other header says; and any request that passes a server with a key sent that key,
-- as a bearer token or as X-API-Key.
pub auth-Judged :
    (s : Server) (h : Headers) (other : Text)
    → trim s.api_key ≡ s.api_key
    → (auth s (record { authorization = bearer ++ s.api_key; x_api_key = other }) ≡ true)
      × Judged s h
unfolding auth
auth-Judged s h other q = (passes, judged s h)
  where
    sends : Headers
    sends = record { authorization = bearer ++ s.api_key; x_api_key = other }

    passes : auth s sends ≡ true
    passes = elim (Bool-cases (is_empty s.api_key)) [
      | inl e ↦ ground (arith, e)
      | inr e ↦ ground (arith, q, e, or_key_same s.api_key other e, text_eq_refl s.api_key)
    ]
