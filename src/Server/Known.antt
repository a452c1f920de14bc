-- ===== src/Server/Known.antt =====
-- The providers that a server made by New of internal/server/server.go knows.
use audio_server.Common.{
  ℕ, suc, zero, ◌≡◌, refl, subst, is_empty, is_some, Bool, true, false, Bool-cases, Option, none,
  some, Option-cases, List, [], ◌∷◌, ◌⊎◌, inl, inr, All, get_elem?, arith, if◌then◌else◌,
}
use audio_server.Segment.Text.{Text}
use audio_server.Server.Text.{Letters, text_eq, trim, normalize_language}
use audio_server.Server.Types.{Provider, SttProvider}
use audio_server.Server.Setup.{
  Table, lookup, Rejected, register, Config, Server, unknown_stt_default, default_id,
  default_stt_id, assemble, with_stt, with_providers, new,
}
use audio_server.Server.Route.{
  is_one_of, default_models, omnivoice, language_provider, provider_for,
}

module _ {P : Type 0} where
  lookup-All :
      (E : P → Type 0) (key : Text) (table : Table P) (p : P)
      → All (λ entry. E entry.1) table
      → lookup key table ≡ some p
      → E p
  unfolding lookup
  lookup-All E key [] p es h = ground (arith, h)
  lookup-All E key ((k, a) ∷ rest) p (e, es) h = elim (Bool-cases (text_eq k key)) [
    | inl q ↦ subst E (ground (arith, h, q)) e
    | inr q ↦ lookup-All E key rest p es (ground (arith, h, q))
  ]

  -- What holds of the configured providers holds of the table that is made of them.
  register-All :
      (E : P → Type 0) (id_of : P → Text) (ps : List (Option P)) (table made : Table P)
      → ((i : ℕ) (p : P) → get_elem? ps i ≡ some (some p) → E p)
      → All (λ entry. E entry.1) table
      → register id_of ps table ≡ inr made
      → All (λ entry. E entry.1) made
  unfolding register
  register-All E id_of [] table made h es q =
      subst (All (λ entry. E entry.1)) (ground (arith, q)) es
  register-All E id_of (some p ∷ ps) table made h es q =
      elim (Bool-cases (is_empty (trim (id_of p)))) [
        | inl e ↦ ground (arith, q, e)
        | inr e ↦
            register-All E id_of ps ((trim (id_of p), p) ∷ table) made (λ i. h (suc i))
              (h zero p refl, es) (ground (arith, q, e))
      ]
  register-All E id_of (none ∷ ps) table made h es q = ground (arith, q)

abbrev pub IsConfigured : Config → Provider → Type 0
IsConfigured cfg p = (i : ℕ) × (get_elem? cfg.providers i ≡ some (some p))

-- What New ensures of the table of providers.
record IsReady (cfg : Config) (s : Server) : Type 0 where
  has_default : is_some (lookup s.default_provider s.providers) ≡ true
  all_configured : All (λ entry. IsConfigured cfg entry.1) s.providers

abbrev pub TableReady : Config → Table Provider → Type 0
TableReady cfg table = All (λ entry. IsConfigured cfg entry.1) table

with_stt-IsReady :
    (cfg : Config) (table : Table Provider) (stt : Rejected ⊎ Table SttProvider) (s : Server)
    → is_some (lookup (default_id cfg) table) ≡ true
    → TableReady cfg table
    → with_stt cfg table stt ≡ inr s
    → IsReady cfg s
unfolding with_stt assemble
with_stt-IsReady cfg table (inl e) s d es q = ground (arith, q)
with_stt-IsReady cfg table (inr stt) s d es q =
    subst (IsReady cfg) (made _ q) (record { has_default = d; all_configured = es })
  where
    made :
        (b : Bool)
        → (if b
            then inr (assemble cfg table stt)
            else inl (unknown_stt_default (default_stt_id cfg)))
          ≡ ◌⊎◌.inr s
        → assemble cfg table stt ≡ s
    made true q = ground (arith, q)
    made false q = ground (arith, q)

with_providers-IsReady :
    (cfg : Config) (r : Rejected ⊎ Table Provider) (s : Server)
    → ((table : Table Provider) → r ≡ inr table → TableReady cfg table)
    → with_providers cfg r ≡ inr s
    → IsReady cfg s
unfolding with_providers
with_providers-IsReady cfg (inl e) s es q = ground (arith, q)
with_providers-IsReady cfg (inr table) s es q =
    elim (Bool-cases (is_some (lookup (default_id cfg) table))) [
      | inl d ↦
          with_stt-IsReady cfg table (register (λ p. p.id) cfg.stt_providers []) s d (es table refl)
            (ground (arith, q, d))
      | inr d ↦ ground (arith, q, d)
    ]

new-IsReady : (cfg : Config) (s : Server) → new cfg ≡ inr s → IsReady cfg s
unfolding new
new-IsReady cfg s q = elim (Bool-cases (is_empty cfg.providers)) [
  | inl e ↦ ground (arith, q, e)
  | inr e ↦ elim (Bool-cases cfg.has_queue) [
    | inl h ↦
        with_providers-IsReady cfg (register (λ p. p.id) cfg.providers []) s
          (λ table r.
            register-All (IsConfigured cfg) (λ p. p.id) cfg.providers [] table (λ i p at. (i, at))
              tt r)
          (ground (arith, q, e, h))
    | inr h ↦ ground (arith, q, e, h)
  ]
]

default-some :
    (cfg : Config) (s : Server)
    → IsReady cfg s
    → (p : Provider) × (lookup s.default_provider s.providers ≡ some p)
default-some cfg s ready = elim (Option-cases (lookup s.default_provider s.providers)) [
  | inl n ↦ ground (arith, ready.has_default, n)
  | inr found ↦ found
]

omnivoice-lookup :
    (s : Server) (language : Text) (p : Provider)
    → language_provider s language ≡ some p
    → lookup omnivoice s.providers ≡ some p
unfolding language_provider
omnivoice-lookup s language p h = ground (arith, h)

-- How providerFor answers.
abbrev pub Known : Letters → Config → Server → Text → Text → Type 0
Known u cfg s model language =
    (((provider_for u s model language).1 ≡ false)
      × (is_one_of default_models (trim model) ≡ false))
    ⊎ ((p : Provider) × (provider_for u s model language ≡ (some p, true)) × IsConfigured cfg p)

-- A server that New made routes each model and language to a provider of its configuration, which
-- is not nil, or answers that it does not know the model, which then is none of those that stand
-- for the default provider.
pub provider_for-new :
    (u : Letters) (cfg : Config) (s : Server) (model language : Text)
    → new cfg ≡ inr s
    → Known u cfg s model language
unfolding provider_for
provider_for-new u cfg s model language q =
    elim (Bool-cases (is_one_of default_models (trim model))) [
      | inl o ↦ elim (Option-cases (language_provider s (normalize_language u language))) [
        | inl n ↦
            let (p, l) = default-some cfg s (new-IsReady cfg s q) in
            inr (p, ground (arith, o, n, l), known p s.default_provider l)
        | inr (p, l) ↦ inr (
          p,
          ground (arith, o, l),
          known p omnivoice (omnivoice-lookup s (normalize_language u language) p l),
        )
      ]
      | inr o ↦ elim (Option-cases (lookup (trim model) s.providers)) [
        | inl n ↦ inl (ground (arith, o, n), o)
        | inr (p, l) ↦ inr (p, ground (arith, o, l), known p (trim model) l)
      ]
    ]
  where
    known : (p : Provider) (key : Text) → lookup key s.providers ≡ some p → IsConfigured cfg p
    known p key l =
        lookup-All (IsConfigured cfg) key s.providers p (new-IsReady cfg s q).all_configured l
