-- ===== src/Postbacks/Acknowledged.antt =====
-- What a delivery must be for its acknowledgement, and what it leaves in the archive
-- (apps/api/src/modules/conversions/postback-intake.service.ts, `receive`).
use gemone.Prelude.{
  ℕ, ◌≡◌, ◌⊎◌, ◌+◌, inl, inr, refl, sym, ap, ◌∙◌, true, false, none, some, Text, text_eq→eq,
  text_eq_refl, List, [], ◌∷◌, ◌++◌, any, All, arith, ◌==◌, ==_iff, ==_refl, Bool-cases,
  Option-cases, Result-cases, AppError, ok, err, postback_payload_invalid, provider_not_found,
  update_first, postback_source_not_allowed, postback_signature_invalid,
}
use gemone.Postbacks.Types.{ProviderPostback, PostbackState}
use gemone.Providers.Range.{is_postback_source_allowed}
use gemone.Postbacks.Capture.{capture_payload, capture_headers}
use gemone.Postbacks.Intake.{
  IntakeProvider, PostbackEnvelope, Parsed, transaction, unparseable, IntakeAdapter, IntakeServices,
  accepted, duplicate, has_key, key_clash, create_postback, new_postback, mark_duplicate, archive,
  archive_unparseable, receive,
}

-- The row of a transaction of a provider.
abbrev pub IsOf : ℕ → Text → ProviderPostback → Type 0
IsOf i t q = (q.provider_id ≡ i) × (q.external_transaction_id ≡ some t)

has_key-IsOf : (i : ℕ) (t : Text) (q : ProviderPostback) → has_key i t q ≡ true → IsOf i t q
has_key-IsOf i t q h = elim (Bool-cases (q.provider_id == i)) [
  | inr other ↦ let bad = rw other at h in cc
  | inl same ↦ elim (Option-cases q.external_transaction_id) [
    | inl missing ↦ let bad = rw (same, missing) at h in cc
    | inr (u, named) ↦
        let equal = text_eq→eq t u (rw (same, named) at h) in
        ((==_iff q.provider_id i).0 same, named ∙ ap some (sym equal))
  ]
]

IsOf-has_key : (i : ℕ) (t : Text) (q : ProviderPostback) → IsOf i t q → has_key i t q ≡ true
IsOf-has_key i t q (same, named) = rw (same, named, ==_refl i) (text_eq_refl t)

none-IsOf :
    (i : ℕ) (t : Text) (ps : List ProviderPostback)
    → any (has_key i t) ps ≡ false
    → All (λ q. ¬ IsOf i t q) ps
none-IsOf i t [] h = tt
none-IsOf i t (q ∷ qs) h =
    (λ o. let key = IsOf-has_key i t q o in ground arith, none-IsOf i t qs (ground arith))

-- The first row of the transaction has one more duplicate, and the others are as they were.
abbrev pub IsCounted : ℕ → ℕ → Text → List ProviderPostback → List ProviderPostback → Type 0
IsCounted now i t ps ps' =
    (before : List ProviderPostback) × (q : ProviderPostback) × (after : List ProviderPostback)
    × IsOf i t q
    × (ps ≡ before ++ q ∷ after)
    × (ps'
        ≡ before
          ++ record q { duplicate_count = q.duplicate_count + 1; last_duplicate_at = some now }
            ∷ after)

mark_duplicate-IsCounted :
    (now i : ℕ) (t : Text) (ps : List ProviderPostback)
    → any (has_key i t) ps ≡ true
    → IsCounted now i t ps (mark_duplicate i t now ps)
unfolding mark_duplicate update_first
mark_duplicate-IsCounted now i t [] h = cc
mark_duplicate-IsCounted now i t (p ∷ ps) h = elim (Bool-cases (has_key i t p)) [
  | inl here ↦ rw here ([], p, ps, has_key-IsOf i t p here, refl, refl)
  | inr later ↦
      let (before, q, after, o, rows, rows') = mark_duplicate-IsCounted now i t ps (ground arith) in
      rw later (p ∷ before, q, after, o, ap (λ xs. p ∷ xs) rows, ap (λ xs. p ∷ xs) rows')
]

-- The provider is known and its adapter is up; the address is one of the provider's; the signature is
-- valid; and the adapter reads a transaction.
pub record IsGenuine (s : IntakeServices) (e : PostbackEnvelope) (provider : IntakeProvider)
    (adapter : IntakeAdapter) (t : Text) : Type 0 where
  pub known : s.find_by_slug e.provider_slug ≡ some provider
  pub up : s.require_adapter provider.slug ≡ ok adapter
  pub allowed : is_postback_source_allowed s.is_space provider.postback_ip_ranges e.source_ip ≡ true
  pub valid : adapter.verify e ≡ true
  pub read : adapter.parse e ≡ transaction t

clash_none : (i : ℕ) (ps : List ProviderPostback) → any (λ q. key_clash i none q) ps ≡ false
clash_none i [] = refl
clash_none i (p ∷ ps) = clash_none i ps

module _ (id now : ℕ) (s : IntakeServices) (e : PostbackEnvelope) (ps : List ProviderPostback)
    (fresh : any (λ q. id == q.id) ps ≡ false) where
  -- The transaction is new and its row is written, or it is there and its row is counted.
  abbrev pub IsArchived : ℕ → Text → Type 0
  IsArchived i t =
      (All (λ q. ¬ IsOf i t q) ps
        × (receive id now s e ps ≡ (
          ok accepted,
          record {
            id = id;
            provider_id = i;
            external_transaction_id = some t;
            payload = capture_payload s.to_upper_case e.method e.query e.body;
            headers = capture_headers e.header;
            source_ip = e.source_ip;
            state = PostbackState.received;
            processing_attempts = 0;
            error_detail = none;
            duplicate_count = 0;
            last_duplicate_at = none;
            received_at = now;
          }
              ∷ ps,
        )))
      ⊎ (((receive id now s e ps).0 ≡ ok duplicate)
          × IsCounted now i t ps (receive id now s e ps).1)

  -- An error, and nothing written but a row that is rejected and names no transaction.
  abbrev pub IsRefused : Type 0
  IsRefused =
      (x : AppError) × ((receive id now s e ps).0 ≡ err x)
      × (((receive id now s e ps).1 ≡ ps)
          ⊎ ((p : ProviderPostback) × (p.state ≡ PostbackState.rejected)
              × (p.external_transaction_id ≡ none)
              × ((receive id now s e ps).1 ≡ p ∷ ps)))

  archive-IsArchived :
      (i : ℕ) (t : Text) → receive id now s e ps ≡ archive id now s e i t ps → IsArchived i t
  unfolding archive create_postback new_postback
  archive-IsArchived i t h = elim (Bool-cases (any (has_key i t) ps)) [
    | inr free ↦ inl (none-IsOf i t ps free, h ∙ rw (fresh, archive) (rw (free, archive) refl))
    | inl seen ↦
        let there : archive id now s e i t ps ≡ (ok duplicate, mark_duplicate i t now ps) =
          rw (fresh, archive) (rw (seen, archive) (rw seen refl)) in
        rw (h ∙ there) (inr (refl, mark_duplicate-IsCounted now i t ps seen))
  ]

  unread-IsRefused :
      (i : ℕ) (detail : Text)
      → receive id now s e ps ≡ archive_unparseable id now s e i detail ps
      → IsRefused
  unfolding archive_unparseable create_postback new_postback
  unread-IsRefused i detail h =
      let p : ProviderPostback =
        new_postback id now s e i none PostbackState.rejected (some detail) in
      let made : archive_unparseable id now s e i detail ps
          ≡ (err postback_payload_invalid, p ∷ ps) =
        rw (fresh, archive_unparseable) (rw (clash_none i ps) refl) in
      rw (h ∙ made) (postback_payload_invalid, refl, inr (p, refl, refl, refl))

  refused_with : (x : AppError) → receive id now s e ps ≡ (err x, ps) → IsRefused
  refused_with x h = rw h (x, refl, inl refl)

  parsed_lem :
      (provider : IntakeProvider) (adapter : IntakeAdapter)
      → s.find_by_slug e.provider_slug ≡ some provider
      → s.require_adapter provider.slug ≡ ok adapter
      → is_postback_source_allowed s.is_space provider.postback_ip_ranges e.source_ip ≡ true
      → adapter.verify e ≡ true
      → ((provider : IntakeProvider) × (adapter : IntakeAdapter) × (t : Text) × IsGenuine s e
            provider adapter t
          × IsArchived provider.id t)
        ⊎ (((provider : IntakeProvider) (adapter : IntakeAdapter) (t : Text)
              → ¬ IsGenuine s e provider adapter t)
            × IsRefused)
  unfolding receive
  parsed_lem provider adapter found up allowed valid = go (adapter.parse e) refl
    where
      go :
          (r : Parsed)
          → adapter.parse e ≡ r
          → ((provider : IntakeProvider) × (adapter : IntakeAdapter) × (t : Text) × IsGenuine s e
                provider adapter t
              × IsArchived provider.id t)
            ⊎ (((provider : IntakeProvider) (adapter : IntakeAdapter) (t : Text)
                  → ¬ IsGenuine s e provider adapter t)
                × IsRefused)
      go (transaction t) h = inl (
        provider,
        adapter,
        t,
        record { known = found; up = up; allowed = allowed; valid = valid; read = h },
        archive-IsArchived provider.id t
            (rw (found, receive) (rw up (rw allowed (rw valid (rw h refl))))),
      )
      go (unparseable detail) h = inr (
        λ provider' adapter' t g. let k = g.known in let u = g.up in let a = g.read in cc,
        unread-IsRefused provider.id detail
            (rw (found, receive) (rw up (rw allowed (rw valid (rw h refl))))),
      )

  -- For a delivery whose generated id is new, if it is genuine it is acknowledged: as accepted, with its
  -- row in front of the archive, where no row has the transaction, and otherwise as a duplicate, with
  -- one more counted on the row that has it and nothing else changed. If it is not genuine it ends in an
  -- error, and the archive stays as it was but for a row that is rejected and names no transaction.
  pub receive_lem :
      ((provider : IntakeProvider) × (adapter : IntakeAdapter) × (t : Text) × IsGenuine s e provider
          adapter t
        × IsArchived provider.id t)
      ⊎ (((provider : IntakeProvider) (adapter : IntakeAdapter) (t : Text)
            → ¬ IsGenuine s e provider adapter t)
          × IsRefused)
  unfolding receive
  receive_lem = elim (Option-cases (s.find_by_slug e.provider_slug)) [
    | inl unknown ↦ inr (
      λ provider adapter t g. let k = g.known in cc,
      refused_with provider_not_found (rw (unknown, receive) refl),
    )
    | inr (provider, found) ↦ elim (Result-cases (s.require_adapter provider.slug)) [
      | inl (x, down) ↦ inr (
        λ provider' adapter t g. let k = g.known in let u = g.up in cc,
        refused_with x (rw (found, receive) (rw down refl)),
      )
      | inr (adapter, up) ↦
          elim (Bool-cases
            (is_postback_source_allowed s.is_space provider.postback_ip_ranges e.source_ip)) [
              | inr foreign ↦ inr (
                λ provider' adapter' t g. let k = g.known in let a = g.allowed in cc,
                refused_with postback_source_not_allowed
                    (rw (found, receive) (rw up (rw foreign refl))),
              )
              | inl allowed ↦ elim (Bool-cases (adapter.verify e)) [
                | inr forged ↦ inr (
                  λ provider' adapter' t g.
                      let k = g.known in let u = g.up in let a = g.valid in cc,
                  refused_with postback_signature_invalid
                      (rw (found, receive) (rw up (rw allowed (rw forged refl)))),
                )
                | inl valid ↦ parsed_lem provider adapter found up allowed valid
              ]
            ]
    ]
  ]
