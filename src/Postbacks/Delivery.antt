-- ===== src/Postbacks/Delivery.antt =====
-- The ways in which a delivery ends (apps/api/src/modules/conversions/postback-intake.service.ts, `receive`
-- and what it calls).
use gemone.Prelude.{
  ℕ, ◌≡◌, inl, inr, refl, true, false, none, some, Text, List, [], ◌∷◌, any, All, arith, ◌==◌,
  Bool-cases, Option-cases, Result-cases, Result, AppError, ok, err, postback_payload_invalid,
  provider_not_found, postback_source_not_allowed, postback_signature_invalid,
}
use gemone.Postbacks.Types.{ProviderPostback, PostbackState}
use gemone.Providers.Range.{is_postback_source_allowed}
use gemone.Postbacks.Intake.{
  IntakeProvider, PostbackEnvelope, Parsed, transaction, unparseable, IntakeAdapter, IntakeServices,
  Acknowledgement, accepted, duplicate, has_key, key_clash, create_postback, new_postback,
  mark_duplicate, Received, archive, archive_unparseable, receive,
}

-- The unique keys of the table.
abbrev IsApart : ProviderPostback → ProviderPostback → Type 0
IsApart p q =
    (key_clash p.provider_id p.external_transaction_id q ≡ false) × ((p.id == q.id) ≡ false)

-- What a delivery does to the table.
pub data Delivered (ps : List ProviderPostback) : Received → Type 0 where
  refused : (x : AppError) → Delivered ps (err x, ps)
  stored :
      (a : Result Acknowledgement) (p : ProviderPostback)
      → All (IsApart p) ps
      → Delivered ps (a, p ∷ ps)
  counted :
      (i : ℕ) (t : Text) (now : ℕ)
      → any (has_key i t) ps ≡ true
      → Delivered ps (ok duplicate, mark_duplicate i t now ps)

-- A row that the database takes clashes with none.
free_All :
    (p : ProviderPostback) (ps : List ProviderPostback)
    → any (λ q. p.id == q.id) ps ≡ false
    → any (key_clash p.provider_id p.external_transaction_id) ps ≡ false
    → All (IsApart p) ps
free_All p [] fresh free = tt
free_All p (q ∷ qs) fresh free =
    ((ground arith, ground arith), free_All p qs (ground arith) (ground arith))

pub create-ok :
    (p r : ProviderPostback) (ps ps' : List ProviderPostback)
    → create_postback p ps ≡ ok (r, ps')
    → (ps' ≡ p ∷ ps) × All (IsApart p) ps
unfolding create_postback
create-ok p r ps ps' h = elim (Bool-cases (any (λ q. p.id == q.id) ps)) [
  | inl taken ↦ let bad = rw (taken, create_postback) at h in cc
  | inr fresh ↦ elim (Bool-cases (any (key_clash p.provider_id p.external_transaction_id) ps)) [
    | inl clash ↦ let bad = rw clash at (rw (fresh, create_postback) at h) in cc
    | inr free ↦
        let made = rw free at (rw (fresh, create_postback) at h) in (cc, free_All p ps fresh free)
  ]
]

module _ (id now : ℕ) (s : IntakeServices) (e : PostbackEnvelope) (i : ℕ) where
  archive-Delivered :
      (t : Text) (ps : List ProviderPostback) → Delivered ps (archive id now s e i t ps)
  unfolding archive
  archive-Delivered t ps =
      let p = new_postback id now s e i (some t) PostbackState.received none in
      elim (Result-cases (create_postback p ps)) [
        | inr ((r, ps'), made) ↦
            let (rows, free) = create-ok p r ps ps' made in
            rw (made, archive) (rw rows (stored (ok accepted) p free))
        | inl (x, clash) ↦ elim (Bool-cases (any (has_key i t) ps)) [
          | inl seen ↦ rw (clash, archive) (rw seen (counted i t now seen))
          | inr other ↦ rw (clash, archive) (rw other (refused x))
        ]
      ]

  unparseable-Delivered :
      (detail : Text) (ps : List ProviderPostback)
      → Delivered ps (archive_unparseable id now s e i detail ps)
  unfolding archive_unparseable
  unparseable-Delivered detail ps =
      let p = new_postback id now s e i none PostbackState.rejected (some detail) in
      elim (Result-cases (create_postback p ps)) [
        | inr ((r, ps'), made) ↦
            let (rows, free) = create-ok p r ps ps' made in
            rw (made, archive_unparseable) (rw rows (stored (err postback_payload_invalid) p free))
        | inl (x, clash) ↦ rw (clash, archive_unparseable) (refused x)
      ]

  -- An unparseable delivery is never acknowledged.
  pub unparseable-err :
      (detail : Text) (ps ps' : List ProviderPostback) (a : Acknowledgement)
      → archive_unparseable id now s e i detail ps ≡ (ok a, ps')
      → ⊥
  unfolding archive_unparseable
  unparseable-err detail ps ps' a h =
      elim (Result-cases (
        create_postback (new_postback id now s e i none PostbackState.rejected (some detail)) ps)) [
          | inr ((r, rows), made) ↦ let bad = rw (made, archive_unparseable) at h in cc
          | inl (x, clash) ↦ let bad = rw (clash, archive_unparseable) at h in cc
        ]

-- What is delivered for a provider whose adapter is up, from an allowed address, with a valid
-- signature: it goes to the archive, as its parse says.
pub data Destination (s : IntakeServices) (e : PostbackEnvelope) : Type 0 where
  nowhere :
      (x : AppError)
      → ((id now : ℕ) (ps : List ProviderPostback) → receive id now s e ps ≡ (err x, ps))
      → Destination s e
  archived :
      (i : ℕ) (t : Text)
      → ((id now : ℕ) (ps : List ProviderPostback)
          → receive id now s e ps ≡ archive id now s e i t ps)
      → Destination s e
  unread :
      (i : ℕ) (detail : Text)
      → ((id now : ℕ) (ps : List ProviderPostback)
          → receive id now s e ps ≡ archive_unparseable id now s e i detail ps)
      → Destination s e

parsed-Destination :
    (s : IntakeServices) (e : PostbackEnvelope) (provider : IntakeProvider)
    (adapter : IntakeAdapter)
    → s.find_by_slug e.provider_slug ≡ some provider
    → s.require_adapter provider.slug ≡ ok adapter
    → is_postback_source_allowed s.is_space provider.postback_ip_ranges e.source_ip ≡ true
    → adapter.verify e ≡ true
    → Destination s e
unfolding receive
parsed-Destination s e provider adapter found up allowed valid = go (adapter.parse e) refl
  where
    go : (r : Parsed) → adapter.parse e ≡ r → Destination s e
    go (transaction t) h =
        archived provider.id t
          (λ id now ps. rw (found, receive) (rw up (rw allowed (rw valid (rw h refl)))))
    go (unparseable detail) h =
        unread provider.id detail
          (λ id now ps. rw (found, receive) (rw up (rw allowed (rw valid (rw h refl)))))

pub destination : (s : IntakeServices) (e : PostbackEnvelope) → Destination s e
unfolding receive
destination s e = elim (Option-cases (s.find_by_slug e.provider_slug)) [
  | inl unknown ↦ nowhere provider_not_found (λ id now ps. rw (unknown, receive) refl)
  | inr (provider, found) ↦ elim (Result-cases (s.require_adapter provider.slug)) [
    | inl (x, down) ↦ nowhere x (λ id now ps. rw (found, receive) (rw down refl))
    | inr (adapter, up) ↦
        elim (Bool-cases
          (is_postback_source_allowed s.is_space provider.postback_ip_ranges e.source_ip)) [
            | inr foreign ↦
                nowhere postback_source_not_allowed
                  (λ id now ps. rw (found, receive) (rw up (rw foreign refl)))
            | inl allowed ↦ elim (Bool-cases (adapter.verify e)) [
              | inr forged ↦
                  nowhere postback_signature_invalid
                    (λ id now ps. rw (found, receive) (rw up (rw allowed (rw forged refl))))
              | inl valid ↦ parsed-Destination s e provider adapter found up allowed valid
            ]
          ]
  ]
]

pub receive-Delivered :
    (id now : ℕ) (s : IntakeServices) (e : PostbackEnvelope) (ps : List ProviderPostback)
    → Delivered ps (receive id now s e ps)
receive-Delivered id now s e ps = elim (destination s e) [
  | nowhere x h ↦ rw (h id now ps) (refused x)
  | archived i t h ↦ rw (h id now ps) (archive-Delivered id now s e i t ps)
  | unread i detail h ↦ rw (h id now ps) (unparseable-Delivered id now s e i detail ps)
]
