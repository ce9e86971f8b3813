-- ===== src/Postbacks/Repeated.antt =====
-- The answer to a delivery that repeats one (apps/api/src/modules/conversions/postback-intake.service.ts,
-- `archive` and `markDuplicate`).
use gemone.Prelude.{
  ℕ, ◌+◌, ◌≡◌, inl, inr, refl, sym, ap, ◌∙◌, true, ◌||◌, none, some, Text, List, [], ◌∷◌, map, any,
  arith, ◌==◌, ==_refl, text_eq_refl, Bool-cases, Result-cases, ok, err, unique_violation,
  update_first,
}
use gemone.Postbacks.Types.{ProviderPostback, PostbackState}
use gemone.Postbacks.Intake.{
  PostbackEnvelope, IntakeServices, Acknowledgement, duplicate, has_key, create_postback,
  new_postback, mark_duplicate, Received, archive, receive,
}
use gemone.Postbacks.Delivery.{
  Delivered, refused, stored, counted, create-ok, unparseable-err, nowhere, archived, unread,
  destination, receive-Delivered,
}

-- A transaction that has a row keeps one.
has_key-counted :
    (i j : ℕ) (t u : Text) (now : ℕ) (ps : List ProviderPostback)
    → any (has_key i t) (mark_duplicate j u now ps) ≡ any (has_key i t) ps
unfolding mark_duplicate update_first
has_key-counted i j t u now [] = refl
has_key-counted i j t u now (p ∷ ps) = elim (Bool-cases (has_key j u p)) [
  | inl here ↦ rw here refl
  | inr later ↦ rw later (ap (λ b. has_key i t p || b) (has_key-counted i j t u now ps))
]

Delivered-has_key :
    (i : ℕ) (t : Text) (ps : List ProviderPostback) (r : Received)
    → Delivered ps r
    → any (has_key i t) ps ≡ true
    → any (has_key i t) r.1 ≡ true
Delivered-has_key i t ps r (refused x) h = h
Delivered-has_key i t ps r (stored a p free) h = ground arith
Delivered-has_key i t ps r (counted j u now seen) h = has_key-counted i j t u now ps ∙ h

-- A delivery: the services as they answer it, the id generated for it, and when.
pub record Delivery : Type 0 where
  pub services : IntakeServices
  pub envelope : PostbackEnvelope
  pub id : ℕ
  pub now : ℕ

unfoldable pub receive_all : List ProviderPostback → List Delivery → List ProviderPostback
receive_all ps [] = ps
receive_all ps (d ∷ ds) = receive_all (receive d.id d.now d.services d.envelope ps).1 ds

receive_all-has_key :
    (i : ℕ) (t : Text) (ps : List ProviderPostback) (ds : List Delivery)
    → any (has_key i t) ps ≡ true
    → any (has_key i t) (receive_all ps ds) ≡ true
unfolding receive_all
receive_all-has_key i t ps [] h = h
receive_all-has_key i t ps (d ∷ ds) h =
    receive_all-has_key i t (receive d.id d.now d.services d.envelope ps).1 ds (
      Delivered-has_key i t ps (receive d.id d.now d.services d.envelope ps)
        (receive-Delivered d.id d.now d.services d.envelope ps) h)

create-seen :
    (p : ProviderPostback) (t : Text) (ps : List ProviderPostback)
    → p.external_transaction_id ≡ some t
    → any (has_key p.provider_id t) ps ≡ true
    → create_postback p ps ≡ err unique_violation
unfolding create_postback
create-seen p t ps keyed seen = elim (Bool-cases (any (λ q. p.id == q.id) ps)) [
  | inl taken ↦ rw (taken, create_postback) refl
  | inr fresh ↦ rw (fresh, create_postback) (rw keyed (rw seen refl))
]

-- A repeated transaction is acknowledged as a duplicate, whatever id was generated for it.
archive-seen :
    (id now : ℕ) (s : IntakeServices) (e : PostbackEnvelope) (i : ℕ) (t : Text)
    (ps : List ProviderPostback)
    → any (has_key i t) ps ≡ true
    → archive id now s e i t ps ≡ (ok duplicate, mark_duplicate i t now ps)
unfolding archive new_postback
archive-seen id now s e i t ps seen =
    let p = new_postback id now s e i (some t) PostbackState.received none in
    rw (create-seen p t ps refl seen, archive) (rw seen refl)

-- An acknowledged delivery has a row.
new-has_key :
    (id now : ℕ) (s : IntakeServices) (e : PostbackEnvelope) (i : ℕ) (t : Text)
    (ps : List ProviderPostback)
    → any (has_key i t) (new_postback id now s e i (some t) PostbackState.received none ∷ ps) ≡ true
unfolding new_postback
new-has_key id now s e i t ps = rw (==_refl i) (rw (text_eq_refl t) refl)

archive-ok :
    (id now : ℕ) (s : IntakeServices) (e : PostbackEnvelope) (i : ℕ) (t : Text)
    (ps ps' : List ProviderPostback) (a : Acknowledgement)
    → archive id now s e i t ps ≡ (ok a, ps')
    → any (has_key i t) ps' ≡ true
unfolding archive
archive-ok id now s e i t ps ps' a h =
    let p = new_postback id now s e i (some t) PostbackState.received none in
    elim (Result-cases (create_postback p ps)) [
      | inr ((r, rows), made) ↦
          let (same, free) = create-ok p r ps rows made in
          let h' = rw (made, archive) at h in
          rw (← ap (λ (y : Received). y.1) h', same) (new-has_key id now s e i t ps)
      | inl (x, clash) ↦ elim (Bool-cases (any (has_key i t) ps)) [
        | inl seen ↦
            let h' = rw seen at (rw (clash, archive) at h) in
            rw (← ap (λ (y : Received). y.1) h') (has_key-counted i i t t now ps ∙ seen)
        | inr other ↦ let bad = rw other at (rw (clash, archive) at h) in cc
      ]
    ]

-- How many rows there are, and how many duplicates were counted.
unfoldable pub duplicates : List ProviderPostback → ℕ
duplicates [] = 0
duplicates (p ∷ ps) = p.duplicate_count + duplicates ps

duplicates-counted :
    (i : ℕ) (t : Text) (now : ℕ) (ps : List ProviderPostback)
    → any (has_key i t) ps ≡ true
    → (map (λ p. p.id) (mark_duplicate i t now ps) ≡ map (λ p. p.id) ps)
      × (duplicates (mark_duplicate i t now ps) ≡ duplicates ps + 1)
unfolding mark_duplicate update_first duplicates
duplicates-counted i t now [] h = cc
duplicates-counted i t now (p ∷ ps) h = elim (Bool-cases (has_key i t p)) [
  | inl here ↦ rw here (refl, omega arith)
  | inr later ↦
      let (ids, count) = duplicates-counted i t now ps (rw later at h) in
      rw later (ap (λ js. p.id ∷ js) ids, omega arith)
]

-- Once a delivery has been acknowledged, the same delivery, checked and parsed in the same way, is
-- acknowledged as a duplicate, however many others come between: no row is added, and one more duplicate is counted.
pub receive_again :
    (id id' now now' : ℕ) (s : IntakeServices) (e : PostbackEnvelope)
    (ps ps' : List ProviderPostback) (a : Acknowledgement) (ds : List Delivery)
    → receive id now s e ps ≡ (ok a, ps')
    → let before = receive_all ps' ds in
      let r = receive id' now' s e before in
      (r.0 ≡ ok duplicate)
      × (map (λ p. p.id) r.1 ≡ map (λ p. p.id) before)
      × (duplicates r.1 ≡ duplicates before + 1)
receive_again id id' now now' s e ps ps' a ds h = elim (destination s e) [
  | nowhere x to ↦ let bad = sym (to id now ps) ∙ h in cc
  | unread i detail to ↦
      absurd (unparseable-err id now s e i detail ps ps' a (sym (to id now ps) ∙ h))
  | archived i t to ↦
      let kept =
        receive_all-has_key i t ps' ds
          (archive-ok id now s e i t ps ps' a (sym (to id now ps) ∙ h)) in
      let (rows, count) = duplicates-counted i t now' (receive_all ps' ds) kept in
      rw (to id' now' (receive_all ps' ds), archive-seen id' now' s e i t (receive_all ps' ds) kept)
        (refl, rows, count)
]
