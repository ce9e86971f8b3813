-- ===== src/Events/Sent.antt =====
-- What a send does for the entries that are owed (apps/api/src/core/events/invalidation.bus.ts, `publish` and
-- `announceMissed`).
use gemone.Prelude.{
  ℕ, zero, suc, ◌≡◌, refl, ◌⊎◌, inl, inr, ◌==◌, Bool, true, false, ◌&&◌, ◌||◌, Option, some, List,
  [], ◌∷◌, ◌++◌, any, Bool-cases, arith,
}
use gemone.Config.Types.{InvalidationEntry, same_entry}
use gemone.Config.Keys.{same_entry→eq, same_entry_refl}
use gemone.Events.Bus.{
  Domain, configuration, providers, same_domain, Message, InvalidationBus, Dispatch, add_domain,
  publish, announce_each, announce_missed,
}
use gemone.Events.Link.{Link, settles, still_owed, put_on, carries, IsCovered}

or_true : (a : Bool) → a || true ≡ true
or_true a = ground arith

pub never_true : (a : Bool) → a && false ≡ true → ⊥
never_true a h = ground arith

pub only_one : (a : Bool) → a && true ≡ true → a || false ≡ true
only_one a h = ground arith

pub never_both : (a : Bool) → a && false ≡ false
never_both a = ground arith

any-append_left :
    {A : Type 0} (p : A → Bool) (xs ys : List A) → any p xs ≡ true → any p (xs ++ ys) ≡ true
any-append_left p [] ys h = cc
any-append_left p (x ∷ xs) ys h = elim (Bool-cases (p x)) [
  | inl here ↦ rw here refl
  | inr other ↦ rw other (any-append_left p xs ys (rw other at h))
]

any-append_right :
    {A : Type 0} (p : A → Bool) (xs ys : List A) → any p ys ≡ true → any p (xs ++ ys) ≡ true
any-append_right p [] ys h = h
any-append_right p (x ∷ xs) ys h = elim (Bool-cases (p x)) [
  | inl here ↦ rw here refl
  | inr other ↦ rw other (any-append_right p xs ys h)
]

-- What is still owed was owed, and no dispatch settled it.
pub still_owed-any :
    (ds : List Dispatch) (e : InvalidationEntry) (es : List InvalidationEntry)
    → any (same_entry e) (still_owed ds es) ≡ true
    → (any (same_entry e) es ≡ true) × (any (λ d. settles d e) ds ≡ false)
still_owed-any ds e [] h = cc
still_owed-any ds e (f ∷ fs) h = elim (Bool-cases (any (λ d. settles d f) ds)) [
  | inl settled ↦
      let (before, now) = still_owed-any ds e fs (rw settled at h) in
      (rw before (or_true (same_entry e f)), now)
  | inr kept ↦ elim (Bool-cases (same_entry e f)) [
    | inl same ↦ (rw same refl, rw (same_entry→eq e f same) kept)
    | inr other ↦
        let (before, now) = still_owed-any ds e fs (rw other at (rw kept at h)) in
        (rw before (or_true (same_entry e f)), now)
  ]
]

-- The channel after a send.
put_on-IsCovered :
    (l : Link) (e : InvalidationEntry) (messages : List Message)
    → any (carries e l.reader.instance_id) l.in_flight ≡ true
    → any (carries e l.reader.instance_id) (put_on l messages) ≡ true
put_on-IsCovered l e messages h = elim (Bool-cases l.connected) [
  | inl up ↦ rw up (any-append_left (carries e l.reader.instance_id) l.in_flight messages h)
  | inr away ↦ rw away h
]

same_domain_refl : (d : Domain) → same_domain d d ≡ true
same_domain_refl configuration = refl
same_domain_refl providers = refl

-- A domain that could not be announced is there to be announced.
added-unannounced : (d : Domain) (ds : List Domain) → any (same_domain d) (add_domain d ds) ≡ true
added-unannounced d ds = elim (Bool-cases (any (same_domain d) ds)) [
  | inl there ↦ rw (there, there) refl
  | inr new ↦ rw (new, same_domain_refl d) refl
]

added_kept :
    (c d : Domain) (ds : List Domain)
    → any (same_domain c) ds ≡ true
    → any (same_domain c) (add_domain d ds) ≡ true
added_kept c d ds h = elim (Bool-cases (any (same_domain d) ds)) [
  | inl there ↦ rw there h
  | inr new ↦ rw (new, h) (or_true (same_domain c d))
]

module _ (e : InvalidationEntry) (reader : ℕ) (b : InvalidationBus)
    (others : (b.instance_id == reader) ≡ false) where
  -- What is announced is either sent, and settles every entry, or put back.
  pub announced :
      (sends : ℕ) (ds : List Domain)
      → any (same_domain configuration) ds ≡ true
      → (any (same_domain configuration) (announce_each b sends ds).0 ≡ true)
        ⊎ (any (carries e reader) (announce_each b sends ds).1 ≡ true)
  unfolding announce_each
  announced sends [] h = cc
  announced zero (d ∷ ds) h = inl h
  announced (suc n) (configuration ∷ ds) h = inr (rw others refl)
  announced (suc n) (providers ∷ ds) h = announced n ds h

-- With the writer and the reader in the two sends.
pub publish-IsCovered :
    (l : Link) (d : Domain) (f : Option InvalidationEntry) (sent : Bool) (e : InvalidationEntry)
    (owed : List InvalidationEntry)
    → IsCovered l e
    → IsCovered
        (record l {
          writer = (publish d f sent l.writer).0;
          in_flight = put_on l (publish d f sent l.writer).1;
          owed = owed;
        })
        e
unfolding publish
publish-IsCovered l d f sent e owed (inl away) = inl away
publish-IsCovered l d f sent e owed (inr (inl flies)) = inr (inl (put_on-IsCovered l e _ flies))
publish-IsCovered l d f true e owed (inr (inr waits)) = inr (inr waits)
publish-IsCovered l d f false e owed (inr (inr waits)) =
    inr (inr (added_kept configuration d l.writer.unannounced waits))

pub wrote-IsCovered :
    (l : Link) (sent : Bool) (e : InvalidationEntry)
    → (l.writer.instance_id == l.reader.instance_id) ≡ false
    → IsCovered
        (record l {
          writer = (publish configuration (some e) sent l.writer).0;
          in_flight = put_on l (publish configuration (some e) sent l.writer).1;
          owed = e ∷ l.owed;
        })
        e
unfolding publish
wrote-IsCovered l true e differ = elim (Bool-cases l.connected) [
  | inr away ↦ inl away
  | inl up ↦ inr (
      inl (
        rw up (
          any-append_right (carries e l.reader.instance_id) l.in_flight _
            (rw (same_entry_refl e, differ) refl))))
]
wrote-IsCovered l false e differ = inr (inr (added-unannounced configuration l.writer.unannounced))

pub recovered-IsCovered :
    (l : Link) (sends : ℕ) (e : InvalidationEntry)
    → (l.writer.instance_id == l.reader.instance_id) ≡ false
    → IsCovered l e
    → IsCovered
        (record l {
          writer = (announce_missed sends l.writer).0;
          in_flight = put_on l (announce_missed sends l.writer).1;
        })
        e
unfolding announce_missed announce_each
recovered-IsCovered l sends e differ (inl away) = inl away
recovered-IsCovered l sends e differ (inr (inl flies)) = inr (inl (put_on-IsCovered l e _ flies))
recovered-IsCovered l sends e differ (inr (inr waits)) = elim (Bool-cases l.writer.shutting_down) [
  | inl stops ↦ inr (inr (rw stops waits))
  | inr runs ↦ elim (Bool-cases l.connected) [
    | inr away ↦ inl away
    | inl up ↦
        elim (announced e l.reader.instance_id l.writer differ sends l.writer.unannounced waits) [
          | inl left ↦ inr (inr (rw runs left))
          | inr goes ↦ inr (
              inl (
                rw (up, runs)
                  (any-append_right (carries e l.reader.instance_id) l.in_flight _ goes)))
        ]
  ]
]
