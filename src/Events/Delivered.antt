-- ===== src/Events/Delivered.antt =====
-- No change is lost between two processes (apps/api/src/core/events/invalidation.bus.ts).
use gemone.Prelude.{
  ℕ, ◌≡◌, refl, ◌⊎◌, inl, inr, ◌==◌, Bool, true, false, not, ◌&&◌, Option, none, some, List, ◌∷◌,
  any, Bool-cases,
}
use gemone.Config.Types.{InvalidationEntry, same_entry}
use gemone.Config.Keys.{same_entry→eq}
use gemone.Events.Bus.{
  Domain, configuration, providers, Message, InvalidationBus, publish, announce_missed, establish,
  receive_message,
}
use gemone.Events.Link.{
  Link, settles, still_owed, Step, wrote, reloaded, recovered, arrived, lost, back, carries,
  IsCovered, IsLinked,
}
use gemone.Events.Sent.{
  never_true, only_one, never_both, still_owed-any, publish-IsCovered, wrote-IsCovered,
  recovered-IsCovered,
}

-- A message that carries an entry settles it, whether or not this build can read it.
received-settles :
    (m : Message) (read : Option Message) (b : InvalidationBus) (e : InvalidationEntry)
    → (read ≡ none) ⊎ (read ≡ some m)
    → carries e b.instance_id m ≡ true
    → any (λ d. settles d e) (receive_message read b) ≡ true
unfolding receive_message
received-settles m read b e (inl garbled) h = rw garbled refl
received-settles m read b e (inr whole) h = elim (Bool-cases (m.origin == b.instance_id)) [
  | inl echo ↦ elim (never_true (settles (m.domain, m.entry) e) (rw echo at h)) [ ]
  | inr other ↦ rw whole (rw other (only_one (settles (m.domain, m.entry) e) (rw other at h)))
]

arrived-IsCovered :
    (l : Link) (m : Message) (rest : List Message) (read : Option Message) (e : InvalidationEntry)
    → l.in_flight ≡ m ∷ rest
    → (read ≡ none) ⊎ (read ≡ some m)
    → any (λ d. settles d e) (receive_message read l.reader) ≡ false
    → IsCovered l e
    → IsCovered
        (record l { in_flight = rest; owed = still_owed (receive_message read l.reader) l.owed })
        e
arrived-IsCovered l m rest read e flying as_read unsettled (inl away) = inl away
arrived-IsCovered l m rest read e flying as_read unsettled (inr (inr waits)) = inr (inr waits)
arrived-IsCovered l m rest read e flying as_read unsettled (inr (inl flies)) =
    elim (Bool-cases (carries e l.reader.instance_id m)) [
      | inl this ↦ let bad = rw unsettled at (received-settles m read l.reader e as_read this) in cc
      | inr another ↦ inr (inl (rw another at (rw flying at flies)))
    ]

-- A reader that comes back after it has subscribed before drops everything.
back-settles :
    (b : InvalidationBus) (subscribed : Bool) (e : InvalidationEntry)
    → b.ever_subscribed ≡ true
    → (subscribed && not b.shutting_down ≡ false)
      ⊎ (any (λ d. settles d e) (establish subscribed b).1 ≡ true)
unfolding establish
back-settles b subscribed e before = elim (Bool-cases b.shutting_down) [
  | inl stops ↦ inl (rw stops (never_both subscribed))
  | inr runs ↦ elim (Bool-cases subscribed) [
    | inl up ↦ inr (rw (runs, up, before) refl)
    | inr refused ↦ inl (rw refused refl)
  ]
]

back-kept :
    (b : InvalidationBus) (subscribed : Bool)
    → b.ever_subscribed ≡ true
    → ((establish subscribed b).0.ever_subscribed ≡ true)
      × ((establish subscribed b).0.instance_id ≡ b.instance_id)
unfolding establish
back-kept b subscribed before = elim (Bool-cases b.shutting_down) [
  | inl stops ↦ rw stops (before, refl)
  | inr runs ↦ elim (Bool-cases subscribed) [
    | inl up ↦ rw (runs, up) (refl, refl)
    | inr refused ↦ rw (runs, refused) (before, refl)
  ]
]

publish-instance :
    (d : Domain) (f : Option InvalidationEntry) (sent : Bool) (b : InvalidationBus)
    → (publish d f sent b).0.instance_id ≡ b.instance_id
unfolding publish
publish-instance d f true b = refl
publish-instance d f false b = refl

announce_missed-instance :
    (sends : ℕ) (b : InvalidationBus) → (announce_missed sends b).0.instance_id ≡ b.instance_id
unfolding announce_missed
announce_missed-instance sends b = elim (Bool-cases b.shutting_down) [
  | inl stops ↦ rw stops refl
  | inr runs ↦ rw runs refl
]

Step-IsLinked : (l l' : Link) → Step l l' → IsLinked l → IsLinked l'
Step-IsLinked l _ (wrote e sent) (differ, before, covered) = (
  rw (publish-instance configuration (some e) sent l.writer) differ,
  before,
  λ f owes. elim (Bool-cases (same_entry f e)) [
    | inl same ↦ rw (same_entry→eq f e same) (wrote-IsCovered l sent e differ)
    | inr other ↦
        publish-IsCovered l configuration (some e) sent f (e ∷ l.owed)
          (covered f (rw other at owes))
  ],
)
Step-IsLinked l _ (reloaded sent) (differ, before, covered) = (
  rw (publish-instance providers none sent l.writer) differ,
  before,
  λ f owes. publish-IsCovered l providers none sent f l.owed (covered f owes),
)
Step-IsLinked l _ (recovered sends) (differ, before, covered) = (
  rw (announce_missed-instance sends l.writer) differ,
  before,
  λ f owes. recovered-IsCovered l sends f differ (covered f owes),
)
Step-IsLinked l _ (arrived m rest read flying as_read) (differ, before, covered) = (
  differ,
  before,
  λ e owes.
      let (owed, unsettled) = still_owed-any (receive_message read l.reader) e l.owed owes in
      arrived-IsCovered l m rest read e flying as_read unsettled (covered e owed),
)
Step-IsLinked l _ lost (differ, before, covered) = (differ, before, λ e owes. inl refl)
Step-IsLinked l _ (back subscribed away) (differ, before, covered) =
    let (kept, same) = back-kept l.reader subscribed before in
    (
      rw same differ,
      kept,
      λ e owes. elim (back-settles l.reader subscribed e before) [
        | inl still ↦ inl still
        | inr settled ↦
            let (owed, unsettled) =
              still_owed-any (establish subscribed l.reader).1 e l.owed owes in
            let bad = rw settled at unsettled in cc
      ],
    )

pub data Run (l : Link) : Link → Type 0 where
  idle : Run l l
  onward : (l' l'' : Link) → Run l l' → Step l' l'' → Run l l''

-- Between two processes of which the reader has subscribed to the channel before, whatever is written,
-- announced again and received, readable or not, and however often the channel is lost and found: every
-- entry that the writer changed since the reader last dropped it is on its way to the reader in a message, or
-- the writer has kept its domain to announce it, or the reader is away and has still to come back.
pub Run-IsLinked : (l l' : Link) → Run l l' → IsLinked l → IsLinked l'
Run-IsLinked l _ idle linked = linked
Run-IsLinked l _ (onward l' l'' run step) linked =
    Step-IsLinked l' l'' step (Run-IsLinked l l' run linked)
