-- ===== src/Events/Bus.antt =====
-- apps/api/src/core/events/invalidation.bus.ts and invalidation-message.ts. The connections are Redis's: whether a
-- message could be sent, and whether the channel could be subscribed, is given. A handler is told what
-- `dispatch` hands it; a message that a build cannot read is one of none.
use gemone.Prelude.{
  ℕ, zero, suc, ◌==◌, Bool, true, false, Option, none, some, List, [], ◌∷◌, any, if◌then◌else◌,
}
use gemone.Config.Types.{InvalidationEntry}

pub data Domain : Type 0 where
  configuration providers : Domain

abbrev pub same_domain : Domain → Domain → Bool
same_domain configuration configuration = true
same_domain providers providers = true
same_domain _ _ = false

pub record Message : Type 0 where
  pub origin : ℕ
  pub domain : Domain
  pub entry : Option InvalidationEntry

-- `unannounced` is a set of domains.
pub record InvalidationBus : Type 0 where
  pub instance_id : ℕ
  pub ever_subscribed : Bool
  pub unannounced : List Domain
  pub shutting_down : Bool

-- What a domain's handlers are called with.
abbrev pub Dispatch : Type 0
Dispatch = Domain × Option InvalidationEntry

abbrev pub message_of : InvalidationBus → Domain → Option InvalidationEntry → Message
message_of b domain entry = record { origin = b.instance_id; domain = domain; entry = entry }

abbrev pub is_unannounced : Domain → InvalidationBus → Bool
is_unannounced domain b = any (same_domain domain) b.unannounced

abbrev pub add_domain : Domain → List Domain → List Domain
add_domain domain ds = if any (same_domain domain) ds then ds else domain ∷ ds

-- With what was sent. `sent` is whether the publisher could send.
unfoldable pub publish :
    Domain → Option InvalidationEntry → Bool → InvalidationBus → InvalidationBus × List Message
publish domain entry true b = (b, message_of b domain entry ∷ [])
publish domain entry false b = (record b { unannounced = add_domain domain b.unannounced }, [])

-- `sends` counts the messages that go out before the connection is lost again: the domains that are left
-- from there are put back.
unfoldable pub announce_each : InvalidationBus → ℕ → List Domain → List Domain × List Message
announce_each b sends [] = ([], [])
announce_each b zero (d ∷ ds) = (d ∷ ds, [])
announce_each b (suc n) (d ∷ ds) =
    let (left, messages) = announce_each b n ds in (left, message_of b d none ∷ messages)

unfoldable pub announce_missed : ℕ → InvalidationBus → InvalidationBus × List Message
announce_missed sends b =
    let (left, messages) = announce_each b sends b.unannounced in
    if b.shutting_down then (b, []) else (record b { unannounced = left }, messages)

abbrev pub everything : List Dispatch
everything = (configuration, none) ∷ (providers, none) ∷ []

-- `subscribed` is whether the channel could be subscribed.
unfoldable pub establish : Bool → InvalidationBus → InvalidationBus × List Dispatch
establish subscribed b =
    if b.shutting_down
    then (b, [])
    else if subscribed
    then (record b { ever_subscribed = true }, if b.ever_subscribed then everything else [])
    else (b, [])

unfoldable pub receive_message : Option Message → InvalidationBus → List Dispatch
receive_message none b = everything
receive_message (some m) b = if m.origin == b.instance_id then [] else (m.domain, m.entry) ∷ []
