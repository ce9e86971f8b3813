-- ===== src/Events/Link.antt =====
-- A change that one process writes reaches the cache of another (apps/api/src/core/events/invalidation.bus.ts):
-- the writer's bus, the reader's, and the channel between them, which keeps nothing for a reader
-- that is away.
use gemone.Prelude.{
  ℕ, ◌≡◌, ◌⊎◌, ◌==◌, Bool, true, false, not, ◌&&◌, Option, none, some, List, [], ◌∷◌, ◌++◌, any,
  filter_by, if◌then◌else◌,
}
use gemone.Config.Types.{InvalidationEntry, same_entry}
use gemone.Events.Bus.{
  configuration, providers, Message, InvalidationBus, Dispatch, is_unannounced, publish,
  announce_missed, establish, receive_message,
}

-- `owed`: the entries whose rows the writer changed since the reader last dropped them.
pub record Link : Type 0 where
  pub writer : InvalidationBus
  pub reader : InvalidationBus
  pub connected : Bool
  pub in_flight : List Message
  pub owed : List InvalidationEntry

-- What the handler of the configuration drops at a dispatch.
abbrev pub settles : Dispatch → InvalidationEntry → Bool
settles (configuration, none) e = true
settles (configuration, some f) e = same_entry e f
settles (providers, _) e = false

abbrev pub still_owed : List Dispatch → List InvalidationEntry → List InvalidationEntry
still_owed ds = filter_by (λ e. not (any (λ d. settles d e) ds))

abbrev pub put_on : Link → List Message → List Message
put_on l messages = if l.connected then l.in_flight ++ messages else l.in_flight

pub data Step (l : Link) : Link → Type 0 where
  wrote :
      (e : InvalidationEntry) (sent : Bool)
      → Step l (record l {
        writer = (publish configuration (some e) sent l.writer).0;
        in_flight = put_on l (publish configuration (some e) sent l.writer).1;
        owed = e ∷ l.owed;
      })
  reloaded :
      (sent : Bool)
      → Step l (record l {
        writer = (publish providers none sent l.writer).0;
        in_flight = put_on l (publish providers none sent l.writer).1;
      })
  recovered :
      (sends : ℕ)
      → Step l (record l {
        writer = (announce_missed sends l.writer).0;
        in_flight = put_on l (announce_missed sends l.writer).1;
      })
  arrived :
      (m : Message) (rest : List Message) (read : Option Message)
      → l.in_flight ≡ m ∷ rest
      → (read ≡ none) ⊎ (read ≡ some m)
      → Step l
          (record l { in_flight = rest; owed = still_owed (receive_message read l.reader) l.owed })
  lost : Step l (record l { connected = false; in_flight = [] })
  back :
      (subscribed : Bool)
      → l.connected ≡ false
      → Step l (record l {
        reader = (establish subscribed l.reader).0;
        connected = subscribed && not l.reader.shutting_down;
        owed = still_owed (establish subscribed l.reader).1 l.owed;
      })

-- A message that settles an entry, of another process.
abbrev pub carries : InvalidationEntry → ℕ → Message → Bool
carries e reader m = settles (m.domain, m.entry) e && not (m.origin == reader)

-- How an entry that is owed will still be dropped: a message is under way, the writer has still to announce
-- the domain, or the reader is away and drops everything when it comes back.
abbrev pub IsCovered : Link → InvalidationEntry → Type 0
IsCovered l e =
    (l.connected ≡ false)
    ⊎ (any (carries e l.reader.instance_id) l.in_flight ≡ true)
    ⊎ (is_unannounced configuration l.writer ≡ true)

-- The two processes differ, the reader has subscribed before, and what is owed is covered.
abbrev pub IsLinked : Link → Type 0
IsLinked l =
    ((l.writer.instance_id == l.reader.instance_id) ≡ false)
    × (l.reader.ever_subscribed ≡ true)
    × ((e : InvalidationEntry) → any (same_entry e) l.owed ≡ true → IsCovered l e)
