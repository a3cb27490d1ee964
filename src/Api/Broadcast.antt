-- ===== src/Api/Broadcast.antt =====
-- pkg/api/progress.go and the listeners of pkg/api/handlers.go: the channels of the listeners of a project. The map from projects to sets of
-- channels is here a mark on each channel that was ever made; a call of Send is its two halves,
-- the copy of the set under the lock, and the sends behind it.
pub mod Race
use existora2pg.Api.Events.{ProgressEvent}
use existora2pg.Prelude.{
  ℕ, zero, suc, Bool, true, false, ◌&&◌, not, Text, text_eq, List, [], ◌∷◌, ◌++◌, Option, none,
  some, map, any, length, ltb, if◌then◌else◌,
}

pub record Channel : Type 0 where
  pub project : Text
  pub subscribed : Bool
  pub closed : Bool
  pub buffer : List ProgressEvent

-- The capacity of a channel.
abbrev pub capacity : ℕ
capacity = 64

-- Subscribe: the new channel is the last one.
unfoldable pub subscribe : Text → List Channel → List Channel
subscribe project chans =
    chans ++ record { project = project; subscribed = true; closed = false; buffer = [] } ∷ []

-- The function that Subscribe returns, for the channel at an index.
unfoldable pub unsubscribe : ℕ → List Channel → List Channel
unsubscribe i [] = []
unsubscribe zero (c ∷ cs) = record c { subscribed = false; buffer = [] } ∷ cs
unsubscribe (suc i) (c ∷ cs) = c ∷ unsubscribe i cs

abbrev pub first_event : List ProgressEvent → Option ProgressEvent
first_event [] = none
first_event (e ∷ es) = some e

abbrev pub later_events : List ProgressEvent → List ProgressEvent
later_events [] = []
later_events (e ∷ es) = es

-- What a listener does, StreamProgress of pkg/api/handlers.go: it takes the first event out of the
-- channel at an index. Where there is none, it waits, or ends if the channel is closed.
unfoldable pub receive : ℕ → List Channel → Option ProgressEvent × List Channel
receive i [] = (none, [])
receive zero (c ∷ cs) = (first_event c.buffer, record c { buffer = later_events c.buffer } ∷ cs)
receive (suc i) (c ∷ cs) = let (e, rest) = receive i cs in (e, c ∷ rest)

abbrev pub listens : Text → Channel → Bool
listens project c = c.subscribed && text_eq c.project project

abbrev pub close_channel : Text → Channel → Channel
close_channel project c =
    if listens project c then record c { subscribed = false; closed = true } else c

-- Close
unfoldable pub close : Text → List Channel → List Channel
close project = map (close_channel project)

-- HasSubscribers
unfoldable pub has_subscribers : Text → List Channel → Bool
has_subscribers project = any (listens project)

-- The copy of the set of channels, a mark for each channel.
unfoldable pub snapshot : Text → List Channel → List Bool
snapshot project = map (listens project)

abbrev pub put_channel : Channel → Option (List Channel) → Option (List Channel)
put_channel c none = none
put_channel c (some cs) = some (c ∷ cs)

-- A send that does not wait: the event is dropped where the channel is full.
abbrev pub offer : ProgressEvent → Channel → Channel
offer e c = if ltb (length c.buffer) capacity then record c { buffer = c.buffer ++ e ∷ [] } else c

-- The sends to the copied channels. A send on a closed channel is a panic, which is `none`.
unfoldable pub deliver : ProgressEvent → List Bool → List Channel → Option (List Channel)
deliver e [] chans = some chans
deliver e (mark ∷ marks) [] = some []
deliver e (mark ∷ marks) (c ∷ cs) =
    let rest = deliver e marks cs in
    if mark then if c.closed then none else put_channel (offer e c) rest else put_channel c rest

-- Send, where nothing happens between its two halves.
unfoldable pub send : Text → ProgressEvent → List Channel → Option (List Channel)
unfolding deliver snapshot
send project e chans = deliver e (snapshot project chans) chans
