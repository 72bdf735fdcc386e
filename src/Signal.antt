-- ===== src/Signal.antt =====
-- internal/service/signal.go and handleRealtime of internal/present/rest/handler.go: the goroutines of
-- one socket, as steps that interleave. A send on a channel without a buffer is one step of both sides.
pub mod Wanted
pub mod Safety
pub mod Delivery
mod Tests
use Prim.Native.String.{◌++◌ as append}
use concrnt_playground.Prelude.{
  ◌≢◌, ℕ, String, Bool, true, false, ◌≡◌, ◌⊎◌, Option, none, some, List, [], ◌∷◌, ◌++◌, map,
  if◌then◌else◌,
}
use concrnt_playground.Document.{Event}

-- The goroutine that reads the socket: it waits for a message, offers prefixes on `input`, or an end on
-- `quit`.
pub data Reader : Type 0 where
  reading : Reader
  offering : List String → Reader
  quitting : Reader
  ended : Reader

-- The handler itself, which writes to the socket; when it returns, it closes both channels.
pub data Writer : Type 0 where
  selecting : Writer
  writing : Event → Writer
  returned : Writer

-- SignalService.Realtime: it waits for prefixes and events, or sends an event on `response`.
pub data Realtime : Type 0 where
  waiting : Realtime
  forwarding : Event → Realtime
  finished : Realtime

-- SignalService.Subscribe: the messages that have come, and the event that it sends.
pub record Subscription : Type 0 where
  pub patterns : List String
  pub cancelled : Bool
  pub queue : List Event
  pub holding : Option Event

-- A socket, with what was published, listened to, and delivered so far. A panic of a goroutine ends the
-- whole process.
pub record Socket : Type 0 where
  pub reader : Reader
  pub writer : Writer
  pub realtime : Realtime
  pub subscriptions : List Subscription
  pub published : List (String × Event)
  pub listened : List String
  pub delivered : List Event
  pub crashed : Bool

abbrev pub start : Socket
start = record {
  reader = reading;
  writer = selecting;
  realtime = waiting;
  subscriptions = [];
  published = [];
  listened = [];
  delivered = [];
  crashed = false;
}

abbrev pub cancel : Subscription → Subscription
cancel sub = record sub { cancelled = true }

-- `prefix + "*"`
abbrev pub pattern_of : String → String
pattern_of prefix = append prefix "*"

abbrev pub subscribe : List String → Subscription
subscribe prefixes = record {
  patterns = map pattern_of prefixes;
  cancelled = false;
  queue = [];
  holding = none;
}

-- Redis sends a message once for each pattern that its channel matches, by `glob`.
abbrev pub copies : (String → String → Bool) → List String → String → Event → List Event
copies glob [] channel event = []
copies glob (pattern ∷ patterns) channel event =
    let rest = copies glob patterns channel event in
    if glob pattern channel then event ∷ rest else rest

abbrev pub arrive : (String → String → Bool) → String → Event → Subscription → Subscription
arrive glob channel event sub = record sub {
  queue = sub.queue ++ copies glob sub.patterns channel event;
}

module _ (glob : String → String → Bool) where
  pub data Step : Socket → Socket → Type 0 where
    -- A message `listen` is read.
    listens :
        {s : Socket} (prefixes : List String)
        → s.reader ≡ reading
        → Step s (record s { reader = offering prefixes })
    -- Reading fails, as it does when the client has gone or the handler has closed the socket.
    breaks : {s : Socket} → s.reader ≡ reading → Step s (record s { reader = quitting })
    -- `input <- req.Prefixes` meets `<-request`: what was subscribed before is cancelled.
    hands_over :
        {s : Socket} (prefixes : List String)
        → s.reader ≡ offering prefixes
        → s.realtime ≡ waiting
        → s.writer ≢ returned
        → Step s (record s {
          reader = reading;
          subscriptions = map cancel s.subscriptions ++ subscribe prefixes ∷ [];
          listened = s.listened ++ prefixes;
        })
    -- SignalService.Publish
    publishes :
        {s : Socket} (channel : String) (event : Event)
        → Step s (record s {
          published = s.published ++ (channel, event) ∷ [];
          subscriptions = map (arrive glob channel event) s.subscriptions;
        })
    -- `msg := <-psch`
    takes :
        {s : Socket} (before after : List Subscription) (sub : Subscription) (event : Event)
        (queue : List Event)
        → s.subscriptions ≡ before ++ sub ∷ after
        → sub.queue ≡ event ∷ queue
        → sub.holding ≡ none
        → Step s (record s {
          subscriptions = before ++ record sub { queue = queue; holding = some event } ∷ after;
        })
    -- A message is lost: it came before Redis had the subscription, the buffer was full, or it
    -- does not decode.
    drops :
        {s : Socket} (before after : List Subscription) (sub : Subscription) (event : Event)
        (queue : List Event)
        → s.subscriptions ≡ before ++ sub ∷ after
        → sub.queue ≡ event ∷ queue
        → Step s (record s { subscriptions = before ++ record sub { queue = queue } ∷ after })
    -- Subscribe returns, cancelled or with no pattern, between two messages.
    ends :
        {s : Socket} (before after : List Subscription) (sub : Subscription)
        → s.subscriptions ≡ before ++ sub ∷ after
        → (sub.cancelled ≡ true) ⊎ (sub.patterns ≡ [])
        → sub.holding ≡ none
        → Step s (record s { subscriptions = before ++ after })
    -- `event <- item` meets `<-events`.
    fans_in :
        {s : Socket} (before after : List Subscription) (sub : Subscription) (event : Event)
        → s.subscriptions ≡ before ++ sub ∷ after
        → sub.holding ≡ some event
        → s.realtime ≡ waiting
        → Step s (record s {
          subscriptions = before ++ record sub { holding = none } ∷ after;
          realtime = forwarding event;
        })
    -- `response <- event` meets `<-output`.
    forwards :
        {s : Socket} (event : Event)
        → s.realtime ≡ forwarding event
        → s.writer ≡ selecting
        → Step s (record s { realtime = waiting; writer = writing event })
    writes :
        {s : Socket} (event : Event)
        → s.writer ≡ writing event
        → Step s (record s { writer = selecting; delivered = s.delivered ++ event ∷ [] })
    -- WriteJSON fails, and the handler returns.
    write_fails :
        {s : Socket} (event : Event)
        → s.writer ≡ writing event
        → Step s (record s { writer = returned })
    -- `quit <- struct{}{}` meets `<-quit`.
    quits :
        {s : Socket}
        → s.reader ≡ quitting
        → s.writer ≡ selecting
        → Step s (record s { reader = ended; writer = returned })
    -- A send on a channel that the handler has closed panics.
    crashes_forwarding :
        {s : Socket} (event : Event)
        → s.realtime ≡ forwarding event
        → s.writer ≡ returned
        → Step s (record s { crashed = true })
    crashes_offering :
        {s : Socket} (prefixes : List String)
        → s.reader ≡ offering prefixes
        → s.writer ≡ returned
        → Step s (record s { crashed = true })
    -- `<-request` of a closed channel gives no prefixes at once, again and again.
    spins :
        {s : Socket}
        → s.realtime ≡ waiting
        → s.writer ≡ returned
        → Step s (record s { subscriptions = map cancel s.subscriptions ++ subscribe [] ∷ [] })
    -- The context of the request is done, once the handler has returned.
    finishes :
        {s : Socket}
        → s.realtime ≡ waiting
        → s.writer ≡ returned
        → Step s (record s { realtime = finished; subscriptions = map cancel s.subscriptions })

  -- Steps one after the other, as long as the process runs.
  pub data Run : Socket → Socket → Type 0 where
    halt : {s : Socket} → Run s s
    then_step : {s t u : Socket} → Run s t → t.crashed ≡ false → Step t u → Run s u
