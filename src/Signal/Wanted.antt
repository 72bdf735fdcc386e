-- ===== src/Signal/Wanted.antt =====
-- A socket delivers what was published on a channel that it listened to, and nothing else.
use concrnt_playground.Signal.{
  arrive, copies, cancel, subscribe, forwarding, writing, Socket, Realtime, Writer, Subscription,
  pattern_of,
}
use concrnt_playground.Prelude.{
  String, Bool, true, false, ◌≡◌, refl, sym, subst, ap, ◌∙◌, inl, inr, Option, none, some, List, [],
  ◌∷◌, ◌++◌, map, if◌then◌else◌, All, All-append,
}
use concrnt_playground.Document.{Event}
use concrnt_playground.Store.Sorting.{IsIn}
use concrnt_playground.Signal.{
  Writer, selecting, writing, returned, Realtime, waiting, forwarding, finished,
}

-- Published on a channel, of which the pattern of a prefix that was listened to is a match.
pub record IsWanted (glob : String → String → Bool) (published : List (String × Event))
    (listened : List String) (event : Event) : Type 0 where
  pub channel : String
  pub prefix : String
  pub was_published : IsIn (channel, event) published
  pub was_listened : IsIn prefix listened
  pub matching : glob (pattern_of prefix) channel ≡ true

IsIn-append_left : {A : Type 0} (x : A) (xs ys : List A) → IsIn x xs → IsIn x (xs ++ ys)
IsIn-append_left x [] ys i = elim i [ ]
IsIn-append_left x (z ∷ xs) ys (inl e) = inl e
IsIn-append_left x (z ∷ xs) ys (inr i) = inr (IsIn-append_left x xs ys i)

pub IsIn-append_right : {A : Type 0} (x : A) (xs ys : List A) → IsIn x ys → IsIn x (xs ++ ys)
IsIn-append_right x [] ys i = i
IsIn-append_right x (z ∷ xs) ys i = inr (IsIn-append_right x xs ys i)

pub All-mono :
    {A : Type 0} (P Q : A → Type 0) (xs : List A) → ((x : A) → P x → Q x) → All P xs → All Q xs
All-mono P Q [] f h = tt
All-mono P Q (x ∷ xs) f (h, k) = (f x h, All-mono P Q xs f k)

pub All-map :
    {A B : Type 0} (P : A → Type 0) (Q : B → Type 0) (f : A → B) (xs : List A)
    → ((x : A) → P x → Q (f x))
    → All P xs
    → All Q (map f xs)
All-map P Q f [] g h = tt
All-map P Q f (x ∷ xs) g (h, k) = (g x h, All-map P Q f xs g k)

pub All-split :
    {A : Type 0} (P : A → Type 0) (xs : List A) (y : A) (ys : List A)
    → All P (xs ++ y ∷ ys)
    → All P xs × P y × All P ys
All-split P [] y ys (h, k) = (tt, h, k)
All-split P (x ∷ xs) y ys (h, k) = let (a, b, c) = All-split P xs y ys k in ((h, a), b, c)

abbrev pub OptionAll : {A : Type 0} → (A → Type 0) → Option A → Type 0
OptionAll P none = Unit
OptionAll P (some a) = P a

-- What a subscription holds and waits for, where `W` are the events that are wanted; and its patterns
-- come from prefixes that were listened to.
pub record IsSound (listened : List String) (W : Event → Type 0) (sub : Subscription) : Type 0 where
  pub patterns :
      All
        (λ pattern. (prefix : String) × IsIn prefix listened × (pattern ≡ pattern_of prefix))
        sub.patterns
  pub queue : All W sub.queue
  pub holding : OptionAll W sub.holding

abbrev pub WriterAll : (Event → Type 0) → Writer → Type 0
WriterAll W (writing event) = W event
WriterAll W _ = Unit

abbrev pub RealtimeAll : (Event → Type 0) → Realtime → Type 0
RealtimeAll W (forwarding event) = W event
RealtimeAll W _ = Unit

module _ (glob : String → String → Bool) where
  abbrev pub Want : Socket → Event → Type 0
  Want s = IsWanted glob s.published s.listened

  pub record Inv (s : Socket) : Type 0 where
    pub subscriptions : All (IsSound s.listened (Want s)) s.subscriptions
    pub realtime : RealtimeAll (Want s) s.realtime
    pub writer : WriterAll (Want s) s.writer
    pub delivered : All (Want s) s.delivered

  OptionAll-mono :
      {A : Type 0} (P Q : A → Type 0) (o : Option A)
      → ((a : A) → P a → Q a)
      → OptionAll P o
      → OptionAll Q o
  OptionAll-mono P Q none f h = tt
  OptionAll-mono P Q (some a) f h = f a h

  pub WriterAll-mono :
      (P Q : Event → Type 0) (w : Writer)
      → ((a : Event) → P a → Q a)
      → WriterAll P w
      → WriterAll Q w
  WriterAll-mono P Q selecting f h = tt
  WriterAll-mono P Q (writing e) f h = f e h
  WriterAll-mono P Q returned f h = tt

  pub RealtimeAll-mono :
      (P Q : Event → Type 0) (r : Realtime)
      → ((a : Event) → P a → Q a)
      → RealtimeAll P r
      → RealtimeAll Q r
  RealtimeAll-mono P Q waiting f h = tt
  RealtimeAll-mono P Q (forwarding e) f h = f e h
  RealtimeAll-mono P Q finished f h = tt

  -- More that is published and listened to takes nothing away.
  pub IsWanted-grown :
      (published more : List (String × Event)) (listened others : List String) (event : Event)
      → IsWanted glob published listened event
      → IsWanted glob (published ++ more) (listened ++ others) event
  IsWanted-grown published more listened others event w = record {
    channel = w.channel;
    prefix = w.prefix;
    was_published = IsIn-append_left _ published more w.was_published;
    was_listened = IsIn-append_left _ listened others w.was_listened;
    matching = w.matching;
  }

  pub append-nil : {A : Type 0} (xs : List A) → xs ++ [] ≡ xs
  append-nil [] = refl
  append-nil (x ∷ xs) = ap (λ ys. x ∷ ys) (append-nil xs)

  pub IsSound-grown :
      (listened others : List String) (P Q : Event → Type 0) (sub : Subscription)
      → ((event : Event) → P event → Q event)
      → IsSound listened P sub
      → IsSound (listened ++ others) Q sub
  IsSound-grown listened others P Q sub f h = record {
    patterns =
        All-mono _ _ sub.patterns (λ pattern k. (k.0, IsIn-append_left _ listened others k.1, k.2))
          h.patterns;
    queue = All-mono P Q sub.queue f h.queue;
    holding = OptionAll-mono P Q sub.holding f h.holding;
  }

  pub patterns-listened :
      (listened prefixes : List String)
      → ((prefix : String) → IsIn prefix prefixes → IsIn prefix listened)
      → All
          (λ pattern. (prefix : String) × IsIn prefix listened × (pattern ≡ pattern_of prefix))
          (map pattern_of prefixes)
  patterns-listened listened [] f = tt
  patterns-listened listened (p ∷ ps) f =
      ((p, f p (inl refl), refl), patterns-listened listened ps (λ q i. f q (inr i)))

  pub subscribe-IsSound :
      (listened prefixes : List String) (W : Event → Type 0)
      → ((prefix : String) → IsIn prefix prefixes → IsIn prefix listened)
      → IsSound listened W (subscribe prefixes)
  subscribe-IsSound listened prefixes W f = record {
    patterns = patterns-listened listened prefixes f;
    queue = tt;
    holding = tt;
  }

  pub cancelled-IsSound :
      (listened : List String) (W : Event → Type 0) (subs : List Subscription)
      → All (IsSound listened W) subs
      → All (IsSound listened W) (map cancel subs)
  cancelled-IsSound listened W subs h =
      All-map _ _ cancel subs
        (λ sub k. record { patterns = k.patterns; queue = k.queue; holding = k.holding }) h

  -- What Redis sends to a subscription is wanted.
  copies-IsWanted :
      (published : List (String × Event)) (listened : List String) (channel : String)
      (event : Event) (patterns : List String)
      → IsIn (channel, event) published
      → All
          (λ pattern. (prefix : String) × IsIn prefix listened × (pattern ≡ pattern_of prefix))
          patterns
      → All (IsWanted glob published listened) (copies glob patterns channel event)
  copies-IsWanted published listened channel event [] i h = tt
  copies-IsWanted published listened channel event (pattern ∷ patterns) i ((prefix, j, e), h) =
      either (glob pattern channel) refl
        (copies-IsWanted published listened channel event patterns i h)
    where
      either :
          (b : Bool)
          → glob pattern channel ≡ b
          → All (IsWanted glob published listened) (copies glob patterns channel event)
          → All (IsWanted glob published listened) (
              if b
              then event ∷ copies glob patterns channel event
              else copies glob patterns channel event)
      either true t k = (
        record {
          channel = channel;
          prefix = prefix;
          was_published = i;
          was_listened = j;
          matching = ap (λ p. glob p channel) (sym e) ∙ t;
        },
        k,
      )
      either false f k = k

  pub arrive-IsSound :
      (published : List (String × Event)) (listened : List String) (channel : String)
      (event : Event) (sub : Subscription)
      → IsIn (channel, event) published
      → IsSound listened (IsWanted glob published listened) sub
      → IsSound listened (IsWanted glob published listened) (arrive glob channel event sub)
  arrive-IsSound published listened channel event sub i h = record {
    patterns = h.patterns;
    queue =
        All-append _ sub.queue _ h.queue
          (copies-IsWanted published listened channel event sub.patterns i h.patterns);
    holding = h.holding;
  }

  -- One subscription of many takes another state.
  pub replaced :
      (listened : List String) (W : Event → Type 0) (subs before after : List Subscription)
      (sub new : Subscription)
      → subs ≡ before ++ sub ∷ after
      → All (IsSound listened W) subs
      → (IsSound listened W sub → IsSound listened W new)
      → All (IsSound listened W) (before ++ new ∷ after)
  replaced listened W subs before after sub new e h f =
      let (a, b, c) = All-split _ before sub after (subst (All (IsSound listened W)) e h) in
      All-append _ before (new ∷ after) a (f b, c)

  pub the_one :
      (listened : List String) (W : Event → Type 0) (subs before after : List Subscription)
      (sub : Subscription)
      → subs ≡ before ++ sub ∷ after
      → All (IsSound listened W) subs
      → IsSound listened W sub
  the_one listened W subs before after sub e h =
      (All-split _ before sub after (subst (All (IsSound listened W)) e h)).1
