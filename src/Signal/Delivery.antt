-- ===== src/Signal/Delivery.antt =====
-- What a socket can do next: deliver an event, and crash.
use concrnt_playground.Prelude.{
  String, Bool, true, false, ◌≡◌, refl, ap, ◌∙◌, inl, inr, none, List, [], ◌∷◌, ◌++◌, map,
  Bool-cases, arith,
}
use concrnt_playground.Document.{Event}
use concrnt_playground.Store.Sorting.{IsIn}
use concrnt_playground.Signal.{
  Socket, Subscription, Run, arrive, copies, reading, selecting, waiting, forwarding, breaks,
  publishes, takes, fans_in, forwards, writes, quits, crashes_forwarding, halt, then_step,
}

copies-matching :
    (glob : String → String → Bool) (pattern channel : String) (event : Event)
    (patterns : List String)
    → IsIn pattern patterns
    → glob pattern channel ≡ true
    → (rest : List Event) × (copies glob patterns channel event ≡ event ∷ rest)
copies-matching glob pattern channel event [] i m = elim i [ ]
copies-matching glob pattern channel event (p ∷ ps) i m = elim (Bool-cases (glob p channel)) [
  | inl t ↦ (copies glob ps channel event, ground arith)
  | inr f ↦ passed (λ j. copies-matching glob pattern channel event ps j m) f i
]
  where
    passed :
        (IsIn pattern ps → (rest : List Event) × (copies glob ps channel event ≡ event ∷ rest))
        → glob p channel ≡ false
        → IsIn pattern (p ∷ ps)
        → (rest : List Event) × (copies glob (p ∷ ps) channel event ≡ event ∷ rest)
    passed next f (inl e) = absurd (cc (ap (λ x. glob x channel) e, m, f))
    passed next f (inr j) = let (rest, k) = next j in (rest, ground arith)

map-append :
    {A B : Type 0} (f : A → B) (xs : List A) (y : A) (ys : List A)
    → map f (xs ++ y ∷ ys) ≡ map f xs ++ f y ∷ map f ys
map-append f [] y ys = refl
map-append f (x ∷ xs) y ys = ap (λ zs. f x ∷ zs) (map-append f xs y ys)

module _ (glob : String → String → Bool) where
  -- A run may go on from where another one ends.
  pub Run-then : (s t u : Socket) → Run glob s t → Run glob t u → Run glob s u
  Run-then s t u r halt = r
  Run-then s t u r (then_step q c k) = then_step (Run-then s t _ r q) c k

  -- While a socket and its subscription wait, an event that is published on a channel that matches one
  -- of the subscription's patterns can be delivered: steps lead there.
  pub publish-delivered :
      (s : Socket) (before after : List Subscription) (sub : Subscription)
      (pattern channel : String) (event : Event)
      → s.crashed ≡ false
      → s.writer ≡ selecting
      → s.realtime ≡ waiting
      → s.subscriptions ≡ before ++ sub ∷ after
      → sub.queue ≡ []
      → sub.holding ≡ none
      → IsIn pattern sub.patterns
      → glob pattern channel ≡ true
      → (t : Socket) × Run glob s t
        × (t.published ≡ s.published ++ (channel, event) ∷ [])
        × (t.delivered ≡ s.delivered ++ event ∷ [])
  publish-delivered s before after sub pattern channel event c w r e q o i m =
      let (rest, k) = copies-matching glob pattern channel event sub.patterns i m in
      let f = arrive glob channel event in
      (
        _,
        then_step
            (then_step
              (then_step
                (then_step (then_step halt c (publishes channel event)) c (
                  takes (map f before) (map f after) (f sub) event rest
                    (ap (map f) e ∙ map-append f before sub after)
                    (ap (λ old. old ++ copies glob sub.patterns channel event) q ∙ k) o))
                c (fans_in (map f before) (map f after) _ event refl refl r))
              c (forwards event refl w))
            c (writes event refl),
        refl,
        refl,
      )

  -- A client that goes while an event is on its way to the handler can take the server with it: from
  -- there, steps lead to a panic, which no goroutine recovers.
  pub disconnect-crashes :
      (s : Socket) (event : Event)
      → s.crashed ≡ false
      → s.reader ≡ reading
      → s.writer ≡ selecting
      → s.realtime ≡ forwarding event
      → (t : Socket) × Run glob s t × (t.crashed ≡ true)
  disconnect-crashes s event c r w f = (
    _,
    then_step (then_step (then_step halt c (breaks r)) c (quits refl w)) c
        (crashes_forwarding event f refl),
    refl,
  )
