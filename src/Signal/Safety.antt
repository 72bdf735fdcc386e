-- ===== src/Signal/Safety.antt =====
-- What each step of a socket keeps, and what follows for every run.
use concrnt_playground.Signal.Wanted.{
  WriterAll, RealtimeAll, the_one, OptionAll, All-split, replaced, arrive-IsSound, All-map,
  WriterAll-mono, RealtimeAll-mono, IsIn-append_right, subscribe-IsSound, All-mono,
  cancelled-IsSound, IsSound-grown, append-nil, IsWanted-grown, Inv, IsSound, IsWanted, Want,
}
use concrnt_playground.Prelude.{
  String, Bool, refl, subst, inl, List, [], ◌∷◌, ◌++◌, map, All, All-append,
}
use concrnt_playground.Document.{Event}
use concrnt_playground.Signal.{
  arrive, cancel, start, Run, Step, Subscription, Socket, listens, breaks, hands_over, publishes,
  takes, drops, ends, fans_in, forwards, writes, write_fails, quits, crashes_forwarding,
  crashes_offering, spins, finishes, halt, then_step,
}

module _ (glob : String → String → Bool) where
  -- What was wanted stays so.
  grown :
      (s : Socket) (more : List (String × Event)) (others : List String) (event : Event)
      → Want glob s event
      → IsWanted glob (s.published ++ more) (s.listened ++ others) event
  grown s more others event w = IsWanted-grown glob s.published more s.listened others event w

  published_more :
      (s : Socket) (more : List (String × Event)) (event : Event)
      → Want glob s event
      → IsWanted glob (s.published ++ more) s.listened event
  published_more s more event w =
      subst (λ l. IsWanted glob (s.published ++ more) l event) (append-nil glob s.listened)
        (grown s more [] event w)

  listened_more :
      (s : Socket) (others : List String) (event : Event)
      → Want glob s event
      → IsWanted glob s.published (s.listened ++ others) event
  listened_more s others event w =
      subst (λ p. IsWanted glob p (s.listened ++ others) event) (append-nil glob s.published)
        (grown s [] others event w)

  same_prefixes :
      (s : Socket) (more : List (String × Event)) (sub : Subscription)
      → IsSound s.listened (Want glob s) sub
      → IsSound s.listened (IsWanted glob (s.published ++ more) s.listened) sub
  same_prefixes s more sub h =
      subst (λ l. IsSound l (IsWanted glob (s.published ++ more) s.listened) sub)
        (append-nil glob s.listened)
        (IsSound-grown glob s.listened [] _ _ sub (published_more s more) h)

  Step-Inv : (s t : Socket) → Step glob s t → Inv glob s → Inv glob t
  Step-Inv s t (listens prefixes r) h = record {
    subscriptions = h.subscriptions;
    realtime = h.realtime;
    writer = h.writer;
    delivered = h.delivered;
  }
  Step-Inv s t (breaks r) h = record {
    subscriptions = h.subscriptions;
    realtime = h.realtime;
    writer = h.writer;
    delivered = h.delivered;
  }
  Step-Inv s t (hands_over prefixes r w n) h = record {
    subscriptions =
        All-append _ (map cancel s.subscriptions) _
          (cancelled-IsSound glob (s.listened ++ prefixes) _ s.subscriptions (
            All-mono _ _ s.subscriptions
              (λ sub k. IsSound-grown glob s.listened prefixes _ _ sub (listened_more s prefixes) k)
              h.subscriptions))
          (
            subscribe-IsSound glob (s.listened ++ prefixes) prefixes _
                (λ p i. IsIn-append_right p s.listened prefixes i),
            tt,
          );
    realtime = RealtimeAll-mono glob _ _ s.realtime (listened_more s prefixes) h.realtime;
    writer = WriterAll-mono glob _ _ s.writer (listened_more s prefixes) h.writer;
    delivered = All-mono _ _ s.delivered (listened_more s prefixes) h.delivered;
  }
  Step-Inv s t (publishes channel event) h = record {
    subscriptions =
        All-map _ _ (arrive glob channel event) s.subscriptions
          (λ sub k.
            arrive-IsSound glob (s.published ++ (channel, event) ∷ []) s.listened channel event sub
              (IsIn-append_right (channel, event) s.published _ (inl refl))
              (same_prefixes s ((channel, event) ∷ []) sub k))
          h.subscriptions;
    realtime = RealtimeAll-mono glob _ _ s.realtime (published_more s _) h.realtime;
    writer = WriterAll-mono glob _ _ s.writer (published_more s _) h.writer;
    delivered = All-mono _ _ s.delivered (published_more s _) h.delivered;
  }
  Step-Inv s t (takes before after sub event queue e q n) h = record {
    subscriptions =
        replaced glob s.listened _ s.subscriptions before after sub _ e h.subscriptions (λ k.
          let (w, ws) = subst (All (Want glob s)) q k.queue in
          record { patterns = k.patterns; queue = ws; holding = w });
    realtime = h.realtime;
    writer = h.writer;
    delivered = h.delivered;
  }
  Step-Inv s t (drops before after sub event queue e q) h = record {
    subscriptions =
        replaced glob s.listened _ s.subscriptions before after sub _ e h.subscriptions (λ k.
          let (w, ws) = subst (All (Want glob s)) q k.queue in
          record { patterns = k.patterns; queue = ws; holding = k.holding });
    realtime = h.realtime;
    writer = h.writer;
    delivered = h.delivered;
  }
  Step-Inv s t (ends before after sub e c n) h =
      let (a, b, c) = All-split _ before sub after (subst (All _) e h.subscriptions) in
      record {
        subscriptions = All-append _ before after a c;
        realtime = h.realtime;
        writer = h.writer;
        delivered = h.delivered;
      }
  Step-Inv s t (fans_in before after sub event e o w) h = record {
    subscriptions =
        replaced glob s.listened _ s.subscriptions before after sub _ e h.subscriptions
          (λ k. record { patterns = k.patterns; queue = k.queue; holding = tt });
    realtime =
        subst (OptionAll (Want glob s)) o
          (the_one glob s.listened _ s.subscriptions before after sub e h.subscriptions).holding;
    writer = h.writer;
    delivered = h.delivered;
  }
  Step-Inv s t (forwards event r w) h = record {
    subscriptions = h.subscriptions;
    realtime = tt;
    writer = subst (RealtimeAll (Want glob s)) r h.realtime;
    delivered = h.delivered;
  }
  Step-Inv s t (writes event w) h = record {
    subscriptions = h.subscriptions;
    realtime = h.realtime;
    writer = tt;
    delivered =
        All-append _ s.delivered (event ∷ []) h.delivered
          (subst (WriterAll (Want glob s)) w h.writer, tt);
  }
  Step-Inv s t (write_fails event w) h = record {
    subscriptions = h.subscriptions;
    realtime = h.realtime;
    writer = tt;
    delivered = h.delivered;
  }
  Step-Inv s t (quits r w) h = record {
    subscriptions = h.subscriptions;
    realtime = h.realtime;
    writer = tt;
    delivered = h.delivered;
  }
  Step-Inv s t (crashes_forwarding event r w) h = record {
    subscriptions = h.subscriptions;
    realtime = h.realtime;
    writer = h.writer;
    delivered = h.delivered;
  }
  Step-Inv s t (crashes_offering prefixes r w) h = record {
    subscriptions = h.subscriptions;
    realtime = h.realtime;
    writer = h.writer;
    delivered = h.delivered;
  }
  Step-Inv s t (spins r w) h = record {
    subscriptions =
        All-append _ (map cancel s.subscriptions) _
          (cancelled-IsSound glob s.listened _ s.subscriptions h.subscriptions)
          (subscribe-IsSound glob s.listened [] _ (λ p i. elim i [ ]), tt);
    realtime = h.realtime;
    writer = h.writer;
    delivered = h.delivered;
  }
  Step-Inv s t (finishes r w) h = record {
    subscriptions = cancelled-IsSound glob s.listened _ s.subscriptions h.subscriptions;
    realtime = tt;
    writer = h.writer;
    delivered = h.delivered;
  }

  Run-Inv : (s t : Socket) → Run glob s t → Inv glob s → Inv glob t
  Run-Inv s t halt h = h
  Run-Inv s t (then_step r c k) h = Step-Inv _ t k (Run-Inv s _ r h)

  -- Whatever the order of the steps of its goroutines is, a socket delivers no event but those that were
  -- published on a channel that matches the pattern of a prefix that its client asked to listen to.
  pub Run-delivered :
      (s : Socket) → Run glob start s → All (IsWanted glob s.published s.listened) s.delivered
  Run-delivered s r =
      (Run-Inv start s r
        (record { subscriptions = tt; realtime = tt; writer = tt; delivered = tt })).delivered
