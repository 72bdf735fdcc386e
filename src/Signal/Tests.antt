-- ===== src/Signal/Tests.antt =====
-- One client that listens to a timeline, an event on it, and the client's leave.
use concrnt_playground.Prelude.{String, Bool, true, ◌≡◌, refl, inl, none, List, [], ◌∷◌, All}
use concrnt_playground.Document.{Event}
use concrnt_playground.Signal.{
  start, Socket, Run, subscribe, forwarding, listens, hands_over, publishes, takes, fans_in,
  forwards, writes, halt, then_step,
}
use concrnt_playground.Signal.Wanted.{IsWanted}
use concrnt_playground.Signal.Safety.{Run-delivered}
use concrnt_playground.Signal.Delivery.{publish-delivered, disconnect-crashes}

-- A `glob` on which every channel matches.
abbrev all : String → String → Bool
all pattern channel = true

abbrev event : Event
event = record {
  type = "created";
  uri = "cc://con1alice/home/a";
  sd = record { document = "{}"; proof = record { type = "none"; signature = none; href = none } };
}

abbrev prefixes : List String
prefixes = "cc://con1alice/home" ∷ []

abbrev listening : Socket
listening = record start { subscriptions = subscribe prefixes ∷ []; listened = prefixes }

listening-Run : Run all start listening
listening-Run =
    then_step (then_step halt refl (listens prefixes refl)) refl
      (hands_over prefixes refl refl (λ e. cc e))

publish-delivered_example :
    (t : Socket) × Run all listening t
    × (t.published ≡ ("cc://con1alice/home/a", event) ∷ [])
    × (t.delivered ≡ event ∷ [])
publish-delivered_example =
    publish-delivered all listening [] [] (subscribe prefixes) "cc://con1alice/home*"
      "cc://con1alice/home/a" event refl refl refl refl refl refl (inl refl) refl

abbrev received : Socket
received = record listening {
  published = ("cc://con1alice/home/a", event) ∷ [];
  delivered = event ∷ [];
}

received-Run : Run all start received
received-Run =
    then_step
      (then_step
        (then_step
          (then_step (then_step listening-Run refl (publishes "cc://con1alice/home/a" event)) refl
            (takes [] [] _ event [] refl refl refl))
          refl (fans_in [] [] _ event refl refl refl))
        refl (forwards event refl refl))
      refl (writes event refl)

Run-delivered_example :
    All
      (IsWanted all (("cc://con1alice/home/a", event) ∷ []) ("cc://con1alice/home" ∷ []))
      (event ∷ [])
Run-delivered_example = Run-delivered all received received-Run

abbrev busy : Socket
busy = record listening { realtime = forwarding event }

disconnect-crashes_example : (t : Socket) × Run all busy t × (t.crashed ≡ true)
disconnect-crashes_example = disconnect-crashes all busy event refl refl refl refl
