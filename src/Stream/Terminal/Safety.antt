-- ===== src/Stream/Terminal/Safety.antt =====
-- The terminal broker over whole histories: no call panics, and a late subscriber gets the backlog.
use mathlib.Core.Path.{subst}
use wireops.Prelude.{
  ℕ, ◌+◌, ◌≤◌, ◌≡◌, refl, false, Option, some, List, [], ◌∷◌, length, arith, inl, inr,
}
use wireops.Go.Text.{Text, Text-cases}
use wireops.Go.Value.{lookup}
use wireops.Go.Assoc.{put, remove}
use wireops.Stream.{Channel, get_list, make_channel, add_subscriber, receive}
use wireops.Stream.Delivery.{
  get_list-put, get_list-put_other, get_list-remove, get_list-remove_other,
}
use wireops.Stream.Sound.{IsSound, send-safe}
use wireops.Stream.Subscribers.{add_subscriber-IsSound, unsubscribe-safe, receive-IsSound}
use wireops.Stream.Terminal.{
  Event, Broker, Call, subscribing, unsubscribing, output, closing, reading, max_pending_events,
  new, keep_last, subscribe, unsub, publish, publish_output, publish_closed, perform, perform_all,
}
use wireops.Stream.Terminal.Replay.{send_events-room, keep_last-bounded}

-- The invariant of the broker: its subscribers are sound, and no backlog passes 256 events.
pub record IsValid (b : Broker) : Type 0 where
  pub sound : IsSound b.hub
  pub bounded : (s : Text) → length (get_list b.pending s) ≤ max_pending_events

-- A call that returns, with a state in which the invariant holds.
abbrev pub Returns : Option Broker → Type 0
Returns r = (d : Broker) × (r ≡ some d) × IsValid d

pub new-IsValid : IsValid new
unfolding get_list lookup
new-IsValid = record {
  sound = record {
    old = λ k i j. elim j [ ];
    opened = λ k i j. elim j [ ];
    once = λ k. tt;
    one_key = λ j k i a. elim a [ ];
  };
  bounded = λ s. omega arith;
}

pub at_put :
    (m : List (Text × List Event)) (k : Text) (v : List Event)
    → ((s : Text) → length (get_list m s) ≤ max_pending_events)
    → length v ≤ max_pending_events
    → (s : Text) → length (get_list (put m k v) s) ≤ max_pending_events
at_put m k v h hv s = elim (Text-cases k s) [
  | inl e ↦
      subst (λ t. length (get_list (put m k v) t) ≤ max_pending_events) e
        (rw (get_list-put m k v) hv)
  | inr n ↦ rw (get_list-put_other m v n) (h s)
]

at_remove :
    (m : List (Text × List Event)) (k : Text)
    → ((s : Text) → length (get_list m s) ≤ max_pending_events)
    → (s : Text) → length (get_list (remove m k) s) ≤ max_pending_events
at_remove m k h s = elim (Text-cases k s) [
  | inl e ↦
      subst (λ t. length (get_list (remove m k) t) ≤ max_pending_events) e
        (rw (get_list-remove m k) (omega arith))
  | inr n ↦ rw (get_list-remove_other m n) (h s)
]

module _ (b : Broker) (v : IsValid b) where
  -- The channel that a new subscriber of the session gets: it holds the backlog.
  abbrev pub loaded : Text → Channel Event
  loaded session = record {
    capacity = max_pending_events;
    queue = get_list b.pending session;
    closed = false;
  }

  abbrev pub subscribed : Text → Broker
  subscribed session = record b {
    hub = (add_subscriber session (loaded session) b.hub).0;
    pending = remove b.pending session;
  }

  pub subscribe-loads :
      (session : Text) → subscribe session b ≡ some (subscribed session, b.hub.fresh)
  unfolding subscribe add_subscriber
  subscribe-loads session =
      let fits : length {A = Event} [] + length (get_list b.pending session) ≤ max_pending_events =
        omega (arith, v.bounded session) in
      rw (send_events-room (get_list b.pending session) (make_channel max_pending_events) refl fits)
        refl

  pub subscribe-safe : (session : Text) → IsValid (subscribed session)
  subscribe-safe session = record {
    sound = add_subscriber-IsSound b.hub v.sound session (loaded session) refl;
    bounded = at_remove b.pending session v.bounded;
  }

  unsub-safe : (session : Text) (id : ℕ) → Returns (unsub session id b)
  unfolding unsub
  unsub-safe session id =
      let (hub, e, s) = unsubscribe-safe b.hub v.sound session id in
      (record b { hub = hub }, rw e refl, record { sound = s; bounded = v.bounded })

  pub publish-idle :
      (session : Text) (ev : Event)
      → get_list b.hub.subs session ≡ []
      → publish session ev b
        ≡ some (record b {
          pending =
              put b.pending session (keep_last max_pending_events (get_list b.pending session) ev);
        })
  unfolding publish
  publish-idle session ev e = rw (e, publish) refl

  publish-safe : (session : Text) (ev : Event) → Returns (publish session ev b)
  unfolding publish
  publish-safe session ev = by_subs (get_list b.hub.subs session) refl
    where
      by_subs : (is : List ℕ) → get_list b.hub.subs session ≡ is → Returns (publish session ev b)
      by_subs [] e = (
        _,
        publish-idle session ev e,
        record {
          sound = v.sound;
          bounded =
              at_put b.pending session _ v.bounded
                (keep_last-bounded max_pending_events (omega arith) _ ev (v.bounded session));
        },
      )
      by_subs (i ∷ is) e =
          let (hub, q, s) = send-safe b.hub v.sound session ev in
          (
            record b { hub = hub },
            rw (e, publish) (rw q refl),
            record { sound = s; bounded = v.bounded },
          )

  pub perform-safe : (c : Call) → Returns (perform c b)
  unfolding perform publish_output publish_closed
  perform-safe (subscribing session) =
      (subscribed session, rw (subscribe-loads session) refl, subscribe-safe session)
  perform-safe (unsubscribing session id) = unsub-safe session id
  perform-safe (output session chunk) = publish-safe session _
  perform-safe (closing session code message) = publish-safe session _
  perform-safe (reading id) = (
    record b { hub = receive id b.hub },
    refl,
    record { sound = receive-IsSound b.hub v.sound id; bounded = v.bounded },
  )

-- From a state in which the invariant holds every sequence of subscribing, unsubscribing,
-- publishing, closing and reading runs through: nothing sends on a closed channel or closes one
-- twice, and at the end every channel that the broker holds is open and held once, and no backlog
-- passes 256 events.
pub perform_all-safe : (cs : List Call) (b : Broker) → IsValid b → Returns (perform_all cs b)
unfolding perform_all
perform_all-safe [] b v = (b, refl, v)
perform_all-safe (c ∷ cs) b v = let (d, e, w) = perform-safe b v c in rw e (perform_all-safe cs d w)
