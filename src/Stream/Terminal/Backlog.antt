-- ===== src/Stream/Terminal/Backlog.antt =====
-- A session that nobody listens to yet: its events wait for the first subscriber.
use mathlib.Core.Path.{subst}
use mathlib.Core.List.{append-nil, append_assoc}
use wireops.Prelude.{
  ℕ, ◌≡◌, refl, ap, sym, ◌∙◌, Option, some, List, [], ◌∷◌, ◌++◌, ◌>>=◌, arith, In,
}
use wireops.Go.Text.{Text}
use wireops.Go.Assoc.{put}
use wireops.Stream.{Hub, get_list, add_subscriber, send}
use wireops.Stream.Delivery.{offered, get_list-put, get_list-remove, set_channel-same}
use wireops.Stream.Sound.{send-delivers}
use wireops.Stream.Terminal.{Event, Broker, max_pending_events, keep_last, subscribe, publish}
use wireops.Stream.Terminal.Safety.{
  IsValid, at_put, loaded, subscribed, subscribe-loads, publish-idle,
}
use wireops.Stream.Terminal.Replay.{
  recent, IsReplayOf, recent-IsReplayOf, keep_last-recent, keep_last-bounded,
}

-- Events that are published one after the other.
abbrev pub publish_each : Text → List Event → Broker → Option Broker
publish_each session [] b = some b
publish_each session (ev ∷ evs) b = publish session ev b >>= publish_each session evs

backlog :
    (session : Text) (evs seen : List Event) (b : Broker)
    → IsValid b
    → get_list b.hub.subs session ≡ []
    → get_list b.pending session ≡ recent max_pending_events seen
    → (d : Broker) × (publish_each session evs b ≡ some d)
      × IsValid d
      × (get_list d.pending session ≡ recent max_pending_events (seen ++ evs))
backlog session [] seen b v idle p =
    (b, refl, v, p ∙ ap (recent max_pending_events) (sym (append-nil seen)))
backlog session (ev ∷ evs) seen b v idle p =
    let kept = keep_last max_pending_events (get_list b.pending session) ev in
    let c : Broker = record b { pending = put b.pending session kept } in
    let w : IsValid c = record {
      sound = v.sound;
      bounded =
          at_put b.pending session kept v.bounded
            (keep_last-bounded max_pending_events (omega arith) _ ev (v.bounded session));
    } in
    let (d, e, x, q) = backlog session evs (seen ++ (ev ∷ [])) c w idle (
      get_list-put b.pending session kept
      ∙ ap (λ l. keep_last max_pending_events l ev) p
      ∙ keep_last-recent max_pending_events (omega arith) seen ev) in
    (
      d,
      rw (publish-idle b v session ev idle) e,
      x,
      q ∙ ap (recent max_pending_events) (append_assoc seen (ev ∷ []) evs),
    )

-- What is published to a session that has no subscriber and no backlog reaches the first subscriber:
-- the calls return, and its channel holds, in order, all the events if there are at most 256, and
-- else the last 256 of them; the backlog is gone.
pub subscribe-replay :
    (session : Text) (evs : List Event) (b : Broker)
    → IsValid b
    → get_list b.hub.subs session ≡ []
    → get_list b.pending session ≡ []
    → (d c : Broker) × (id : ℕ) × (publish_each session evs b ≡ some d)
      × (subscribe session d ≡ some (c, id))
      × IsReplayOf max_pending_events (c.hub.channels id).queue evs
      × (get_list c.pending session ≡ [])
unfolding add_subscriber
subscribe-replay session evs b v idle none_yet =
    let (d, e, w, q) = backlog session evs [] b v idle none_yet in
    (
      d,
      subscribed d w session,
      d.hub.fresh,
      e,
      subscribe-loads d w session,
      subst (λ l. IsReplayOf max_pending_events l evs)
          (sym (
            ap (λ c. c.queue) (set_channel-same d.hub.channels d.hub.fresh (loaded d w session))
            ∙ q))
          (recent-IsReplayOf max_pending_events evs),
      get_list-remove d.pending session,
    )

-- A session that has subscribers keeps no backlog: each of its subscribers is offered the event,
-- and gets it at the end of its channel unless that is full; no other channel changes.
pub publish-delivers :
    (session : Text) (ev : Event) (b : Broker) (i : ℕ)
    → IsValid b
    → In i (get_list b.hub.subs session)
    → (d : Broker) × (publish session ev b ≡ some d)
      × (d.pending ≡ b.pending)
      × ((j : ℕ)
          → In j (get_list b.hub.subs session)
          → d.hub.channels j ≡ offered ev (b.hub.channels j))
      × ((j : ℕ) → ¬ (In j (get_list b.hub.subs session)) → d.hub.channels j ≡ b.hub.channels j)
unfolding publish
publish-delivers session ev b i v here_it_is =
    let (hub, e, s, reached, others) = send-delivers b.hub v.sound session ev in
    (
      record b { hub = hub },
      some_subscriber (get_list b.hub.subs session) refl here_it_is hub e,
      refl,
      reached,
      others,
    )
  where
    some_subscriber :
        (is : List ℕ)
        → get_list b.hub.subs session ≡ is
        → In i is
        → (hub : Hub Event) → send session ev b.hub ≡ some hub
        → publish session ev b ≡ some (record b { hub = hub })
    some_subscriber [] q k hub e = elim k [ ]
    some_subscriber (x ∷ is) q k hub e = rw (q, publish) (rw e refl)
