-- ===== src/Stream.antt =====
-- internal/termstream/broker.go and internal/logstream/broker.go: what the two brokers share, the
-- subscribers of each key and their channels. A channel is an object that the broker and a reader
-- both hold: it lives in a store, and the broker's map holds its number.
pub mod Delivery
pub mod Taken
pub mod Sound
pub mod Subscribers
pub mod Terminal
pub mod Logs
use wireops.Prelude.{
  ℕ, suc, ◌+◌, ◌≡◌, Bool, true, false, Option, none, some, List, [], ◌∷◌, ◌++◌, length, ltb, ◌==◌,
  if◌then◌else◌, ◌>>=◌,
}
use wireops.Go.Text.{Text}
use wireops.Go.Value.{lookup}
use wireops.Go.Assoc.{put, remove}

pub record Channel {ℓ} (E : Type ℓ) : Type ℓ where
  pub capacity : ℕ
  pub queue : List E
  pub closed : Bool

-- `Broker.subs` with the store of the channels; `fresh` is the number of the next one.
pub record Hub {ℓ} (E : Type ℓ) : Type ℓ where
  pub subs : List (Text × List ℕ)
  pub channels : ℕ → Channel E
  pub fresh : ℕ

module _ {ℓ} {A : Type ℓ} where
  -- `m[key]` of a map of slices: the nil slice where the key is missing.
  abbrev pub or_nil : Option (List A) → List A
  or_nil none = []
  or_nil (some xs) = xs

  unfoldable pub get_list : List (Text × List A) → Text → List A
  get_list m k = or_nil (lookup m k)

-- `append(subs[:i], subs[i+1:]...)` at the first `i` that holds the channel, `none` where none does.
unfoldable pub take_out : ℕ → List ℕ → Option (List ℕ)
take_out c [] = none
take_out c (x ∷ xs) =
    let rest = take_out c xs in
    if x == c then some xs else elim rest [ none ↦ none | some ys ↦ some (x ∷ ys) ]

-- `if len(b.subs[key]) == 0 { delete(b.subs, key) }`.
unfoldable pub drop_empty : Text → List (Text × List ℕ) → List (Text × List ℕ)
drop_empty key subs = elim (get_list subs key) [ [] ↦ remove subs key | x ∷ xs ↦ subs ]

module _ {ℓ} {E : Type ℓ} where
  unfoldable pub set_channel : (ℕ → Channel E) → ℕ → Channel E → ℕ → Channel E
  set_channel store i c j = if j == i then c else store j

  abbrev pub make_channel : ℕ → Channel E
  make_channel capacity = record { capacity = capacity; queue = []; closed = false }

  -- `select { case c <- ev: default: }`; `none` is the panic of a send on a closed channel.
  unfoldable pub try_send : E → Channel E → Option (Channel E)
  try_send ev c =
      if c.closed
      then none
      else if ltb (length c.queue) c.capacity
      then some (record c { queue = c.queue ++ (ev ∷ []) })
      else some c

  -- The loop over the subscribers.
  unfoldable pub send_all : E → List ℕ → (ℕ → Channel E) → Option (ℕ → Channel E)
  send_all ev [] store = some store
  send_all ev (i ∷ is) store = do c ← try_send ev (store i); send_all ev is (set_channel store i c)

  -- The loop over the pending events.
  unfoldable pub send_events : List E → Channel E → Option (Channel E)
  send_events [] c = some c
  send_events (ev ∷ evs) c = do d ← try_send ev c; send_events evs d

  -- `append(b.subs[key], c)`, the new channel's number with it.
  unfoldable pub add_subscriber : Text → Channel E → Hub E → Hub E × ℕ
  add_subscriber key c h = (
    record h {
      subs = put h.subs key (get_list h.subs key ++ (h.fresh ∷ []));
      channels = set_channel h.channels h.fresh c;
      fresh = suc h.fresh;
    },
    h.fresh,
  )

  -- `close(c)`; `none` is the panic of closing a closed channel.
  unfoldable pub close : Channel E → Option (Channel E)
  close c = if c.closed then none else some (record c { closed = true })

  unfoldable pub unsubscribe : Text → ℕ → Hub E → Option (Hub E)
  unsubscribe key c h = elim (take_out c (get_list h.subs key)) [
    | none ↦ some (record h { subs = drop_empty key h.subs })
    | some rest ↦ do
      closed ← close (h.channels c)
      some (record h {
        subs = drop_empty key (put h.subs key rest);
        channels = set_channel h.channels c closed;
      })
  ]

  unfoldable pub send : Text → E → Hub E → Option (Hub E)
  send key ev h = do
    store ← send_all ev (get_list h.subs key) h.channels
    some (record h { channels = store })

  -- A reader takes the first event from its channel.
  unfoldable pub receive : ℕ → Hub E → Hub E
  receive i h = elim (h.channels i).queue [
    | [] ↦ h
    | ev ∷ evs ↦ record h {
      channels = set_channel h.channels i (record (h.channels i) { queue = evs });
    }
  ]
