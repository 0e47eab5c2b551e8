-- ===== src/Stream/Delivery.antt =====
-- What sends on open channels do: they never panic, and each channel gets the event if it has room.
use mathlib.Core.Path.{subst}
use wireops.Prelude.{
  ℕ, ◌<◌, ◌≡◌, ◌≢◌, refl, ap, sym, ◌∙◌, false, some, List, [], ◌∷◌, ◌++◌, length, ltb, ◌==◌, ==_iff,
  if◌then◌else◌, All, All-map, In, here, there, In-cons, arith, Bool-cases, inl, inr,
}
use wireops.Go.Text.{Text}
use wireops.Go.Assoc.{put, remove, lookup-put, lookup-put_other, lookup-remove, lookup-remove_other}
use wireops.Stream.{Channel, or_nil, get_list, set_channel, try_send, send_all}

module _ {ℓ} {A : Type ℓ} where
  pub get_list-put : (m : List (Text × List A)) (k : Text) (v : List A) → get_list (put m k v) k ≡ v
  unfolding get_list
  get_list-put m k v = ap or_nil (lookup-put m k v)

  pub get_list-put_other :
      (m : List (Text × List A)) {j k : Text} (v : List A)
      → k ≢ j
      → get_list (put m k v) j ≡ get_list m j
  unfolding get_list
  get_list-put_other m v n = ap or_nil (lookup-put_other m v n)

  pub get_list-remove : (m : List (Text × List A)) (k : Text) → get_list (remove m k) k ≡ []
  unfolding get_list
  get_list-remove m k = ap or_nil (lookup-remove m k)

  pub get_list-remove_other :
      (m : List (Text × List A)) {j k : Text} → k ≢ j → get_list (remove m k) j ≡ get_list m j
  unfolding get_list
  get_list-remove_other m n = ap or_nil (lookup-remove_other m n)

  abbrev pub IsNodup : List A → Type ℓ
  IsNodup [] = Unit
  IsNodup (x ∷ xs) = (¬ (In x xs)) × IsNodup xs

module _ {ℓ} {E : Type ℓ} where
  pub set_channel-same :
      (store : ℕ → Channel E) (i : ℕ) (c : Channel E) → set_channel store i c i ≡ c
  unfolding set_channel
  set_channel-same store i c = rw ((==_iff i i).1 refl) refl

  pub set_channel-other :
      (store : ℕ → Channel E) {i j : ℕ} (c : Channel E) → j ≢ i → set_channel store i c j ≡ store j
  unfolding set_channel
  set_channel-other store {i} {j} c n = elim (Bool-cases (j == i)) [
    | inl e ↦ absurd (n ((==_iff j i).0 e))
    | inr f ↦ rw f refl
  ]

  -- The channel after an event was offered to it: it keeps the event while it has room.
  abbrev pub offered : E → Channel E → Channel E
  offered ev c =
      if ltb (length c.queue) c.capacity then record c { queue = c.queue ++ (ev ∷ []) } else c

  pub try_send-open :
      (ev : E) (c : Channel E) → c.closed ≡ false → try_send ev c ≡ some (offered ev c)
  unfolding try_send
  try_send-open ev c o = ground (arith, o)

  pub try_send-room :
      (ev : E) (c : Channel E)
      → c.closed ≡ false
      → length c.queue < c.capacity
      → try_send ev c ≡ some (record c { queue = c.queue ++ (ev ∷ []) })
  unfolding try_send
  try_send-room ev c o r = ground (arith, o, r)

  pub offered-closed : (ev : E) (c : Channel E) → (offered ev c).closed ≡ c.closed
  offered-closed ev c = ground arith

  abbrev pub IsOpen : (ℕ → Channel E) → ℕ → Type 0
  IsOpen store i = (store i).closed ≡ false

  pub set_channel-closed :
      (store : ℕ → Channel E) (i : ℕ) (c : Channel E)
      → c.closed ≡ (store i).closed
      → (j : ℕ) → (set_channel store i c j).closed ≡ (store j).closed
  unfolding set_channel
  set_channel-closed store i c e j = elim (Bool-cases (j == i)) [
    | inl t ↦ rw t (e ∙ ap (λ k. (store k).closed) (sym ((==_iff j i).0 t)))
    | inr f ↦ rw f refl
  ]

  -- What a loop of sends leaves behind.
  pub record Sent (ev : E) (is : List ℕ) (store : ℕ → Channel E) : Type ℓ where
    pub after : ℕ → Channel E
    pub sends : send_all ev is store ≡ some after
    pub flags : (j : ℕ) → (after j).closed ≡ (store j).closed
    pub reached : IsNodup is → (j : ℕ) → In j is → after j ≡ offered ev (store j)
    pub others : (j : ℕ) → ¬ (In j is) → after j ≡ store j

  pub send_all_lem :
      (ev : E) (is : List ℕ) (store : ℕ → Channel E) → All (IsOpen store) is → Sent ev is store
  unfolding send_all
  send_all_lem ev [] store o = record {
    after = store;
    sends = refl;
    flags = λ j. refl;
    reached = λ d j i. elim i [ ];
    others = λ j n. refl;
  }
  send_all_lem ev (i ∷ is) store o =
      let c : Channel E = offered ev (store i) in
      let flags : (j : ℕ) → (set_channel store i c j).closed ≡ (store j).closed =
        set_channel-closed store i c (offered-closed ev (store i)) in
      let rest = send_all_lem ev is (set_channel store i c) (All-map is (λ j p. flags j ∙ p) o.1) in
      record {
        after = rest.after;
        sends = rw (try_send-open ev (store i) o.0) rest.sends;
        flags = λ j. rest.flags j ∙ flags j;
        reached = λ d j k. elim (In-cons k) [
          | inl e ↦ rw e (rest.others i d.0 ∙ set_channel-same store i c)
          | inr l ↦
              rest.reached d.1 j l
              ∙ ap (offered ev) (set_channel-other store c (λ e. d.0 (subst (λ x. In x is) e l)))
        ];
        others = λ j n.
            rest.others j (λ k. n (there k))
            ∙ set_channel-other store c (λ e. n (subst (λ x. In x (i ∷ is)) (sym e) here));
      }
