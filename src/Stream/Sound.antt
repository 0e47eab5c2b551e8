-- ===== src/Stream/Sound.antt =====
-- The invariant of the subscribers: every channel that the broker holds is open, and it holds none
-- twice. It makes a send on a closed channel and a second close impossible.
use wireops.Prelude.{
  ℕ, ◌<◌, ◌≡◌, refl, ap, sym, ◌∙◌, some, List, [], ◌∷◌, All, In, here, there, inl, inr,
}
use wireops.Go.Text.{Text, Text-cases}
use wireops.Go.Assoc.{remove}
use wireops.Stream.{Channel, Hub, get_list, drop_empty, send}
use wireops.Stream.Delivery.{
  IsNodup, IsOpen, offered, send_all_lem, get_list-remove, get_list-remove_other,
}

module _ {ℓ} {E : Type ℓ} where
  pub record IsSound (h : Hub E) : Type ℓ where
    pub old : (key : Text) (i : ℕ) → In i (get_list h.subs key) → i < h.fresh
    pub opened : (key : Text) (i : ℕ) → In i (get_list h.subs key) → IsOpen h.channels i
    pub once : (key : Text) → IsNodup (get_list h.subs key)
    pub one_key : (j k : Text) (i : ℕ) → In i (get_list h.subs j) → In i (get_list h.subs k) → j ≡ k

All-from {ℓ κ} : {A : Type ℓ} (P : A → Type κ) (xs : List A) → ((x : A) → In x xs → P x) → All P xs
All-from P [] f = tt
All-from P (x ∷ xs) f = (f x here, All-from P xs (λ y i. f y (there i)))

pub get_list-drop_empty :
    (key : Text) (m : List (Text × List ℕ)) (j : Text)
    → get_list (drop_empty key m) j ≡ get_list m j
unfolding drop_empty
get_list-drop_empty key m j = by_value (get_list m key) refl
  where
    by_value : (xs : List ℕ) → get_list m key ≡ xs → get_list (drop_empty key m) j ≡ get_list m j
    by_value (x ∷ xs) e = rw (e, drop_empty) refl
    by_value [] e =
        rw (e, drop_empty)
          (elim (Text-cases key j) [
            | inl t ↦ sym (
                ap (get_list m) (sym t)
                ∙ e
                ∙ sym (get_list-remove m key)
                ∙ ap (get_list (remove m key)) t)
            | inr n ↦ get_list-remove_other m n
          ])

module _ {ℓ} {E : Type ℓ} (h : Hub E) (s : IsSound h) where
  -- The invariant passes to a state in which the broker holds no more, and all of that is open.
  pub IsSound-shrink :
      (m : List (Text × List ℕ)) (store : ℕ → Channel E)
      → ((j : Text) (i : ℕ) → In i (get_list m j) → In i (get_list h.subs j) × IsOpen store i)
      → ((j : Text) → IsNodup (get_list m j))
      → IsSound (record h { subs = m; channels = store })
  IsSound-shrink m store less nodup = record {
    old = λ j i k. s.old j i (less j i k).0;
    opened = λ j i k. (less j i k).1;
    once = nodup;
    one_key = λ j k i a b. s.one_key j k i (less j i a).0 (less k i b).0;
  }

  -- A send never panics and keeps the invariant.
  pub send-safe : (key : Text) (ev : E) → (k : Hub E) × (send key ev h ≡ some k) × IsSound k
  unfolding send
  send-safe key ev =
      let sent = send_all_lem ev (get_list h.subs key) h.channels (All-from _ _ (s.opened key)) in
      (
        record h { channels = sent.after },
        rw sent.sends refl,
        IsSound-shrink h.subs sent.after (λ j i k. (k, sent.flags i ∙ s.opened j i k)) s.once,
      )

  -- Exactly the channels of the key's subscribers are offered the event.
  pub send-delivers :
      (key : Text) (ev : E)
      → (k : Hub E) × (send key ev h ≡ some k)
        × IsSound k
        × ((i : ℕ) → In i (get_list h.subs key) → k.channels i ≡ offered ev (h.channels i))
        × ((i : ℕ) → ¬ (In i (get_list h.subs key)) → k.channels i ≡ h.channels i)
  unfolding send
  send-delivers key ev =
      let sent = send_all_lem ev (get_list h.subs key) h.channels (All-from _ _ (s.opened key)) in
      (
        record h { channels = sent.after },
        rw sent.sends refl,
        IsSound-shrink h.subs sent.after (λ j i k. (k, sent.flags i ∙ s.opened j i k)) s.once,
        sent.reached (s.once key),
        sent.others,
      )
