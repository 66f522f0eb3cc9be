-- ===== src/Config/Message/Increment.antt =====
-- The lagged diffs of an incremented message.
use libbchat_util.Base.{
  Ordering, ◌≡◌, refl, ap, inl, inr, List, [], ◌∷◌, ◌++◌, false, All, arith, Bool-cases,
}
use libbchat_util.Base.Order.{
  ℤ, pos, int_order, bytes_order, pair_order, compare_pair, compare_pair_swap,
}
use libbchat_util.Base.Int.{◌+ℤ◌, ◌<ℤ◌, leb_ℤ, leb_ℤ→le}
use libbchat_util.Config.Bt.{BtDict}
use libbchat_util.Config.Message.{
  Message, Key, seqno, emplace, drop_front, drop_back, increment_impl,
}
use libbchat_util.Config.Message.Redundant.{LagsBelow}

-- The window of lagged diffs that a message is parsed and serialized with.
abbrev pub IsInWindow : Message → Type 0
IsInWindow m = All (λ (p : Key × BtDict). (seqno m <ℤ p.0.0 +ℤ m.lag) × (p.0.0 <ℤ seqno m)) m.lagged

abbrev Window : ℤ → ℤ → List (Key × BtDict) → Type 0
Window seq lag l = All (λ p. (seq <ℤ p.0.0 +ℤ lag) × (p.0.0 <ℤ seq)) l

leb_false : (a b : ℤ) → b <ℤ a → leb_ℤ a b ≡ false
leb_false a b h = elim (Bool-cases (leb_ℤ a b)) [
  | inl e ↦ absurd (omega (arith, leb_ℤ→le a b e))
  | inr e ↦ e
]

drop_front_none :
    (seq lag : ℤ) (l : List (Key × BtDict)) → Window seq lag l → drop_front seq lag l ≡ l
unfolding drop_front
drop_front_none seq lag [] w = refl
drop_front_none seq lag ((k, d) ∷ l) w = rw (leb_false (k.0 +ℤ lag) seq w.0.0) refl

drop_back_none : (seq lag : ℤ) (l : List (Key × BtDict)) → Window seq lag l → drop_back seq l ≡ l
unfolding drop_back
drop_back_none seq lag [] w = refl
drop_back_none seq lag ((k, d) ∷ l) w = ground (arith, drop_back_none seq lag l, leb_false seq k.0)

emplace_end :
    (k : Key) (d : BtDict) (l : List (Key × BtDict))
    → All (λ (p : Key × BtDict). compare_pair p.0 k ≡ Ordering.lt) l
    → emplace k d l ≡ l ++ (k, d) ∷ []
unfolding emplace
emplace_end k d [] a = refl
emplace_end k d ((j, e) ∷ l) a =
    rw (compare_pair_swap j k a.0, emplace) (ap (◌∷◌ (j, e)) (emplace_end k d l a.1))

-- Incrementing a message whose lagged diffs come from before it and lie in the window drops none of
-- them, also not the one exactly `lag` before the new number: they stay as they are, followed by the
-- message's own diff. The number goes up by one, and the data becomes the base of the next diff.
pub increment_impl_lem :
    (m : Message)
    → LagsBelow m
    → IsInWindow m
    → ((increment_impl m).message.lagged ≡ m.lagged ++ (m.key, m.diff) ∷ [])
      × (seqno (increment_impl m).message ≡ seqno m +ℤ pos 1)
      × ((increment_impl m).message.data_ ≡ m.data_)
      × ((increment_impl m).orig_data ≡ m.data_)
unfolding increment_impl
increment_impl_lem m below window = (
  rw
      (
        drop_front_none (seqno m) m.lag m.lagged window,
        drop_back_none (seqno m) m.lag m.lagged window,
      )
      (emplace_end m.key m.diff m.lagged below),
  refl,
  refl,
  refl,
)
