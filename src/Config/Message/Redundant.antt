-- ===== src/Config/Message/Redundant.antt =====
-- The pruning of redundant and old configs always leaves one.
use libbchat_util.Base.{
  ℕ, ◌+◌, Ordering, ◌≡◌, ◌≢◌, refl, ◌∙◌, ap, sym, subst, inl, inr, List, [], ◌∷◌, ◌++◌, Bool, true,
  false, ◌||◌, All, All-append, arith, Bool-cases, if◌then◌else◌,
}
use libbchat_util.Base.Order.{
  ℤ, pos, Ordering-cases, compare_pair, compare_pair_refl, compare_pair_trans, compare_pair_swap,
  compare_pair_swap_gt, eq_of_compare_pair, pair_order, int_order, bytes_order, compare_ℤ,
  eq_of_compare_ℤ,
}
use libbchat_util.Base.Int.{◌+ℤ◌, ◌≤ℤ◌, ◌<ℤ◌, leb_ℤ, int_laws, leb_ℤ→le, leb_ℤ→gt, lt_of_compare}
use mathlib.Core.List.{append_assoc, append-nil}
use libbchat_util.Config.Bt.{BtDict}
use libbchat_util.Config.Message.{
  Message, Key, compare_key, seqno, includes, any_includes, any_same, is_redundant, mark_redundant,
  mark_old, max_seqno, mark_all, survivors, int64_min, add_int64,
}
use libbchat_util.Config.Message.Int64.{HasRoom, add_int64-fits}

abbrev IsBelow : Key → Key → Type 0
IsBelow a b = compare_key a b ≡ Ordering.lt

abbrev IsAtMost : Key → Key → Type 0
IsAtMost a b = compare_key a b ≢ Ordering.gt

IsAtMost-trans : (a b c : Key) → IsAtMost a b → IsAtMost b c → IsAtMost a c
IsAtMost-trans a b c h k =
    ground (arith, compare_pair_trans a b c, eq_of_compare_pair a b, eq_of_compare_pair b c)

below-IsAtMost : (a b : Key) → IsBelow a b → IsAtMost a b
below-IsAtMost a b h = ground arith

-- A config with the greatest key, the first of such.
record Top (ms : List Message) : Type 0 where
  before : List Message
  top : Message
  after : List Message
  split : ms ≡ before ++ top ∷ after
  before_below : All (λ n. IsBelow n.key top.key) before
  after_at_most : All (λ n. IsAtMost n.key top.key) after

Top-in_front :
    (m : Message) (ms : List Message) (t : Top ms) → IsAtMost t.top.key m.key → Top (m ∷ ms)
Top-in_front m ms t h = record {
  before = [];
  top = m;
  after = ms;
  split = refl;
  before_below = tt;
  after_at_most = rw t.split (All_append_atMost t.before t.before_below);
}
  where
    All_atMost :
        (l : List Message)
        → All (λ n. IsAtMost n.key t.top.key) l
        → All (λ n. IsAtMost n.key m.key) l
    All_atMost [] a = tt
    All_atMost (n ∷ l) a = (IsAtMost-trans n.key t.top.key m.key a.0 h, All_atMost l a.1)

    All_append_atMost :
        (l : List Message)
        → All (λ n. IsBelow n.key t.top.key) l
        → All (λ n. IsAtMost n.key m.key) (l ++ t.top ∷ t.after)
    All_append_atMost [] a = (h, All_atMost t.after t.after_at_most)
    All_append_atMost (n ∷ l) a = (
      IsAtMost-trans n.key t.top.key m.key (below-IsAtMost n.key t.top.key a.0) h,
      All_append_atMost l a.1,
    )

Top-behind : (m : Message) (ms : List Message) (t : Top ms) → IsBelow m.key t.top.key → Top (m ∷ ms)
Top-behind m ms t h = record {
  before = m ∷ t.before;
  top = t.top;
  after = t.after;
  split = ap (◌∷◌ m) t.split;
  before_below = (h, t.before_below);
  after_at_most = t.after_at_most;
}

find-Top : (m : Message) (ms : List Message) → Top (m ∷ ms)
find-Top m [] = record {
  before = [];
  top = m;
  after = [];
  split = refl;
  before_below = tt;
  after_at_most = tt;
}
find-Top m (n ∷ ns) =
    let t = find-Top n ns in
    elim (Ordering-cases (compare_key m.key t.top.key)) [
      | inl e ↦ Top-behind m (n ∷ ns) t e
      | inr (inl e) ↦
          Top-in_front m (n ∷ ns) t
            (ground (arith, eq_of_compare_pair m.key t.top.key, compare_pair_refl m.key))
      | inr (inr e) ↦
          Top-in_front m (n ∷ ns) t (ground (arith, compare_pair_swap_gt m.key t.top.key))
    ]

-- Every lagged diff of a config comes from before it.
abbrev pub LagsBelow : Message → Type 0
LagsBelow m = All (λ (p : Key × BtDict). IsBelow p.0 m.key) m.lagged

not_included :
    (k b : Key) (l : List (Key × BtDict))
    → IsAtMost b k
    → All (λ p. IsBelow p.0 b) l
    → includes k l ≡ false
unfolding includes
not_included k b [] h a = refl
not_included k b ((j, d) ∷ l) h a =
    ground (arith, not_included k b l h a.1, eq_of_compare_pair k j, compare_pair_swap j b)

none_includes :
    (k : Key) (l : List Message)
    → All (λ n. IsAtMost n.key k) l
    → All LagsBelow l
    → any_includes k l ≡ false
unfolding any_includes
none_includes k [] h a = refl
none_includes k (m ∷ ms) h a =
    ground (arith, none_includes k ms h.1 a.1, not_included k m.key m.lagged h.0 a.0)

none_same : (k : Key) (l : List Message) → All (λ n. IsBelow n.key k) l → any_same k l ≡ false
unfolding any_same
none_same k [] h = refl
none_same k (m ∷ ms) h =
    ground (arith, none_same k ms h.1, eq_of_compare_pair k m.key, compare_pair_refl k)

All-split_left {ℓ} : {A : Type 0} (P : A → Type ℓ) (xs ys : List A) → All P (xs ++ ys) → All P xs
All-split_left P [] ys a = tt
All-split_left P (x ∷ xs) ys a = (a.0, All-split_left P xs ys a.1)

All-split_right {ℓ} : {A : Type 0} (P : A → Type ℓ) (xs ys : List A) → All P (xs ++ ys) → All P ys
All-split_right P [] ys a = a
All-split_right P (x ∷ xs) ys a = All-split_right P xs ys a.1

All-IsAtMost_of_below :
    (k : Key) (l : List Message) → All (λ n. IsBelow n.key k) l → All (λ n. IsAtMost n.key k) l
All-IsAtMost_of_below k [] a = tt
All-IsAtMost_of_below k (n ∷ l) a = (below-IsAtMost n.key k a.0, All-IsAtMost_of_below k l a.1)

-- The first of the configs with the greatest key is not redundant.
top_not_redundant :
    (ms : List Message) (t : Top ms)
    → All LagsBelow ms
    → is_redundant t.before t.top t.after ≡ false
unfolding is_redundant
top_not_redundant ms t a =
    let a' : All LagsBelow (t.before ++ t.top ∷ t.after) = rw t.split at a in
    ground (
      arith,
      none_includes t.top.key t.before (All-IsAtMost_of_below t.top.key t.before t.before_below)
          (All-split_left LagsBelow t.before (t.top ∷ t.after) a'),
      none_same t.top.key t.before t.before_below,
      none_includes t.top.key t.after t.after_at_most
          (All-split_right LagsBelow t.before (t.top ∷ t.after) a').1,
    )

any_kept : List (Message × Bool) → Bool
any_kept [] = false
any_kept ((m, true) ∷ l) = any_kept l
any_kept ((m, false) ∷ l) = true

survivors-any_kept : (i : ℕ) (l : List (Message × Bool)) → any_kept l ≡ true → survivors i l ≢ []
unfolding survivors any_kept
survivors-any_kept i [] h = cc
survivors-any_kept i ((m, true) ∷ l) h = survivors-any_kept (i + 1) l h
survivors-any_kept i ((m, false) ∷ l) h = λ e. ground arith

any_kept-cons :
    (m : Message) (r : Bool) (l : List (Message × Bool))
    → any_kept l ≡ true
    → any_kept ((m, r) ∷ l) ≡ true
unfolding any_kept
any_kept-cons m true l h = h
any_kept-cons m false l h = refl

kept_at :
    (lag top : ℤ) (pre before : List Message) (m : Message) (after : List Message)
    → is_redundant (pre ++ before) m after ≡ false
    → leb_ℤ (add_int64 (seqno m) lag) top ≡ false
    → any_kept (mark_old lag top (mark_redundant pre (before ++ m ∷ after))) ≡ true
unfolding mark_old mark_redundant any_kept
kept_at lag top pre [] m after h k =
    let h' : is_redundant pre m after ≡ false = rw append-nil at h in rw (h', k) refl
kept_at lag top pre (b ∷ before) m after h k =
    any_kept-cons b
      (is_redundant pre b (before ++ m ∷ after) || leb_ℤ (add_int64 (seqno b) lag) top)
      (mark_old lag top (mark_redundant (pre ++ b ∷ []) (before ++ m ∷ after)))
      (kept_at lag top (pre ++ b ∷ []) before m after (rw (append_assoc pre (b ∷ []) before) h) k)

pick_le : (best n s : ℤ) → best ≤ℤ s → n ≤ℤ s → (if leb_ℤ n best then best else n) ≤ℤ s
pick_le best n s h k = elim (Bool-cases (leb_ℤ n best)) [ inl e ↦ rw e h | inr e ↦ rw e k ]

pick_bounds :
    (best n : ℤ)
    → (best ≤ℤ (if leb_ℤ n best then best else n)) × (n ≤ℤ (if leb_ℤ n best then best else n))
pick_bounds best n = elim (Bool-cases (leb_ℤ n best)) [
  | inl e ↦ rw e (omega arith, leb_ℤ→le n best e)
  | inr e ↦ rw e (omega (arith, leb_ℤ→gt n best e), omega arith)
]

pub max_seqno-le :
    (best s : ℤ) (ms : List Message)
    → best ≤ℤ s
    → All (λ n. seqno n ≤ℤ s) ms
    → max_seqno best ms ≤ℤ s
unfolding max_seqno
max_seqno-le best s [] h a = h
max_seqno-le best s (m ∷ ms) h a =
    max_seqno-le (if leb_ℤ (seqno m) best then best else seqno m) s ms
      (pick_le best (seqno m) s h a.0) a.1

≤ℤ_trans : (a b c : ℤ) → a ≤ℤ b → b ≤ℤ c → a ≤ℤ c
≤ℤ_trans a b c h k = omega arith

pub le-max_seqno :
    (best : ℤ) (ms : List Message)
    → (best ≤ℤ max_seqno best ms) × All (λ n. seqno n ≤ℤ max_seqno best ms) ms
unfolding max_seqno
le-max_seqno best [] = (omega arith, tt)
le-max_seqno best (m ∷ ms) =
    let (b, n) = pick_bounds best (seqno m) in
    let (rest, all) = le-max_seqno (if leb_ℤ (seqno m) best then best else seqno m) ms in
    (≤ℤ_trans best _ _ b rest, (≤ℤ_trans (seqno m) _ _ n rest, all))

seqno_le : (a b : Key) → IsAtMost a b → a.0 ≤ℤ b.0
unfolding compare_pair
seqno_le (a, h) (b, k) le = elim (Ordering-cases (compare_ℤ a b)) [
  | inl e ↦ omega (arith, lt_of_compare a b e)
  | inr (inl e) ↦ rw (eq_of_compare_ℤ a b e) (omega arith)
  | inr (inr e) ↦ absurd (ground arith)
]

All-seqno_le :
    (k : Key) (l : List Message) → All (λ n. IsAtMost n.key k) l → All (λ n. seqno n ≤ℤ k.0) l
All-seqno_le k [] a = tt
All-seqno_le k (n ∷ l) a = (seqno_le n.key k a.0, All-seqno_le k l a.1)

above_top : (n lag top : ℤ) → top ≤ℤ n → pos 0 <ℤ lag → leb_ℤ (n +ℤ lag) top ≡ false
above_top n lag top h k = elim (Bool-cases (leb_ℤ (n +ℤ lag) top)) [
  | inl e ↦ absurd (omega (int_laws, leb_ℤ→le (n +ℤ lag) top e))
  | inr e ↦ e
]

pub not_old :
    (n lag top : ℤ) → top ≤ℤ n → pos 0 <ℤ lag → HasRoom lag n → leb_ℤ (add_int64 n lag) top ≡ false
not_old n lag top h k (low, high) =
    ap (λ x. leb_ℤ x top) (add_int64-fits n lag (omega int_laws) high) ∙ above_top n lag top h k

survivors_of_Top :
    (lag : ℤ) (ms : List Message)
    → Top ms
    → pos 0 <ℤ lag
    → All LagsBelow ms
    → All (λ n. HasRoom lag (seqno n)) ms
    → survivors 0 (mark_all lag ms) ≢ []
unfolding mark_all
survivors_of_Top lag ms t positive lags bounded =
    let all : All (λ n. seqno n ≤ℤ seqno t.top) ms =
      subst (All (λ n. seqno n ≤ℤ seqno t.top)) (sym t.split) (
        All-append (λ n. seqno n ≤ℤ seqno t.top) t.before (t.top ∷ t.after)
          (All-seqno_le t.top.key t.before
            (All-IsAtMost_of_below t.top.key t.before t.before_below))
          (omega arith, All-seqno_le t.top.key t.after t.after_at_most)) in
    let room : HasRoom lag (seqno t.top) =
      (All-split_right (λ n. HasRoom lag (seqno n)) t.before (t.top ∷ t.after)
        (subst (All (λ n. HasRoom lag (seqno n))) t.split bounded)).0 in
    let top_le : max_seqno int64_min ms ≤ℤ seqno t.top =
      max_seqno-le int64_min (seqno t.top) ms room.0 all in
    survivors-any_kept 0 (mark_old lag (max_seqno int64_min ms) (mark_redundant [] ms)) (
      subst (λ l. any_kept (mark_old lag (max_seqno int64_min ms) (mark_redundant [] l)) ≡ true)
        (sym t.split)
        (kept_at lag (max_seqno int64_min ms) [] t.before t.top t.after
          (top_not_redundant ms t lags) (not_old (seqno t.top) lag _ top_le positive room)))

-- With a positive lag, and configs whose lagged diffs all come from before them and whose sequence
-- numbers are of 64 bits and can be increased by the lag without an overflow, the two pruning loops leave at least one of one or more configs: the assertion
-- `curr_confs >= 1` holds.
pub survivors_ne_nil :
    (lag : ℤ) (m : Message) (ms : List Message)
    → pos 0 <ℤ lag
    → All LagsBelow (m ∷ ms)
    → All (λ n. HasRoom lag (seqno n)) (m ∷ ms)
    → survivors 0 (mark_all lag (m ∷ ms)) ≢ []
survivors_ne_nil lag m ms = survivors_of_Top lag (m ∷ ms) (find-Top m ms)
