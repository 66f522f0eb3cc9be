-- ===== src/Config/Roundtrip/Sets.antt =====
-- The set part: `diff_impl` on two sets, and the insertions and erasures of `apply_diff`.
use libbchat_util.Base.{
  ◌≡◌, refl, ap, ◌∙◌, inl, inr, Option, none, List, [], ◌∷◌, true, not, ◌&&◌, ◌||◌, arith, empty, ℕ,
}
use libbchat_util.Base.Order.{ℤ, Ordering-cases}
use libbchat_util.Base.SortedSet.{
  has, insert, erase, IsSorted, has-insert, has-erase, has-Above, has_below, insert-IsSorted,
  erase-IsSorted, eq_of_has,
}
use libbchat_util.Config.Scalar.{
  Scalar, scalar_order, compare_scalar, eq_of_compare_scalar, compare_scalar_swap_gt,
}
use libbchat_util.Config.Result.{ok}
use libbchat_util.Config.Bt.{bt_scalars, get_bt_scalar-bt_scalar}
use libbchat_util.Config.Diff.{set_diff, diff_set, bt_of_set_diff}
use libbchat_util.Config.Apply.{insert_all, erase_all, erase_second, apply_set_diff}

-- The loops of `apply_diff` on the scalars themselves.
insert_each : List Scalar → List Scalar → List Scalar
insert_each [] s = s
insert_each (x ∷ xs) s = insert_each xs (insert x s)

erase_each : List Scalar → List Scalar → List Scalar
erase_each [] s = s
erase_each (x ∷ xs) s = erase_each xs (erase x s)

has-insert_each :
    (x : Scalar) (xs s : List Scalar) → has x (insert_each xs s) ≡ (has x xs || has x s)
unfolding insert_each has
has-insert_each x [] s = refl
has-insert_each x (y ∷ ys) s = ground (arith, has-insert_each x ys (insert y s), has-insert x y s)

has-erase_each :
    (x : Scalar) (xs s : List Scalar) → has x (erase_each xs s) ≡ (not (has x xs) && has x s)
unfolding erase_each has
has-erase_each x [] s = refl
has-erase_each x (y ∷ ys) s = ground (arith, has-erase_each x ys (erase y s), has-erase x y s)

insert_each-IsSorted : (xs s : List Scalar) → IsSorted s → IsSorted (insert_each xs s)
unfolding insert_each
insert_each-IsSorted [] s h = h
insert_each-IsSorted (x ∷ xs) s h = insert_each-IsSorted xs _ (insert-IsSorted x s h)

erase_each-IsSorted : (xs s : List Scalar) → IsSorted s → IsSorted (erase_each xs s)
unfolding erase_each
erase_each-IsSorted [] s h = h
erase_each-IsSorted (x ∷ xs) s h = erase_each-IsSorted xs _ (erase-IsSorted x s h)

-- `added` holds what only the new set has.
pub has-added :
    (x : Scalar) (old new : List Scalar)
    → IsSorted old
    → IsSorted new
    → has x (set_diff old new).added ≡ (has x new && not (has x old))
unfolding set_diff has
has-added x [] [] ho hn = refl
has-added x [] (n ∷ new) ho hn = ground (arith, has-added x [] new)
has-added x (o ∷ old) [] ho hn = ground (arith, has-added x old [])
has-added x (o ∷ old) (n ∷ new) ho hn = elim (Ordering-cases (compare_scalar n o)) [
  | inl c ↦ ground (arith, has-added x (o ∷ old) new, eq_of_compare_scalar x n, has_below n o old)
  | inr (inl c) ↦ ground (
    arith,
    has-added x old new,
    eq_of_compare_scalar n o,
    eq_of_compare_scalar x n,
    has-Above n new,
  )
  | inr (inr c) ↦ ground (
    arith,
    has-added x old (n ∷ new),
    eq_of_compare_scalar x o,
    compare_scalar_swap_gt n o,
    has_below o n new,
  )
]

-- `removed` holds what only the old set has.
pub has-removed :
    (x : Scalar) (old new : List Scalar)
    → IsSorted old
    → IsSorted new
    → has x (set_diff old new).removed ≡ (has x old && not (has x new))
unfolding set_diff has
has-removed x [] [] ho hn = refl
has-removed x [] (n ∷ new) ho hn = ground (arith, has-removed x [] new)
has-removed x (o ∷ old) [] ho hn = ground (arith, has-removed x old [])
has-removed x (o ∷ old) (n ∷ new) ho hn = elim (Ordering-cases (compare_scalar n o)) [
  | inl c ↦ ground (arith, has-removed x (o ∷ old) new, eq_of_compare_scalar x n, has_below n o old)
  | inr (inl c) ↦ ground (
    arith,
    has-removed x old new,
    eq_of_compare_scalar n o,
    eq_of_compare_scalar x n,
    has-Above n old,
    has-Above n new,
  )
  | inr (inr c) ↦ ground (
    arith,
    has-removed x old (n ∷ new),
    eq_of_compare_scalar x o,
    compare_scalar_swap_gt n o,
    has_below o n new,
  )
]

replayed-has :
    (x : Scalar) (old new : List Scalar)
    → IsSorted old
    → IsSorted new
    → has x (erase_each (set_diff old new).removed (insert_each (set_diff old new).added old))
      ≡ has x new
replayed-has x old new ho hn = ground (
  arith,
  has-erase_each x (set_diff old new).removed (insert_each (set_diff old new).added old),
  has-insert_each x (set_diff old new).added old,
  has-added x old new,
  has-removed x old new,
)

replayed :
    (old new : List Scalar)
    → IsSorted old
    → IsSorted new
    → erase_each (set_diff old new).removed (insert_each (set_diff old new).added old) ≡ new
replayed old new ho hn =
    eq_of_has _ new (erase_each-IsSorted _ _ (insert_each-IsSorted _ old ho)) hn
      (λ x. replayed-has x old new ho hn)

module _ (get_int : ℕ → Option ℤ) where
  insert_all-bt_scalars :
      (xs s : List Scalar) → insert_all get_int (bt_scalars xs) s ≡ ok (insert_each xs s)
  unfolding insert_all bt_scalars insert_each
  insert_all-bt_scalars [] s = refl
  insert_all-bt_scalars (x ∷ xs) s =
      rw (get_bt_scalar-bt_scalar get_int x) (insert_all-bt_scalars xs (insert x s))

  erase_all-bt_scalars :
      (xs s : List Scalar) → erase_all get_int (bt_scalars xs) s ≡ ok (erase_each xs s)
  unfolding erase_all bt_scalars erase_each
  erase_all-bt_scalars [] s = refl
  erase_all-bt_scalars (x ∷ xs) s =
      rw (get_bt_scalar-bt_scalar get_int x) (erase_all-bt_scalars xs (erase x s))

  -- What a set diff does, applied to the old set.
  pub apply_set_diff-bt_of_set_diff :
      (old new : List Scalar)
      → IsSorted old
      → IsSorted new
      → apply_set_diff get_int (bt_of_set_diff (set_diff old new)) old ≡ ok new
  unfolding apply_set_diff bt_of_set_diff erase_second
  apply_set_diff-bt_of_set_diff old new ho hn =
      rw (insert_all-bt_scalars (set_diff old new).added old)
        (erase_all-bt_scalars (set_diff old new).removed _ ∙ ap ok (replayed old new ho hn))

empty→nil {ℓ} : {A : Type ℓ} (xs : List A) → empty xs ≡ true → xs ≡ []
empty→nil [] h = refl
empty→nil (x ∷ xs) h = ground arith

-- No set diff means that the sets are equal.
pub eq_of_diff_set :
    (old new : List Scalar) → IsSorted old → IsSorted new → diff_set old new ≡ none → old ≡ new
unfolding diff_set erase_each insert_each
eq_of_diff_set old new ho hn h = same_sets
  where
    no_added : (set_diff old new).added ≡ []
    no_added = empty→nil _ (ground arith)

    no_removed : (set_diff old new).removed ≡ []
    no_removed = empty→nil _ (ground arith)

    same_sets : old ≡ new
    same_sets = rw (no_added, no_removed) at (replayed old new ho hn)
