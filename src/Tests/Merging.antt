-- ===== src/Tests/Merging.antt =====
-- The merging of two dicts with a key in common.
use libbchat_util.Base.{ℕ, ◌≡◌, refl, List, [], ◌∷◌}
use libbchat_util.Base.Order.{Bytes, compare_bytes}
use libbchat_util.BtMerge.{merge, merge_loop, merge_sorted, merge_all, merge_once}
use libbchat_util.BtMerge.Dicts.{value_at, or_else, IsOrdered, merge_lem}
use libbchat_util.Base.{ltb, true, false, Bool, ◌||◌, ◌+◌}
use libbchat_util.Base.Order.{nat_order, lt}
use libbchat_util.Base.SortedSet.{has, IsSorted as IsSortedSet}
use libbchat_util.BtMerge.Lists.{count, merge_sorted_lem}

abbrev first : List (Bytes × ℕ)
first = (b'a' ∷ [], 1) ∷ (b'c' ∷ [], 2) ∷ []

abbrev second : List (Bytes × ℕ)
second = (b'b' ∷ [], 3) ∷ (b'c' ∷ [], 4) ∷ []

merged : merge first second ≡ (b'a' ∷ [], 1) ∷ (b'b' ∷ [], 3) ∷ (b'c' ∷ [], 2) ∷ []
unfolding merge merge_loop compare_bytes
merged = refl

twice : merge_sorted ltb (1 ∷ 3 ∷ []) (1 ∷ 2 ∷ []) true ≡ 1 ∷ 1 ∷ 2 ∷ 3 ∷ []
unfolding merge_sorted merge_all
twice = refl

once : merge_sorted ltb (1 ∷ 3 ∷ []) (1 ∷ 2 ∷ []) false ≡ 1 ∷ 2 ∷ 3 ∷ []
unfolding merge_sorted merge_once
once = refl

first-IsOrdered : IsOrdered first
unfolding compare_bytes
first-IsOrdered = ((refl, tt), (tt, tt))

second-IsOrdered : IsOrdered second
unfolding compare_bytes
second-IsOrdered = ((refl, tt), (tt, tt))

merge_lem_example :
    IsOrdered (merge first second)
    × ((k : Bytes)
        → value_at k (merge first second) ≡ or_else (value_at k first) (value_at k second))
merge_lem_example = merge_lem first second first-IsOrdered second-IsOrdered

abbrev odds : List ℕ
odds = 1 ∷ 3 ∷ []

abbrev smalls : List ℕ
smalls = 1 ∷ 2 ∷ []

merge_sorted_lem_example :
    IsSortedSet {K = ℕ} (merge_sorted lt odds smalls false)
    × ((k : ℕ) → has k (merge_sorted lt odds smalls false) ≡ (has k odds || has k smalls))
    × ((t : ℕ → Bool) → count t (merge_sorted lt odds smalls true) ≡ count t odds + count t smalls)
merge_sorted_lem_example =
    merge_sorted_lem odds smalls ((refl, tt), (tt, tt)) ((refl, tt), (tt, tt))
