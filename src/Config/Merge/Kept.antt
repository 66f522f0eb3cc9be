-- ===== src/Config/Merge/Kept.antt =====
-- What a merge keeps of a config: its invariant, and the hashes of messages in the storage.
use libbchat_util.Base.{
  ℕ, ◌≡◌, refl, subst, Option, none, some, List, [], ◌∷◌, Bool, true, false, ◌||◌, empty, get_elem?,
  arith, inl, inr, Bool-cases,
}
use libbchat_util.Base.Order.{Bytes, bytes_order}
use libbchat_util.Base.SortedSet.{has}
use libbchat_util.Config.Bt.{BtList}
use libbchat_util.Config.Multipart.{Multiparts}
use libbchat_util.Config.Store.{is_dirty, Config, with_hashes}
use libbchat_util.Config.Store.Cycle.{IsValid, has-with_hashes}
use libbchat_util.Config.Merge.{
  Incoming, Gathered, Built, super_hashes, same_list, same_set, is_super, is_bad, adopt, Merged,
  with_old, conclude, finish_merge, unchanged, gather, merge_gathered, merge,
}
use libbchat_util.Config.Merge.Follows.{
  nonempty, knows, Follows-adopt, mark_obsolete-keeps, mark_obsolete-adds,
}

same_list-has : (h : Bytes) (a b : List Bytes) → same_list a b ≡ true → has h a ≡ has h b
unfolding has
same_list-has h [] [] e = refl
same_list-has h [] (y ∷ ys) e = cc e
same_list-has h (x ∷ xs) [] e = cc e
same_list-has h (x ∷ xs) (y ∷ ys) e =
    ground (arith, same_list-has h xs ys, bytes_order.eq_of_cmp x y)

-- Two lists of which one has a hash that the other has not.
same_set-differs :
    (h : Bytes) (a b : List Bytes) → has h a ≡ false → has h b ≡ true → same_set a b ≡ false
unfolding same_set has
same_set-differs h a b p q = ground (
  arith,
  same_list-has h (with_hashes a []) (with_hashes b []),
  has-with_hashes h a [],
  has-with_hashes h b [],
)

empty_of_has : (h : Bytes) (hs : List Bytes) → has h hs ≡ true → empty hs ≡ false
unfolding has
empty_of_has h [] e = cc e
empty_of_has h (x ∷ xs) e = refl

pub with_old-IsValid :
    (b : Built) (g : Gathered) (c : Config) → IsValid c → IsValid (with_old b g c)
with_old-IsValid b g c v = record {
  known = v.known;
  changeable = v.changeable;
  allowed = v.allowed;
}

knows-with_old :
    (b : Built) (g : Gathered) (c : Config) (h : Bytes)
    → knows c h ≡ true
    → knows (with_old b g c) h ≡ true
knows-with_old b g c h e =
    let old =
      mark_obsolete-keeps b (super_hashes b.unmerged g.all_hashes) 0 g.all_hashes c.old_hashes h in
    elim (Bool-cases (has h c.old_hashes)) [ inl o ↦ ground (arith, old o) | inr o ↦ ground arith ]

dumped-IsValid : (x : Bool) (d : Config) → IsValid d → IsValid (record d { needs_dump = x })
dumped-IsValid x d v = record { known = v.known; changeable = v.changeable; allowed = v.allowed }

some_merged : {a b : Merged} → some a ≡ some b → a ≡ b
some_merged h = cc h

-- What is true of the config that a merge leaves: its invariant, and that no hash is forgotten.
pub record Kept (c : Config) (r : Merged) : Type 0 where
  pub valid : IsValid r.config
  pub keeps : (h : Bytes) → knows c h ≡ true → knows r.config h ≡ true

Kept-conclude :
    (c : Config) (now : ℕ) (g : Gathered) (b : Built) (o : Option Config) (r : Merged)
    → IsValid c
    → adopt b g.all_hashes (with_old b g c) ≡ o
    → conclude c now g b o ≡ some r
    → Kept c r
Kept-conclude c now g b none r v a h = cc h
Kept-conclude c now g b (some d) r v a h =
    let f = Follows-adopt b g.all_hashes (with_old b g c) d (with_old-IsValid b g c v) a in
    subst (Kept c) (some_merged h) (record {
      valid = dumped-IsValid (g.needs_dump || d.needs_dump) d f.valid;
      keeps = λ x m. f.keeps x (knows-with_old b g c x m);
    })

Kept-finish_merge :
    (c : Config) (now : ℕ) (g : Gathered) (o : Option Built) (r : Merged)
    → IsValid c
    → finish_merge c now g o ≡ some r
    → Kept c r
Kept-finish_merge c now g none r v h = cc h
Kept-finish_merge c now g (some b) r v h =
    Kept-conclude c now g b (adopt b g.all_hashes (with_old b g c)) r v refl h

old-conclude :
    (c : Config) (now : ℕ) (g : Gathered) (b : Built) (o : Option Config) (r : Merged) (x : Bytes)
    → IsValid c
    → adopt b g.all_hashes (with_old b g c) ≡ o
    → conclude c now g b o ≡ some r
    → has x (with_old b g c).old_hashes ≡ true
    → has x r.config.old_hashes ≡ true
old-conclude c now g b none r x v a h m = cc h
old-conclude c now g b (some d) r x v a h m =
    let f = Follows-adopt b g.all_hashes (with_old b g c) d (with_old-IsValid b g c v) a in
    subst (λ y. has x y.config.old_hashes ≡ true) (some_merged h) (f.old x m)

old-finish_merge :
    (c : Config) (now : ℕ) (g : Gathered) (b : Built) (r : Merged)
    → IsValid c
    → (x : Bytes) → finish_merge c now g (some b) ≡ some r
    → has x (with_old b g c).old_hashes ≡ true
    → has x r.config.old_hashes ≡ true
old-finish_merge c now g b r v x h m =
    old-conclude c now g b (adopt b g.all_hashes (with_old b g c)) r x v refl h m

Kept-unchanged : (c : Config) (now : ℕ) (g : Gathered) → IsValid c → Kept c (unchanged c now g)
Kept-unchanged c now g v = record {
  valid = dumped-IsValid (g.needs_dump || c.needs_dump) c v;
  keeps = λ h e. e;
}

module _ (build : Bool → List Bytes → Option Built) (now : ℕ) (g : Gathered) (c : Config)
    (r : Merged) (h : merge_gathered build now c g ≡ some r) where
  Kept-merge_gathered : IsValid c → Kept c r
  unfolding merge_gathered
  Kept-merge_gathered v = elim (Bool-cases (empty g.all_hashes)) [
    | inl e ↦ subst (Kept c) (some_merged (rw (e, merge_gathered) at h)) (Kept-unchanged c now g v)
    | inr e ↦
        Kept-finish_merge c now g (build (is_dirty c.state) g.all_confs) r v
          (rw (e, merge_gathered) at h)
  ]

  -- A message at another index than the reported one, that parses, is obsolete, at each of its hashes
  -- that is not one at the reported index.
  pub merge_gathered-old_hashes :
      (b : Built) (k : ℕ) (hs : List Bytes) (x : Bytes)
      → IsValid c
      → build (is_dirty c.state) g.all_confs ≡ some b
      → get_elem? g.all_hashes k ≡ some hs
      → is_super k b.unmerged ≡ false
      → is_bad k b.bad_confs ≡ false
      → has x hs ≡ true
      → has x (super_hashes b.unmerged g.all_hashes) ≡ false
      → has x r.config.old_hashes ≡ true
  unfolding merge_gathered
  merge_gathered-old_hashes b k hs x v e at_k not_super not_bad m other =
      old-finish_merge c now g b r v x
        (rw (nonempty g.all_hashes k hs at_k, e, merge_gathered) at h)
        (mark_obsolete-adds b (super_hashes b.unmerged g.all_hashes) 0 k g.all_hashes c.old_hashes
          hs x at_k
          (ground (
            arith,
            same_set-differs x (super_hashes b.unmerged g.all_hashes) hs,
            empty_of_has x hs,
          ))
          m)

module _ (decrypt : Bytes → Bytes → Option Bytes) (hash : Bytes → Bytes)
    (decompress : Bytes → Option Bytes) (bt_list : Bytes → BtList)
    (build : Bool → List Bytes → Option Built) (now : ℕ) (mine : Bytes)
    (configs : List Incoming) where
  -- A merge that returns keeps the invariant, and every hash that the config knew of, current or
  -- obsolete, it knows of afterwards.
  pub merge-Kept :
      (c : Config) (m : Multiparts) (r : Merged)
      → IsValid c
      → merge decrypt hash decompress bt_list build now mine configs c m ≡ some r
      → Kept c r
  unfolding merge
  merge-Kept c m r v h =
      let g = gather decrypt hash decompress bt_list now mine configs c m in
      elim (Bool-cases (empty c.keys)) [
        | inl k ↦ cc (rw (k, merge) at h)
        | inr k ↦ Kept-merge_gathered build now g c r (rw (k, merge) at h) v
      ]

  -- When a merge returns, for what the constructor gives: each hash of a message whose index is
  -- neither the one that it reports nor one that does not parse, and that is not a hash at the
  -- reported index, is among the obsolete hashes.
  pub merge-old_hashes :
      (c : Config) (m : Multiparts) (r : Merged) (b : Built) (k : ℕ) (hs : List Bytes) (x : Bytes)
      → IsValid c
      → merge decrypt hash decompress bt_list build now mine configs c m ≡ some r
      → (build
            (is_dirty c.state)
            (gather decrypt hash decompress bt_list now mine configs c m).all_confs
          ≡ some b)
      → (get_elem? (gather decrypt hash decompress bt_list now mine configs c m).all_hashes k
          ≡ some hs)
      → is_super k b.unmerged ≡ false
      → is_bad k b.bad_confs ≡ false
      → has x hs ≡ true
      → (has x (
            super_hashes b.unmerged
              (gather decrypt hash decompress bt_list now mine configs c m).all_hashes)
          ≡ false)
      → has x r.config.old_hashes ≡ true
  unfolding merge
  merge-old_hashes c m r b k hs x v h e at_k not_super not_bad in_hs other =
      let g = gather decrypt hash decompress bt_list now mine configs c m in
      elim (Bool-cases (empty c.keys)) [
        | inl n ↦ cc (rw (n, merge) at h)
        | inr n ↦
            merge_gathered-old_hashes build now g c r (rw (n, merge) at h) b k hs x v e at_k
              not_super not_bad in_hs other
      ]
