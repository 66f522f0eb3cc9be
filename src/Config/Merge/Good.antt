-- ===== src/Config/Merge/Good.antt =====
-- The hashes that a merge returns: those of the messages that could be read, less those of the
-- messages that do not parse.
use libbchat_util.Base.{
  ℕ, zero, suc, ◌+◌, ◌≡◌, refl, sym, ap, subst, ◌∙◌, Option, none, some, List, [], ◌∷◌, Bool, true,
  false, not, ◌&&◌, ◌||◌, ◌==◌, if◌then◌else◌, empty, length, get_elem?, arith, inl, inr,
  Bool-cases, map,
}
use libbchat_util.Base.Order.{Bytes, same, bytes_order}
use libbchat_util.Base.SortedSet.{has, insert, erase, has-erase, has-insert}
use libbchat_util.Config.Bt.{BtList}
use libbchat_util.Config.Multipart.{
  Multiparts, Handled, handle_multipart, remove_padding, inflate, supported,
}
use libbchat_util.Config.Store.{is_dirty, Config}
use libbchat_util.Config.Merge.{
  Incoming, Gathered, with_completed, with_handled, with_single, read_plain, read_all, plaintexts,
  start_gathering, end_gathering, Built, is_bad, adopt, Merged, erase_all, erase_bad, mine_index,
  has_mine, with_old, conclude, finish_merge, gather, merge_gathered, merge,
}
use libbchat_util.Config.Merge.Follows.{nonempty, plus_zero, shift, some_list, in_both}

has-erase_all :
    (x : Bytes) (hs s : List Bytes) → has x (erase_all hs s) ≡ (not (has x hs) && has x s)
unfolding erase_all has
has-erase_all x [] s = refl
has-erase_all x (h ∷ hs) s = ground (arith, has-erase_all x hs (erase h s), has-erase x h s)

module _ (c : Config) (mine : ℕ) (b : Built) where
  abbrev spoiled : ℕ → Bool
  spoiled i = not (has_mine c && i == mine) && is_bad i b.bad_confs

  erase_bad-shrinks :
      (x : Bytes) (i : ℕ) (all : List (List Bytes)) (good : List Bytes)
      → has x good ≡ false
      → has x (erase_bad c mine b i all good) ≡ false
  unfolding erase_bad
  erase_bad-shrinks x i [] good e = e
  erase_bad-shrinks x i (hs ∷ all) good e =
      erase_bad-shrinks x (suc i) all (if spoiled i then erase_all hs good else good)
        (ground (arith, has-erase_all x hs good))

  erase_bad-erases :
      (x : Bytes) (i k : ℕ) (all : List (List Bytes)) (hs good : List Bytes)
      → get_elem? all k ≡ some hs
      → spoiled (i + k) ≡ true
      → has x hs ≡ true
      → has x (erase_bad c mine b i all good) ≡ false
  unfolding erase_bad
  erase_bad-erases x i k [] hs good e s m = cc e
  erase_bad-erases x i zero (gs ∷ all) hs good e s m =
      let here = subst (λ j. spoiled j ≡ true) (plus_zero i) s in
      erase_bad-shrinks x (suc i) all (if spoiled i then erase_all gs good else good)
        (rw here (ground (arith, has-erase_all x gs good, in_both x gs hs (some_list gs hs e) m)))
  erase_bad-erases x i (suc k) (gs ∷ all) hs good e s m =
      erase_bad-erases x (suc i) k all hs (if spoiled i then erase_all gs good else good) e
        (subst (λ j. spoiled j ≡ true) (shift i k) s) m

with_completed-good :
    (o : Option (List Bytes × Bytes)) (g : Gathered)
    → (with_completed o g).good_hashes ≡ g.good_hashes
with_completed-good none g = refl
with_completed-good (some p) g = refl

good-with_handled :
    (x h : Bytes) (r : Handled) (g : Gathered)
    → has x (with_handled h r g).good_hashes ≡ true
    → (same x h || has x g.good_hashes) ≡ true
good-with_handled x h r g e =
    let f =
      subst (λ s. has x s ≡ true)
        (with_completed-good r.completed (record g {
          good_hashes = if r.accepted then insert h g.good_hashes else g.good_hashes;
          multiparts = r.multiparts;
          needs_dump = r.needs_dump || g.needs_dump;
        }))
        e in
    ground (arith, has-insert x h g.good_hashes, f)

good-with_single :
    (x h : Bytes) (o : Option Bytes) (g : Gathered)
    → has x (with_single h o g).good_hashes ≡ true
    → (same x h || has x g.good_hashes) ≡ true
good-with_single x h none g e = ground arith
good-with_single x h (some conf) g e = ground (arith, has-insert x h g.good_hashes)

module _ (hash : Bytes → Bytes) (decompress : Bytes → Option Bytes) (bt_list : Bytes → BtList)
    (now : ℕ) where
  good-read_plain :
      (x h plain : Bytes) (g : Gathered)
      → has x (read_plain hash decompress bt_list now h plain g).good_hashes ≡ true
      → (same x h || has x g.good_hashes) ≡ true
  unfolding read_plain
  good-read_plain x h [] g e = ground arith
  good-read_plain x h (b ∷ bs) g e = elim (Bool-cases (b == b'm')) [
    | inl t ↦
        good-with_handled x h
          (handle_multipart hash decompress now h (length (b ∷ bs)) (bt_list bs) g.multiparts) g
          (rw (t, read_plain) at e)
    | inr t ↦
        good-with_single x h (supported hash decompress (inflate hash decompress (b ∷ bs))) g
          (rw (t, read_plain) at e)
  ]

  -- What is read is accepted under the hash that it came with.
  good-read_all :
      (x : Bytes) (ps : List Incoming) (g : Gathered)
      → has x (read_all hash decompress bt_list now ps g).good_hashes ≡ true
      → (has x (map (λ p. p.0) ps) || has x g.good_hashes) ≡ true
  unfolding read_all has
  good-read_all x [] g e = e
  good-read_all x ((h, plain) ∷ ps) g e = ground (
    arith,
    good-read_plain x h (remove_padding plain) g,
    good-read_all x ps (read_plain hash decompress bt_list now h (remove_padding plain) g) e,
  )

came-plaintexts :
    (decrypt : Bytes → Bytes → Option Bytes) (keys : List Bytes) (x : Bytes) (cs : List Incoming)
    → has x (map (λ p. p.0) (plaintexts decrypt keys cs)) ≡ true
    → has x (map (λ p. p.0) cs) ≡ true
unfolding plaintexts has
came-plaintexts decrypt keys x [] e = e
came-plaintexts decrypt keys x ((h, conf) ∷ cs) e =
    ground (arith, came-plaintexts decrypt keys x cs)

some_good : {a b : Merged} → some a ≡ some b → a.good_hashes ≡ b.good_hashes
some_good h = cc h

good-start_gathering :
    (x : Bytes) (c : Config) (mine : Bytes) (m : Multiparts)
    → has x (start_gathering c mine m).good_hashes ≡ false
unfolding has
good-start_gathering x c mine m = refl

good-end_gathering :
    (c : Config) (mine : Bytes) (g : Gathered)
    → (end_gathering c mine g).good_hashes ≡ g.good_hashes
good-end_gathering c mine g = ground arith

-- Of what is gathered, those hashes remain that no bad message has.
good-finish_merge :
    (c : Config) (now : ℕ) (g : Gathered) (b : Built) (o : Option Config) (r : Merged) (x : Bytes)
    → conclude c now g b o ≡ some r
    → (has x r.good_hashes
        ≡ has x (erase_bad c (mine_index c g.all_hashes) b 0 g.all_hashes g.good_hashes))
good-finish_merge c now g b none r x h = cc h
good-finish_merge c now g b (some d) r x h = ap (has x) (sym (some_good h))

good-finished :
    (c : Config) (now : ℕ) (g : Gathered) (o : Option Built) (r : Merged) (x : Bytes)
    → finish_merge c now g o ≡ some r
    → has x r.good_hashes ≡ true
    → has x g.good_hashes ≡ true
good-finished c now g none r x h e = cc h
good-finished c now g (some b) r x h e = ground (
  arith,
  good-finish_merge c now g b (adopt b g.all_hashes (with_old b g c)) r x h,
  erase_bad-shrinks c (mine_index c g.all_hashes) b x 0 g.all_hashes g.good_hashes,
)

module _ (build : Bool → List Bytes → Option Built) (now : ℕ) (g : Gathered) (c : Config)
    (r : Merged) (h : merge_gathered build now c g ≡ some r) (x : Bytes) where
  merge_gathered-bad_confs :
      (b : Built) (k : ℕ) (hs : List Bytes)
      → build (is_dirty c.state) g.all_confs ≡ some b
      → get_elem? g.all_hashes k ≡ some hs
      → is_bad k b.bad_confs ≡ true
      → (has_mine c && k == mine_index c g.all_hashes) ≡ false
      → has x hs ≡ true
      → has x r.good_hashes ≡ false
  unfolding merge_gathered
  merge_gathered-bad_confs b k hs e at_k bad not_mine m =
      good-finish_merge c now g b (adopt b g.all_hashes (with_old b g c)) r x
        (rw (nonempty g.all_hashes k hs at_k, e, merge_gathered) at h)
      ∙ erase_bad-erases c (mine_index c g.all_hashes) b x 0 k g.all_hashes hs g.good_hashes at_k
          (ground arith) m

  good-merge_gathered : has x r.good_hashes ≡ true → has x g.good_hashes ≡ true
  unfolding merge_gathered
  good-merge_gathered e = elim (Bool-cases (empty g.all_hashes)) [
    | inl n ↦ cc (some_good (rw (n, merge_gathered) at h), e)
    | inr n ↦
        good-finished c now g (build (is_dirty c.state) g.all_confs) r x
          (rw (n, merge_gathered) at h) e
  ]

module _ (decrypt : Bytes → Bytes → Option Bytes) (hash : Bytes → Bytes)
    (decompress : Bytes → Option Bytes) (bt_list : Bytes → BtList)
    (build : Bool → List Bytes → Option Built) (now : ℕ) (mine : Bytes) (configs : List Incoming)
    (c : Config) (m : Multiparts) (r : Merged)
    (h : merge decrypt hash decompress bt_list build now mine configs c m ≡ some r)
    (x : Bytes) where
  good-gather :
      has x (gather decrypt hash decompress bt_list now mine configs c m).good_hashes ≡ true
      → has x (map (λ p. p.0) configs) ≡ true
  unfolding gather
  good-gather e =
      let start = start_gathering c mine m in
      let ps = plaintexts decrypt c.keys configs in
      let read = read_all hash decompress bt_list now ps start in
      came-plaintexts decrypt c.keys x configs (
        ground (
          arith,
          good-read_all hash decompress bt_list now x ps start,
          good-start_gathering x c mine m,
          ap (has x) (good-end_gathering c mine read),
        ))

  -- Every hash that a merge returns is one that a message came with.
  pub merge-good_hashes : has x r.good_hashes ≡ true → has x (map (λ p. p.0) configs) ≡ true
  unfolding merge
  merge-good_hashes e =
      let g = gather decrypt hash decompress bt_list now mine configs c m in
      elim (Bool-cases (empty c.keys)) [
        | inl n ↦ cc (rw (n, merge) at h)
        | inr n ↦ good-gather (good-merge_gathered build now g c r (rw (n, merge) at h) x e)
      ]

  -- When a merge returns, no hash of a message that the constructor could not parse, other than the
  -- config's own, is among the hashes that it returns.
  pub merge-bad_confs :
      (b : Built) (k : ℕ) (hs : List Bytes)
      → (build
            (is_dirty c.state)
            (gather decrypt hash decompress bt_list now mine configs c m).all_confs
          ≡ some b)
      → (get_elem? (gather decrypt hash decompress bt_list now mine configs c m).all_hashes k
          ≡ some hs)
      → is_bad k b.bad_confs ≡ true
      → ((has_mine c
            && k
              == mine_index c
                  (gather decrypt hash decompress bt_list now mine configs c m).all_hashes)
          ≡ false)
      → has x hs ≡ true
      → has x r.good_hashes ≡ false
  unfolding merge
  merge-bad_confs b k hs e at_k bad not_mine in_hs =
      let g = gather decrypt hash decompress bt_list now mine configs c m in
      elim (Bool-cases (empty c.keys)) [
        | inl n ↦ cc (rw (n, merge) at h)
        | inr n ↦
            merge_gathered-bad_confs build now g c r (rw (n, merge) at h) x b k hs e at_k bad
              not_mine in_hs
      ]
