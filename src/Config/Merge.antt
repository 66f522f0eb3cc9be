-- ===== src/Config/Merge.antt =====
-- `ConfigBase::_merge` of config/base.cpp: what comes is decrypted, read, joined where it is in
-- parts, and given to the merging constructor together with the config's own message; the outcome
-- is taken over or not, and the hashes of the messages are sorted into current and obsolete ones.
-- `decrypt`, the hash, zstd, the reading of a bt list and the merging constructor are parameters.
-- A call that throws has no result.
pub mod Follows
pub mod Kept
pub mod Good
pub mod Construct
use libbchat_util.Base.{
  ℕ, zero, suc, ◌+◌, ◌-◌, Option, none, some, List, [], ◌∷◌, ◌++◌, Bool, true, false, not, ◌&&◌,
  ◌||◌, ◌==◌, ltb, if◌then◌else◌, empty, length, get_elem?,
}
use libbchat_util.Base.Order.{ℤ, pos, Bytes, same, bytes_order, int_order, compare_bytes}
use libbchat_util.Base.Int.{◌+ℤ◌}
use libbchat_util.Base.SortedSet.{insert, erase}
use libbchat_util.Config.Bt.{BtList}
use libbchat_util.Config.Multipart.{
  Multiparts, Handled, remove_padding, inflate, supported, handle_multipart, expire_multiparts,
}
use libbchat_util.Config.Store.{
  ConfigState, state_clean, state_dirty, is_clean, is_dirty, Config, with_hashes, retire, set_state,
}

-- A message as it comes: its hash in the storage, and its bytes.
abbrev pub Incoming : Type 0
Incoming = Bytes × Bytes

-- The messages to merge, with the hashes that each is stored under; what was accepted; and the parts.
pub record Gathered : Type 0 where
  pub all_hashes : List (List Bytes)
  pub all_confs : List Bytes
  pub good_hashes : List Bytes
  pub multiparts : Multiparts
  pub needs_dump : Bool

abbrev pub with_conf : List Bytes → Bytes → Gathered → Gathered
with_conf hashes conf g = record g {
  all_hashes = g.all_hashes ++ hashes ∷ [];
  all_confs = g.all_confs ++ conf ∷ [];
}

module _ (decrypt : Bytes → Bytes → Option Bytes) where
  -- The keys are tried in turn.
  unfoldable pub decrypt_first : List Bytes → Bytes → Option Bytes
  decrypt_first [] conf = none
  decrypt_first (k ∷ ks) conf =
      let rest = decrypt_first ks conf in
      elim (decrypt conf k) [ none ↦ rest | some plain ↦ some plain ]

  unfoldable pub plaintexts : List Bytes → List Incoming → List Incoming
  unfolding decrypt_first
  plaintexts keys [] = []
  plaintexts keys ((h, conf) ∷ cs) =
      let rest = plaintexts keys cs in
      elim (decrypt_first keys conf) [ none ↦ rest | some plain ↦ (h, plain) ∷ rest ]

-- Whether the config's own message takes part: not if there is nothing in it.
abbrev pub has_mine : Config → Bool
has_mine c = not (same c.seqno (pos 0)) || is_dirty c.state

abbrev pub mine_last : Config → Bool
mine_last c = has_mine c && empty c.curr_hashes

abbrev pub mine_first : Config → Bool
mine_first c = has_mine c && not (empty c.curr_hashes)

abbrev pub start_gathering : Config → Bytes → Multiparts → Gathered
start_gathering c mine m = record {
  all_hashes = if mine_first c then c.curr_hashes ∷ [] else [];
  all_confs = if mine_first c then mine ∷ [] else [];
  good_hashes = [];
  multiparts = m;
  needs_dump = false;
}

abbrev pub end_gathering : Config → Bytes → Gathered → Gathered
end_gathering c mine g = if mine_last c then with_conf c.curr_hashes mine g else g

abbrev pub with_completed : Option (List Bytes × Bytes) → Gathered → Gathered
with_completed none g = g
with_completed (some p) g = with_conf p.0 p.1 g

abbrev pub with_handled : Bytes → Handled → Gathered → Gathered
with_handled h r g = with_completed r.completed (record g {
  good_hashes = if r.accepted then insert h g.good_hashes else g.good_hashes;
  multiparts = r.multiparts;
  needs_dump = r.needs_dump || g.needs_dump;
})

abbrev pub with_single : Bytes → Option Bytes → Gathered → Gathered
with_single h none g = g
with_single h (some conf) g =
    with_conf (h ∷ []) conf (record g { good_hashes = insert h g.good_hashes })

module _ (hash : Bytes → Bytes) (decompress : Bytes → Option Bytes) (bt_list : Bytes → BtList)
    (now : ℕ) where
  -- One message without its padding.
  unfoldable pub read_plain : Bytes → Bytes → Gathered → Gathered
  read_plain h [] g = g
  read_plain h (b ∷ bs) g =
      if b == b'm'
      then with_handled h
          (handle_multipart hash decompress now h (length (b ∷ bs)) (bt_list bs) g.multiparts) g
      else with_single h (supported hash decompress (inflate hash decompress (b ∷ bs))) g

  unfoldable pub read_all : List Incoming → Gathered → Gathered
  unfolding read_plain
  read_all [] g = g
  read_all ((h, plain) ∷ ps) g = read_all ps (read_plain h (remove_padding plain) g)

-- What the merging constructor makes: the number, the index of the only message that was left, if it
-- did not have to merge, and the indices of the messages that do not parse.
pub record Built : Type 0 where
  pub seqno : ℤ
  pub unmerged : Option ℕ
  pub bad_confs : List ℕ

abbrev pub is_bad : ℕ → List ℕ → Bool
is_bad i [] = false
is_bad i (b ∷ bs) = i == b || is_bad i bs

abbrev pub is_super : ℕ → Option ℕ → Bool
is_super i none = false
is_super i (some k) = i == k

abbrev pub hashes_or_none : Option (List Bytes) → List Bytes
hashes_or_none none = []
hashes_or_none (some hs) = hs

-- The hashes of the message that was taken over, if one was.
abbrev pub super_hashes : Option ℕ → List (List Bytes) → List Bytes
super_hashes none all = []
super_hashes (some k) all = hashes_or_none (get_elem? all k)

abbrev pub same_list : List Bytes → List Bytes → Bool
same_list [] [] = true
same_list [] (y ∷ ys) = false
same_list (x ∷ xs) [] = false
same_list (x ∷ xs) (y ∷ ys) = same x y && same_list xs ys

-- Two lists of hashes as unordered sets.
unfoldable pub same_set : List Bytes → List Bytes → Bool
same_set a b = same_list (with_hashes a []) (with_hashes b [])

abbrev pub is_obsolete : Built → List Bytes → ℕ → List Bytes → Bool
is_obsolete b super i hs =
    not (is_super i b.unmerged)
    && (not (is_bad i b.bad_confs) && (not (empty hs) && not (same_set super hs)))

-- The loop over the messages: the obsolete hashes are remembered.
unfoldable pub mark_obsolete : Built → List Bytes → ℕ → List (List Bytes) → List Bytes → List Bytes
mark_obsolete b super i [] old = old
mark_obsolete b super i (hs ∷ all) old =
    mark_obsolete b super (suc i) all (if is_obsolete b super i hs then with_hashes hs old else old)

abbrev pub mine_index : Config → List (List Bytes) → ℕ
mine_index c all = if mine_last c then length all - 1 else 0

abbrev pub superconf_is_mine : Config → Built → List (List Bytes) → Bool
superconf_is_mine c b all = is_super (mine_index c all) b.unmerged

-- A message that is the result of a merge, which has to be pushed.
abbrev pub take_merged : Built → Config → Option Config
take_merged b c = set_state state_dirty (record c { seqno = b.seqno; is_mutable = true })

-- An incoming message that is taken over, with its hashes.
abbrev pub take_incoming : Built → Option (List Bytes) → Config → Option Config
take_incoming b none c = none
take_incoming b (some hs) c =
    some (record (retire (record c { seqno = b.seqno; is_mutable = is_dirty c.state })) {
      state = state_clean;
      needs_dump = true;
      curr_hashes = with_hashes hs [];
    })

abbrev pub take_super : Built → List (List Bytes) → Config → Option Config
take_super b all c = elim b.unmerged [
  | none ↦ take_merged b c
  | some k ↦ take_incoming b (get_elem? all k) c
]

abbrev pub keeps_dirty : Config → Built → List (List Bytes) → Bool
keeps_dirty c b all =
    is_dirty c.state && (superconf_is_mine c b all && same b.seqno (c.seqno +ℤ pos 1))

-- The transition of the config. A dirty config whose own message was left stays as it is: the number
-- of the new one is only raised by its construction.
unfoldable pub adopt : Built → List (List Bytes) → Config → Option Config
adopt b all c = if same b.seqno c.seqno || keeps_dirty c b all then some c else take_super b all c

unfoldable pub erase_all : List Bytes → List Bytes → List Bytes
erase_all [] s = s
erase_all (h ∷ hs) s = erase_all hs (erase h s)

-- The last loop: the hashes of incoming messages that do not parse are not good.
unfoldable pub erase_bad : Config → ℕ → Built → ℕ → List (List Bytes) → List Bytes → List Bytes
unfolding erase_all
erase_bad c mine b i [] good = good
erase_bad c mine b i (hs ∷ all) good =
    erase_bad c mine b (suc i) all
      (if not (has_mine c && i == mine) && is_bad i b.bad_confs then erase_all hs good else good)

-- The config, the parts and the hashes that the call returns.
pub record Merged : Type 0 where
  pub config : Config
  pub multiparts : Multiparts
  pub good_hashes : List Bytes

abbrev pub with_old : Built → Gathered → Config → Config
with_old b g c = record c {
  old_hashes = mark_obsolete b (super_hashes b.unmerged g.all_hashes) 0 g.all_hashes c.old_hashes;
}

abbrev pub conclude : Config → ℕ → Gathered → Built → Option Config → Option Merged
conclude c now g b none = none
conclude c now g b (some d) = some (record {
  config = record d { needs_dump = g.needs_dump || d.needs_dump };
  multiparts = expire_multiparts now g.multiparts;
  good_hashes = erase_bad c (mine_index c g.all_hashes) b 0 g.all_hashes g.good_hashes;
})

abbrev pub finish_merge : Config → ℕ → Gathered → Option Built → Option Merged
finish_merge c now g none = none
finish_merge c now g (some b) = conclude c now g b (adopt b g.all_hashes (with_old b g c))

-- There is nothing to merge.
abbrev pub unchanged : Config → ℕ → Gathered → Merged
unchanged c now g = record {
  config = record c { needs_dump = g.needs_dump || c.needs_dump };
  multiparts = expire_multiparts now g.multiparts;
  good_hashes = g.good_hashes;
}

module _ (decrypt : Bytes → Bytes → Option Bytes) (hash : Bytes → Bytes)
    (decompress : Bytes → Option Bytes) (bt_list : Bytes → BtList) where
  -- Everything that takes part in the merge.
  unfoldable pub gather : ℕ → Bytes → List Incoming → Config → Multiparts → Gathered
  unfolding read_all plaintexts
  gather now mine configs c m = end_gathering c mine (
      read_all hash decompress bt_list now (plaintexts decrypt c.keys configs)
        (start_gathering c mine m))

module _ (build : Bool → List Bytes → Option Built) where
  unfoldable pub merge_gathered : ℕ → Config → Gathered → Option Merged
  merge_gathered now c g =
      if empty g.all_hashes
      then some (unchanged c now g)
      else finish_merge c now g (build (is_dirty c.state) g.all_confs)

module _ (decrypt : Bytes → Bytes → Option Bytes) (hash : Bytes → Bytes)
    (decompress : Bytes → Option Bytes) (bt_list : Bytes → BtList)
    (build : Bool → List Bytes → Option Built) where
  -- `mine` is the config's own message, serialized.
  unfoldable pub merge : ℕ → Bytes → List Incoming → Config → Multiparts → Option Merged
  unfolding merge_gathered
  merge now mine configs c m =
      if empty c.keys
      then none
      else merge_gathered build now c (gather decrypt hash decompress bt_list now mine configs c m)
