-- ===== src/Config/Message.antt =====
-- `ConfigMessage` of config.hpp and config.cpp: the state, the merging constructor and
-- `increment_impl`. Parsing and hashing one message are parameters: a message that parses is a
-- `Message`, and `digest` is the hash of its serialization.
pub mod Int64
pub mod Redundant
pub mod Index
pub mod Increment
use libbchat_util.Base.{
  ℕ, zero, suc, ◌+◌, Ordering, Option, none, some, List, [], ◌∷◌, ◌++◌, Bool, true, false, not,
  ◌&&◌, ◌||◌, if◌then◌else◌, empty, replicate,
}
use libbchat_util.Base.Order.{
  ℤ, pos, negsuc, Bytes, Order, int_order, bytes_order, pair_order, compare_pair, same, lt,
}
use libbchat_util.Base.Int.{◌+ℤ◌, leb_ℤ}
use libbchat_util.Config.Result.{Result, ok, threw, ◌>>=◌, Error, no_valid_configs}
use libbchat_util.Config.Dict.{Dict}
use libbchat_util.Config.Bt.{BtDict}
use libbchat_util.Config.Prune.{prune}
use libbchat_util.Config.Apply.{apply_diff}

-- seqno_hash_t
abbrev pub Key : Type 0
Key = ℤ × Bytes

abbrev pub compare_key : Key → Key → Ordering
compare_key = compare_pair

-- The lagged diffs are a `std::map`, in ascending order of the keys. The callables are kept as
-- whether they are set.
pub record Message : Type 0 where
  pub key : Key
  pub data_ : Dict
  pub diff : BtDict
  pub lagged : List (Key × BtDict)
  pub has_verifier : Bool
  pub has_signer : Bool
  pub lag : ℤ
  pub unmerged : Option ℕ

abbrev pub seqno : Message → ℤ
seqno m = m.key.0

-- lagged_diffs_.count(k)
unfoldable pub includes : Key → List (Key × BtDict) → Bool
includes k [] = false
includes k ((j, d) ∷ l) = same k j || includes k l

-- std::map::emplace: what is there already stays.
module _ {ℓ κ} {K : Type ℓ} {V : Type κ} ⦃o : Order K⦄ where
  unfoldable pub emplace : K → V → List (K × V) → List (K × V)
  emplace k v [] = (k, v) ∷ []
  emplace k v ((j, w) ∷ m) = elim (o.cmp k j) [
    | Ordering.lt ↦ (k, v) ∷ (j, w) ∷ m
    | Ordering.eq ↦ (j, w) ∷ m
    | Ordering.gt ↦ (j, w) ∷ emplace k v m
  ]

unfoldable pub any_includes : Key → List Message → Bool
any_includes k [] = false
any_includes k (m ∷ ms) = includes k m.lagged || any_includes k ms

unfoldable pub any_same : Key → List Message → Bool
any_same k [] = false
any_same k (m ∷ ms) = same k m.key || any_same k ms

-- The inner loop over j: `before` are the configs with j < i, `after` those with j > i.
unfoldable pub is_redundant : List Message → Message → List Message → Bool
unfolding any_includes any_same
is_redundant before m after =
    any_includes m.key before || any_same m.key before || any_includes m.key after

unfoldable pub mark_redundant : List Message → List Message → List (Message × Bool)
unfolding is_redundant
mark_redundant before [] = []
mark_redundant before (m ∷ ms) =
    (m, is_redundant before m ms) ∷ mark_redundant (before ++ m ∷ []) ms

-- std::numeric_limits<int64_t>::min()
abbrev pub int64_min : ℤ
int64_min = negsuc 9223372036854775807

-- std::numeric_limits<int64_t>::max()
abbrev pub int64_max : ℤ
int64_max = pos 9223372036854775807

-- a + b of int64_t, which wraps around where it overflows.
abbrev pub wrap_int64 : ℤ → ℤ
wrap_int64 s =
    if leb_ℤ s int64_max
    then (if leb_ℤ int64_min s then s else s +ℤ pos 18446744073709551616)
    else s +ℤ negsuc 18446744073709551615

unfoldable pub add_int64 : ℤ → ℤ → ℤ
add_int64 a b = wrap_int64 (a +ℤ b)

unfoldable pub max_seqno : ℤ → List Message → ℤ
max_seqno best [] = best
max_seqno best (m ∷ ms) = max_seqno (if leb_ℤ (seqno m) best then best else seqno m) ms

unfoldable pub mark_old : ℤ → ℤ → List (Message × Bool) → List (Message × Bool)
unfolding add_int64
mark_old lag top [] = []
mark_old lag top ((m, r) ∷ ms) = (m, r || leb_ℤ (add_int64 (seqno m) lag) top) ∷ mark_old lag top ms

-- Both pruning loops.
unfoldable pub mark_all : ℤ → List Message → List (Message × Bool)
unfolding mark_old mark_redundant max_seqno
mark_all lag ms = mark_old lag (max_seqno int64_min ms) (mark_redundant [] ms)

-- The indices and configs that are left, in order.
unfoldable pub survivors : ℕ → List (Message × Bool) → List (ℕ × Message)
survivors i [] = []
survivors i ((m, r) ∷ ms) = let rest = survivors (i + 1) ms in if r then rest else (i, m) ∷ rest

-- The comparison of `std::max_element`, and its loop: the first of the greatest.
unfoldable pub worse : Message × Bool → Message × Bool → Bool
worse (m, true) (n, false) = true
worse (m, false) (n, true) = false
worse (m, _) (n, _) = lt m.key n.key

unfoldable pub best_of : ℕ → Message × Bool → ℕ → List (Message × Bool) → ℕ × Message
unfolding worse
best_of i b j [] = (i, b.0)
best_of i b j (m ∷ ms) =
    let take = best_of j m (j + 1) ms in
    let keep = best_of i b (j + 1) ms in if worse b m then take else keep

-- std::sort in descending order of the keys.
unfoldable pub insert_descending : Message → List Message → List Message
insert_descending m [] = m ∷ []
insert_descending m (n ∷ ns) = if lt m.key n.key then n ∷ insert_descending m ns else m ∷ n ∷ ns

unfoldable pub sort_descending : List Message → List Message
unfolding insert_descending
sort_descending [] = []
sort_descending (m ∷ ms) = insert_descending m (sort_descending ms)

-- What the replay map holds: a dict to take values from, and a diff.
abbrev pub Replay : Type 0
Replay = List (Key × (Dict × BtDict))

unfoldable pub replay_lagged : Dict → List (Key × BtDict) → Replay → Replay
unfolding emplace
replay_lagged d [] r = r
replay_lagged d ((k, diff) ∷ l) r = replay_lagged d l (emplace k (d, diff) r)

unfoldable pub replay_all : List Message → Replay → Replay
unfolding replay_lagged
replay_all [] r = r
replay_all (m ∷ ms) r =
    replay_all ms (replay_lagged m.data_ m.lagged (emplace m.key (m.data_, m.diff) r))

unfoldable pub lagged_of : Replay → List (Key × BtDict)
lagged_of [] = []
lagged_of ((k, (d, diff)) ∷ r) = (k, diff) ∷ lagged_of r

-- What the merge of sorted configs makes, before it is hashed; the hash is not serialized.
unfoldable pub merged_message : Bool → Bool → ℤ → ℤ → Dict → Replay → Message
unfolding lagged_of add_int64
merged_message verifier signer lag top data_ replay = record {
  key = (add_int64 top (pos 1), []);
  data_ = (prune data_).0;
  diff = BtDict.end;
  lagged = lagged_of replay;
  has_verifier = verifier;
  has_signer = signer;
  lag = lag;
  unmerged = none;
}

abbrev pub adopt : ℕ × Message → Message
adopt (i, m) = record m { unmerged = some i }

abbrev pub messages : List (ℕ × Message) → List Message
messages [] = []
messages ((i, m) ∷ l) = m ∷ messages l

abbrev pub best_index : List (Message × Bool) → Result Message
best_index [] = threw no_valid_configs
best_index (m ∷ ms) = ok (adopt (best_of 0 m 1 ms))

module _ (get_int : ℕ → Option ℤ) (digest : Message → Bytes) where
  unfoldable pub apply_replay : Dict → Replay → Result Dict
  apply_replay data_ [] = ok data_
  apply_replay data_ ((k, (d, diff)) ∷ r) = do
    data' ← apply_diff get_int data_ diff d
    apply_replay data' r

  unfoldable pub with_hash : Message → Message
  with_hash m = record m { key = (seqno m, digest m) }

  -- The merge proper: the front after sorting has the data to start from.
  unfoldable pub merge_sorted : Bool → Bool → ℤ → ℤ → List Message → Result Message
  unfolding apply_replay replay_all merged_message with_hash
  merge_sorted verifier signer lag top [] = threw no_valid_configs
  merge_sorted verifier signer lag top (m ∷ ms) = do
    data_ ← apply_replay m.data_ (replay_all (m ∷ ms) [])
    ok (with_hash (merged_message verifier signer lag top data_ (replay_all (m ∷ ms) [])))

  -- By what the pruning left: nothing is excluded by an assertion, one config is taken as it is, and
  -- several are merged, or the best is taken if the result could not be signed.
  unfoldable pub choose :
      Bool → Bool → ℤ → List Message → List (Message × Bool) → List (ℕ × Message) → Result Message
  unfolding merge_sorted sort_descending max_seqno best_of
  choose verifier signer lag ms marks [] = threw no_valid_configs
  choose verifier signer lag ms marks (m ∷ []) = ok (adopt m)
  choose verifier signer lag ms marks (m ∷ n ∷ l) =
      if verifier && not signer
      then best_index marks
      else merge_sorted verifier signer lag (max_seqno int64_min ms)
          (sort_descending (messages (m ∷ n ∷ l)))

  -- The merging constructor, from the parsed configs.
  unfoldable pub from_parsed : Bool → Bool → ℤ → List Message → Result Message
  unfolding choose mark_all survivors
  from_parsed verifier signer lag ms =
      choose verifier signer lag ms (mark_all lag ms) (survivors 0 (mark_all lag ms))

-- The configs that parse: the error handler skips the others.
unfoldable pub parsed : List (Option Message) → List Message
parsed [] = []
parsed (none ∷ ps) = parsed ps
parsed (some m ∷ ps) = m ∷ parsed ps

module _ (get_int : ℕ → Option ℤ) (digest : Message → Bytes) where
  -- The merging constructor, from the serialized configs as they parse or fail to.
  unfoldable pub from_configs : Bool → Bool → ℤ → List (Option Message) → Result Message
  unfolding parsed from_parsed
  from_configs verifier signer lag ps =
      if empty (parsed ps)
      then threw no_valid_configs
      else from_parsed get_int digest verifier signer lag (parsed ps)

-- The two loops of `increment_impl` over the lagged diffs: those at most `lag` before the number
-- that the message had, from the front, and those not before it, from the back.
unfoldable pub drop_front : ℤ → ℤ → List (Key × BtDict) → List (Key × BtDict)
drop_front seq lag [] = []
drop_front seq lag ((k, d) ∷ l) =
    let rest = drop_front seq lag l in if leb_ℤ (k.0 +ℤ lag) seq then rest else (k, d) ∷ l

unfoldable pub drop_back : ℤ → List (Key × BtDict) → List (Key × BtDict)
drop_back seq [] = []
drop_back seq ((k, d) ∷ l) =
    let rest = drop_back seq l in if empty rest && leb_ℤ seq k.0 then [] else (k, d) ∷ rest

-- MutableConfigMessage: the data that the next diff starts from.
pub record MutableMessage : Type 0 where
  pub message : Message
  pub orig_data : Dict

-- increment_impl
unfoldable pub increment_impl : Message → MutableMessage
unfolding drop_front drop_back emplace
increment_impl m = record {
  message = record m {
    key = (seqno m +ℤ pos 1, replicate 32 0);
    lagged = emplace m.key m.diff (drop_back (seqno m) (drop_front (seqno m) m.lag m.lagged));
    diff = BtDict.end;
  };
  orig_data = m.data_;
}
