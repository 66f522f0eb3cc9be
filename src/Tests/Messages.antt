-- ===== src/Tests/Messages.antt =====
-- Parsing, loading diffs and merging messages, at concrete inputs.
use libbchat_util.Base.{ℕ, ◌≡◌, ◌≢◌, refl, none, some, [], ◌∷◌, ◌++◌, false, arith}
use libbchat_util.Base.Order.{pos, Bytes, compare_bytes, compare_pair}
use libbchat_util.Base.Int.{◌+ℤ◌, leb_ℤ}
use libbchat_util.Config.Scalar.{int}
use libbchat_util.Config.Result.{Result, ok, threw, invalid_set_added}
use libbchat_util.Config.Dict
use libbchat_util.Config.Dict.{Dict, set, IsOrdered, IsPruned}
use libbchat_util.Config.Bt.{BtValue, BtList, BtDict, text, signed, get_bt_scalar}
use libbchat_util.Config.Codec.{serialize_dict, parse_data, check_key}
use libbchat_util.Config.Codec.Laws.{parse_data-serialize_dict, parse_data_sound}
use libbchat_util.Config.Load.{load_diff, check_mode}
use libbchat_util.Config.Load.Ends.{rounds, load_diff_ends, load_diff-Stalls, after_dict, at_signed}
use libbchat_util.Config.Load.Accepted.{load_diff_unchecked, adds_one}
use libbchat_util.Config.Apply.{apply_diff}
use libbchat_util.Config.Message.{
  Message, seqno, survivors, mark_all, adopt, from_parsed, increment_impl, includes,
}
use libbchat_util.Config.Message.Redundant.{survivors_ne_nil}
use libbchat_util.Config.Message.Index.{Outcome, from_parsed-Outcome}
use libbchat_util.Config.Message.Increment.{increment_impl_lem}
use libbchat_util.Tests.Config.{get_int, old, old-new}

parse_data-serialize_dict_example : parse_data get_int (serialize_dict old) ≡ ok old
parse_data-serialize_dict_example =
    parse_data-serialize_dict get_int old old-new.old_ordered old-new.old_pruned

parse_data_sound_example : IsOrdered old × IsPruned old
parse_data_sound_example =
    parse_data_sound get_int (serialize_dict old) old parse_data-serialize_dict_example

-- {"a": "", "b": {"x": "-"}}
abbrev small : BtDict
small = BtDict.entry (b'a' ∷ []) (text []) (
    BtDict.entry (b'b' ∷ []) (BtValue.dict (BtDict.entry (b'x' ∷ []) (text (b'-' ∷ [])) BtDict.end))
      BtDict.end)

small_loads : load_diff get_int 5 none small ≡ some (ok small)
unfolding load_diff check_key compare_bytes
small_loads = refl

load_diff_ends_example : (r : Result BtDict) × (load_diff get_int 5 none small ≡ some r)
load_diff_ends_example =
    load_diff_ends get_int 5 none small (unfold rounds in omega arith)
      (unfold rounds in omega arith)

abbrev accepted : BtDict
accepted = BtDict.entry (b'x' ∷ []) (text (b'-' ∷ [])) BtDict.end

-- {"a": {"x": "-"}, "b": 7}
abbrev endless : BtDict
endless =
    BtDict.entry (b'a' ∷ []) (BtValue.dict accepted)
      (BtDict.entry (b'b' ∷ []) (signed (pos 7)) BtDict.end)

load_diff-Stalls_example : load_diff get_int 1000 none endless ≡ none
unfolding load_diff check_key check_mode compare_bytes
load_diff-Stalls_example = load_diff-Stalls get_int 1000 none endless (
    after_dict none (b'a' ∷ []) 2 accepted accepted _ refl refl
      (at_signed (some (b'a' ∷ [])) (b'b' ∷ []) (pos 7) BtDict.end refl))

load_diff_unchecked_example :
    (load_diff get_int 2 none (adds_one get_int (b's' ∷ []) (BtValue.list BtList.nil))
      ≡ some (ok (adds_one get_int (b's' ∷ []) (BtValue.list BtList.nil))))
    × (apply_diff get_int Dict.nil
          (adds_one get_int (b's' ∷ []) (BtValue.list BtList.nil))
          (Dict.entry (b's' ∷ []) (set (int (pos 1) ∷ [])) Dict.nil)
        ≡ threw invalid_set_added)
unfolding get_bt_scalar Dict.find compare_bytes
load_diff_unchecked_example =
    load_diff_unchecked get_int (b's' ∷ []) (BtValue.list BtList.nil) Dict.nil
      (Dict.entry (b's' ∷ []) (set (int (pos 1) ∷ [])) Dict.nil) (int (pos 1) ∷ []) refl refl

abbrev message : ℕ → ℕ → Message
message n h = record {
  key = (pos n, h ∷ []);
  data_ = old;
  diff = small;
  lagged = [];
  has_verifier = false;
  has_signer = false;
  lag = pos 5;
  unmerged = none;
}

-- 7 has replaced 6.
abbrev newer : Message
newer = record (message 7 1) { lagged = ((pos 6, 2 ∷ []), small) ∷ [] }

abbrev digest : Message → Bytes
digest m = 9 ∷ []

survivors_ne_nil_example : survivors 0 (mark_all (pos 5) (message 6 2 ∷ newer ∷ [])) ≢ []
unfolding compare_pair ◌+ℤ◌
survivors_ne_nil_example =
    survivors_ne_nil (pos 5) (message 6 2) (newer ∷ []) (omega arith) (tt, ((refl, tt), tt))
      ((omega arith, omega arith), ((omega arith, omega arith), tt))

from_parsed_runs :
    from_parsed get_int digest false false (pos 5) (message 6 2 ∷ newer ∷ [])
    ≡ ok (adopt (1, newer))
unfolding from_parsed compare_bytes compare_pair includes leb_ℤ ◌+ℤ◌
from_parsed_runs = refl

from_parsed-Outcome_example : Outcome get_int digest (message 6 2 ∷ newer ∷ []) (adopt (1, newer))
from_parsed-Outcome_example =
    from_parsed-Outcome get_int digest false false (pos 5) (message 6 2 ∷ newer ∷ [])
      (adopt (1, newer)) ((omega arith, omega arith), ((omega arith, omega arith), tt))
      from_parsed_runs

increment_impl_lem_example :
    ((increment_impl newer).message.lagged ≡ newer.lagged ++ (newer.key, newer.diff) ∷ [])
    × (seqno (increment_impl newer).message ≡ seqno newer +ℤ pos 1)
    × ((increment_impl newer).message.data_ ≡ newer.data_)
    × ((increment_impl newer).orig_data ≡ newer.data_)
unfolding compare_pair ◌+ℤ◌
increment_impl_lem_example = increment_impl_lem newer (refl, tt) (omega arith)
