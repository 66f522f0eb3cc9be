-- ===== src/Tests/Merges.antt =====
-- A merge of two messages into a stored config, of which one parses.
use libbchat_util.Base.{
  ℕ, ◌≡◌, refl, Option, none, some, List, [], ◌∷◌, Bool, true, false, ◌==◌, if◌then◌else◌, map,
  arith,
}
use libbchat_util.Base.Order.{ℤ, pos, Bytes, bytes_order, compare_bytes, compare_pair}
use libbchat_util.Base.SortedSet.{has, insert, erase}
use libbchat_util.Base.Int.{leb_ℤ, ◌+ℤ◌}
use libbchat_util.Config.Dict.{Dict}
use libbchat_util.Config.Bt.{BtDict, BtList, nil}
use libbchat_util.Config.Message.{Message, from_configs, includes}
use libbchat_util.Config.Message.{adopt as adopt_message}
use libbchat_util.Config.Message.Index.{Outcome}
use libbchat_util.Config.Merge.Construct.Obsolete.{merge-obsolete}
use libbchat_util.Config.Result.{ok}
use libbchat_util.Config.Multipart.{remove_padding, expire_multiparts}
use libbchat_util.Config.Store.{Config, state_clean, with_hashes, retire}
use libbchat_util.Config.Store.Cycle.{IsValid}
use libbchat_util.Config.Merge.{
  Incoming, Gathered, Built, Merged, merge, gather, read_all, read_plain, plaintexts, mark_obsolete,
  same_set, adopt, erase_bad, erase_all, merge_gathered,
}
use libbchat_util.Config.Merge.Kept.{Kept, merge-Kept}
use libbchat_util.Config.Merge.Good.{merge-bad_confs}
use libbchat_util.Config.Merge.Construct.{make_config_message}
use libbchat_util.Config.Merge.Construct.Taken.{Taken, merge-Taken}
use libbchat_util.Config.Merge.Construct.Misplaced.{merge-misplaced}

abbrev clear_text : Bytes → Bytes → Option Bytes
clear_text x key = some x

abbrev same_bytes : Bytes → Bytes
same_bytes x = x

abbrev not_compressed : Bytes → Option Bytes
not_compressed x = none

abbrev no_list : Bytes → BtList
no_list x = nil

-- The second message is taken over, the third does not parse.
abbrev second_taken : Bool → List Bytes → Option Built
second_taken dirty confs = some (record { seqno = pos 5; unmerged = some 1; bad_confs = 2 ∷ [] })

abbrev at_home : Config
at_home = record {
  state = state_clean;
  seqno = pos 4;
  is_mutable = false;
  readonly = false;
  curr_hashes = (b'h' ∷ []) ∷ [];
  old_hashes = (b'o' ∷ []) ∷ [];
  keys = (1 ∷ []) ∷ [];
  needs_dump = false;
}

at_home-IsValid : IsValid at_home
at_home-IsValid = record { known = λ h. cc h; changeable = λ h. cc h; allowed = λ _. refl }

abbrev two_messages : List Incoming
two_messages = (b'x' ∷ [], 0 ∷ 0 ∷ b'd' ∷ []) ∷ (b'y' ∷ [], b'd' ∷ 1 ∷ []) ∷ []

abbrev with_second : Merged
with_second = record {
  config = record at_home {
    seqno = pos 5;
    curr_hashes = (b'x' ∷ []) ∷ [];
    old_hashes = (b'h' ∷ []) ∷ (b'o' ∷ []) ∷ [];
    needs_dump = true;
  };
  multiparts = [];
  good_hashes = (b'x' ∷ []) ∷ [];
}

merges :
    merge clear_text same_bytes not_compressed no_list second_taken 7
      (b'd' ∷ [])
      two_messages
      at_home
      []
    ≡ some with_second
unfolding remove_padding merge merge_gathered gather read_all read_plain plaintexts mark_obsolete
    same_set adopt erase_bad erase_all with_hashes retire insert erase compare_bytes
    expire_multiparts has
merges = refl

merge-Kept_example : Kept at_home with_second
merge-Kept_example =
    merge-Kept clear_text same_bytes not_compressed no_list second_taken 7 (b'd' ∷ []) two_messages
      at_home [] with_second at_home-IsValid merges

merge-bad_confs_example : has (b'y' ∷ []) with_second.good_hashes ≡ false
unfolding gather read_all read_plain plaintexts remove_padding has compare_bytes
merge-bad_confs_example =
    merge-bad_confs clear_text same_bytes not_compressed no_list second_taken 7 (b'd' ∷ [])
      two_messages at_home [] with_second merges (b'y' ∷ [])
      (record { seqno = pos 5; unmerged = some 1; bad_confs = 2 ∷ [] }) 2 ((b'y' ∷ []) ∷ []) refl
      refl refl refl refl

-- Messages as the constructor reads them: `d` stands for one that parses.
abbrev plain_message : Message
plain_message = record {
  key = (pos 7, 9 ∷ []);
  data_ = Dict.nil;
  diff = BtDict.end;
  lagged = [];
  has_verifier = false;
  has_signer = false;
  lag = pos 5;
  unmerged = none;
}

abbrev own_message : Message
own_message = record plain_message { key = (pos 4, 8 ∷ []) }

-- It includes the own one.
abbrev newer_message : Message
newer_message = record plain_message { lagged = ((pos 4, 8 ∷ []), BtDict.end) ∷ [] }

-- `d` alone is the own message.
abbrev if_plain : Bytes → Option Message
if_plain [] = none
if_plain (b ∷ []) = if b == b'd' then some own_message else none
if_plain (b ∷ c ∷ bs) = if b == b'd' then some newer_message else none

abbrev no_hash : Message → Bytes
no_hash m = []

abbrev no_int : ℕ → Option ℤ
no_int n = none

-- One message, and one behind the own one and another that does not parse.
abbrev gathered_one : Gathered
gathered_one = record {
  all_hashes = ((b'x' ∷ []) ∷ []) ∷ [];
  all_confs = (b'd' ∷ 1 ∷ []) ∷ [];
  good_hashes = (b'x' ∷ []) ∷ [];
  multiparts = [];
  needs_dump = false;
}

abbrev gathered_two : Gathered
gathered_two = record {
  all_hashes = ((b'h' ∷ []) ∷ []) ∷ ((b'w' ∷ []) ∷ []) ∷ ((b'x' ∷ []) ∷ []) ∷ [];
  all_confs = (b'd' ∷ []) ∷ (b'e' ∷ []) ∷ (b'd' ∷ 1 ∷ []) ∷ [];
  good_hashes = (b'w' ∷ []) ∷ (b'x' ∷ []) ∷ [];
  multiparts = [];
  needs_dump = false;
}

merge-misplaced_example :
    (r : Merged) × (merge_gathered
        (make_config_message no_int no_hash if_plain true false false (pos 5))
        7
        at_home
        gathered_two
      ≡ some r)
    × (r.config.state ≡ state_clean)
    × (r.config.seqno ≡ pos 7)
    × (r.config.curr_hashes ≡ with_hashes ((b'w' ∷ []) ∷ []) [])
    × (has (b'x' ∷ []) r.config.old_hashes ≡ true)
unfolding has compare_bytes compare_pair includes ◌+ℤ◌
merge-misplaced_example =
    merge-misplaced no_int no_hash if_plain true false false (pos 5) 7 own_message newer_message 0
      at_home gathered_two ((b'w' ∷ []) ∷ []) ((b'x' ∷ []) ∷ []) (b'x' ∷ []) (omega arith)
      at_home-IsValid refl refl
      (record {
        room = (omega arith, omega arith);
        low = omega arith;
        below = omega arith;
        includes_own = refl;
        not_included = refl;
        other_key = refl;
      })
      refl refl refl refl refl

abbrev with_one : Merged
with_one = record {
  config = record at_home {
    seqno = pos 7;
    curr_hashes = (b'x' ∷ []) ∷ [];
    old_hashes = (b'h' ∷ []) ∷ (b'o' ∷ []) ∷ [];
    needs_dump = true;
  };
  multiparts = [];
  good_hashes = (b'x' ∷ []) ∷ [];
}

takes_one :
    merge_gathered
      (make_config_message no_int no_hash if_plain true false false (pos 5))
      7
      at_home
      gathered_one
    ≡ some with_one
unfolding make_config_message merge_gathered mark_obsolete same_set adopt erase_bad erase_all
    with_hashes retire insert erase compare_bytes expire_multiparts has leb_ℤ ◌+ℤ◌
takes_one = refl

merge-Taken_example : Taken (newer_message ∷ []) gathered_one.all_hashes with_one.config
merge-Taken_example =
    merge-Taken no_int no_hash if_plain true false false (pos 5) 7 at_home gathered_one with_one
      (newer_message ∷ []) at_home-IsValid refl ((omega arith, omega arith), tt) refl takes_one refl

-- The own message again, and one that supersedes it.
abbrev two_good : List Incoming
two_good = (b'x' ∷ [], b'd' ∷ []) ∷ (b'y' ∷ [], b'd' ∷ 1 ∷ []) ∷ []

abbrev three_messages : List Message
three_messages = own_message ∷ own_message ∷ newer_message ∷ []

abbrev with_newer : Merged
with_newer = record {
  config = record at_home {
    seqno = pos 7;
    curr_hashes = (b'y' ∷ []) ∷ [];
    old_hashes = (b'h' ∷ []) ∷ (b'o' ∷ []) ∷ (b'x' ∷ []) ∷ [];
    needs_dump = true;
  };
  multiparts = [];
  good_hashes = (b'x' ∷ []) ∷ (b'y' ∷ []) ∷ [];
}

made :
    from_configs no_int no_hash false false (pos 5) (map some three_messages)
    ≡ ok (adopt_message (2, newer_message))
unfolding from_configs compare_bytes compare_pair includes leb_ℤ ◌+ℤ◌
made = refl

merges_good :
    merge clear_text same_bytes not_compressed no_list
      (make_config_message no_int no_hash if_plain true false false (pos 5))
      7
      (b'd' ∷ [])
      two_good
      at_home
      []
    ≡ some with_newer
unfolding remove_padding merge merge_gathered gather read_all read_plain plaintexts mark_obsolete
    same_set adopt erase_bad erase_all with_hashes retire insert erase compare_bytes
    expire_multiparts has make_config_message from_configs compare_pair includes leb_ℤ ◌+ℤ◌
merges_good = refl

merge-obsolete_example :
    Outcome no_int no_hash three_messages (adopt_message (2, newer_message))
    × (has (b'x' ∷ []) with_newer.config.old_hashes ≡ true)
unfolding gather read_all read_plain plaintexts remove_padding has compare_bytes
merge-obsolete_example =
    merge-obsolete clear_text same_bytes not_compressed no_list no_int no_hash if_plain true false
      false (pos 5) 7 (b'd' ∷ []) two_good at_home [] with_newer three_messages
      (adopt_message (2, newer_message)) 1 ((b'x' ∷ []) ∷ []) (b'x' ∷ []) at_home-IsValid
      merges_good refl
      ((omega arith, omega arith), ((omega arith, omega arith), ((omega arith, omega arith), tt)))
      made refl refl refl refl
