-- ===== src/Config/Multipart.antt =====
-- Multipart messages, of config/base.cpp and include/bchat/config/base.hpp: the parts that have
-- come of each message, `_handle_multipart`, `_expire_multiparts`, and the splitting in `push`.
-- Times are milliseconds of the system clock. The hash of a message and the decompression are
-- parameters; a part is a list of the elements of its bt list, and its size in bytes.
pub mod Parts
pub mod Full
pub mod Rejoin
pub mod Split
pub mod Sent
pub mod Sound
use libbchat_util.Base.{
  ℕ, zero, suc, ◌+◌, ◌-◌, ◌/◌, Option, none, some, List, [], ◌∷◌, ◌++◌, Bool, true, false, not,
  ◌&&◌, ◌||◌, ◌==◌, ltb, leb, if◌then◌else◌, empty, length, map, take, drop,
}
use libbchat_util.Base.Order.{Bytes, same, bytes_order}
use libbchat_util.Config.Bt.{BtList, nil, cons, text}

pub record PartialMessage : Type 0 where
  pub index : ℕ
  pub message_id : Bytes
  pub data_ : Bytes

pub record PartialMessages : Type 0 where
  pub done : Bool
  pub size : ℕ
  pub parts : List PartialMessage
  pub expiry : ℕ

-- `_multiparts`, by the hash of the final message.
abbrev pub Multiparts : Type 0
Multiparts = List (Bytes × PartialMessages)

abbrev pub max_message_size : ℕ
max_message_size = 76800

abbrev pub multipart_max_wait : ℕ
multipart_max_wait = 604800000

abbrev pub multipart_max_remember : ℕ
multipart_max_remember = 1209600000

abbrev pub finish : ℕ → PartialMessages → PartialMessages
finish now p = record { done = true; size = 0; parts = []; expiry = now + multipart_max_remember }

-- What the elements of a part say, when they pass the checks.
pub record Part : Type 0 where
  pub final_hash : Bytes
  pub index : ℕ
  pub num_parts : ℕ
  pub data_ : Bytes

abbrev pub checked_part : Bytes → ℕ → ℕ → Bytes → Option Part
checked_part h index num_parts chunk =
    if (length h == 32) && (ltb 1 num_parts && (ltb index num_parts && not (empty chunk)))
    then some (record { final_hash = h; index = index; num_parts = num_parts; data_ = chunk })
    else none

abbrev pub parse_part : ℕ → BtList → Option Part
parse_part message_size
      (cons (text h) (cons (text (index ∷ [])) (cons (text (num ∷ [])) (cons (text chunk) nil)))) =
    if leb message_size max_message_size then checked_part h index num chunk else none
parse_part message_size other = none

-- A default set is made where there is none.
abbrev pub no_parts : PartialMessages
no_parts = record { done = false; size = 0; parts = []; expiry = 0 }

unfoldable pub find : Bytes → Multiparts → PartialMessages
find h [] = no_parts
find h ((k, p) ∷ m) = if same h k then p else find h m

unfoldable pub store : Bytes → PartialMessages → Multiparts → Multiparts
store h p [] = (h, p) ∷ []
store h p ((k, q) ∷ m) = if same h k then (k, p) ∷ m else (k, q) ∷ store h p m

abbrev pub then_place : PartialMessage → Option (List PartialMessage) → Option (List PartialMessage)
then_place q none = none
then_place q (some ps) = some (q ∷ ps)

-- A part goes before those of greater index; no list when its index is there.
unfoldable pub place : PartialMessage → List PartialMessage → Option (List PartialMessage)
place p [] = some (p ∷ [])
place p (q ∷ qs) =
    if ltb q.index p.index
    then then_place q (place p qs)
    else (if q.index == p.index then none else some (p ∷ q ∷ qs))

unfoldable pub recombine : List PartialMessage → Bytes
recombine [] = []
recombine (p ∷ ps) = p.data_ ++ recombine ps

-- Zeros in front are padding, unless there is nothing else.
unfoldable pub without_zeros : Bytes → Bytes
without_zeros [] = []
without_zeros (b ∷ bs) = if b == 0 then without_zeros bs else b ∷ bs

unfoldable pub remove_padding : Bytes → Bytes
unfolding without_zeros
remove_padding bs = if empty (without_zeros bs) then bs else without_zeros bs

abbrev pub moved : PartialMessage → PartialMessage
moved p = record p { message_id = [] }

-- Whether the message was accepted, and the ids and the text of the message that it completed.
pub record Handled : Type 0 where
  pub accepted : Bool
  pub completed : Option (List Bytes × Bytes)
  pub multiparts : Multiparts
  pub needs_dump : Bool

abbrev pub starts_with_d : Bytes → Bool
starts_with_d [] = false
starts_with_d (b ∷ bs) = b == b'd'

module _ (hash : Bytes → Bytes) (decompress : Bytes → Option Bytes) where
  abbrev pub inflate : Bytes → Option Bytes
  inflate [] = some []
  inflate (b ∷ bs) = if b == b'z' then decompress bs else some (b ∷ bs)

  abbrev pub supported : Option Bytes → Option Bytes
  supported none = none
  supported (some bs) = if starts_with_d bs then some bs else none

  unfoldable pub unwrap : Bytes → Option Bytes
  unwrap bs = supported (inflate (remove_padding bs))

  abbrev pub answer : List Bytes → Option Bytes → Multiparts → Handled
  answer ids none m = record {
    accepted = false;
    completed = none;
    multiparts = m;
    needs_dump = true;
  }
  answer ids (some bs) m = record {
    accepted = true;
    completed = some (ids, bs);
    multiparts = m;
    needs_dump = true;
  }

  -- All parts are there. Their ids are moved out before the hash is looked at.
  unfoldable pub complete : ℕ → Bytes → PartialMessages → Multiparts → Handled
  complete now h p m =
      if same (hash (recombine p.parts)) h
      then answer (map (λ q. q.message_id) p.parts) (unwrap (recombine p.parts))
          (store h (finish now p) m)
      else record {
        accepted = false;
        completed = none;
        multiparts = store h (record p { parts = map moved p.parts }) m;
        needs_dump = true;
      }

  abbrev pub with_part : ℕ → Bytes → PartialMessages → Multiparts → Handled
  with_part now h p m = if length p.parts == p.size then complete now h p m else record {
    accepted = true;
    completed = none;
    multiparts = store h (record p { expiry = now + multipart_max_wait }) m;
    needs_dump = true;
  }

  abbrev pub placed :
      ℕ → Bytes → PartialMessages → Option (List PartialMessage) → Multiparts → Handled
  placed now h p none m = record {
    accepted = true;
    completed = none;
    multiparts = store h p m;
    needs_dump = false;
  }
  placed now h p (some ps) m = with_part now h (record p { parts = ps }) m

  -- A part that passed the checks. `needs_dump` says whether the flag is set.
  unfoldable pub take_part : ℕ → Bytes → Part → Multiparts → Handled
  take_part now msg_id part m =
      let old = find part.final_hash m in
      if old.done
      then record { accepted = true; completed = none; multiparts = m; needs_dump = false }
      else (if not (empty old.parts) && not (part.num_parts == old.size)
          then record { accepted = false; completed = none; multiparts = m; needs_dump = false }
          else placed now part.final_hash (record old { size = part.num_parts })
              (place (record { index = part.index; message_id = msg_id; data_ = part.data_ })
                old.parts)
              m)

  unfoldable pub handle_multipart : ℕ → Bytes → ℕ → BtList → Multiparts → Handled
  handle_multipart now msg_id message_size elements m = elim (parse_part message_size elements) [
    | none ↦ record { accepted = false; completed = none; multiparts = m; needs_dump = false }
    | some part ↦ take_part now msg_id part m
  ]

unfoldable pub expire_multiparts : ℕ → Multiparts → Multiparts
expire_multiparts now [] = []
expire_multiparts now ((h, p) ∷ m) =
    if ltb p.expiry now then expire_multiparts now m else (h, p) ∷ expire_multiparts now m

-- The part of a message that can be sent in one piece: the overheads of the encoding and of the
-- encryption are 50 and 40 bytes.
abbrev pub max_chunk_size : ℕ
max_chunk_size = 76710

abbrev pub max_multipart_size : ℕ
max_multipart_size = 5000000

abbrev pub num_parts_of : Bytes → ℕ
num_parts_of msg = (length msg + max_chunk_size - 1) / max_chunk_size

-- The loop of `push` over what remains, on fuel.
unfoldable pub chunks : ℕ → Bytes → List Bytes
chunks zero remaining = []
chunks (suc n) [] = []
chunks (suc n) (b ∷ bs) = take max_chunk_size (b ∷ bs) ∷ chunks n (drop max_chunk_size (b ∷ bs))
