-- ===== src/Tests/Multipart.antt =====
-- Multipart messages at two small parts, which come in the wrong order.
use libbchat_util.Base.{
  ◌≡◌, ◌<◌, refl, Option, none, some, List, [], ◌∷◌, arith, length, replicate, All, false,
}
use libbchat_util.Base.Order.{Bytes, bytes_order, compare_bytes}
use libbchat_util.Config.Bt.{BtList, nil, cons, text}
use libbchat_util.Config.Multipart.{
  Multiparts, Part, find, store, no_parts, place, unwrap, recombine, remove_padding, without_zeros,
  complete, take_part, parse_part, handle_multipart, chunks, num_parts_of,
}
use libbchat_util.Config.Multipart.Full.{join}
use libbchat_util.Config.Multipart.Rejoin.{Delivery, Completes, take_part-Completes}
use libbchat_util.Config.Multipart.Split.{Fits, chunks_lem}
use libbchat_util.Config.Multipart.Sound.{Complete, handle_multipart_sound}

-- A hash that knows the length only, and a decompression that fails.
abbrev hash_of_length : Bytes → Bytes
hash_of_length bs = length bs ∷ replicate 31 0

abbrev no_zstd : Bytes → Option Bytes
no_zstd bs = none

abbrev chunk_list : List Bytes
chunk_list = (0 ∷ b'd' ∷ []) ∷ (b'e' ∷ []) ∷ []

abbrev set_hash : Bytes
set_hash = 3 ∷ replicate 31 0

abbrev part_0 : Part
part_0 = record { final_hash = set_hash; index = 0; num_parts = 2; data_ = 0 ∷ b'd' ∷ [] }

abbrev part_1 : Part
part_1 = record { final_hash = set_hash; index = 1; num_parts = 2; data_ = b'e' ∷ [] }

abbrev deliveries : List Delivery
deliveries =
    record { at = 5; msg_id = b'y' ∷ []; part = part_1 }
    ∷ record { at = 9; msg_id = b'x' ∷ []; part = part_0 }
    ∷ []

abbrev body : Bytes
body = b'd' ∷ b'e' ∷ []

hashes : hash_of_length (join chunk_list) ≡ set_hash
unfolding join
hashes = refl

unwraps : unwrap hash_of_length no_zstd (join chunk_list) ≡ some body
unfolding join unwrap remove_padding without_zeros
unwraps = refl

not_there : find set_hash [] ≡ no_parts
unfolding find
not_there = refl

take_part-Completes_example : Completes hash_of_length no_zstd 2 set_hash body [] deliveries []
take_part-Completes_example =
    take_part-Completes hash_of_length no_zstd set_hash body chunk_list deliveries [] hashes unwraps
      not_there
      (
        record { hash_of = refl; count = refl; chunk = refl },
        (omega arith, tt),
        (record { hash_of = refl; count = refl; chunk = refl }, tt, tt),
      )
      refl (omega arith)

chunks_lem_example :
    (join (chunks 2 body) ≡ body)
    × All Fits (chunks 2 body)
    × (length (chunks 2 body) ≡ num_parts_of body)
    × (num_parts_of body < 256)
chunks_lem_example = chunks_lem 2 body (omega arith) (omega arith)

-- The first part is there, and the second one comes.
abbrev one_there : Multiparts
one_there =
    (
      set_hash,
      record {
        done = false;
        size = 2;
        parts = record { index = 1; message_id = b'y' ∷ []; data_ = b'e' ∷ [] } ∷ [];
        expiry = 604800005;
      },
    )
    ∷ []

abbrev elements : BtList
elements =
    cons (text set_hash)
      (cons (text (0 ∷ [])) (cons (text (2 ∷ [])) (cons (text (0 ∷ b'd' ∷ [])) nil)))

last_one :
    (handle_multipart hash_of_length no_zstd 9 (b'x' ∷ []) 50 elements one_there).completed
    ≡ some ((b'x' ∷ []) ∷ (b'y' ∷ []) ∷ [], body)
unfolding handle_multipart take_part find place store complete recombine unwrap remove_padding
    without_zeros compare_bytes
last_one = refl

handle_multipart_sound_example :
    (part : Part) × (parse_part 50 elements ≡ some part)
    × Complete hash_of_length no_zstd
        (b'x' ∷ [])
        part
        one_there
        ((b'x' ∷ []) ∷ (b'y' ∷ []) ∷ [])
        body
        ((handle_multipart hash_of_length no_zstd 9 (b'x' ∷ []) 50 elements one_there).multiparts)
handle_multipart_sound_example =
    handle_multipart_sound hash_of_length no_zstd 9 (b'x' ∷ []) 50 elements one_there
      ((b'x' ∷ []) ∷ (b'y' ∷ []) ∷ []) body last_one
