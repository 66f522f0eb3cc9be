-- ===== src/Lib.antt =====
-- A model of the parts of libbchat-util that decide what a user's configuration becomes when
-- several devices change it at once, and of the parts of the network layer that queue requests and
-- choose the swarm of a key; of the encryption of attachments; and of helpers: the URLs of
-- communities, the merging of bt dicts and lists, and the truncation of UTF-16 text.
--
-- The parts and how they meet
--
-- A configuration is a dict of scalars, sets and dicts (include/bchat/config.hpp). A device changes
-- its own dict, prunes it, and computes the diff to the dict that it started from; the message that
-- it sends holds the dict, the diff, and the lagged diffs of the messages before. A device that
-- receives messages drops those that another one includes or that are too old, takes over the only
-- one that is left, or replays the diffs of all that are left, oldest first, on the dict of the
-- best one. A store (src/config/base.cpp) keeps the message, its state between a change and the
-- confirmation of its push, and the hashes of the messages that it makes obsolete; it splits a
-- message that is too long and joins the parts that come, and merges what comes from other devices.
-- So the diff must carry a change exactly, the parser must give back what was written, and merging
-- must keep a config. The configs name communities by URLs (src/config/community.cpp). The messages
-- travel in requests, which wait in a queue until there is a path (src/network/request_queue.cpp),
-- and go to the swarm of nodes that serves the key of the account (src/network/swarm.cpp). Files go
-- as attachments (src/attachments.cpp), whose decryptor takes them in the pieces that the network
-- gives.
--
-- Which file models what
--
--   Base       what the other modules share: tests on numbers, lists, total orders (as the three-way
--              comparison of an ordered container), signed integers, and `std::set` as an ascending
--              list.
--   Config     src/config.cpp and include/bchat/config.hpp.
--     Scalar, Dict   scalar, set, dict and dict_value; `std::map` is an ascending list of entries.
--     Prune          prune_ and MutableConfigMessage::prune.
--     Diff           diff_impl and its helpers; a diff is a bt dict (Bt).
--     Apply          apply_diff and its helpers.
--     Roundtrip      the two together, from sets through entries and values to dicts.
--     Codec          serialize_data, parse_data and check_scalar_order.
--     Load           load_diff: `load_diff` is its loop, one round for each unit of fuel.
--     Message        the merging constructor of ConfigMessage (mark_all, survivors, choose,
--                    from_configs) and increment_impl.
--     Result         the exceptions, as values.
--     Multipart      src/config/base.cpp and include/bchat/config/base.hpp: the parts of a message
--                    that is too long, from their splitting in push over _handle_multipart and
--                    _expire_multiparts. Rejoin is about the parts of one message that come in
--                    some order, Sound about whatever comes.
--     Store          the same files: set_state, dirty, push, confirm_pushed, old_hashes and the keys
--                    (has_key, add_key, clear_keys, remove_key, replace_keys). Cycle has the
--                    invariant, Reachable the step relation.
--     Merge          the same files: ConfigBase::_merge, with the constructor of the message as a
--                    parameter. Kept has the invariant, Good the hashes that it returns; Construct
--                    puts the constructor of Message in, with and without the assertion of its
--                    error handler; Construct.Taken, Construct.Obsolete and Construct.Misplaced are
--                    about the two together.
--     Community      src/config/community.cpp and its header: canonical URLs and rooms, full URLs and
--                    their parsing, the constructors and setters (Room, Constructed). Roundtrip puts
--                    full_url and parse_full_url together.
--   Text, Url       the text operations of the standard library that src/util.cpp and
--                   src/config/community.cpp use, with from_chars and to_string for a port; and
--                   parse_url of src/util.cpp.
--   Attachment      src/attachments.cpp and include/bchat/attachments.hpp.
--     Sizes          encrypted_padding, encrypted_size and decrypted_max_size.
--     Encrypt        encrypt_impl, with the get_chunk that encrypt gives it for data in memory.
--     Decrypt        decrypt to a buffer and to a vector. Fits and Overruns are about the space in the
--                    buffer, Found and Roundtrip put it together with encrypt_impl.
--     Decryptor      the class Decryptor: update, finalize and what they call. Stepwise compares it
--                    with a decryptor that takes one byte at a time.
--   BtMerge         src/bt_merge.cpp and include/bchat/bt_merge.hpp: merge and merge_sorted.
--   Network.Queue   src/network/request_queue.cpp: add, add_front, pop_all, check_timeouts,
--                   update_timeout, the timer event and the destructor. Valid has the invariant,
--                   Reachable the step relation over which it holds.
--   Network.Swarm   src/network/swarm.cpp: pubkey_to_swarm_space, generate_swarms and get_swarm.
--   Utf16      src/util.cpp: utf16_count_truncated_to_codepoints.
--   Tests      the definitions and the theorems at concrete inputs.
--
-- Bounds and fuel
--
-- Integers of 64 bits that can wrap keep the wrap-around in the definition (the ids of swarms, the
-- sums in the merging constructor). A config's own counting, which adds one for each change, and the
-- comparison of its lagged diffs with its number are not bounded. The diff of two dicts runs on fuel, of which each step takes a unit
-- and an entry, so that fuel above the number of the entries does not run out. `load_diff` runs on
-- fuel because the loop in the source need not end; each round takes a unit, and reads an entry or
-- an end where it does not stall. The splitting of a message takes a unit for each part, and each
-- part has a byte, so that fuel of its length is enough; the merging of two lists takes a unit for
-- each entry of the two. A port of 16 bits has at most five digits. The loops of attachments take a
-- unit for each byte, and a round consumes a chunk; `bit_floor` halves a number of 64 bits at most 64
-- times. The sizes of attachments wrap where `size_t` is subtracted, and sums are of what fits in
-- memory. All else is structural recursion. Times are ticks of a clock, from its beginning.
--
-- What is not modelled
--
-- The bytes of an encoded message: oxenc's producers and consumers are sequences of the elements
-- that they write or read, and its reading of a decimal integer is the parameter `get_int`. The hash
-- of a message is the parameter `digest`, and the texts that do not parse as messages are given as
-- such, so signatures are outside. For the store, the hash, zstd, decryption and what `push` encodes
-- are parameters, and its dump is left out, with that of the parts; for attachments, libsodium's secretstream is one, and the variants on files and
-- the derivation of the key are left out; counting by simdutf is the parameter `count_utf16`. Callbacks
-- of the queue are numbers, and the fields of a request or a node that these files only move are left
-- out. The event loop, the sockets and the timers of libevent are not modelled beyond the time that
-- the timer is set to. The users' and groups' configs, the routers, the onion requests, the encryption
-- and the C interface are not modelled.
pub mod Base
pub mod Text
pub mod Url
pub mod Attachment
pub mod BtMerge
pub mod Config
pub mod Network
pub mod Utf16
mod Tests
