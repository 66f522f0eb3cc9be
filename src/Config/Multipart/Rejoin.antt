-- ===== src/Config/Multipart/Rejoin.antt =====
-- `_handle_multipart` puts the parts of a message together again, in whatever order they come.
use libbchat_util.Base.{
  ℕ, ◌+◌, ◌<◌, ◌≡◌, ◌≢◌, refl, ap, ◌∙◌, Option, none, some, List, [], ◌∷◌, true, false, not, ◌&&◌,
  ◌==◌, empty, arith, length, get_elem?, map, All, if◌then◌else◌, Bool-cases, inl, inr, subst,
}
use libbchat_util.Base.Order.{Bytes, same, bytes_order}
use libbchat_util.Config.Multipart.{
  PartialMessage, PartialMessages, Multiparts, Part, Handled, find, store, no_parts, place,
  with_part, complete, finish, unwrap, recombine, take_part, multipart_max_wait,
}
use libbchat_util.Config.Multipart.Parts.{
  InIndexOrder, ChunksOf, has_index, Placed, place-Placed, id_at, id_at-none, find-store,
}
use libbchat_util.Config.Multipart.Full.{join, recombine_full, ids_full}

-- A part that comes at a time under the id of a message.
pub record Delivery : Type 0 where
  pub at : ℕ
  pub msg_id : Bytes
  pub part : Part

-- A part of the message of the given hash and chunks.
pub record IsPartOf (h : Bytes) (cs : List Bytes) (p : Part) : Type 0 where
  pub hash_of : p.final_hash ≡ h
  pub count : p.num_parts ≡ length cs
  pub chunk : get_elem? cs p.index ≡ some p.data_

-- Every delivery is a part, and no two have the same index.
abbrev pub OtherIndex : ℕ → List Delivery → Type 0
OtherIndex i [] = Unit {0}
OtherIndex i (d ∷ ds) = (i ≢ d.part.index) × OtherIndex i ds

abbrev pub AreParts : Bytes → List Bytes → List Delivery → Type 0
AreParts h cs [] = Unit {0}
AreParts h cs (d ∷ ds) = IsPartOf h cs d.part × OtherIndex d.part.index ds × AreParts h cs ds

-- What has come of a message.
pub record Holds (h : Bytes) (cs : List Bytes) (ps : List PartialMessage) (m : Multiparts)
    : Type 0 where
  pub open_set : (find h m).done ≡ false
  pub stored : (find h m).parts ≡ ps
  pub sized : not (empty ps) && not (length cs == (find h m).size) ≡ false
  pub ordered : InIndexOrder ps
  pub chunked : ChunksOf cs ps

module _ (hash : Bytes → Bytes) (decompress : Bytes → Option Bytes) where
  abbrev pub handled : Delivery → Multiparts → Handled
  handled d m = take_part hash decompress d.at d.msg_id d.part m

  -- The ids are those of the deliveries, each at the index of its part.
  abbrev pub IdsOf : List Delivery → List Bytes → Type 0
  IdsOf ds ids = All (λ d. get_elem? ids d.part.index ≡ some d.msg_id) ds

  -- Each of the deliveries but the last is accepted and completes nothing; the last one completes
  -- the message with the given text, and one id for each part: at the index of each delivery's part,
  -- of those and of the ones seen before, the id of that delivery.
  abbrev pub Completes : ℕ → Bytes → Bytes → List Delivery → List Delivery → Multiparts → Type 0
  Completes n h body seen [] m = ⊥
  Completes n h body seen (d ∷ []) m =
      ((handled d m).accepted ≡ true)
      × ((ids : List Bytes) × ((handled d m).completed ≡ some (ids, body))
          × (length ids ≡ n)
          × IdsOf (d ∷ seen) ids)
      × ((find h (handled d m).multiparts).done ≡ true)
  Completes n h body seen (d ∷ e ∷ ds) m =
      ((handled d m).accepted ≡ true)
      × ((handled d m).completed ≡ none)
      × Completes n h body (d ∷ seen) (e ∷ ds) (handled d m).multiparts

  abbrev pub message_of : Delivery → PartialMessage
  message_of d = record { index = d.part.index; message_id = d.msg_id; data_ = d.part.data_ }

  -- A part that is new to an open set.
  taken :
      (h : Bytes) (cs : List Bytes) (ps rs : List PartialMessage) (m : Multiparts) (d : Delivery)
      → Holds h cs ps m
      → IsPartOf h cs d.part
      → place (message_of d) ps ≡ some rs
      → handled d m
        ≡ with_part hash decompress d.at h (record (find h m) { size = length cs; parts = rs }) m
  unfolding take_part
  taken h cs ps rs m d v i e =
      rw (i.hash_of, v.open_set, i.count, v.stored, v.sized, e, take_part) refl

  not_full : (a b : ℕ) → a ≢ b → (a == b) ≡ false
  not_full a b h = ground arith

  full : (a b : ℕ) → a ≡ b → (a == b) ≡ true
  full a b h = ground arith

  -- The set with one more part, before and after it is full.
  abbrev pub grown_set : Bytes → List Bytes → List PartialMessage → Multiparts → PartialMessages
  grown_set h cs rs m = record (find h m) { size = length cs; parts = rs }

  abbrev pub waiting : ℕ → Bytes → List Bytes → List PartialMessage → Multiparts → PartialMessages
  waiting at h cs rs m = record {
    done = (find h m).done;
    size = length cs;
    parts = rs;
    expiry = at + multipart_max_wait;
  }

  waits :
      (h : Bytes) (cs : List Bytes) (rs : List PartialMessage) (m : Multiparts) (at : ℕ)
      → length rs ≢ length cs
      → with_part hash decompress at h (grown_set h cs rs m) m ≡ record {
        accepted = true;
        completed = none;
        multiparts = store h (waiting at h cs rs m) m;
        needs_dump = true;
      }
  waits h cs rs m at n = rw (not_full (length rs) (length cs) n) refl

  same_self : (h : Bytes) → same h h ≡ true
  same_self h = ground (arith, bytes_order.cmp_refl h)

  completes :
      (h body : Bytes) (cs : List Bytes) (rs : List PartialMessage) (m : Multiparts) (at : ℕ)
      → length rs ≡ length cs
      → recombine rs ≡ join cs
      → hash (join cs) ≡ h
      → unwrap hash decompress (join cs) ≡ some body
      → with_part hash decompress at h (grown_set h cs rs m) m ≡ record {
        accepted = true;
        completed = some (map (λ q. q.message_id) rs, body);
        multiparts = store h (finish at (grown_set h cs rs m)) m;
        needs_dump = true;
      }
  unfolding complete
  completes h body cs rs m at n e f g =
      rw (full (length rs) (length cs) n, complete, e, f, same_self h, g) refl

  -- One more part that does not make the set full.
  Holds-waiting :
      (h : Bytes) (cs : List Bytes) (ps : List PartialMessage) (m : Multiparts) (d : Delivery)
      → Holds h cs ps m
      → (r : Placed cs (message_of d) ps)
      → Holds h cs r.result (store h (waiting d.at h cs r.result m) m)
  Holds-waiting h cs ps m d v r = record {
    open_set = ap (λ x. x.done) (find-store h (waiting d.at h cs r.result m) m) ∙ v.open_set;
    stored = ap (λ x. x.parts) (find-store h (waiting d.at h cs r.result m) m);
    sized = rw (find-store h (waiting d.at h cs r.result m) m) (ground arith);
    ordered = r.ordered;
    chunked = r.chunked;
  }

  length-map : (ps : List PartialMessage) → length (map (λ q. q.message_id) ps) ≡ length ps
  length-map [] = refl
  length-map (p ∷ ps) = omega (arith, length-map ps)

  -- The indices that are to come are not there yet.
  abbrev pub Fresh : List PartialMessage → List Delivery → Type 0
  Fresh ps [] = Unit {0}
  Fresh ps (d ∷ ds) = (has_index d.part.index ps ≡ false) × Fresh ps ds

  Fresh-Placed :
      (cs : List Bytes) (ps : List PartialMessage) (d : Delivery) (ds : List Delivery)
      → (r : Placed cs (message_of d) ps) → OtherIndex d.part.index ds
      → Fresh ps ds
      → Fresh r.result ds
  Fresh-Placed cs ps d [] r o f = tt
  Fresh-Placed cs ps d (e ∷ es) r o f =
      (ground (arith, r.indices e.part.index), Fresh-Placed cs ps d es r o.1 f.1)

  -- The parts of what was seen are there, under its ids.
  abbrev pub Seen : List PartialMessage → List Delivery → Type 0
  Seen ps = All (λ d. id_at d.part.index ps ≡ some d.msg_id)

  kept_id :
      (i j : ℕ) (x y : Bytes) (ps : List PartialMessage)
      → has_index j ps ≡ false
      → id_at i ps ≡ some x
      → (if i == j then some y else id_at i ps) ≡ some x
  kept_id i j x y ps f e = elim (Bool-cases (i == j)) [
    | inl q ↦ cc (subst (λ z. id_at z ps ≡ some x) (same_number i j q) e, id_at-none j ps f)
    | inr q ↦ rw q e
  ]
    where
      same_number : (i j : ℕ) → (i == j) ≡ true → i ≡ j
      same_number i j q = ground arith

  Seen-Placed :
      (cs : List Bytes) (ps : List PartialMessage) (d : Delivery) (seen : List Delivery)
      → has_index d.part.index ps ≡ false
      → (r : Placed cs (message_of d) ps) → Seen ps seen
      → Seen r.result seen
  Seen-Placed cs ps d [] f r s = tt
  Seen-Placed cs ps d (e ∷ es) f r s = (
    r.ids e.part.index ∙ kept_id e.part.index d.part.index e.msg_id d.msg_id ps f s.0,
    Seen-Placed cs ps d es f r s.1,
  )

  seen_now :
      (cs : List Bytes) (ps : List PartialMessage) (d : Delivery)
      → (r : Placed cs (message_of d) ps) → id_at d.part.index r.result ≡ some d.msg_id
  seen_now cs ps d r = r.ids d.part.index ∙ chosen d.part.index (id_at d.part.index ps)
    where
      chosen : (i : ℕ) (o : Option Bytes) → (if i == i then some d.msg_id else o) ≡ some d.msg_id
      chosen i o = ground arith

  Seen-IdsOf :
      (rs : List PartialMessage) (seen : List Delivery)
      → ((i : ℕ) → get_elem? (map (λ q. q.message_id) rs) i ≡ id_at i rs)
      → Seen rs seen
      → IdsOf seen (map (λ q. q.message_id) rs)
  Seen-IdsOf rs [] at_all s = tt
  Seen-IdsOf rs (d ∷ ds) at_all s = (at_all d.part.index ∙ s.0, Seen-IdsOf rs ds at_all s.1)

  from_here :
      (h body : Bytes) (cs : List Bytes) (ps : List PartialMessage) (seen ds : List Delivery)
      (m : Multiparts)
      → hash (join cs) ≡ h
      → unwrap hash decompress (join cs) ≡ some body
      → Holds h cs ps m
      → AreParts h cs ds
      → Fresh ps ds
      → Seen ps seen
      → length ps + length ds ≡ length cs
      → 0 < length ds
      → Completes (length cs) h body seen ds m
  from_here h body cs ps seen [] m e u v a f s n k = absurd (omega arith)
  from_here h body cs ps seen (d ∷ []) m e u v a f s n k =
      let r = place-Placed cs (message_of d) ps v.ordered v.chunked a.0.chunk f.0 in
      let done =
        taken h cs ps r.result m d v a.0 r.returned
        ∙ completes h body cs r.result m d.at (omega (arith, r.grown))
            (recombine_full cs r.result (omega (arith, r.grown)) r.ordered r.chunked) e u in
      rw done (
        refl,
        (
          map (λ q. q.message_id) r.result,
          refl,
          omega (arith, length-map r.result, r.grown),
          Seen-IdsOf r.result (d ∷ seen)
              (ids_full cs r.result (omega (arith, r.grown)) r.ordered r.chunked)
              (seen_now cs ps d r, Seen-Placed cs ps d seen f.0 r s),
        ),
        ap (λ x. x.done) (find-store h (finish d.at (grown_set h cs r.result m)) m),
      )
  from_here h body cs ps seen (d ∷ e ∷ ds) m q u v a f s n k =
      let r = place-Placed cs (message_of d) ps v.ordered v.chunked a.0.chunk f.0 in
      let step =
        taken h cs ps r.result m d v a.0 r.returned
        ∙ waits h cs r.result m d.at (λ z. omega (arith, r.grown)) in
      rw step (
        refl,
        refl,
        from_here h body cs r.result (d ∷ seen) (e ∷ ds) (store h (waiting d.at h cs r.result m) m)
            q u (Holds-waiting h cs ps m d v r) a.2 (Fresh-Placed cs ps d (e ∷ ds) r a.1 f.1)
            (seen_now cs ps d r, Seen-Placed cs ps d seen f.0 r s) (omega (arith, r.grown))
            (omega arith),
      )

  all-Fresh : (ds : List Delivery) → Fresh [] ds
  unfolding has_index
  all-Fresh [] = tt
  all-Fresh (d ∷ ds) = (refl, all-Fresh ds)

  -- For chunks whose joined text has the hash and unwraps to a body, and deliveries of one part of
  -- each chunk, in any order, to a store that has nothing of that hash, each delivery but the last
  -- is accepted and completes nothing, and the last one completes the message with that body, with
  -- one id for each part, which at the index of a part is the id of the message that brought it, and
  -- marks the set as done.
  pub take_part-Completes :
      (h body : Bytes) (cs : List Bytes) (ds : List Delivery) (m : Multiparts)
      → hash (join cs) ≡ h
      → unwrap hash decompress (join cs) ≡ some body
      → find h m ≡ no_parts
      → AreParts h cs ds
      → length ds ≡ length cs
      → 0 < length ds
      → Completes (length cs) h body [] ds m
  take_part-Completes h body cs ds m e u z a n k =
      from_here h body cs [] [] ds m e u
        (record {
          open_set = ap (λ x. x.done) z;
          stored = ap (λ x. x.parts) z;
          sized = refl;
          ordered = tt;
          chunked = tt;
        })
        a (all-Fresh ds) tt (omega arith) k
