-- ===== src/Config/Message/Index.antt =====
-- Which config the constructor takes over, and the number of a merged one.
use libbchat_util.Base.{
  ℕ, zero, suc, ◌+◌, ◌≡◌, refl, ap, sym, ◌∙◌, subst, ◌⊎◌, inl, inr, Option, none, some, List, [],
  ◌∷◌, ◌++◌, Bool, true, false, not, ◌&&◌, All, arith, Bool-cases, if◌then◌else◌, get_elem?,
}
use libbchat_util.Base.Order.{ℤ, pos, Bytes, same, pair_order, int_order, bytes_order}
use libbchat_util.Base.Int.{◌+ℤ◌, ◌≤ℤ◌, ◌<ℤ◌, leb_ℤ, int_laws}
use libbchat_util.Config.Result.{ok, >>=-eq-ok}
use libbchat_util.Config.Message.{
  Message, seqno, mark_redundant, mark_old, max_seqno, mark_all, survivors, int64_min, int64_max,
  add_int64, best_of, best_index, adopt, choose, from_parsed, merge_sorted, merged_message,
  with_hash, is_redundant, includes, any_includes, any_same, apply_replay, replay_all,
  sort_descending, messages, worse,
}
use libbchat_util.Config.Message.Redundant.{le-max_seqno, max_seqno-le, not_old}
use libbchat_util.Config.Message.Int64.{HasRoom, add_int64-fits}

-- The config of a marked list, by its index.
abbrev at : ℕ → List (Message × Bool) → Option Message
at i [] = none
at zero ((m, r) ∷ l) = some m
at (suc i) ((m, r) ∷ l) = at i l

mark_old-at : (lag top : ℤ) (i : ℕ) (l : List (Message × Bool)) → at i (mark_old lag top l) ≡ at i l
unfolding mark_old
mark_old-at lag top i [] = refl
mark_old-at lag top zero ((m, r) ∷ l) = refl
mark_old-at lag top (suc i) ((m, r) ∷ l) = mark_old-at lag top i l

mark_redundant-at :
    (pre : List Message) (i : ℕ) (ms : List Message) → at i (mark_redundant pre ms) ≡ get_elem? ms i
unfolding mark_redundant
mark_redundant-at pre i [] = refl
mark_redundant-at pre zero (m ∷ ms) = refl
mark_redundant-at pre (suc i) (m ∷ ms) = mark_redundant-at (pre ++ m ∷ []) i ms

mark_all-at : (lag : ℤ) (i : ℕ) (ms : List Message) → at i (mark_all lag ms) ≡ get_elem? ms i
unfolding mark_all
mark_all-at lag i ms =
    rw (mark_old-at lag (max_seqno int64_min ms) i (mark_redundant [] ms))
      (mark_redundant-at [] i ms)

survivors_first :
    (i : ℕ) (l : List (Message × Bool)) (j : ℕ) (m : Message) (rest : List (ℕ × Message))
    → survivors i l ≡ (j, m) ∷ rest
    → (o : ℕ) × (j ≡ i + o) × (at o l ≡ some m)
unfolding survivors
survivors_first i [] j m rest h = absurd (ground arith)
survivors_first i ((n, true) ∷ l) j m rest h =
    let (o, e, found) = survivors_first (i + 1) l j m rest h in (suc o, omega arith, found)
survivors_first i ((n, false) ∷ l) j m rest h = (0, ground arith, ground arith)

same_index : (a b : ℕ) (m : Message) → a ≡ b → ◌≡◌ {A = ℕ × Message} (a, m) (b, m)
same_index a b m e = rw e refl

best_of_found :
    (i : ℕ) (b : Message × Bool) (j : ℕ) (l : List (Message × Bool))
    → (best_of i b j l ≡ (i, b.0))
      ⊎ ((o : ℕ) × (m : Message) × (best_of i b j l ≡ (j + o, m)) × (at o l ≡ some m))
unfolding best_of
best_of_found i b j [] = inl refl
best_of_found i b j ((n, r) ∷ l) = elim (Bool-cases (worse b (n, r))) [
  | inl e ↦ elim (best_of_found j (n, r) (j + 1) l) [
    | inl q ↦ inr (0, n, rw (e, q) (same_index j (j + 0) n (omega arith)), refl)
    | inr (o, m, q, found) ↦
        inr (suc o, m, rw (e, q) (same_index (j + 1 + o) (j + suc o) m (omega arith)), found)
  ]
  | inr e ↦ elim (best_of_found i b (j + 1) l) [
    | inl q ↦ inl (rw e q)
    | inr (o, m, q, found) ↦
        inr (suc o, m, rw (e, q) (same_index (j + 1 + o) (j + suc o) m (omega arith)), found)
  ]
]

ok_injective : (a b : Message) → ok a ≡ ok b → a ≡ b
ok_injective a b h = ground arith

module _ (get_int : ℕ → Option ℤ) (digest : Message → Bytes) where
  -- A config was taken over as it is: the one at the index that is reported.
  abbrev pub Adopted : List Message → Message → Type 0
  Adopted ms r = (i : ℕ) × (m : Message) × (get_elem? ms i ≡ some m) × (r ≡ adopt (i, m))

  -- A new message was made, which comes after each of the configs.
  abbrev pub Merged : List Message → Message → Type 0
  Merged ms r = (r.unmerged ≡ none) × All (λ n. seqno n <ℤ seqno r) ms

  abbrev pub Outcome : List Message → Message → Type 0
  Outcome ms r = Adopted ms r ⊎ Merged ms r

  below_next :
      (top : ℤ) (ms : List Message)
      → All (λ n. seqno n ≤ℤ top) ms
      → All (λ n. seqno n <ℤ top +ℤ pos 1) ms
  below_next top [] a = tt
  below_next top (m ∷ ms) a = (omega int_laws, below_next top ms a.1)

  -- The number of each can be increased.
  abbrev pub NotLast : List Message → Type 0
  NotLast = All (λ n. (int64_min ≤ℤ seqno n) × (seqno n <ℤ int64_max))

  max-NotLast :
      (best : ℤ) (ms : List Message)
      → best <ℤ int64_max
      → NotLast ms
      → max_seqno best ms <ℤ int64_max
  unfolding max_seqno
  max-NotLast best [] h a = h
  max-NotLast best (m ∷ ms) h a =
      max-NotLast (if leb_ℤ (seqno m) best then best else seqno m) ms (pick (leb_ℤ (seqno m) best))
        a.1
    where
      pick : (b : Bool) → (if b then best else seqno m) <ℤ int64_max
      pick true = h
      pick false = a.0.1

  next_number :
      (ms : List Message)
      → NotLast ms
      → add_int64 (max_seqno int64_min ms) (pos 1) ≡ max_seqno int64_min ms +ℤ pos 1
  next_number ms a =
      add_int64-fits (max_seqno int64_min ms) (pos 1)
        (omega (int_laws, (le-max_seqno int64_min ms).0))
        (omega (int_laws, max-NotLast int64_min ms (omega arith) a))

  merge_sorted-Merged :
      (verifier signer : Bool) (lag : ℤ) (ms sorted : List Message) (r : Message)
      → NotLast ms
      → merge_sorted get_int digest verifier signer lag (max_seqno int64_min ms) sorted ≡ ok r
      → Merged ms r
  unfolding merge_sorted merged_message with_hash
  merge_sorted-Merged verifier signer lag ms [] r u h = absurd (ground arith)
  merge_sorted-Merged verifier signer lag ms (m ∷ sorted) r u h =
      let (data_, applied, done) =
        >>=-eq-ok (apply_replay get_int digest m.data_ (replay_all (m ∷ sorted) [])) _ h in
      let made : _ ≡ r = ok_injective _ r done in
      subst (Merged ms) made (
        refl,
        subst (λ z. All (λ n. seqno n <ℤ z) ms) (sym (next_number ms u))
            (below_next (max_seqno int64_min ms) ms (le-max_seqno int64_min ms).1),
      )

  best_index-Adopted :
      (lag : ℤ) (ms : List Message) (marks : List (Message × Bool)) (r : Message)
      → ((i : ℕ) → at i marks ≡ get_elem? ms i)
      → best_index marks ≡ ok r
      → Adopted ms r
  best_index-Adopted lag ms [] r same h = absurd (ground arith)
  best_index-Adopted lag ms ((m, b) ∷ marks) r same h = elim (best_of_found 0 (m, b) 1 marks) [
    | inl q ↦ (0, m, sym (same 0), sym (ok_injective _ r h) ∙ ap adopt q)
    | inr (o, n, q, found) ↦ (
      suc o,
      n,
      sym (same (suc o)) ∙ found,
      sym (ok_injective _ r h) ∙ ap adopt (q ∙ same_index (1 + o) (suc o) n (omega arith)),
    )
  ]

  choose-Outcome :
      (verifier signer : Bool) (lag : ℤ) (ms : List Message) (marks : List (Message × Bool))
      (left : List (ℕ × Message)) (r : Message)
      → NotLast ms
      → ((i : ℕ) → at i marks ≡ get_elem? ms i)
      → survivors 0 marks ≡ left
      → choose get_int digest verifier signer lag ms marks left ≡ ok r
      → Outcome ms r
  unfolding choose
  choose-Outcome verifier signer lag ms marks [] r u same kept h = absurd (ground arith)
  choose-Outcome verifier signer lag ms marks ((j, m) ∷ []) r u same kept h =
      let (o, e, found) = survivors_first 0 marks j m [] kept in
      inl (
        o,
        m,
        sym (same o) ∙ found,
        sym (ok_injective _ r h) ∙ ap adopt (same_index j o m (omega arith)),
      )
  choose-Outcome verifier signer lag ms marks (m ∷ n ∷ l) r u same kept h =
      elim (Bool-cases (verifier && not signer)) [
        | inl e ↦ inl (best_index-Adopted lag ms marks r same (rw e at h))
        | inr e ↦ inr (
            merge_sorted-Merged verifier signer lag ms (sort_descending (messages (m ∷ n ∷ l))) r u
              (rw e at h))
      ]

  -- When the constructor succeeds on configs with 64-bit sequence numbers below the greatest such
  -- number, it either took over one config as it is, and `unmerged` is that
  -- config's index among those that parsed, or it made a merged message, whose sequence number is
  -- above that of every config.
  pub from_parsed-Outcome :
      (verifier signer : Bool) (lag : ℤ) (ms : List Message) (r : Message)
      → NotLast ms
      → from_parsed get_int digest verifier signer lag ms ≡ ok r
      → Outcome ms r
  unfolding from_parsed
  from_parsed-Outcome verifier signer lag ms r u h =
      choose-Outcome verifier signer lag ms (mark_all lag ms) (survivors 0 (mark_all lag ms)) r u
        (λ i. mark_all-at lag i ms) refl h

  -- The first config is included in the second, which is not included in it: the second is taken over.
  pub second_supersedes :
      (verifier signer : Bool) (lag : ℤ) (m n : Message)
      → pos 0 <ℤ lag
      → HasRoom lag (seqno n)
      → int64_min ≤ℤ seqno m
      → seqno m ≤ℤ seqno n
      → includes m.key n.lagged ≡ true
      → includes n.key m.lagged ≡ false
      → same n.key m.key ≡ false
      → from_parsed get_int digest verifier signer lag (m ∷ n ∷ []) ≡ ok (adopt (1, n))
  unfolding from_parsed mark_all mark_old mark_redundant is_redundant any_includes any_same choose
      survivors
  second_supersedes verifier signer lag m n positive room low below inc not_inc other =
      let young =
        not_old (seqno n) lag (max_seqno int64_min (m ∷ n ∷ []))
          (max_seqno-le int64_min (seqno n) (m ∷ n ∷ []) room.0 (below, (omega arith, tt))) positive
          room in
      rw (inc, not_inc, other, young, choose) refl
