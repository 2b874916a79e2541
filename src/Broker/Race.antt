-- ===== src/Broker/Race.antt =====
-- `MarkMessageAsDeleted` of redis_broker.go between other calls: it reads the whole list, looks for
-- the message, and writes to the index at which it stood.
use digital_square.Base.{
  ℕ, zero, suc, ◌+◌, ◌-◌, ◌<◌, String, ◌==◌, eq_iff, ◌≡◌, ◌≢◌, refl, sym, ap, subst, ◌∙◌, Bool,
  Bool-cases, inl, inr, some, List, [], ◌∷◌, ◌++◌, append_assoc, length, length-append, take_all,
  set, set-append, All, arith,
}
use digital_square.Errors.{ok}
use digital_square.Action.{Action, ◌>>=◌, >>=-ok}
use digital_square.Codec.{Codec}
use digital_square.Models.{Message}
use digital_square.Redis.{Redis, IsListStore, pos, negsuc}
use digital_square.Broker.{
  recent_key, as_deleted, cache_message, mark_from, replace_at, mark_message_as_deleted,
}
use digital_square.Broker.Laws.{
  as_json, ReadsBack, Decodes, Caches, cache_message-Caches, mark_from_other, mark_from_found,
  replace_at_effect,
}

-- `MarkMessageAsDeleted`, where other calls come between its read and its write.
unfoldable pub mark_while :
    (R : Redis) (c : Codec Message)
    → (R.State → R.State)
    → String
    → Bool
    → Action R.State (Unit {0})
mark_while R c meanwhile message_id by_admin =
    R.l_range recent_key (pos 0) (negsuc 0) >>= λ results s.
    mark_from R c 0 message_id by_admin results (meanwhile s)

-- Where nothing comes between them, it is the call as it is written.
mark_while_alone :
    (R : Redis) (c : Codec Message) (message_id : String) (by_admin : Bool) (s : R.State)
    → mark_while R c (λ t. t) message_id by_admin s
      ≡ mark_message_as_deleted R c message_id by_admin s
unfolding mark_while mark_message_as_deleted
mark_while_alone R c message_id by_admin s = refl

Decodes-set :
    (c : Codec Message) (texts : List String) (msgs : List Message) (i : ℕ) (text : String)
    (msg : Message)
    → Decodes c texts msgs
    → c.unmarshal text ≡ some msg
    → Decodes c (set texts i text) (set msgs i msg)
Decodes-set c [] [] i text msg h p = tt
Decodes-set c [] (m ∷ msgs) i text msg h p = absurd h
Decodes-set c (t ∷ texts) [] i text msg h p = absurd h
Decodes-set c (t ∷ texts) (m ∷ msgs) zero text msg (q, h) p = (p, h)
Decodes-set c (t ∷ texts) (m ∷ msgs) (suc i) text msg (q, h) p =
    (q, Decodes-set c texts msgs i text msg h p)

module _ (R : Redis) (list_at : R.State → String → List String) (L : IsListStore R list_at)
    (c : Codec Message) (reads_back : ReadsBack c) where
  -- The loop writes to the index at which it has read the message.
  mark_from_at :
      (i : ℕ) (message_id : String) (by_admin : Bool) (texts : List String)
      (front back : List Message) (msg : Message) (s : R.State)
      → Decodes c texts (front ++ msg ∷ back)
      → All (λ m. m.message_id ≢ message_id) front
      → msg.message_id ≡ message_id
      → mark_from R c i message_id by_admin texts s
        ≡ replace_at R c (i + length front) by_admin msg s
  mark_from_at i message_id by_admin [] [] back msg s h other same = absurd h
  mark_from_at i message_id by_admin [] (m ∷ front) back msg s h other same = absurd h
  mark_from_at i message_id by_admin (t ∷ texts) [] back msg s (p, h) other same =
      let here : i ≡ i + 0 = omega arith in
      mark_from_found R list_at L c reads_back i message_id by_admin t msg texts s p
        ((eq_iff msg.message_id message_id).1 same)
      ∙ ap (λ n. replace_at R c n by_admin msg s) here
  mark_from_at i message_id by_admin (t ∷ texts) (m ∷ front) back msg s (p, h) (differs, other)
        same =
      let later : suc i + length front ≡ i + suc (length front) = omega arith in
      let test = eq_iff m.message_id message_id in
      elim (Bool-cases (m.message_id == message_id)) [
        | inl equal ↦ absurd (differs (test.0 equal))
        | inr unequal ↦
            mark_from_other R list_at L c reads_back i message_id by_admin t m texts s p unequal
            ∙ mark_from_at (suc i) message_id by_admin texts front back msg s h other same
            ∙ ap (λ n. replace_at R c n by_admin msg s) later
      ]

  -- While a message is being deleted from a cache that is not full, between the read and the write
  -- of the call another one is pushed. When all calls succeed, the message that stood behind none,
  -- or otherwise the one in front of it, is overwritten by its marked copy: the one is lost, and
  -- the deleted one is still there as it was.
  pub mark_race :
      (message_id : String) (by_admin : Bool) (front back kept : List Message)
      (msg new lost : Message) (s : R.State)
      → Caches R list_at L c reads_back s (front ++ msg ∷ back)
      → All (λ m. m.message_id ≢ message_id) front
      → msg.message_id ≡ message_id
      → length (front ++ msg ∷ back) < 100
      → as_json new ∷ front ≡ kept ++ lost ∷ []
      → let push : R.State → R.State = λ t. (cache_message R c new t).1 in
        (cache_message R c new (R.l_range recent_key (pos 0) (negsuc 0) s).1).0 ≡ ok tt
        → (mark_while R c push message_id by_admin s).0 ≡ ok tt
        → Caches R list_at L c reads_back
            (mark_while R c push message_id by_admin s).1
            (kept ++ as_json (as_deleted by_admin msg) ∷ msg ∷ back)
  unfolding mark_while
  mark_race message_id by_admin front back kept msg new lost s h other same room split cached done =
      let read = R.l_range recent_key (pos 0) (negsuc 0) in
      let s1 = (cache_message R c new (read s).1).1 in
      let (texts, ranged, marked, end) =
        >>=-ok read (λ t u. mark_from R c 0 message_id by_admin t (cache_message R c new u).1) s tt
          done in
      let k = 0 + length front in
      let marked_msg = as_json (as_deleted by_admin msg) in
      let whole =
        L.ranged recent_key (negsuc 0) s texts ranged
        ∙ take_all (length (list_at s recent_key) - 0) (list_at s recent_key) (omega arith) in
      let was_read : Decodes c texts (front ++ msg ∷ back) =
        subst (λ t. Decodes c t (front ++ msg ∷ back)) (sym whole) h in
      let kept_list = L.range_reads recent_key recent_key (pos 0) (negsuc 0) s in
      let before_push = subst (λ t. Decodes c t (front ++ msg ∷ back)) (sym kept_list) h in
      let pushed =
        cache_message-Caches R list_at L c reads_back new (front ++ msg ∷ back) (read s).1
          before_push cached in
      let fits = take_all 100 (as_json new ∷ front ++ msg ∷ back) (omega (arith, room)) in
      let now_cached : as_json new ∷ front ++ msg ∷ back ≡ kept ++ lost ∷ msg ∷ back =
        ap (λ l. l ++ msg ∷ back) split ∙ append_assoc kept (lost ∷ []) (msg ∷ back) in
      let index : k ≡ length kept =
        omega (arith, ap length split, length-append kept (lost ∷ [])) in
      let step = mark_from_at 0 message_id by_admin texts front back msg s1 was_read other same in
      let (text, decoded, effect) =
        replace_at_effect R list_at L c reads_back k by_admin msg s1
          (ap (λ r. r.0) (sym step) ∙ marked) in
      let written =
        Decodes-set c (list_at s1 recent_key) (kept ++ lost ∷ msg ∷ back) k text marked_msg
          (subst (Decodes c (list_at s1 recent_key)) (fits ∙ now_cached) pushed) decoded in
      let result =
        ap (λ n. set (kept ++ lost ∷ msg ∷ back) n marked_msg) index
        ∙ set-append kept (msg ∷ back) lost marked_msg in
      let final = ap (λ t. list_at t recent_key) (end ∙ ap (λ r. r.1) step) ∙ effect in
      subst (λ t. Decodes c t (kept ++ marked_msg ∷ msg ∷ back)) (sym final)
        (subst (Decodes c (set (list_at s1 recent_key) k text)) result written)
