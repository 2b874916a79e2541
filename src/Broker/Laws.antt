-- ===== src/Broker/Laws.antt =====
-- The cache of redis_broker.go as a list of messages, newest first.
use digital_square.Base.{
  ℕ, zero, suc, ◌-◌, ◌≤◌, String, ◌==◌, ◌≡◌, refl, ap, sym, ◌∙◌, Bool, true, false, some, List, [],
  ◌∷◌, ◌++◌, length, take, length-take, length-append, append_assoc, set, set-append, take_all,
  arith, if◌then◌else◌, Bool-cases, inl, inr,
}
use digital_square.Errors.{ok}
use digital_square.Action.{from, pure, ◌>>◌, >>=-ok}
use digital_square.Codec.{Codec}
use digital_square.Models.{Message}
use digital_square.Redis.{ℤ, Redis, IsListStore, pos, negsuc, before, up_to}
use digital_square.Broker.{
  recent_key, decode_messages, as_deleted, cache_message, get_recent_messages, mark_from,
  replace_at, mark_message_as_deleted,
}

-- What a message keeps in its JSON form: `User.PasswordHash` is tagged `json:"-"`.
abbrev pub as_json : Message → Message
as_json msg = record msg { user = record msg.user { password_hash = "" } }

-- encoding/json reads back what it has written.
abbrev pub ReadsBack : Codec Message → Type 0
ReadsBack c =
    (msg : Message) (text : String)
    → c.marshal msg ≡ ok text
    → c.unmarshal text ≡ some (as_json msg)

-- The texts are the messages, one by one.
abbrev pub Decodes : Codec Message → List String → List Message → Type 0
Decodes c [] [] = Unit
Decodes c (text ∷ texts) (msg ∷ msgs) = (c.unmarshal text ≡ some msg) × Decodes c texts msgs
Decodes c _ _ = ⊥

-- The first message with this id is marked, and no other is changed.
pub mark_first : String → Bool → List Message → List Message
mark_first message_id by_admin [] = []
mark_first message_id by_admin (msg ∷ msgs) =
    if msg.message_id == message_id
    then as_json (as_deleted by_admin msg) ∷ msgs
    else msg ∷ mark_first message_id by_admin msgs

module _ (c : Codec Message) where
  Decodes-take :
      (n : ℕ) (texts : List String) (msgs : List Message)
      → Decodes c texts msgs
      → Decodes c (take n texts) (take n msgs)
  Decodes-take zero texts msgs h = tt
  Decodes-take (suc n) [] [] h = tt
  Decodes-take (suc n) [] (msg ∷ msgs) h = absurd h
  Decodes-take (suc n) (text ∷ texts) [] h = absurd h
  Decodes-take (suc n) (text ∷ texts) (msg ∷ msgs) (p, h) = (p, Decodes-take n texts msgs h)

  Decodes-length :
      (texts : List String) (msgs : List Message)
      → Decodes c texts msgs
      → length texts ≡ length msgs
  Decodes-length [] [] h = refl
  Decodes-length [] (msg ∷ msgs) h = absurd h
  Decodes-length (text ∷ texts) [] h = absurd h
  Decodes-length (text ∷ texts) (msg ∷ msgs) (p, h) = ap suc (Decodes-length texts msgs h)

  decode_messages-Decodes :
      (texts : List String) (msgs : List Message)
      → Decodes c texts msgs
      → decode_messages c texts ≡ msgs
  unfolding decode_messages
  decode_messages-Decodes [] [] h = refl
  decode_messages-Decodes [] (msg ∷ msgs) h = absurd h
  decode_messages-Decodes (text ∷ texts) [] h = absurd h
  decode_messages-Decodes (text ∷ texts) (msg ∷ msgs) (p, h) =
      ground (arith, p, decode_messages-Decodes texts msgs h)

  -- The same range of the texts decodes to the same range of the messages.
  Decodes-up_to :
      (last : ℤ) (texts : List String) (msgs : List Message)
      → Decodes c texts msgs
      → Decodes c (up_to last texts) (up_to last msgs)
  Decodes-up_to (pos n) texts msgs h = Decodes-take (suc n) texts msgs h
  Decodes-up_to (negsuc n) texts msgs h =
      rw (Decodes-length texts msgs h) (Decodes-take (length msgs - n) texts msgs h)

module _ (R : Redis) (list_at : R.State → String → List String) (L : IsListStore R list_at)
    (c : Codec Message) (reads_back : ReadsBack c) where
  -- The cached list is these messages.
  abbrev pub Caches : R.State → List Message → Type 0
  Caches s msgs = Decodes c (list_at s recent_key) msgs

  cache_message_effect :
      (msg : Message) (s : R.State)
      → (cache_message R c msg s).0 ≡ ok tt
      → (text : String) × (c.marshal msg ≡ ok text)
        × (list_at (cache_message R c msg s).1 recent_key ≡ take 100 (text ∷ list_at s recent_key))
  unfolding cache_message
  cache_message_effect msg s done =
      let (text, marshalled, rest, same) =
        >>=-ok (from (λ _. c.marshal msg))
          (λ t. R.l_push recent_key t >> R.l_trim recent_key (pos 0) (pos 99)) s tt done in
      let (_, pushed, trimmed, same') =
        >>=-ok (R.l_push recent_key text) (λ _. R.l_trim recent_key (pos 0) (pos 99)) s tt rest in
      let s1 = (R.l_push recent_key text s).1 in
      (
        text,
        marshalled,
        ap (λ t. list_at t recent_key) (same ∙ same')
            ∙ L.trimmed recent_key (pos 99) s1 trimmed
            ∙ ap (take 100) (L.pushed recent_key text s pushed),
      )

  -- When it succeeds, caching a message puts it in front and keeps the 100 newest.
  pub cache_message-Caches :
      (msg : Message) (msgs : List Message) (s : R.State)
      → Caches s msgs
      → (cache_message R c msg s).0 ≡ ok tt
      → Caches (cache_message R c msg s).1 (take 100 (as_json msg ∷ msgs))
  unfolding cache_message
  cache_message-Caches msg msgs s h done =
      let (text, marshalled, effect) = cache_message_effect msg s done in
      rw effect (
        Decodes-take c 100 (text ∷ list_at s recent_key) (as_json msg ∷ msgs)
          (reads_back msg text marshalled, h))

  -- Whatever the list held before, at most 100 texts are left when a message was cached.
  length-cache_message :
      (msg : Message) (s : R.State)
      → (cache_message R c msg s).0 ≡ ok tt
      → length (list_at (cache_message R c msg s).1 recent_key) ≤ 100
  unfolding cache_message
  length-cache_message msg s done =
      let (text, _, effect) = cache_message_effect msg s done in
      rw effect (omega (arith, length-take 100 (text ∷ list_at s recent_key)))

  -- A read of the cache that succeeds gives its newest messages, as many as were asked for.
  pub get_recent_messages-Caches :
      (limit : ℕ) (msgs found : List Message) (s : R.State)
      → Caches s msgs
      → (get_recent_messages R c limit s).0 ≡ ok found
      → found ≡ up_to (before limit) msgs
  unfolding get_recent_messages
  get_recent_messages-Caches limit msgs found s h done =
      let (texts, ranged, same, _) =
        >>=-ok (R.l_range recent_key (pos 0) (before limit)) (λ t. pure (decode_messages c t)) s
          found done in
      let range = L.ranged recent_key (before limit) s texts ranged in
      let decoded = decode_messages-Decodes c _ _ (Decodes-up_to c (before limit) _ msgs h) in
      cc (same, ap (decode_messages c) range, decoded)

  module _ (i : ℕ) (message_id : String) (by_admin : Bool) (text : String) (msg : Message)
      (texts : List String) (s : R.State) (p : c.unmarshal text ≡ some msg) where
    pub mark_from_other :
        (msg.message_id == message_id) ≡ false
        → mark_from R c i message_id by_admin (text ∷ texts) s
          ≡ mark_from R c (suc i) message_id by_admin texts s
    unfolding mark_from
    mark_from_other other = rw (p, mark_from) (rw other)

    pub mark_from_found :
        (msg.message_id == message_id) ≡ true
        → mark_from R c i message_id by_admin (text ∷ texts) s ≡ replace_at R c i by_admin msg s
    unfolding mark_from
    mark_from_found found = rw (p, mark_from) (rw found)

  pub replace_at_effect :
      (i : ℕ) (by_admin : Bool) (msg : Message) (s : R.State)
      → (replace_at R c i by_admin msg s).0 ≡ ok tt
      → (text : String) × (c.unmarshal text ≡ some (as_json (as_deleted by_admin msg)))
        × (list_at (replace_at R c i by_admin msg s).1 recent_key
            ≡ set (list_at s recent_key) i text)
  unfolding replace_at
  replace_at_effect i by_admin msg s done =
      let (text, marshalled, rest, same) =
        >>=-ok (from (λ _. c.marshal (as_deleted by_admin msg))) (λ t. R.l_set recent_key (pos i) t)
          s tt done in
      (
        text,
        reads_back (as_deleted by_admin msg) text marshalled,
        ap (λ t. list_at t recent_key) same ∙ L.stored recent_key text i s rest,
      )

  -- The loop at index `i`: the texts before it stay, and the rest becomes `mark_first` of the rest.
  mark_from-Decodes :
      (i : ℕ) (message_id : String) (by_admin : Bool) (front texts : List String)
      (msgs : List Message) (s : R.State)
      → length front ≡ i
      → list_at s recent_key ≡ front ++ texts
      → Decodes c texts msgs
      → (mark_from R c i message_id by_admin texts s).0 ≡ ok tt
      → (texts' : List String) × (list_at (mark_from R c i message_id by_admin texts s).1 recent_key
          ≡ front ++ texts')
        × Decodes c texts' (mark_first message_id by_admin msgs)
  unfolding mark_from mark_first
  mark_from-Decodes i message_id by_admin front [] [] s e l h done = ([], l, tt)
  mark_from-Decodes i message_id by_admin front [] (msg ∷ msgs) s e l h done = absurd h
  mark_from-Decodes i message_id by_admin front (text ∷ texts) [] s e l h done = absurd h
  mark_from-Decodes i message_id by_admin front (text ∷ texts) (msg ∷ msgs) s e l (p, h) done =
      elim (Bool-cases (msg.message_id == message_id)) [
        | inl found ↦
            let step = mark_from_found i message_id by_admin text msg texts s p found in
            let (text', decoded, effect) = replace_at_effect i by_admin msg s (rw step at done) in
            (
              text' ∷ texts,
              ap (λ r. list_at r.1 recent_key) step
                  ∙ effect
                  ∙ ap (λ t. set t i text') l
                  ∙ ap (λ n. set (front ++ text ∷ texts) n text') (sym e)
                  ∙ set-append front texts text text',
              rw found (decoded, h),
            )
        | inr other ↦
            let step = mark_from_other i message_id by_admin text msg texts s p other in
            let (texts', l', h') =
              mark_from-Decodes (suc i) message_id by_admin (front ++ text ∷ []) texts msgs s
                (omega (arith, e, length-append front (text ∷ [])))
                (l ∙ sym (append_assoc front (text ∷ []) texts)) h (rw step at done) in
            (
              text ∷ texts',
              ap (λ r. list_at r.1 recent_key) step ∙ l' ∙ append_assoc front (text ∷ []) texts',
              rw other (p, h'),
            )
      ]

  -- When it succeeds, marking a message as deleted marks the newest cached message with that id;
  -- all others, their order and their number stay.
  pub mark_message_as_deleted-Caches :
      (message_id : String) (by_admin : Bool) (msgs : List Message) (s : R.State)
      → Caches s msgs
      → (mark_message_as_deleted R c message_id by_admin s).0 ≡ ok tt
      → Caches
          (mark_message_as_deleted R c message_id by_admin s).1
          (mark_first message_id by_admin msgs)
  unfolding mark_message_as_deleted
  mark_message_as_deleted-Caches message_id by_admin msgs s h done =
      let read = R.l_range recent_key (pos 0) (negsuc 0) in
      let (texts, ranged, marked, same) =
        >>=-ok read (λ t. mark_from R c 0 message_id by_admin t) s tt done in
      let whole =
        L.ranged recent_key (negsuc 0) s texts ranged
        ∙ take_all (length (list_at s recent_key) - 0) (list_at s recent_key) (omega arith) in
      let kept = L.range_reads recent_key recent_key (pos 0) (negsuc 0) s in
      let (texts', l, decoded) =
        mark_from-Decodes 0 message_id by_admin [] texts msgs (read s).1 refl (kept ∙ sym whole)
          (rw (whole) h) marked in
      rw (ap (λ t. list_at t recent_key) same ∙ l) decoded
