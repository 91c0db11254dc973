-- ===== src/Dns/Answers.antt =====
-- src/dns.rs: where a reply of the resolver comes from.
use mathlib.Core.List.{Memᴰ}
use lwrt.Base.{
  ℕ, ◌+◌, ◌-◌, ◌≤◌, ◌<◌, List, [], ◌∷◌, Option, none, some, length, drop, get_or, ltb, ◌≡◌, refl,
  sym, ap, subst, ◌∙◌, All, arith, inl, inr, Bool-cases, ltb→lt,
}
use lwrt.Base.Bytes.{Bytes}
use lwrt.Base.Map.{get, insert, bytes_key, same_key, same_key_iff, get-insert}
use lwrt.Text.{Text}
use lwrt.Dns.{
  Query, Cache, Outcome, ttl, local_answer, with_id, stored, forwarded, hit, cached, answered, step,
  next, run,
}

-- A response, where there is one, has two bytes or more.
abbrev pub HasId : Option Bytes → Type 0
HasId none = Unit
HasId (some resp) = 2 ≤ length resp

-- An entry of the cache is the response to one of the queries, its id zeroed.
record IsBacked (P : Query → Type 0) (k v : Bytes) (when : ℕ) : Type 0 where
  old : Query
  resp : Bytes
  asked : P old
  question : drop 12 old.bytes ≡ k
  response : old.response ≡ some resp
  zeroed : with_id 0 0 resp ≡ some v
  time : old.stored_at ≡ when

abbrev AllBacked : (Query → Type 0) → Cache → Type 0
AllBacked P cache = (k v : Bytes) (when : ℕ) → get k cache ≡ some (v, when) → IsBacked P k v when

-- What a reply may be, where `P` holds of the queries before.
pub data IsAnswer (lossy : Bytes → Text) (P : Query → Type 0) (q : Query)
    : Option Bytes → Type 0 where
  ignored : length q.bytes < 12 → IsAnswer lossy P q none
  by_lease :
      (r : Bytes) → local_answer lossy q.leases q.bytes ≡ some r → IsAnswer lossy P q (some r)
  unanswered :
      local_answer lossy q.leases q.bytes ≡ none → q.response ≡ none → IsAnswer lossy P q none
  by_upstream :
      (r : Bytes)
      → local_answer lossy q.leases q.bytes ≡ none
      → q.response ≡ some r
      → IsAnswer lossy P q (some r)
  by_cache :
      (old : Query) (resp : Bytes)
      → local_answer lossy q.leases q.bytes ≡ none
      → P old
      → drop 12 old.bytes ≡ drop 12 q.bytes
      → old.response ≡ some resp
      → q.asked_at < old.stored_at + ttl
      → IsAnswer lossy P q (some (get_or q.bytes 0 0 ∷ get_or q.bytes 1 0 ∷ drop 2 resp))

with_id-HasId : (resp : Bytes) → 2 ≤ length resp → with_id 0 0 resp ≡ some (0 ∷ 0 ∷ drop 2 resp)
with_id-HasId [] h = absurd (omega arith)
with_id-HasId (x ∷ []) h = absurd (omega arith)
with_id-HasId (x ∷ y ∷ bs) h = refl

with_id-twice :
    (a b : ℕ) (resp v : Bytes)
    → with_id 0 0 resp ≡ some v
    → with_id a b v ≡ some (a ∷ b ∷ drop 2 resp)
with_id-twice a b [] v h = cc
with_id-twice a b (x ∷ []) v h = cc
with_id-twice a b (x ∷ y ∷ bs) v h = subst (λ w. with_id a b w ≡ some (a ∷ b ∷ bs)) (same h) refl
  where
    same : {x y : Bytes} → some x ≡ some y → x ≡ y
    same e = cc

module _ (lossy : Bytes → Text) (P : Query → Type 0) where
  -- The round ends, with such a reply and such a cache.
  record IsStep (q : Query) (o : Outcome) : Type 0 where
    reply : Option Bytes
    cache : Cache
    result : o ≡ some (reply, cache)
    answer : IsAnswer lossy P q reply
    keeps : P q → AllBacked P cache

  insert-AllBacked :
      (q : Query) (resp store : Bytes) (cache : Cache)
      → AllBacked P cache
      → q.response ≡ some resp
      → with_id 0 0 resp ≡ some store
      → P q
      → AllBacked P (insert (drop 12 q.bytes) (store, q.stored_at) cache)
  insert-AllBacked q resp store cache h r w p k v when e =
      let found = sym (get-insert (drop 12 q.bytes) k (store, q.stored_at) cache) ∙ e in
      elim (Bool-cases (same_key (drop 12 q.bytes) k)) [
        | inl matches ↦
            let (content, time) = same (rw matches at found) in
            record {
              old = q;
              resp = resp;
              asked = p;
              question = (same_key_iff (drop 12 q.bytes) k).0 matches;
              response = r;
              zeroed = w ∙ ap some content;
              time = time;
            }
        | inr differs ↦ h k v when (rw differs at found)
      ]
    where
      same :
          {a b : Bytes} {x y : ℕ}
          → ◌≡◌ {A = Option (Bytes × ℕ)} (some (a, x)) (some (b, y))
          → (a ≡ b) × (x ≡ y)
      same e = (cc, cc)

  forwarded-IsStep :
      (q : Query) (cache : Cache) (o : Option Bytes)
      → AllBacked P cache
      → local_answer lossy q.leases q.bytes ≡ none
      → q.response ≡ o
      → HasId o
      → IsStep q (forwarded q cache o)
  forwarded-IsStep q cache none h l r i = record {
    reply = none;
    cache = cache;
    result = refl;
    answer = unanswered l r;
    keeps = λ p. h;
  }
  forwarded-IsStep q cache (some resp) h l r i =
      let zeroed = with_id-HasId resp i in
      record {
        reply = some resp;
        cache = insert (drop 12 q.bytes) (0 ∷ 0 ∷ drop 2 resp, q.stored_at) cache;
        result = ap (stored q resp cache) zeroed;
        answer = by_upstream resp l r;
        keeps = insert-AllBacked q resp (0 ∷ 0 ∷ drop 2 resp) cache h r zeroed;
      }

  cached-IsStep :
      (q : Query) (cache : Cache) (o : Option (Bytes × ℕ))
      → AllBacked P cache
      → local_answer lossy q.leases q.bytes ≡ none
      → get (drop 12 q.bytes) cache ≡ o
      → HasId q.response
      → IsStep q (cached q cache o)
  cached-IsStep q cache none h l g i = forwarded-IsStep q cache q.response h l refl i
  cached-IsStep q cache (some (v, when)) h l g i = elim (Bool-cases (ltb (q.asked_at - when) ttl)) [
    | inr late ↦ rw late (forwarded-IsStep q cache q.response h l refl i)
    | inl fresh ↦
        let b = h (drop 12 q.bytes) v when g in
        let again = with_id-twice (get_or q.bytes 0 0) (get_or q.bytes 1 0) b.resp v b.zeroed in
        let near = ltb→lt (q.asked_at - when) ttl fresh in
        rw fresh (record {
          reply = some (get_or q.bytes 0 0 ∷ get_or q.bytes 1 0 ∷ drop 2 b.resp);
          cache = cache;
          result = ap (hit cache) again;
          answer =
              by_cache b.old b.resp l b.asked b.question b.response (omega (arith, near, b.time));
          keeps = λ p. h;
        })
  ]

  answered-IsStep :
      (q : Query) (cache : Cache) (o : Option Bytes)
      → AllBacked P cache
      → local_answer lossy q.leases q.bytes ≡ o
      → HasId q.response
      → IsStep q (answered q cache o)
  answered-IsStep q cache none h l i =
      cached-IsStep q cache (get (drop 12 q.bytes) cache) h l refl i
  answered-IsStep q cache (some r) h l i = record {
    reply = some r;
    cache = cache;
    result = refl;
    answer = by_lease r l;
    keeps = λ p. h;
  }

  step-IsStep :
      (q : Query) (cache : Cache)
      → AllBacked P cache
      → HasId q.response
      → IsStep q (step lossy q cache)
  unfolding step
  step-IsStep q cache h i = elim (Bool-cases (ltb (length q.bytes) 12)) [
    | inl short ↦ rw short (record {
      reply = none;
      cache = cache;
      result = refl;
      answer = ignored (ltb→lt (length q.bytes) 12 short);
      keeps = λ p. h;
    })
    | inr whole ↦ rw whole (answered-IsStep q cache (local_answer lossy q.leases q.bytes) h refl i)
  ]

  run-AllBacked :
      (qs : List Query) (cache : Cache)
      → All P qs
      → All (λ q. HasId q.response) qs
      → AllBacked P cache
      → (c : Cache) × (run lossy qs cache ≡ some c) × AllBacked P c
  unfolding run
  run-AllBacked [] cache p i h = (cache, refl, h)
  run-AllBacked (q ∷ qs) cache (p, ps) (i, is) h =
      let s = step-IsStep q cache h i in
      let (c, e, k) = run-AllBacked qs s.cache ps is (s.keeps p) in
      (c, ap (λ o. next lossy o (run lossy qs)) s.result ∙ e, k)

abbrev pub Among : List Query → Query → Type 0
Among past p = Memᴰ p past

All-Memᴰ : (xs ys : List Query) → ((x : Query) → Memᴰ x xs → Memᴰ x ys) → All (λ x. Memᴰ x ys) xs
All-Memᴰ [] ys h = tt
All-Memᴰ (x ∷ xs) ys h = (h x (Memᴰ.head refl), All-Memᴰ xs ys (λ y m. h y (Memᴰ.tail m)))

empty-AllBacked : (P : Query → Type 0) → AllBacked P []
unfolding get
empty-AllBacked P k v when e = absurd (untrue e)
  where
    untrue : {x : Bytes × ℕ} → ¬ (none ≡ some x)
    untrue e = cc

-- After any queries from the start, where the responses have two bytes or more, nothing has panicked and
-- the next query is served: a short one is ignored; the reply is the one for a leased hostname where there
-- is one; else it is the upstream server's response to the query itself, or to an earlier query with the
-- same question, stored less than 60 seconds before, whatever the time to live in it, with the id of the
-- query; and nothing is sent where the upstream server does not respond.
pub serve-answers :
    (lossy : Bytes → Text) (past : List Query) (q : Query)
    → All (λ p. HasId p.response) past
    → HasId q.response
    → (cache : Cache) × (run lossy past [] ≡ some cache)
      × (reply : Option Bytes) × (cache' : Cache) × (step lossy q cache ≡ some (reply, cache'))
      × IsAnswer lossy (Among past) q reply
serve-answers lossy past q h i =
    let P = Among past in
    let (cache, e, backed) =
      run-AllBacked lossy P past [] (All-Memᴰ past past (λ x m. m)) h (empty-AllBacked P) in
    let s = step-IsStep lossy P q cache backed i in (cache, e, s.reply, s.cache, s.result, s.answer)
