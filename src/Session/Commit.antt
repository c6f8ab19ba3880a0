-- ===== src/Session/Commit.antt =====
-- The bounds of the store, and what an eviction drops.
use realy_code.Common.{
  ℕ, ◌+◌, ◌-◌, ◌≤◌, String, Bool, true, false, not, Option, none, some, List, [], ◌∷◌, ◌≡◌, ◌≢◌,
  refl, ap, ◌∙◌, ◌⊎◌, inl, inr, arith, str_eq, str_eq_iff, ltb, leb, ◌==◌, length, keep_if,
  if◌then◌else◌, Bool-cases, if_cases, if_true, if_false, length-keep_if, ◌&&◌,
}
use realy_code.Session.Entry.{Entry, Lookup}
use realy_code.Session.Store.{
  Store, Response, entry_of, prune, find_entry, delete_entry, put_entry, oldest, evict_key,
  evict_lru, make_room, commit, invalidate,
}

-- no entry stands under the empty key
abbrev pub keys_named : List (String × Entry) → Bool
keys_named [] = true
keys_named ((k, e) ∷ es) = not (str_eq k "") && keys_named es

pub record IsBounded (s : Store) : Type 0 where
  pub some_room : 1 ≤ s.max
  pub bounded : length s.entries ≤ s.max
  pub named : keys_named s.entries ≡ true

-- how many entries stand under a key
abbrev pub at_key : String → List (String × Entry) → ℕ
at_key k [] = 0
at_key k ((j, e) ∷ es) = (if str_eq j k then 1 else 0) + at_key k es

pub length-delete :
    (k : String) (es : List (String × Entry)) → length (delete_entry k es) + at_key k es ≡ length es
unfolding delete_entry
length-delete k [] = refl
length-delete k ((j, e) ∷ es) = ground (arith, length-delete k es)

pub keys_named-delete :
    (k : String) (es : List (String × Entry))
    → keys_named es ≡ true
    → keys_named (delete_entry k es) ≡ true
unfolding delete_entry
keys_named-delete k [] h = refl
keys_named-delete k ((j, e) ∷ es) h = ground (arith, keys_named-delete k es)

pub keys_named-keep :
    (p : String × Entry → Bool) (es : List (String × Entry))
    → keys_named es ≡ true
    → keys_named (keep_if p es) ≡ true
keys_named-keep p [] h = refl
keys_named-keep p ((j, e) ∷ es) h = ground (arith, keys_named-keep p es)

-- the oldest entry is one of the list, or the best before it
oldest-at_key :
    (es : List (String × Entry)) (best : Option (String × ℕ)) (k : String) (t : ℕ)
    → oldest best es ≡ some (k, t)
    → (best ≡ some (k, t)) ⊎ (1 ≤ at_key k es)
unfolding oldest
oldest-at_key [] best k t h = inl h
oldest-at_key ((j, e) ∷ es) none k t h = elim (oldest-at_key es (some (j, e.last_used)) k t h) [
  | inl same ↦ inr (ground (arith, str_eq_iff j k))
  | inr later ↦ inr (ground arith)
]
oldest-at_key ((j, e) ∷ es) (some (i, u)) k t h =
    elim (oldest-at_key es (if ltb e.last_used u then some (j, e.last_used) else some (i, u)) k t
      h) [
        | inr later ↦ inr (ground arith)
        | inl same ↦ elim (Bool-cases (ltb e.last_used u)) [
          | inl newer ↦ inr (ground (arith, str_eq_iff j k))
          | inr older ↦ inl (ground arith)
        ]
      ]

oldest-none : (es : List (String × Entry)) (b : String × ℕ) → oldest (some b) es ≢ none
unfolding oldest
oldest-none [] b h = cc
oldest-none ((j, e) ∷ es) (i, u) h =
    oldest-none es (if ltb e.last_used u then (j, e.last_used) else (i, u))
      (pushed (ltb e.last_used u) h)
  where
    pushed :
        (t : Bool)
        → oldest (if t then some (j, e.last_used) else some (i, u)) es ≡ none
        → oldest (some (if t then (j, e.last_used) else (i, u))) es ≡ none
    pushed true q = q
    pushed false q = q

at_key_named :
    (k : String) (es : List (String × Entry))
    → keys_named es ≡ true
    → 1 ≤ at_key k es
    → str_eq k "" ≡ false
at_key_named k [] n h = absurd (omega arith)
at_key_named k ((j, e) ∷ es) n h =
    ground (arith, at_key_named k es, str_eq_iff j k, str_eq_iff k "", str_eq_iff j "")

length-evict_key :
    (o : Option (String × ℕ)) (j : String) (e : Entry) (es : List (String × Entry))
    → oldest none ((j, e) ∷ es) ≡ o
    → keys_named ((j, e) ∷ es) ≡ true
    → length (evict_key o ((j, e) ∷ es)) + 1 ≤ length ((j, e) ∷ es)
unfolding evict_key
length-evict_key none j e es found n =
    absurd (oldest-none es (j, e.last_used) (unfold oldest in found))
length-evict_key (some (k, t)) j e es found n = elim (oldest-at_key ((j, e) ∷ es) none k t found) [
  | inl before ↦ absurd (cc)
  | inr held ↦
      rw (at_key_named k ((j, e) ∷ es) n held) (omega (arith, length-delete k ((j, e) ∷ es), held))
]

-- an eviction from a list that is not empty drops an entry
pub length-evict_lru :
    (es : List (String × Entry))
    → keys_named es ≡ true
    → 1 ≤ length es
    → length (evict_lru es) + 1 ≤ length es
unfolding evict_lru
length-evict_lru [] n h = absurd (omega arith)
length-evict_lru ((j, e) ∷ es) n h = length-evict_key _ j e es refl n

pub keys_named-evict_lru :
    (es : List (String × Entry)) → keys_named es ≡ true → keys_named (evict_lru es) ≡ true
unfolding evict_lru
keys_named-evict_lru es n = by_key (oldest none es)
  where
    by_key : (o : Option (String × ℕ)) → keys_named (evict_key o es) ≡ true
    by_key none = n
    by_key (some (k, t)) =
        if_cases (λ (xs : List (String × Entry)). keys_named xs ≡ true) (not (str_eq k ""))
          (λ _. keys_named-delete k es n) (λ _. n)

length-make_room :
    (max : ℕ) (es : List (String × Entry))
    → keys_named es ≡ true
    → 1 ≤ max
    → length es ≤ max
    → (length (make_room max es) + 1 ≤ max) × (keys_named (make_room max es) ≡ true)
length-make_room max es n some_room fits =
    if_cases (λ (xs : List (String × Entry)). (length xs + 1 ≤ max) × (keys_named xs ≡ true))
      (leb max (length es))
      (λ full. (ground (arith, length-evict_lru es n), keys_named-evict_lru es n))
      (λ room. (ground arith, n))

prune-IsBounded : (now : ℕ) (s : Store) → IsBounded s → IsBounded (prune now s)
unfolding prune
prune-IsBounded now s v =
    if_cases (λ (s' : Store). IsBounded s') (s.ttl == 0) (λ _. v)
      λ _. record {
        some_room = v.some_room;
        bounded = omega (
          arith,
          length-keep_if (λ (e : String × Entry). not (ltb e.1.last_used (now - s.ttl))) s.entries,
          v.bounded,
        );
        named = keys_named-keep _ s.entries v.named;
      }

-- A commit keeps the number of entries within the limit of the store and no entry under the empty
-- key, whether it evicts, replaces or adds; the key of the lookup must not be empty.
pub commit-IsBounded :
    (now : ℕ) (l : Lookup) (r : Response) (s : Store)
    → IsBounded s
    → str_eq l.new_key "" ≡ false
    → IsBounded (commit now l r s)
unfolding commit put_entry
commit-IsBounded now l r s v key =
    if_cases (λ (s' : Store). IsBounded s') (str_eq r.response_id "") (λ _. v)
      λ _.
        let p = prune now s in
        let w : IsBounded p = prune-IsBounded now s v in
        let (room, named) = length-make_room p.max p.entries w.named w.some_room w.bounded in
        record {
          some_room = w.some_room;
          bounded = omega (arith, length-delete l.new_key (make_room p.max p.entries), room);
          named = ground (arith, keys_named-delete l.new_key (make_room p.max p.entries));
        }

pub find_entry-delete :
    (k j : String) (es : List (String × Entry))
    → find_entry j (delete_entry k es) ≡ (if str_eq k j then none else find_entry j es)
unfolding find_entry delete_entry
find_entry-delete k j [] = ground arith
find_entry-delete k j ((i, e) ∷ es) =
    ground (arith, find_entry-delete k j es, str_eq_iff i k, str_eq_iff i j, str_eq_iff k j)

find_entry-commit :
    (now : ℕ) (l : Lookup) (r : Response) (s : Store)
    → str_eq r.response_id "" ≡ false
    → find_entry l.new_key (commit now l r s).entries ≡ some (entry_of now l r)
unfolding commit put_entry find_entry
find_entry-commit now l r s id =
    if_cases (λ (s' : Store). find_entry l.new_key s'.entries ≡ some (entry_of now l r))
      (str_eq r.response_id "") (λ h. cc (h, id))
      (λ _. if_true _ ((str_eq_iff l.new_key l.new_key).1 refl))

find_entry-invalidate :
    (k j : String) (s : Store)
    → str_eq k "" ≡ false
    → find_entry j (invalidate k s).entries ≡ (if str_eq k j then none else find_entry j s.entries)
unfolding invalidate
find_entry-invalidate k j s key =
    ap (λ (s' : Store). find_entry j s'.entries) (if_false s key) ∙ find_entry-delete k j s.entries

-- After a commit with a response id the entry of the lookup is found under its key; after an
-- invalidation of a key that is not empty nothing is found under it, and any other key finds what it
-- found before.
pub commit-invalidate :
    (now : ℕ) (l : Lookup) (r : Response) (s : Store) (j : String)
    → str_eq r.response_id "" ≡ false
    → str_eq l.new_key "" ≡ false
    → (find_entry l.new_key (commit now l r s).entries ≡ some (entry_of now l r))
      × (find_entry j (invalidate l.new_key (commit now l r s)).entries
          ≡ (if str_eq l.new_key j then none else find_entry j (commit now l r s).entries))
commit-invalidate now l r s j id key =
    (find_entry-commit now l r s id, find_entry-invalidate l.new_key j (commit now l r s) key)
