-- ===== src/Session/Store.antt =====
-- `Store` of internal/session/session.go: the map of entries with its time to live and its size.
-- The map is a list of keys and entries in the order in which Go visits them, which is any order: the
-- theorems hold for each. `Commit` and `Invalidate` do not save here, as with an empty `path`.
use realy_code.Common.{
  ℕ, ◌-◌, String, ℤ, pos_part, not, Option, none, some, List, [], ◌∷◌, str_eq, ◌==◌, ltb, leb,
  length, keep_if, if◌then◌else◌,
}
use realy_code.Session.Entry.{Entry, Lookup}

pub record Store : Type 0 where
  pub entries : List (String × Entry)
  -- nanoseconds; 0 where Go has 0 or less, for no limit
  pub ttl : ℕ
  pub max : ℕ

unfoldable pub new_store : ℤ → ℤ → Store
new_store ttl max = record {
  entries = [];
  ttl = pos_part ttl;
  max = if pos_part max == 0 then 1000 else pos_part max;
}

unfoldable pub find_entry : String → List (String × Entry) → Option Entry
find_entry k [] = none
find_entry k ((j, e) ∷ es) = if str_eq j k then some e else find_entry k es

unfoldable pub delete_entry : String → List (String × Entry) → List (String × Entry)
delete_entry k [] = []
delete_entry k ((j, e) ∷ es) =
    let rest = delete_entry k es in if str_eq j k then rest else (j, e) ∷ rest

unfoldable pub put_entry : String → Entry → List (String × Entry) → List (String × Entry)
unfolding delete_entry
put_entry k e es = (k, e) ∷ delete_entry k es

-- `pruneLocked`: entries used before the cutoff go. `now` is not before the epoch plus the limit.
unfoldable pub prune : ℕ → Store → Store
prune now s = if s.ttl == 0 then s else record s {
  entries = keep_if (λ (e : String × Entry). not (ltb e.1.last_used (now - s.ttl))) s.entries;
}

-- the loop of `evictLRULocked`: the oldest entry so far, none at first
unfoldable pub oldest : Option (String × ℕ) → List (String × Entry) → Option (String × ℕ)
oldest best [] = best
oldest none ((k, e) ∷ es) = oldest (some (k, e.last_used)) es
oldest (some (j, t)) ((k, e) ∷ es) =
    oldest (if ltb e.last_used t then some (k, e.last_used) else some (j, t)) es

unfoldable pub evict_key : Option (String × ℕ) → List (String × Entry) → List (String × Entry)
unfolding delete_entry
evict_key none es = es
evict_key (some (k, t)) es = if not (str_eq k "") then delete_entry k es else es

unfoldable pub evict_lru : List (String × Entry) → List (String × Entry)
unfolding oldest evict_key
evict_lru es = evict_key (oldest none es) es

-- `LastUsed = time.Now()` through the pointer to the entry under `k`
unfoldable pub touch : String → ℕ → List (String × Entry) → List (String × Entry)
touch k now [] = []
touch k now ((j, e) ∷ es) =
    let rest = touch k now es in
    if str_eq j k then (j, record e { last_used = now }) ∷ es else (j, e) ∷ rest

unfoldable pub invalidate : String → Store → Store
unfolding delete_entry
invalidate k s = if str_eq k "" then s else record s { entries = delete_entry k s.entries }

-- what `Commit` is told of the response
pub record Response : Type 0 where
  pub provider : String
  pub upstream_model : String
  pub message_count : ℕ
  pub response_id : String
  pub input_tokens : ℤ
  pub output_tokens : ℤ
  pub call_kinds : List (String × String)

abbrev pub entry_of : ℕ → Lookup → Response → Entry
entry_of now l r = record {
  key = l.new_key;
  parent_key = l.new_parent_key;
  provider = r.provider;
  upstream_model = r.upstream_model;
  session_id = l.session_id;
  tools_hash = l.tools_hash;
  instructions_hash = l.instructions_hash;
  message_count = r.message_count;
  last_message = l.new_last_message;
  response_id = r.response_id;
  call_kinds = r.call_kinds;
  last_used = now;
  output_tokens = r.output_tokens;
  input_tokens = r.input_tokens;
}

-- the eviction where the map is full
abbrev pub make_room : ℕ → List (String × Entry) → List (String × Entry)
make_room max es = if leb max (length es) then evict_lru es else es

unfoldable pub commit : ℕ → Lookup → Response → Store → Store
unfolding prune evict_lru put_entry
commit now l r s =
    if str_eq r.response_id ""
    then s
    else (let p = prune now s in
        record p { entries = put_entry l.new_key (entry_of now l r) (make_room p.max p.entries) })

-- the entry stands in the map under this key
pub data Holds (k : String) (e : Entry) : List (String × Entry) → Type 0 where
  here : {es : List (String × Entry)} → Holds k e ((k, e) ∷ es)
  there : {x : String × Entry} {es : List (String × Entry)} → Holds k e es → Holds k e (x ∷ es)
