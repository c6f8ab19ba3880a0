-- ===== src/Session/Disk/Bounds.antt =====
-- A store that is loaded keeps the bounds of the store, whatever the file holds.
use realy_code.Common.{
  ℕ, zero, suc, ◌+◌, ◌≤◌, String, ℤ, true, Option, none, some, List, [], ◌∷◌, ◌≡◌, refl, arith, ltb,
  ◌==◌, length, if_cases,
}
use realy_code.Transcript.Message.{Content}
use realy_code.Session.Entry.{Entry}
use realy_code.Session.Store.{Store, new_store, prune, put_entry, evict_lru}
use realy_code.Session.Commit.{
  IsBounded, keys_named, keys_named-delete, keys_named-keep, keys_named-evict_lru, length-evict_lru,
}
use realy_code.Session.Disk.{
  Codec, DiskEntry, DiskSnapshot, keep_read, read_entry, read_entries, read_content, evict_to,
  load_snapshot,
}

keep_read-named :
    (j : Codec) (d : DiskEntry) (t : Option ℕ) (c : Option Content) (es : List (String × Entry))
    → keys_named es ≡ true
    → keys_named (keep_read j d t c es) ≡ true
unfolding put_entry
keep_read-named j d none c es h = h
keep_read-named j d (some t) none es h = h
keep_read-named j d (some t) (some c) es h = ground (arith, keys_named-delete d.key es)

read_entries-named :
    (j : Codec) (ds : List DiskEntry) (es : List (String × Entry))
    → keys_named es ≡ true
    → keys_named (read_entries j ds es) ≡ true
unfolding read_entries
read_entries-named j [] es h = h
read_entries-named j (d ∷ ds) es h =
    read_entries-named j ds (read_entry j d es)
      (keep_read-named j d (j.parse_time d.last_used) (read_content j d.last_message.content) es h)

prune-named :
    (now : ℕ) (s : Store) → keys_named s.entries ≡ true → keys_named (prune now s).entries ≡ true
unfolding prune
prune-named now s h =
    if_cases (λ (t : Store). keys_named t.entries ≡ true) (s.ttl == 0) (λ _. h)
      (λ _. keys_named-keep _ s.entries h)

evict_to-bounded :
    (n max : ℕ) (es : List (String × Entry))
    → keys_named es ≡ true
    → length es ≤ n + max
    → (length (evict_to n max es) ≤ max) × (keys_named (evict_to n max es) ≡ true)
unfolding evict_to
evict_to-bounded zero max es h e = (omega arith, h)
evict_to-bounded (suc n) max es h e =
    if_cases (λ (xs : List (String × Entry)). (length xs ≤ max) × (keys_named xs ≡ true))
      (ltb max (length es))
      (λ over.
        evict_to-bounded n max (evict_lru es) (keys_named-evict_lru es h)
          (ground (arith, length-evict_lru es h)))
      (λ fits. (ground arith, h))

new_store_room : (ttl max : ℤ) → 1 ≤ (new_store ttl max).max
unfolding new_store
new_store_room ttl max = ground arith

prune-max : (now : ℕ) (s : Store) → (prune now s).max ≡ s.max
unfolding prune
prune-max now s = if_cases (λ (t : Store). t.max ≡ s.max) (s.ttl == 0) (λ _. refl) (λ _. refl)

-- Whatever a snapshot holds, the loaded store has no more entries than its limit, which is at least
-- one, and no entry under the empty key: the loop that evicts ends.
pub load_snapshot-IsBounded :
    (j : Codec) (now : ℕ) (ttl max : ℤ) (snap : DiskSnapshot)
    → IsBounded (load_snapshot j now ttl max snap)
unfolding load_snapshot
load_snapshot-IsBounded j now ttl max snap =
    let empty = new_store ttl max in
    let read = record empty { entries = read_entries j snap.entries [] } in
    let p = prune now read in
    let kept =
      evict_to-bounded (length p.entries) p.max p.entries
        (prune-named now read (read_entries-named j snap.entries [] refl)) (omega arith) in
    record {
      some_room = omega (arith, prune-max now read, new_store_room ttl max);
      bounded = kept.0;
      named = kept.1;
    }
