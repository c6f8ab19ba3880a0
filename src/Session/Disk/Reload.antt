-- ===== src/Session/Disk/Reload.antt =====
-- What is loaded from a file is what was saved to it, its messages laid out anew.
use realy_code.Common.{
  ℕ, zero, suc, ◌+◌, ◌-◌, ◌≤◌, String, ℤ, Bool, false, not, Option, none, some, List, [], ◌∷◌, ◌≡◌,
  refl, sym, ap, ◌∙◌, arith, str_eq, str_eq_iff, ltb, ◌==◌, length, keep_if, if◌then◌else◌,
  if_cases, if_false, length-keep_if,
}
use realy_code.Transcript.Message.{Content}
use realy_code.Session.Entry.{Entry}
use realy_code.Session.Store.{Store, new_store, prune, put_entry, delete_entry, find_entry}
use realy_code.Session.Commit.{find_entry-delete, length-delete}
use realy_code.Session.Disk.Atomic.{write_text-same}
use realy_code.Session.Disk.{
  Codec, Stats, Loaded, failed, snapshot, evict_to, load_snapshot, Files, Faults, load_file,
  load_text, load_raw, loaded, save_file, Saved, write_file, write_raw, write_text, tmp_of,
}
use realy_code.Session.Disk.Reread.{
  AllReadable, IsMap, indented_snapshot, reread_entries, reread_found, entered, read-indented,
  find-reread, length-reread, IsMap-reread,
}

abbrev or_in : Option Entry → Option Entry → Option Entry
or_in (some e) o = some e
or_in none o = o

find-entered :
    (q : String) (es into : List (String × Entry))
    → IsMap es
    → find_entry q (entered es into) ≡ or_in (find_entry q es) (find_entry q into)
unfolding find_entry put_entry
find-entered q [] into h = refl
find-entered q ((k, e) ∷ es) into (h, hs) =
    ground
      (arith, find-entered q es (put_entry k e into) hs, find_entry-delete k q into, str_eq_iff k q)

IsMap-delete_entry :
    (k : String) (es : List (String × Entry)) → IsMap es → IsMap (delete_entry k es)
unfolding delete_entry find_entry
IsMap-delete_entry k [] h = h
IsMap-delete_entry k ((i, e) ∷ es) (h, hs) =
    if_cases IsMap (str_eq i k) (λ _. IsMap-delete_entry k es hs)
      (λ _. (ground (arith, find_entry-delete k i es), IsMap-delete_entry k es hs))

IsMap-put_entry :
    (k : String) (e : Entry) (es : List (String × Entry)) → IsMap es → IsMap (put_entry k e es)
unfolding put_entry
IsMap-put_entry k e es h =
    (ground (arith, find_entry-delete k k es, str_eq_iff k k), IsMap-delete_entry k es h)

IsMap-entered : (es into : List (String × Entry)) → IsMap into → IsMap (entered es into)
IsMap-entered [] into h = h
IsMap-entered ((k, e) ∷ es) into h =
    IsMap-entered es (put_entry k e into) (IsMap-put_entry k e into h)

length-entered :
    (es into : List (String × Entry)) → length (entered es into) ≤ length es + length into
unfolding put_entry
length-entered [] into = omega arith
length-entered ((k, e) ∷ es) into =
    omega (arith, length-entered es (put_entry k e into), length-delete k into)

abbrev keep_found : (Entry → Bool) → Option Entry → Option Entry
keep_found p none = none
keep_found p (some e) = if p e then some e else none

find-keep_if :
    (q : String) (p : Entry → Bool) (es : List (String × Entry))
    → IsMap es
    → find_entry q (keep_if (λ (x : String × Entry). p x.1) es) ≡ keep_found p (find_entry q es)
unfolding find_entry
find-keep_if q p [] h = refl
find-keep_if q p ((k, e) ∷ es) (h, hs) = ground (arith, find-keep_if q p es hs, str_eq_iff k q)

abbrev pruned : ℕ → ℕ → Option Entry → Option Entry
pruned now ttl o = if ttl == 0 then o else keep_found (λ e. not (ltb e.last_used (now - ttl))) o

find-prune :
    (q : String) (now : ℕ) (s : Store)
    → IsMap s.entries
    → find_entry q (prune now s).entries ≡ pruned now s.ttl (find_entry q s.entries)
unfolding prune
find-prune q now s h =
    ground (arith, find-keep_if q (λ e. not (ltb e.last_used (now - s.ttl))) s.entries h)

pruned-reread :
    (reread : Content → Content) (now ttl : ℕ) (o : Option Entry)
    → pruned now ttl (reread_found reread o) ≡ reread_found reread (pruned now ttl o)
pruned-reread reread now ttl none = ground arith
pruned-reread reread now ttl (some e) = ground arith

evict_to_fits : (n max : ℕ) (es : List (String × Entry)) → length es ≤ max → evict_to n max es ≡ es
unfolding evict_to
evict_to_fits zero max es h = refl
evict_to_fits (suc n) max es h = ground arith

prune-limits : (now : ℕ) (s : Store) → ((prune now s).ttl ≡ s.ttl) × ((prune now s).max ≡ s.max)
unfolding prune
prune-limits now s = ground arith

length-prune : (now : ℕ) (s : Store) → length (prune now s).entries ≤ length s.entries
unfolding prune
length-prune now s =
    if_cases (λ (t : Store). length t.entries ≤ length s.entries) (s.ttl == 0) (λ _. omega arith)
      (λ _.
        length-keep_if (λ (x : String × Entry). not (ltb x.1.last_used (now - s.ttl))) s.entries)

-- the store that `LoadFile` fills
abbrev filled : ℤ → ℤ → List (String × Entry) → Store
filled ttl max es = record (new_store ttl max) { entries = entered es [] }

or_in-none : (o : Option Entry) → or_in o none ≡ o
or_in-none none = refl
or_in-none (some e) = refl

find-load_snapshot :
    (j : Codec) (indent : String → String) (reread : Content → Content) (q : String) (now later : ℕ)
    (ttl max : ℤ) (s : Store) (stats : Stats)
    → s.ttl ≡ (new_store ttl max).ttl
    → s.max ≡ (new_store ttl max).max
    → AllReadable j indent reread s.entries
    → IsMap s.entries
    → length s.entries ≤ s.max
    → find_entry q
        (load_snapshot j now ttl max (indented_snapshot indent (snapshot j later s stats))).entries
      ≡ reread_found reread (find_entry q (prune now s).entries)
unfolding load_snapshot find_entry
find-load_snapshot j indent reread q now later ttl max s stats same_ttl same_max readable map_of
      fits =
    let es = reread_entries reread s.entries in
    let t = filled ttl max es in
    let p = prune now t in
    ap
      (λ es. find_entry q (
        evict_to (length (prune now (record (new_store ttl max) { entries = es })).entries)
          (prune now (record (new_store ttl max) { entries = es })).max
          (prune now (record (new_store ttl max) { entries = es })).entries))
      (read-indented j indent reread s.entries [] readable)
    ∙ ap (find_entry q) (
        evict_to_fits (length p.entries) p.max p.entries (
          omega (
            arith,
            length-prune now t,
            prune-limits now t,
            length-entered es [],
            length-reread reread s.entries,
            fits,
            same_max,
          )))
    ∙ find-prune q now t (IsMap-entered es [] tt)
    ∙ ap (pruned now t.ttl) (find-entered q es [] (IsMap-reread reread s.entries map_of))
    ∙ ap (pruned now t.ttl) (or_in-none (find_entry q es))
    ∙ ap (λ n. pruned now n (find_entry q es)) (sym same_ttl)
    ∙ ap (pruned now s.ttl) (find-reread reread q s.entries)
    ∙ pruned-reread reread now s.ttl (find_entry q s.entries)
    ∙ ap (reread_found reread) (sym (find-prune q now s map_of))

abbrev pub no_faults : Faults
no_faults = record { mkdir = false; write = none; rename = false }

saved_text :
    (j : Codec) (now later : ℕ) (path raw : String) (s : Store) (stats : Stats) (disk : Files)
    → str_eq path "" ≡ false
    → j.marshal_snapshot (snapshot j later (prune now s) stats) ≡ some raw
    → (save_file j no_faults now later path s stats disk).disk path ≡ some raw
unfolding save_file write_file
saved_text j now later path raw s stats disk named written =
    ap (λ (r : Saved). r.disk path) (if_false _ named)
    ∙ ap (λ o. (write_raw no_faults path o disk).1 path) written
    ∙ write_text-same path (some raw)
        (write_text (tmp_of path) none (write_text (tmp_of path) (some raw) disk))

-- what a load comes to: the entry under a key, and the counters
abbrev pub found_in : String → Loaded → Option Entry
found_in q (loaded s stats) = find_entry q s.entries
found_in q failed = none

abbrev pub stats_in : Loaded → Option Stats
stats_in (loaded s stats) = stats
stats_in failed = none

module _ (j : Codec) (indent : String → String) (reread : Content → Content) (now later again : ℕ)
    (path : String) (ttl max : ℤ) (s : Store) (stats : Stats) (disk : Files) (q raw : String) where
  abbrev after_restart : Loaded
  after_restart =
      load_file j false (save_file j no_faults now later path s stats disk).disk path again ttl max

  -- A store that is saved without a fault and loaded by a process with the same limits: under each key
  -- the load finds the saved entry, its message's content as the codec rereads it, as far as it is not
  -- expired when it is loaded, and nothing else; and the counters are those that were saved. The saved
  -- entries are those of a map within its limit, their keys are the map's and not empty, and each has a
  -- response id. The codec writes the snapshot, reads it back but for the layout of the raw messages,
  -- and reads back the times and, laid out anew, the messages.
  pub save-load :
      str_eq path "" ≡ false
      → s.ttl ≡ (new_store ttl max).ttl
      → s.max ≡ (new_store ttl max).max
      → AllReadable j indent reread (prune now s).entries
      → IsMap (prune now s).entries
      → length s.entries ≤ s.max
      → j.marshal_snapshot (snapshot j later (prune now s) stats) ≡ some raw
      → j.unmarshal_snapshot raw
        ≡ some (indented_snapshot indent (snapshot j later (prune now s) stats))
      → (found_in q after_restart
          ≡ reread_found reread (find_entry q (prune again (prune now s)).entries))
        × (stats_in after_restart ≡ some stats)
  unfolding load_file save_file write_file
  save-load named same_ttl same_max readable map_of fits written reads =
      let snap = indented_snapshot indent (snapshot j later (prune now s) stats) in
      let restarted : after_restart ≡ loaded (load_snapshot j again ttl max snap) (some stats) =
        if_false (loaded (new_store ttl max) none) named
        ∙ ap (load_text j again ttl max)
            (saved_text j now later path raw s stats disk named written)
        ∙ ap (load_raw j again ttl max) reads in
      (
        ap (found_in q) restarted
            ∙ find-load_snapshot j indent reread q again later ttl max (prune now s) stats
                ((prune-limits now s).0 ∙ same_ttl) ((prune-limits now s).1 ∙ same_max) readable
                map_of (omega (arith, length-prune now s, prune-limits now s, fits)),
        ap stats_in restarted,
      )
