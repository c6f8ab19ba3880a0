-- ===== src/Session/Disk/Reread.antt =====
-- What reading the entries of a file makes of those that were written, their messages laid out anew.
use realy_code.Common.{
  suc, String, Bool, false, ◌||◌, Option, none, some, List, [], ◌∷◌, map, ◌≡◌, refl, sym, ap, ◌∙◌,
  arith, str_eq, length, if_false,
}
use realy_code.Transcript.Message.{Content}
use realy_code.Session.Entry.{Entry}
use realy_code.Session.Store.{put_entry, find_entry}
use realy_code.Session.Disk.{
  Codec, DiskEntry, DiskSnapshot, disk_entry, add_entry, disk_entries, keep_read, read_entry,
  read_entries, read_content,
}

-- The codec reads back the time of an entry that it writes, and its message as `reread` has it from the text
-- that `indent` makes of the one written; and `Commit` entered it.
abbrev pub IsReadable : Codec → (String → String) → (Content → Content) → String → Entry → Type 0
IsReadable j indent reread k e =
    (raw : String) × (j.marshal_content e.last_message.content ≡ some raw)
    × (str_eq (indent raw) "" ≡ false)
    × (j.unmarshal_content (indent raw) ≡ some (reread e.last_message.content))
    × (j.parse_time (j.format_time e.last_used) ≡ some e.last_used)
    × (k ≡ e.key)
    × (str_eq e.key "" ≡ false)
    × (str_eq e.response_id "" ≡ false)

abbrev pub AllReadable :
    Codec → (String → String) → (Content → Content) → List (String × Entry) → Type 0
AllReadable j indent reread [] = Unit
AllReadable j indent reread ((k, e) ∷ es) =
    IsReadable j indent reread k e × AllReadable j indent reread es

-- `json.MarshalIndent` lays out the raw message of an entry anew, which is its content
abbrev indented : (String → String) → DiskEntry → DiskEntry
indented indent d = record d {
  last_message = record { role = d.last_message.role; content = indent d.last_message.content };
}

abbrev pub indented_snapshot : (String → String) → DiskSnapshot → DiskSnapshot
indented_snapshot indent snap = record snap { entries = map (indented indent) snap.entries }

-- an entry whose message was written and read
abbrev reread_entry : (Content → Content) → Entry → Entry
reread_entry reread e = record e {
  last_message = record { role = e.last_message.role; content = reread e.last_message.content };
}

abbrev pub reread_entries : (Content → Content) → List (String × Entry) → List (String × Entry)
reread_entries reread [] = []
reread_entries reread ((k, e) ∷ es) = (k, reread_entry reread e) ∷ reread_entries reread es

abbrev pub reread_found : (Content → Content) → Option Entry → Option Entry
reread_found reread none = none
reread_found reread (some e) = some (reread_entry reread e)

-- the entries of a map: no key stands twice
abbrev pub IsMap : List (String × Entry) → Type 0
IsMap [] = Unit
IsMap ((k, e) ∷ es) = (find_entry k es ≡ none) × IsMap es

-- the entries in the order in which the file enters them
abbrev pub entered : List (String × Entry) → List (String × Entry) → List (String × Entry)
entered [] into = into
entered ((k, e) ∷ es) into = entered es (put_entry k e into)

neither : {a b : Bool} → a ≡ false → b ≡ false → (a || b) ≡ false
neither h k = rw (h, k)

module _ (j : Codec) (indent : String → String) (reread : Content → Content) where
  read_entry-indented :
      (k : String) (e : Entry) (into : List (String × Entry)) (raw : String)
      → str_eq (indent raw) "" ≡ false
      → j.unmarshal_content (indent raw) ≡ some (reread e.last_message.content)
      → j.parse_time (j.format_time e.last_used) ≡ some e.last_used
      → k ≡ e.key
      → str_eq e.key "" ≡ false
      → str_eq e.response_id "" ≡ false
      → read_entry j (indented indent (disk_entry j e raw)) into
        ≡ put_entry k (reread_entry reread e) into
  read_entry-indented k e into raw some_raw reads time key named id =
      let d = indented indent (disk_entry j e raw) in
      ap (λ t. keep_read j d t (read_content j (indent raw)) into) time
      ∙ ap (λ c. keep_read j d (some e.last_used) c into) (if_false _ some_raw ∙ reads)
      ∙ if_false into (neither named id)
      ∙ ap (λ q. put_entry q (reread_entry reread e) into) (sym key)

  pub read-indented :
      (es into : List (String × Entry))
      → AllReadable j indent reread es
      → read_entries j (map (indented indent) (disk_entries j es)) into
        ≡ entered (reread_entries reread es) into
  unfolding read_entries disk_entries
  read-indented [] into h = refl
  read-indented ((k, e) ∷ es) into (h, hs) =
      let (raw, marshals, some_raw, reads, time, key, named, id) = h in
      ap (λ o. read_entries j (map (indented indent) (add_entry j e o (disk_entries j es))) into)
        marshals
      ∙ ap (read_entries j (map (indented indent) (disk_entries j es)))
          (read_entry-indented k e into raw some_raw reads time key named id)
      ∙ read-indented es (put_entry k (reread_entry reread e) into) hs

pub find-reread :
    (reread : Content → Content) (q : String) (es : List (String × Entry))
    → find_entry q (reread_entries reread es) ≡ reread_found reread (find_entry q es)
unfolding find_entry
find-reread reread q [] = refl
find-reread reread q ((k, e) ∷ es) = ground (arith, find-reread reread q es)

pub length-reread :
    (reread : Content → Content) (es : List (String × Entry))
    → length (reread_entries reread es) ≡ length es
length-reread reread [] = refl
length-reread reread ((k, e) ∷ es) = ap suc (length-reread reread es)

pub IsMap-reread :
    (reread : Content → Content) (es : List (String × Entry))
    → IsMap es
    → IsMap (reread_entries reread es)
IsMap-reread reread [] h = h
IsMap-reread reread ((k, e) ∷ es) (h, hs) =
    (find-reread reread k es ∙ ap (reread_found reread) h, IsMap-reread reread es hs)
