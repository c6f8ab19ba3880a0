-- ===== src/Session/Disk.antt =====
-- internal/session/file_store.go: the store of sessions, saved to a file and loaded from it. What
-- `encoding/json` and `time` do is a parameter, and so is whether a call of `os` fails; a file system
-- gives the text under a path.
pub mod Bounds
pub mod Atomic
pub mod Reread
pub mod Reload
use realy_code.Common.{
  ℕ, zero, suc, String, ℤ, Bool, true, false, not, ◌||◌, Option, none, some, List, [], ◌∷◌, str_eq,
  concat, ltb, length, if◌then◌else◌,
}
use realy_code.Transcript.Message.{Content, Message, of_blocks}
use realy_code.Session.Entry.{Entry}
use realy_code.Session.Store.{Store, new_store, prune, put_entry, evict_lru}

pub record DiskMessage : Type 0 where
  pub role : String
  pub content : String

pub record DiskEntry : Type 0 where
  pub key : String
  pub parent_key : String
  pub provider : String
  pub upstream_model : String
  pub session_id : String
  pub tools_hash : String
  pub instructions_hash : String
  pub message_count : ℕ
  pub last_message : DiskMessage
  pub response_id : String
  pub call_kinds : List (String × String)
  pub last_used : String
  pub output_tokens : ℤ
  pub input_tokens : ℤ

-- `Stats`, and `diskStats`
pub record Stats : Type 0 where
  pub hits : ℤ
  pub misses : ℤ
  pub forced_replays : ℤ
  pub expired_invalid : ℤ
  pub input_tokens : ℤ
  pub output_tokens : ℤ

pub record DiskSnapshot : Type 0 where
  pub version : ℕ
  pub saved_at : String
  pub entries : List DiskEntry
  pub stats : Stats

pub record Codec : Type 0 where
  pub format_time : ℕ → String
  pub parse_time : String → Option ℕ
  pub marshal_content : Content → Option String
  pub unmarshal_content : String → Option Content
  pub marshal_snapshot : DiskSnapshot → Option String
  pub unmarshal_snapshot : String → Option DiskSnapshot

abbrev pub Files : Type 0
Files = String → Option String

-- which calls of `os` fail; a failed write leaves some text in the file
pub record Faults : Type 0 where
  pub mkdir : Bool
  pub write : Option String
  pub rename : Bool

module _ (j : Codec) where
  abbrev pub disk_entry : Entry → String → DiskEntry
  disk_entry e content = record {
    key = e.key;
    parent_key = e.parent_key;
    provider = e.provider;
    upstream_model = e.upstream_model;
    session_id = e.session_id;
    tools_hash = e.tools_hash;
    instructions_hash = e.instructions_hash;
    message_count = e.message_count;
    last_message = record { role = e.last_message.role; content = content };
    response_id = e.response_id;
    call_kinds = e.call_kinds;
    last_used = j.format_time e.last_used;
    output_tokens = e.output_tokens;
    input_tokens = e.input_tokens;
  }

  abbrev pub add_entry : Entry → Option String → List DiskEntry → List DiskEntry
  add_entry e none rest = rest
  add_entry e (some content) rest = disk_entry e content ∷ rest

  -- the loop of `SaveFile`
  unfoldable pub disk_entries : List (String × Entry) → List DiskEntry
  disk_entries [] = []
  disk_entries ((k, e) ∷ es) =
      add_entry e (j.marshal_content e.last_message.content) (disk_entries es)

  abbrev pub snapshot : ℕ → Store → Stats → DiskSnapshot
  snapshot now s stats = record {
    version = 1;
    saved_at = j.format_time now;
    entries = disk_entries s.entries;
    stats = stats;
  }

  -- the content of a message: nil where the file has none, `none` where it cannot be read
  abbrev pub read_content : String → Option Content
  read_content raw = if str_eq raw "" then some (of_blocks none) else j.unmarshal_content raw

  abbrev pub entry_from : DiskEntry → ℕ → Content → Entry
  entry_from d last_used content = record {
    key = d.key;
    parent_key = d.parent_key;
    provider = d.provider;
    upstream_model = d.upstream_model;
    session_id = d.session_id;
    tools_hash = d.tools_hash;
    instructions_hash = d.instructions_hash;
    message_count = d.message_count;
    last_message = record { role = d.last_message.role; content = content };
    response_id = d.response_id;
    call_kinds = d.call_kinds;
    last_used = last_used;
    output_tokens = d.output_tokens;
    input_tokens = d.input_tokens;
  }

  abbrev pub keep_read :
      DiskEntry → Option ℕ → Option Content → List (String × Entry) → List (String × Entry)
  keep_read d none content es = es
  keep_read d (some t) none es = es
  keep_read d (some t) (some content) es =
      if str_eq d.key "" || str_eq d.response_id ""
      then es
      else put_entry d.key (entry_from d t content) es

  -- one turn of the loop of `LoadFile`
  abbrev pub read_entry : DiskEntry → List (String × Entry) → List (String × Entry)
  read_entry d es = keep_read d (j.parse_time d.last_used) (read_content d.last_message.content) es

  unfoldable pub read_entries : List DiskEntry → List (String × Entry) → List (String × Entry)
  read_entries [] es = es
  read_entries (d ∷ ds) es = read_entries ds (read_entry d es)

-- `for len(store.entries) > store.max`, on fuel
unfoldable pub evict_to : ℕ → ℕ → List (String × Entry) → List (String × Entry)
evict_to zero max es = es
evict_to (suc n) max es =
    let rest = evict_to n max (evict_lru es) in if ltb max (length es) then rest else es

-- the store from a snapshot; the number of entries is fuel enough
unfoldable pub load_snapshot : Codec → ℕ → ℤ → ℤ → DiskSnapshot → Store
unfolding read_entries evict_to
load_snapshot j now ttl max snap =
    let empty = new_store ttl max in
    let p = prune now (record empty { entries = read_entries j snap.entries [] }) in
    record p { entries = evict_to (length p.entries) p.max p.entries }

pub data Loaded : Type 0 where
  loaded : Store → Option Stats → Loaded
  -- the file, or what it holds, cannot be read
  failed : Loaded

abbrev pub load_raw : Codec → ℕ → ℤ → ℤ → Option DiskSnapshot → Loaded
load_raw j now ttl max none = failed
load_raw j now ttl max (some snap) = loaded (load_snapshot j now ttl max snap) (some snap.stats)

abbrev pub load_text : Codec → ℕ → ℤ → ℤ → Option String → Loaded
load_text j now ttl max none = loaded (new_store ttl max) none
load_text j now ttl max (some raw) = load_raw j now ttl max (j.unmarshal_snapshot raw)

-- `LoadFile`; `unreadable` is an error of `os.ReadFile` other than that there is no file
unfoldable pub load_file : Codec → Bool → Files → String → ℕ → ℤ → ℤ → Loaded
unfolding load_snapshot
load_file j unreadable disk path now ttl max =
    if str_eq path ""
    then loaded (new_store ttl max) none
    else if unreadable
    then failed
    else load_text j now ttl max (disk path)

abbrev pub write_text : String → Option String → Files → Files
write_text path text disk p = if str_eq path p then text else disk p

abbrev pub tmp_of : String → String
tmp_of path = concat (path ∷ ".tmp" ∷ [])

abbrev pub rename_file : Bool → String → String → Files → Bool × Files
rename_file true path raw disk = (false, disk)
rename_file false path raw disk =
    (true, write_text path (some raw) (write_text (tmp_of path) none disk))

abbrev pub write_tmp : Faults → String → String → Files → Bool × Files
write_tmp faults path raw disk = elim faults.write [
  | some part ↦ (false, write_text (tmp_of path) (some part) disk)
  | none ↦ rename_file faults.rename path raw (write_text (tmp_of path) (some raw) disk)
]

-- `os.MkdirAll`, `os.WriteFile` and `os.Rename`, each with its early return; true where all went well
unfoldable pub write_file : Faults → String → String → Files → Bool × Files
write_file faults path raw disk =
    if faults.mkdir then (false, disk) else write_tmp faults path raw disk

abbrev pub write_raw : Faults → String → Option String → Files → Bool × Files
write_raw faults path none disk = (false, disk)
write_raw faults path (some raw) disk = write_file faults path raw disk

pub record Saved : Type 0 where
  pub ok : Bool
  pub disk : Files
  pub store : Store

-- `SaveFile`; `later` is the time of the snapshot
unfoldable pub save_file : Codec → Faults → ℕ → ℕ → String → Store → Stats → Files → Saved
unfolding disk_entries write_file
save_file j faults now later path s stats disk =
    let p = prune now s in
    let done = write_raw faults path (j.marshal_snapshot (snapshot j later p stats)) disk in
    if str_eq path ""
    then record { ok = true; disk = disk; store = s }
    else record { ok = done.0; disk = done.1; store = p }
