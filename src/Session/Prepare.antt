-- ===== src/Session/Prepare.antt =====
-- `Prepare` of internal/session/session.go and the two searches that it makes.
pub mod Tail
pub mod Sound
pub mod Chains
use realy_code.Common.{
  ℕ, zero, suc, ◌-◌, String, Bool, true, false, not, ◌&&◌, ◌||◌, Option, none, some, List, [], ◌∷◌,
  ◌++◌, str_eq, ltb, ◌==◌, length, drop, get_elem?, if◌then◌else◌,
}
use realy_code.Transcript.Message.{Raw, Block, Message}
use realy_code.Transcript.Repair.{is_user, is_assistant}
use realy_code.Session.Entry.{Entry, Lookup, Scope, in_scope, chainable_tail, appended_user_tail}
use realy_code.Session.Store.{Store, prune, find_entry, touch}

pub record Request : Type 0 where
  pub system : Raw
  pub has_tools : Bool
  -- the canonical JSON of the tools, `none` where it cannot be made
  pub tools_json : Option String
  pub messages : List Message
  pub session_id : String

-- What the code takes from other packages. `digest` is the SHA-256 of the texts written one after
-- the other, in hexadecimal; `normalize` is the canonical JSON of a message, `none` for an error;
-- `system_text` is the text of the system field, `none` for an error.
pub record Hashing : Type 0 where
  pub digest : List String → String
  pub normalize : Message → Option String
  pub system_text : Raw → Option String
  pub same_block : Block → Block → Bool
  pub separator : String
  pub message_mark : String

-- `Prepare` fails, or, for a request without messages, runs out of the bounds of a slice.
pub data Outcome (A : Type 0) : Type 0 where
  ok : A → Outcome A
  failed : Outcome A
  panicked : Outcome A

-- the messages behind the assistant's, if each message before the first of the user is one
unfoldable pub skip_assistant : List Message → Option (List Message)
skip_assistant [] = some []
skip_assistant (m ∷ ms) =
    let rest = skip_assistant ms in
    if is_user m then some (m ∷ ms) else if not (is_assistant m) then none else rest

pub data NewTail : Type 0 where
  tail_is : List Message → NewTail
  declined : String → NewTail

abbrev pub checked_tail : Option (List Message) → NewTail
checked_tail none = declined "no new user tail after stored prefix"
checked_tail (some []) = declined "no new user tail after stored prefix"
checked_tail (some (m ∷ ms)) =
    if not (chainable_tail (m ∷ ms))
    then declined "tail contains non-user messages"
    else tail_is (m ∷ ms)

-- the messages behind a stored prefix, as the new input or not
unfoldable pub new_tail : List Message → NewTail
unfolding skip_assistant
new_tail behind = checked_tail (skip_assistant behind)

unfoldable pub last_of : Message → List Message → Message
last_of m [] = m
last_of m (n ∷ ms) = last_of n ms

-- the result of the search for a stored prefix
pub data Match : Type 0 where
  matched : String → Entry → List Message → String → Match
  unmatched : String → Match

-- one turn of the loop over `k`: the entry under a key, the messages behind the prefix, and the
-- reason of an earlier turn; `later` goes on with a shorter prefix
unfoldable pub try_prefix :
    Scope → String → Option Entry → List Message → String → (String → Match) → Match
unfolding new_tail
try_prefix scope key none behind reason later = later reason
try_prefix scope key (some e) behind reason later =
    if not (in_scope scope e) then later reason else elim (new_tail behind) [
      | declined why ↦ later why
      | tail_is tail ↦ matched key e tail reason
    ]

-- `for k := len(req.Messages) - 1; k >= 1; k--`; `key_of k` is the key of the first `k` messages
unfoldable pub match_prefix :
    Scope → (ℕ → String) → List (String × Entry) → List Message → ℕ → String → Match
unfolding try_prefix
match_prefix scope key_of es ms zero reason = unmatched reason
match_prefix scope key_of es ms (suc k) reason =
    try_prefix scope (key_of (suc k)) (find_entry (key_of (suc k)) es) (drop (suc k) ms) reason
      (λ r. match_prefix scope key_of es ms k r)

abbrev pub nth : List String → ℕ → String
nth hs i = elim (get_elem? hs i) [ none ↦ "" | some x ↦ x ]

module _ (h : Hashing) where
  unfoldable pub combine_key : String → String → String → String → String → String
  combine_key provider model instr tools prefix = h.digest (
      provider ∷ h.separator ∷ model ∷ h.separator ∷ instr ∷ h.separator ∷ tools ∷ h.separator
      ∷ prefix ∷ [])

  unfoldable pub hash_string : String → String
  hash_string s = if str_eq s "" then "" else h.digest (s ∷ [])

  unfoldable pub hash_tools : Request → Option String
  hash_tools req =
      if not req.has_tools
      then some ""
      else elim req.tools_json [ none ↦ none | some json ↦ some (h.digest (json ∷ [])) ]

  -- the loop of `hashMessagePrefixes`; `written` is what the hash was given so far
  unfoldable pub hash_prefixes : List String → List Message → Option (List String)
  hash_prefixes written [] = some []
  hash_prefixes written (m ∷ ms) = elim (h.normalize m) [
    | none ↦ none
    | some norm ↦
        let now = written ++ (h.message_mark ∷ norm ∷ []) in
        elim (hash_prefixes now ms) [ none ↦ none | some hs ↦ some (h.digest now ∷ hs) ]
  ]

  -- the better of the best entry so far and one that has the tail, if it has
  unfoldable pub better_of :
      Option (String × Entry × Message)
      → String
      → Entry
      → Option Message
      → Option (String × Entry × Message)
  better_of best k e none = best
  better_of none k e (some tail) = some (k, e, tail)
  better_of (some (k', e', tail')) k e (some tail) =
      if ltb e'.last_used e.last_used then some (k, e, tail) else some (k', e', tail')

  unfoldable pub better_appended :
      Scope
      → String
      → ℕ
      → Message
      → Option (String × Entry × Message)
      → String
      → Entry
      → Option (String × Entry × Message)
  unfolding better_of
  better_appended scope parent n last best k e =
      if not (in_scope scope e) || not (e.message_count == n) || not (str_eq e.parent_key parent)
      then best
      else better_of best k e (appended_user_tail h.same_block e.last_message last)

  -- the loop of `findAppendedUserTailLocked`, with the best entry so far
  unfoldable pub best_appended :
      Scope
      → String
      → ℕ
      → Message
      → Option (String × Entry × Message)
      → List (String × Entry)
      → Option (String × Entry × Message)
  unfolding better_appended
  best_appended scope parent n last best [] = best
  best_appended scope parent n last best ((k, e) ∷ es) =
      best_appended scope parent n last (better_appended scope parent n last best k e) es

  unfoldable pub find_appended_user_tail :
      Scope → String → ℕ → Message → List (String × Entry) → Option (String × Entry × Message)
  unfolding best_appended
  find_appended_user_tail scope parent n last es =
      if not (is_user last) || (str_eq scope.session_id "" && str_eq parent "")
      then none
      else best_appended scope parent n last none es

  abbrev pub scope_of : String → String → Request → String → String → Scope
  scope_of provider model req instr tools = record {
    provider = provider;
    upstream_model = model;
    session_id = req.session_id;
    tools_hash = tools;
    instructions_hash = instr;
  }

  -- the key of the first `k` messages
  abbrev pub prefix_key : Scope → List String → ℕ → String
  prefix_key scope prefixes k =
      combine_key scope.provider scope.upstream_model scope.instructions_hash scope.tools_hash
        (nth prefixes (k - 1))

  -- the lookup before the searches
  abbrev pub bare_lookup : Scope → List String → ℕ → Message → Lookup
  bare_lookup scope prefixes n last = record {
    chain = none;
    tail = [];
    full_replay_reason = "";
    new_key = prefix_key scope prefixes n;
    new_parent_key = if ltb 1 n then prefix_key scope prefixes (n - 1) else "";
    new_last_message = last;
    session_id = scope.session_id;
    tools_hash = scope.tools_hash;
    instructions_hash = scope.instructions_hash;
  }

  -- `e.LastUsed = time.Now()`, in the map and in the entry that the lookup points at
  abbrev pub chained : Lookup → Store → String → Entry → List Message → String → ℕ → Lookup × Store
  chained l s key e tail reason now = (
    record l {
      chain = some (key, record e { last_used = now });
      tail = tail;
      full_replay_reason = reason;
    },
    record s { entries = touch key now s.entries },
  )

  abbrev pub or_no_match : String → String
  or_no_match reason = if str_eq reason "" then "no matching prefix" else reason

  abbrev pub finish_match : Lookup → Store → ℕ → Match → Lookup × Store
  finish_match l s now (matched key e tail reason) = chained l s key e tail reason now
  finish_match l s now (unmatched reason) =
      (record l { full_replay_reason = or_no_match reason }, s)

  abbrev pub finish_search :
      Scope
      → List String
      → List Message
      → Lookup
      → Store
      → ℕ
      → Option (String × Entry × Message)
      → Lookup × Store
  finish_search scope prefixes ms l s now (some (key, e, tail)) =
      chained l s key e (tail ∷ []) "" now
  finish_search scope prefixes ms l s now none =
      finish_match l s now
        (match_prefix scope (prefix_key scope prefixes) s.entries ms (length ms - 1) "")

  -- the searches, on the pruned store
  unfoldable pub search_store :
      Scope → List String → List Message → Message → Store → ℕ → Lookup × Store
  unfolding combine_key find_appended_user_tail match_prefix touch
  search_store scope prefixes ms last s now =
      let l = bare_lookup scope prefixes (length ms) last in
      finish_search scope prefixes ms l s now
        (find_appended_user_tail scope l.new_parent_key (length ms) last s.entries)

  abbrev pub prepare_messages :
      Scope → List String → List Message → Store → ℕ → ℕ → Outcome (Lookup × Store)
  prepare_messages scope prefixes [] s now later = panicked
  prepare_messages scope prefixes (m ∷ ms) s now later =
      ok (search_store scope prefixes (m ∷ ms) (last_of m ms) (prune now s) later)

  -- `now` is the time at which the store is pruned, `later` that at which an entry is used.
  unfoldable pub prepare : String → String → Request → Store → ℕ → ℕ → Outcome (Lookup × Store)
  unfolding hash_string hash_tools hash_prefixes search_store
  prepare provider model req s now later = elim (h.system_text req.system) [
    | none ↦ failed
    | some instr ↦ elim (hash_tools req) [
      | none ↦ failed
      | some tools ↦ elim (hash_prefixes [] req.messages) [
        | none ↦ failed
        | some prefixes ↦
            prepare_messages (scope_of provider model req (hash_string instr) tools) prefixes
              req.messages s now later
      ]
    ]
  ]
