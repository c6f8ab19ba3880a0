-- ===== src/Optim.antt =====
-- internal/optim/optim.go: requests that are answered without an upstream.
pub mod Words
pub mod Paths
use Prim.Native.String.{slice, len}
use text.Mathlib.Text.{find?, starts_with}
use realy_code.Common.{
  ℕ, zero, suc, ◌+◌, ℤ, pos, ◌==ℤ◌, String, Bool, true, false, not, ◌&&◌, ◌||◌, Option, none, some,
  List, [], ◌∷◌, map, keep_if, any_of, length, str_eq, concat, join, ltb, ◌==◌, if◌then◌else◌,
}
use realy_code.Transcript.Message.{Raw, Slice, elems, Block, Content, Message, as_blocks}
use realy_code.Transcript.Request.{Request}

pub record LocalResponse : Type 0 where
  pub text : String
  pub input_tokens : ℕ
  pub output_tokens : ℕ

-- the server settings that this package reads
pub record LocalSettings : Type 0 where
  pub enable_network_probe_mock : Bool
  pub fast_prefix_detection : Bool
  pub enable_title_generation_skip : Bool
  pub enable_suggestion_mode_skip : Bool
  pub enable_filepath_extraction_mock : Bool

-- `strings.ToLower`, `TrimSpace`, `Fields`, what is behind the last place of a text, `filepath.Base`,
-- `envAssignment.MatchString`, and `encoding/json` for a text and for blocks
pub record WordTools : Type 0 where
  pub lower : String → String
  pub trim_space : String → String
  pub fields : String → List String
  pub behind_last : String → String → String
  pub base : String → String
  pub is_env_assignment : String → Bool
  pub read_text : Raw → Option String
  pub read_blocks : Raw → Option (List Block)

abbrev pub contains : String → String → Bool
contains s t = elim (find? s t) [ none ↦ false | some _ ↦ true ]

abbrev texts_of : List Block → List String
texts_of bs = keep_if (λ s. not (str_eq s "")) (map (λ b. b.text) bs)

unfoldable pub content_text : Content → String
content_text c = join "\n" (texts_of (elems (as_blocks c)))

abbrev is_nil : {A : Type 0} → List A → Bool
is_nil [] = true
is_nil (x ∷ xs) = false

abbrev is_one_of : String → List String → Bool
is_one_of s ss = any_of (str_eq s) ss

-- the parameters of `grep` that are no flags; a flag with an argument takes the next one with it
abbrev pub is_flag_with_arg : String → Bool
is_flag_with_arg arg = is_one_of arg ("-e" ∷ "-f" ∷ "-m" ∷ "-A" ∷ "-B" ∷ "-C" ∷ [])

-- the loop of `grepPositionals`; the flag says that this argument belongs to the one before
abbrev pub positionals : Bool → List String → List String
positionals taken [] = []
positionals true (arg ∷ args) = positionals false args
positionals false (arg ∷ args) =
    let skipped = positionals (is_flag_with_arg arg) args in
    let kept = arg ∷ positionals false args in if starts_with arg "-" then skipped else kept

unfoldable pub grep_positionals : List String → List String
grep_positionals args = positionals false args

abbrev pub without_first : List String → List String
without_first [] = []
without_first (s ∷ ss) = ss

module _ (t : WordTools) where
  -- `parts[:start]` and `parts[start:]`
  abbrev pub env_words : List String → List String
  env_words [] = []
  env_words (s ∷ ss) = let later = env_words ss in if t.is_env_assignment s then s ∷ later else []

  abbrev pub command_words : List String → List String
  command_words [] = []
  command_words (s ∷ ss) =
      let later = command_words ss in if t.is_env_assignment s then later else s ∷ ss

  abbrev has_subcommand : String → Bool
  has_subcommand first =
      is_one_of first ("git" ∷ "npm" ∷ "docker" ∷ "kubectl" ∷ "cargo" ∷ "go" ∷ "pip" ∷ "yarn" ∷ [])

  abbrev pub with_env : List String → String → String
  with_env [] first = first
  with_env (e ∷ es) first = concat (join " " (e ∷ es) ∷ " " ∷ first ∷ [])

  abbrev pub prefix_of : List String → List String → String
  prefix_of envs [] = "none"
  prefix_of envs (first ∷ []) = with_env envs first
  prefix_of envs (first ∷ second ∷ rest) =
      if has_subcommand first && not (starts_with second "-")
      then concat (first ∷ " " ∷ second ∷ [])
      else with_env envs first

  unfoldable pub extract_command_prefix : String → String
  extract_command_prefix command =
      if contains command "`" || contains command "$("
      then "command_injection_detected"
      else prefix_of (env_words (t.fields command)) (command_words (t.fields command))

  abbrev pub is_listing : String → Bool
  is_listing base =
      is_one_of base ("ls" ∷ "dir" ∷ "find" ∷ "tree" ∷ "pwd" ∷ "cd" ∷ "mkdir" ∷ "rmdir" ∷ "rm" ∷ [])

  abbrev pub is_reading : String → Bool
  is_reading base = is_one_of base ("cat" ∷ "head" ∷ "tail" ∷ "less" ∷ "more" ∷ "bat" ∷ "type" ∷ [])

  abbrev pub paths_by : String → List String → List String
  paths_by base args =
      if is_listing base
      then []
      else if is_reading base
      then keep_if (λ part. not (starts_with part "-")) args
      else if str_eq base "grep"
      then without_first (grep_positionals args)
      else []

  abbrev pub paths_of : List String → List String
  paths_of [] = []
  paths_of (first ∷ args) = paths_by (t.lower (t.base first)) args

  abbrev pub listed : List String → String
  listed [] = "<filepaths>\n</filepaths>"
  listed (p ∷ ps) = concat ("<filepaths>\n" ∷ join "\n" (p ∷ ps) ∷ "\n</filepaths>" ∷ [])

  -- the output is not looked at
  unfoldable pub extract_filepaths : String → String → String
  unfolding grep_positionals
  extract_filepaths command output = listed (paths_of (command_words (t.fields command)))

  abbrev raw_by : Raw → Option String → Option (List Block) → String
  raw_by raw (some s) blocks = s
  raw_by raw none (some bs) = join "\n" (texts_of bs)
  raw_by raw none none = raw

  unfoldable pub raw_text : Raw → String
  raw_text raw = if str_eq raw "" then "" else raw_by raw (t.read_text raw) (t.read_blocks raw)

  -- the text of the only message, if the user sent it
  abbrev sole_text : List Message → Option String
  sole_text (m ∷ []) = if str_eq m.role "user" then some (content_text m.content) else none
  sole_text _ = none

  abbrev asks_quota : Option String → Bool
  asks_quota none = false
  asks_quota (some text) = contains (t.lower text) "quota"

  unfoldable pub is_quota_check : Request → Bool
  unfolding content_text
  is_quota_check q = (q.max_tokens ==ℤ pos 1) && asks_quota (sole_text q.messages)

  unfoldable pub is_title_generation : Request → Bool
  unfolding raw_text
  is_title_generation q =
      if str_eq q.system "" || not (is_nil (elems q.tools))
      then false
      else (let system = t.lower (raw_text q.system) in
          contains system "title"
          && (contains system "sentence-case title"
              || (contains system "return json"
                  && (contains system "field"
                      && (contains system "coding session" || contains system "this session")))))

  abbrev command_in : Option String → Option String
  command_in none = none
  command_in (some text) =
      if not (contains text "<policy_spec>") || not (contains text "Command:")
      then none
      else some (t.trim_space (t.behind_last "Command:" text))

  unfoldable pub is_prefix_detection : Request → Option String
  unfolding content_text
  is_prefix_detection q = command_in (sole_text q.messages)

  unfoldable pub is_suggestion_mode : Request → Bool
  unfolding content_text
  is_suggestion_mode q =
      any_of (λ m. str_eq m.role "user" && contains (content_text m.content) "[SUGGESTION MODE:")
        q.messages

  -- `output[:idx]`, trimmed, where the marker is found
  abbrev cut_at : String → String → String
  cut_at marker output = elim (find? output marker) [
    | none ↦ output
    | some i ↦ t.trim_space (slice output 0 i)
  ]

  -- what follows "Command:" in the text, and where "Output:" is in it
  abbrev parted : String → Option ℕ → Option (String × String)
  parted tail none = none
  parted tail (some i) = some (
    t.trim_space (slice tail 0 i),
    cut_at "\n\n" (cut_at "<" (t.trim_space (slice tail (i + 7) (len tail)))),
  )

  abbrev behind_command : String → Option ℕ → Option (String × String)
  behind_command text none = none
  behind_command text (some i) =
      let tail = slice text (i + 8) (len text) in parted tail (find? tail "Output:")

  abbrev paths_asked : Raw → Option String → Option (String × String)
  paths_asked system none = none
  paths_asked system (some text) =
      if not (contains text "Command:") || not (contains text "Output:")
      then none
      else if not (contains (t.lower text) "filepaths")
          && (not (contains (t.lower text) "<filepaths>")
              && (not (contains (t.lower (raw_text system)) "extract any file paths")
                  && not (contains (t.lower (raw_text system)) "file paths that this command")))
      then none
      else behind_command text (find? text "Command:")

  unfoldable pub is_filepath_extraction : Request → Option (String × String)
  unfolding content_text raw_text
  is_filepath_extraction q =
      if not (is_nil (elems q.tools)) then none else paths_asked q.system (sole_text q.messages)

  abbrev answer : String → ℕ → ℕ → Option LocalResponse
  answer text i o = some (record { text = text; input_tokens = i; output_tokens = o })

  abbrev try_paths : LocalSettings → Option (String × String) → Option LocalResponse
  try_paths cfg none = none
  try_paths cfg (some (command, output)) =
      if cfg.enable_filepath_extraction_mock
      then answer (extract_filepaths command output) 100 10
      else none

  abbrev try_others : LocalSettings → Request → Option LocalResponse
  try_others cfg q =
      if cfg.enable_title_generation_skip && is_title_generation q
      then answer "Conversation" 100 5
      else if cfg.enable_suggestion_mode_skip && is_suggestion_mode q
      then answer "" 100 1
      else try_paths cfg (is_filepath_extraction q)

  abbrev try_prefix_of : LocalSettings → Request → Option String → Option LocalResponse
  try_prefix_of cfg q none = try_others cfg q
  try_prefix_of cfg q (some command) =
      if cfg.fast_prefix_detection
      then answer (extract_command_prefix command) 100 5
      else try_others cfg q

  -- `Try`
  unfoldable pub try_local : Request → LocalSettings → Option LocalResponse
  unfolding is_quota_check is_prefix_detection is_title_generation is_suggestion_mode
      is_filepath_extraction extract_command_prefix extract_filepaths
  try_local q cfg =
      if cfg.enable_network_probe_mock && is_quota_check q
      then answer "Quota check passed." 10 5
      else try_prefix_of cfg q (is_prefix_detection q)
