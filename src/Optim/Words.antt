-- ===== src/Optim/Words.antt =====
-- The answer to a question for the prefix of a command.
use Prim.Native.String.{◌++◌ as append}
use realy_code.Common.{String, List, [], ◌++◌, join, ◌≡◌}
use realy_code.Optim.{WordTools, command_words}

module _ (t : WordTools) where
  -- an answer to the question for the prefix of a command with these words
  pub data PrefixOf (parts : List String) : String → Type 0 where
    no_command : command_words t parts ≡ [] → PrefixOf parts "none"
    with_env_words : (ws rest : List String) → ws ++ rest ≡ parts → PrefixOf parts (join " " ws)
    bare :
        (ws rest : List String) → ws ++ rest ≡ command_words t parts → PrefixOf parts (join " " ws)
