-- ===== src/Examples/Commands.antt =====
-- Two commands: FOO=1 git status, and cat a.txt.
use realy_code.Common.{concat, String, List, none, [], ◌∷◌, ◌≡◌, str_eq, if◌then◌else◌}
use realy_code.Optim.{WordTools, extract_filepaths}
use realy_code.Optim.Paths.{PathsOf, path_lines, filepaths_of_command}

abbrev word_tools : WordTools
word_tools = record {
  lower = λ s. s;
  trim_space = λ s. s;
  fields =
      λ s. if str_eq s "cat a.txt" then "cat" ∷ "a.txt" ∷ [] else "FOO=1" ∷ "git" ∷ "status" ∷ [];
  behind_last = λ s text. text;
  base = λ s. s;
  is_env_assignment = λ s. str_eq s "FOO=1";
  read_text = λ _. none;
  read_blocks = λ _. none;
}

filepaths_of_command_example :
    (ps : List String) × PathsOf word_tools (word_tools.fields "cat a.txt") ps
    × (extract_filepaths word_tools "cat a.txt" ""
        ≡ concat ("<filepaths>\n" ∷ path_lines ps ∷ "</filepaths>" ∷ []))
filepaths_of_command_example = filepaths_of_command word_tools "cat a.txt" ""
