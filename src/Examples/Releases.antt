-- ===== src/Examples/Releases.antt =====
-- Three releases.
use realy_code.Common.{◌↔◌, pos, true, some, [], ◌∷◌, ◌≡◌, str_eq, if◌then◌else◌}
use realy_code.Updates.{TagTools, is_newer}
use realy_code.Updates.Order.{IsLater, is_newer_iff}

-- it knows the tags v1.2.4, v1.2.3 and v1.1.9
abbrev tag_tools : TagTools
tag_tools = record {
  trim_space = λ s. s;
  trim_v = λ s. s;
  split_dots = λ s.
      if str_eq s "v1.2.4"
      then "1" ∷ "2" ∷ "4" ∷ []
      else if str_eq s "v1.2.3"
      then "1" ∷ "2" ∷ "3" ∷ []
      else "1" ∷ "1" ∷ "9" ∷ [];
  atoi = λ s.
      if str_eq s "1"
      then some (pos 1)
      else if str_eq s "2"
      then some (pos 2)
      else if str_eq s "3"
      then some (pos 3)
      else if str_eq s "4"
      then some (pos 4)
      else some (pos 9);
}

is_newer_iff_example :
    (is_newer tag_tools "v1.2.4" "v1.1.9" ≡ true) ↔ IsLater tag_tools "v1.2.4" "v1.1.9"
is_newer_iff_example = is_newer_iff tag_tools "v1.2.4" "v1.1.9"
