-- ===== src/Updates.antt =====
-- internal/updatecheck/updatecheck.go: whether a release is newer than this one, and whether to look.
pub mod Order
use text.Mathlib.Text.{find?, starts_with}
use realy_code.Common.{
  ℕ, zero, suc, ℤ, pos, negsuc, String, Bool, true, false, not, ◌&&◌, ◌||◌, Option, none, some,
  List, [], ◌∷◌, str_eq, ltb, leb, if◌then◌else◌,
}

-- `strings.TrimSpace`, the rest behind the prefix "v", `strings.Split` at ".", and `strconv.Atoi`
pub record TagTools : Type 0 where
  pub trim_space : String → String
  pub trim_v : String → String
  pub split_dots : String → List String
  pub atoi : String → Option ℤ

pub record Version : Type 0 where
  pub major : ℕ
  pub minor : ℕ
  pub patch : ℕ

-- the server settings that this package reads
pub record UpdateSettings : Type 0 where
  pub enable_update_notification : Bool
  pub update_check_url : String
  pub update_check_timeout_seconds : ℤ

abbrev pub contains : String → String → Bool
contains s t = elim (find? s t) [ none ↦ false | some _ ↦ true ]

abbrev pub natural : Option ℤ → Option ℕ
natural (some (pos n)) = some n
natural _ = none

abbrev pub version_of : Option ℕ → Option ℕ → Option ℕ → Option Version
version_of (some a) (some b) (some c) = some (record { major = a; minor = b; patch = c })
version_of _ _ _ = none

module _ (t : TagTools) where
  abbrev pub part_number : String → Option ℕ
  part_number part =
      if str_eq part "" || (contains part "-" || contains part "+")
      then none
      else natural (t.atoi part)

  abbrev pub of_parts : List String → Option Version
  of_parts (a ∷ b ∷ c ∷ []) = version_of (part_number a) (part_number b) (part_number c)
  of_parts _ = none

  unfoldable pub parse_version_tag : String → Option Version
  parse_version_tag tag = of_parts (t.split_dots (t.trim_v (t.trim_space tag)))

  -- the loop over the three numbers
  abbrev pub is_after : Version → Version → Bool
  is_after l c =
      if ltb c.major l.major
      then true
      else if ltb l.major c.major
      then false
      else if ltb c.minor l.minor
      then true
      else if ltb l.minor c.minor
      then false
      else ltb c.patch l.patch

  abbrev pub newer_of : Option Version → Option Version → Bool
  newer_of (some l) (some c) = is_after l c
  newer_of _ _ = false

  unfoldable pub is_newer : String → String → Bool
  unfolding parse_version_tag
  is_newer latest current = newer_of (parse_version_tag latest) (parse_version_tag current)

  unfoldable pub should_check : UpdateSettings → String → Bool
  should_check cfg current =
      cfg.enable_update_notification
      && (not (str_eq current "dev") && not (str_eq (t.trim_space cfg.update_check_url) ""))

  -- whether `notify` logs a line, by the tag that was fetched
  unfoldable pub notifies : Option String → String → Bool
  unfolding is_newer
  notifies none current = false
  notifies (some latest) current = is_newer latest current

-- the seconds of `updateTimeout`, for a number of seconds that a `time.Duration` can hold
unfoldable pub update_timeout : UpdateSettings → ℕ
update_timeout cfg = elim cfg.update_check_timeout_seconds [
  | pos n ↦ if ltb 0 n then n else 3
  | negsuc n ↦ 3
]
