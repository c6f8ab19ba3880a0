-- ===== src/Optim/Paths.antt =====
-- Which arguments of a command the local answer to a question for its paths lists.
use Prim.Native.String.{◌++◌ as append}
use text.Mathlib.Text.{starts_with}
use text.Mathlib.TextLemmas.{append_assoc, append-nil}
use realy_code.Common.{
  String, Bool, true, false, not, List, [], ◌∷◌, str_eq, str_eq_iff, concat, join, ◌≡◌, ◌≢◌, refl,
  sym, ◌∙◌, ap, inl, inr, Bool-cases, Listed, NotListed, is_among-Listed, is_among-NotListed,
  Sieved, keep_if-Sieved,
}
use realy_code.Optim.{
  WordTools, positionals, is_flag_with_arg, grep_positionals, command_words, paths_of,
  without_first, paths_by, extract_filepaths, listed, is_listing, is_reading,
}

-- the flags of grep behind which their argument stands
abbrev argument_flags : List String
argument_flags = "-e" ∷ "-f" ∷ "-m" ∷ "-A" ∷ "-B" ∷ "-C" ∷ []

abbrev IsFlag : String → Type 0
IsFlag a = starts_with a "-" ≡ true

abbrev IsOperand : String → Type 0
IsOperand a = starts_with a "-" ≡ false

-- the operands of grep among its arguments
pub data Operands : List String → List String → Type 0 where
  no_arguments : Operands [] []
  operand :
      {a : String} {args ops : List String}
      → IsOperand a
      → Operands args ops
      → Operands (a ∷ args) (a ∷ ops)
  lone_flag :
      {a : String} {args ops : List String}
      → IsFlag a
      → NotListed a argument_flags
      → Operands args ops
      → Operands (a ∷ args) ops
  flag_and_argument :
      {a b : String} {args ops : List String}
      → IsFlag a
      → Listed a argument_flags
      → Operands args ops
      → Operands (a ∷ b ∷ args) ops
  last_flag : {a : String} → IsFlag a → Listed a argument_flags → Operands (a ∷ []) []

abbrev listings : List String
listings = "ls" ∷ "dir" ∷ "find" ∷ "tree" ∷ "pwd" ∷ "cd" ∷ "mkdir" ∷ "rmdir" ∷ "rm" ∷ []

abbrev readers : List String
readers = "cat" ∷ "head" ∷ "tail" ∷ "less" ∷ "more" ∷ "bat" ∷ "type" ∷ []

module _ (t : WordTools) where
  -- the paths of a command with these words
  pub data PathsOf : List String → List String → Type 0 where
    no_command : PathsOf [] []
    assignment :
        {w : String} {ws ps : List String}
        → t.is_env_assignment w ≡ true
        → PathsOf ws ps
        → PathsOf (w ∷ ws) ps
    listing :
        {w : String} {args : List String}
        → t.is_env_assignment w ≡ false
        → Listed (t.lower (t.base w)) listings
        → PathsOf (w ∷ args) []
    reader :
        {w : String} {args ps : List String}
        → t.is_env_assignment w ≡ false
        → Listed (t.lower (t.base w)) readers
        → Sieved IsOperand IsFlag args ps
        → PathsOf (w ∷ args) ps
    search_in :
        {w pattern : String} {args ps : List String}
        → t.is_env_assignment w ≡ false
        → t.lower (t.base w) ≡ "grep"
        → Operands args (pattern ∷ ps)
        → PathsOf (w ∷ args) ps
    search_nothing :
        {w : String} {args : List String}
        → t.is_env_assignment w ≡ false
        → t.lower (t.base w) ≡ "grep"
        → Operands args []
        → PathsOf (w ∷ args) []
    other :
        {w : String} {args : List String}
        → t.is_env_assignment w ≡ false
        → NotListed (t.lower (t.base w)) readers
        → t.lower (t.base w) ≢ "grep"
        → PathsOf (w ∷ args) []

positionals-Operands : (args : List String) → Operands args (positionals false args)
positionals-Operands [] = no_arguments
positionals-Operands (a ∷ []) = elim (Bool-cases (starts_with a "-")) [
  | inr o ↦ rw o (operand o no_arguments)
  | inl f ↦ elim (Bool-cases (is_flag_with_arg a)) [
    | inl takes ↦ rw f (last_flag f (is_among-Listed a argument_flags takes))
    | inr lone ↦ rw f (lone_flag f (is_among-NotListed a argument_flags lone) no_arguments)
  ]
]
positionals-Operands (a ∷ b ∷ args) = elim (Bool-cases (starts_with a "-")) [
  | inr o ↦ rw o (operand o (positionals-Operands (b ∷ args)))
  | inl f ↦ elim (Bool-cases (is_flag_with_arg a)) [
    | inl takes ↦ rw f (
        rw takes (
          flag_and_argument f (is_among-Listed a argument_flags takes) (positionals-Operands args)))
    | inr lone ↦ rw f (
        rw lone (
          lone_flag f (is_among-NotListed a argument_flags lone) (positionals-Operands (b ∷ args))))
  ]
]

not-true : (b : Bool) → not b ≡ true → b ≡ false
not-true true h = absurd (cc)
not-true false h = refl

not-false : (b : Bool) → not b ≡ false → b ≡ true
not-false true h = refl
not-false false h = absurd (cc)

module _ (t : WordTools) (w : String) (args : List String)
    (plain : t.is_env_assignment w ≡ false) where
  searched :
      (ops : List String)
      → t.lower (t.base w) ≡ "grep"
      → Operands args ops
      → PathsOf t (w ∷ args) (without_first ops)
  searched [] g o = search_nothing plain g o
  searched (pattern ∷ ps) g o = search_in plain g o

  no_grep : (b : String) → str_eq b "grep" ≡ false → b ≢ "grep"
  no_grep b h = λ e. let same = (str_eq_iff b "grep").1 e in absurd (cc)

  paths_by-PathsOf : PathsOf t (w ∷ args) (paths_by t (t.lower (t.base w)) args)
  unfolding grep_positionals
  paths_by-PathsOf =
      let base = t.lower (t.base w) in
      elim (Bool-cases (is_listing t base)) [
        | inl l ↦ rw l (listing plain (is_among-Listed base listings l))
        | inr no_listing ↦ elim (Bool-cases (is_reading t base)) [
          | inl r ↦ rw no_listing (
              rw r (
                reader plain (is_among-Listed base readers r) (
                  keep_if-Sieved (λ part. not (starts_with part "-")) (λ a h. not-true _ h)
                    (λ a h. not-false _ h) args)))
          | inr no_reader ↦ elim (Bool-cases (str_eq base "grep")) [
            | inl g ↦ rw no_listing (
                rw no_reader (
                  rw g (
                    searched (positionals false args) ((str_eq_iff base "grep").0 g)
                      (positionals-Operands args))))
            | inr no_search ↦ rw no_listing (
                rw no_reader (
                  rw no_search (
                    other plain (is_among-NotListed base readers no_reader)
                      (no_grep base no_search))))
          ]
        ]
      ]

module _ (t : WordTools) where
  paths_of-PathsOf : (words : List String) → PathsOf t words (paths_of t (command_words t words))
  paths_of-PathsOf [] = no_command
  paths_of-PathsOf (w ∷ ws) = elim (Bool-cases (t.is_env_assignment w)) [
    | inl env ↦ rw env (assignment env (paths_of-PathsOf ws))
    | inr plain ↦ rw plain (paths_by-PathsOf t w ws plain)
  ]

-- each path with the end of its line
abbrev pub path_lines : List String → String
path_lines [] = ""
path_lines (p ∷ ps) = concat (p ∷ "\n" ∷ path_lines ps ∷ [])

join-path_lines :
    (p : String) (ps : List String) (z : String)
    → append (join "\n" (p ∷ ps)) (append "\n" z) ≡ append (path_lines (p ∷ ps)) z
join-path_lines p [] z = sym (append_assoc p "\n" z)
join-path_lines p (q ∷ qs) z =
    append_assoc p (append "\n" (join "\n" (q ∷ qs))) (append "\n" z)
    ∙ ap (append p) (
        append_assoc "\n" (join "\n" (q ∷ qs)) (append "\n" z)
        ∙ ap (append "\n")
            (join-path_lines q qs z ∙ ap (λ u. append u z) (sym (append-nil (path_lines (q ∷ qs)))))
        ∙ sym (append_assoc "\n" (append (path_lines (q ∷ qs)) "") z))
    ∙ sym (append_assoc p (append "\n" (append (path_lines (q ∷ qs)) "")) z)

listed-path_lines :
    (t : WordTools) (ps : List String)
    → listed t ps ≡ concat ("<filepaths>\n" ∷ path_lines ps ∷ "</filepaths>" ∷ [])
listed-path_lines t [] = refl
listed-path_lines t (p ∷ ps) = ap (append "<filepaths>\n") (join-path_lines p ps "</filepaths>")

-- The answer to a question for the paths of a command holds, each on its line and in their order, exactly
-- these: behind the assignments at its head, the arguments of a reading command that are no flags; the
-- operands of grep but the first, the pattern, where "-e", "-f", "-m", "-A", "-B" and "-C" take the next
-- argument with them; and none for a command that lists or for another.
pub filepaths_of_command :
    (t : WordTools) (command output : String)
    → (ps : List String) × PathsOf t (t.fields command) ps
      × (extract_filepaths t command output
          ≡ concat ("<filepaths>\n" ∷ path_lines ps ∷ "</filepaths>" ∷ []))
unfolding extract_filepaths
filepaths_of_command t command output =
    let ps = paths_of t (command_words t (t.fields command)) in
    (ps, paths_of-PathsOf t (t.fields command), listed-path_lines t ps)
