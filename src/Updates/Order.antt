-- ===== src/Updates/Order.antt =====
-- Which tag counts as newer, apart from the code that compares them.
use realy_code.Common.{
  ℕ, ◌<◌, ℤ, pos, negsuc, String, true, false, ◌||◌, Option, none, some, List, [], ◌∷◌, str_eq, ltb,
  ◌≡◌, refl, sym, ◌∙◌, ap, arith, ◌⊎◌, inl, inr, ◌↔◌, if_false, Bool-cases,
}
use realy_code.Updates.{
  TagTools, Version, contains, natural, version_of, part_number, of_parts, is_after, newer_of,
  parse_version_tag, is_newer,
}

-- The numbers of `l` are greater than those of `c`, the first that differs deciding.
abbrev pub IsGreater : Version → Version → Type 0
IsGreater l c =
    (c.major < l.major)
    ⊎ ((l.major ≡ c.major) × ((c.minor < l.minor) ⊎ ((l.minor ≡ c.minor) × (c.patch < l.patch))))

is_after-IsGreater : (t : TagTools) (l c : Version) → is_after t l c ≡ true → IsGreater l c
is_after-IsGreater t l c h = elim (Bool-cases (ltb c.major l.major)) [
  | inl above ↦ inl (ground arith)
  | inr level ↦ elim (Bool-cases (ltb c.minor l.minor)) [
    | inl above ↦ inr (ground arith, inl (ground arith))
    | inr even ↦ inr (ground arith, inr (ground arith, ground arith))
  ]
]

IsGreater-is_after : (t : TagTools) (l c : Version) → IsGreater l c → is_after t l c ≡ true
IsGreater-is_after t l c (inl m) = ground arith
IsGreater-is_after t l c (inr (m, inl n)) = ground arith
IsGreater-is_after t l c (inr (m, inr (n, p))) = ground arith

some_inj : {A : Type 0} {x y : A} → some x ≡ some y → x ≡ y
some_inj e = cc e

module _ (t : TagTools) where
  -- A part of a tag is a number: not empty, without "-" and "+", and read as `n`.
  abbrev pub IsNumber : String → ℕ → Type 0
  IsNumber part n =
      (str_eq part "" ≡ false)
      × (contains part "-" ≡ false)
      × (contains part "+" ≡ false)
      × (t.atoi part ≡ some (pos n))

  -- The tag, without blanks around it and a "v" in front, is the three numbers with dots between.
  pub record IsTag (tag : String) (v : Version) : Type 0 where
    pub first : String
    pub second : String
    pub third : String
    pub parted : t.split_dots (t.trim_v (t.trim_space tag)) ≡ first ∷ second ∷ third ∷ []
    pub major_read : IsNumber first v.major
    pub minor_read : IsNumber second v.minor
    pub patch_read : IsNumber third v.patch

  natural-some : (o : Option ℤ) (n : ℕ) → natural o ≡ some n → o ≡ some (pos n)
  natural-some none n h = absurd (cc)
  natural-some (some (pos m)) n h = ap (λ k. some (pos k)) (cc h)
  natural-some (some (negsuc m)) n h = absurd (cc)

  part_number-IsNumber : (part : String) (n : ℕ) → part_number t part ≡ some n → IsNumber part n
  part_number-IsNumber part n h =
      elim (Bool-cases (str_eq part "" || (contains part "-" || contains part "+"))) [
        | inl bad ↦ absurd (ground arith)
        | inr fine ↦ (
          ground arith,
          ground arith,
          ground arith,
          natural-some (t.atoi part) n (sym (if_false none fine) ∙ h),
        )
      ]

  IsNumber-number : (part : String) (n : ℕ) → IsNumber part n → part_number t part ≡ some n
  IsNumber-number part n (full, whole, exact, reads) =
      let fine : (str_eq part "" || (contains part "-" || contains part "+")) ≡ false =
        ground arith in
      if_false none fine ∙ ap natural reads

  numbers_read :
      (a b c : Option ℕ) (v : Version)
      → version_of a b c ≡ some v
      → (a ≡ some v.major) × (b ≡ some v.minor) × (c ≡ some v.patch)
  numbers_read (some a) (some b) (some c) v h = (
    ap (λ (w : Version). some w.major) (some_inj h),
    ap (λ (w : Version). some w.minor) (some_inj h),
    ap (λ (w : Version). some w.patch) (some_inj h),
  )
  numbers_read none b c v h = absurd (cc)
  numbers_read (some a) none c v h = absurd (cc)
  numbers_read (some a) (some b) none v h = absurd (cc)

  three_parts :
      (tag : String) (parts : List String) (v : Version)
      → t.split_dots (t.trim_v (t.trim_space tag)) ≡ parts
      → of_parts t parts ≡ some v
      → IsTag tag v
  three_parts tag (a ∷ b ∷ c ∷ []) v e h =
      let (x, y, z) = numbers_read (part_number t a) (part_number t b) (part_number t c) v h in
      record {
        first = a;
        second = b;
        third = c;
        parted = e;
        major_read = part_number-IsNumber a v.major x;
        minor_read = part_number-IsNumber b v.minor y;
        patch_read = part_number-IsNumber c v.patch z;
      }
  three_parts tag [] v e h = absurd (cc)
  three_parts tag (a ∷ []) v e h = absurd (cc)
  three_parts tag (a ∷ b ∷ []) v e h = absurd (cc)
  three_parts tag (a ∷ b ∷ c ∷ d ∷ parts) v e h = absurd (cc)

  tag_parsed : (tag : String) (v : Version) → IsTag tag v → parse_version_tag t tag ≡ some v
  unfolding parse_version_tag
  tag_parsed tag v is_tag =
      ap (of_parts t) is_tag.parted
      ∙ ap (λ a. version_of a (part_number t is_tag.second) (part_number t is_tag.third))
          (IsNumber-number is_tag.first v.major is_tag.major_read)
      ∙ ap (λ b. version_of (some v.major) b (part_number t is_tag.third))
          (IsNumber-number is_tag.second v.minor is_tag.minor_read)
      ∙ ap (version_of (some v.major) (some v.minor))
          (IsNumber-number is_tag.third v.patch is_tag.patch_read)

  parsed-IsTag : (tag : String) (v : Version) → parse_version_tag t tag ≡ some v → IsTag tag v
  unfolding parse_version_tag
  parsed-IsTag tag v h = three_parts tag (t.split_dots (t.trim_v (t.trim_space tag))) v refl h

  -- `latest` is a later release than `current`: both are tags, and its numbers are greater.
  abbrev pub IsLater : String → String → Type 0
  IsLater latest current = (l c : Version) × IsTag latest l × IsTag current c × IsGreater l c

  parsed-IsLater :
      (latest current : String) (l c : Option Version)
      → parse_version_tag t latest ≡ l
      → parse_version_tag t current ≡ c
      → newer_of t l c ≡ true
      → IsLater latest current
  parsed-IsLater latest current (some l) (some c) e f h =
      (l, c, parsed-IsTag latest l e, parsed-IsTag current c f, is_after-IsGreater t l c h)
  parsed-IsLater latest current none c e f h = absurd (cc)
  parsed-IsLater latest current (some l) none e f h = absurd (cc)

  -- A release counts as newer exactly where both tags are three numbers and those of the release are
  -- greater, the first that differs deciding; a tag that is no such tag is never newer, and nothing is
  -- newer than it.
  pub is_newer_iff :
      (latest current : String) → (is_newer t latest current ≡ true) ↔ IsLater latest current
  unfolding is_newer
  is_newer_iff latest current = (
    λ h. parsed-IsLater latest current _ _ refl refl h,
    λ later.
        ap (λ o. newer_of t o (parse_version_tag t current)) (tag_parsed latest later.0 later.2)
        ∙ ap (newer_of t (some later.0)) (tag_parsed current later.1 later.3)
        ∙ IsGreater-is_after t later.0 later.1 later.4,
  )
