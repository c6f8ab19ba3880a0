-- ===== src/Transcript/Message.antt =====
-- `Message`, `Content` and `Block` of internal/anthropic/types.go. A raw JSON value is its text, the
-- empty text where Go has no value; a slice is `none` where Go has nil.
use realy_code.Common.{
  String, Bool, false, Option, none, some, List, [], ◌∷◌, str_eq, if◌then◌else◌,
}

abbrev pub Raw : Type 0
Raw = String

abbrev pub Slice : Type 0 → Type 0
Slice A = Option (List A)

abbrev pub elems : {A : Type 0} → Slice A → List A
elems none = []
elems (some xs) = xs

pub record ImageSource : Type 0 where
  pub typ : String
  pub media_type : String
  pub payload : String

pub record Block : Type 0 where
  pub typ : String
  pub text : String
  pub thinking : String
  pub signature : String
  pub source : Option ImageSource
  pub id : String
  pub name : String
  pub input : Raw
  pub caller : Raw
  pub tool_use_id : String
  pub content : Raw
  pub is_error : Bool

pub record Content : Type 0 where
  pub raw : String
  pub blocks : Slice Block

pub record Message : Type 0 where
  pub role : String
  pub content : Content

-- a block with nothing but its type
abbrev pub bare_block : String → Block
bare_block typ = record {
  typ = typ;
  text = "";
  thinking = "";
  signature = "";
  source = none;
  id = "";
  name = "";
  input = "";
  caller = "";
  tool_use_id = "";
  content = "";
  is_error = false;
}

abbrev pub text_block : String → Block
text_block text = record (bare_block "text") { text = text }

abbrev pub of_blocks : Slice Block → Content
of_blocks bs = record { raw = ""; blocks = bs }

abbrev blocks_of_raw : String → Slice Block
blocks_of_raw raw = if str_eq raw "" then none else some (text_block raw ∷ [])

-- `AsBlocks`
unfoldable pub as_blocks : Content → Slice Block
as_blocks c = elim c.blocks [ some bs ↦ some bs | none ↦ blocks_of_raw c.raw ]

abbrev pub blocks_of : Message → List Block
blocks_of m = elems (as_blocks m.content)
