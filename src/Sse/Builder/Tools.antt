-- ===== src/Sse/Builder/Tools.antt =====
-- The list of tools: what a lookup and a write do to the counts of blocks by index.
use realy_code.Common.{
  ℕ, ◌+◌, ◌≤◌, inl, inr, Bool-cases, String, ℤ, ◌==ℤ◌, not, ◌&&◌, none, some, List, [], ◌∷◌, ◌++◌,
  ◌≡◌, refl, arith, bit, str_eq, str_eq_iff, if◌then◌else◌,
}
use realy_code.Sse.Builder.{ToolState, find_tool, set_tool}

-- the tools whose block has index `i`, and those of them that are open
abbrev pub tools_at : List ToolState → ℤ → ℕ
tools_at [] i = 0
tools_at (t ∷ ts) i = bit (t.block_index ==ℤ i) + tools_at ts i

abbrev pub open_at : List ToolState → ℤ → ℕ
open_at [] i = 0
open_at (t ∷ ts) i = bit (t.started && (t.block_index ==ℤ i)) + open_at ts i

-- no two tools share an id
abbrev pub Unique : List ToolState → Type 0
Unique [] = Unit
Unique (t ∷ ts) = (find_tool t.id ts ≡ none) × Unique ts

pub find_tool-id :
    (k : String) (ts : List ToolState) {t : ToolState} → find_tool k ts ≡ some t → t.id ≡ k
unfolding find_tool
find_tool-id k [] h = absurd (cc)
find_tool-id k (x ∷ ts) {t} h = ground (arith, str_eq_iff x.id k, find_tool-id k ts {t = t})

pub tools_at-set_tool :
    (k : String) (t t' : ToolState) (ts : List ToolState) (i : ℤ)
    → find_tool k ts ≡ some t
    → tools_at (set_tool k t' ts) i + bit (t.block_index ==ℤ i)
      ≡ tools_at ts i + bit (t'.block_index ==ℤ i)
unfolding find_tool set_tool
tools_at-set_tool k t t' [] i h = absurd (cc)
tools_at-set_tool k t t' (x ∷ ts) i h = ground (arith, tools_at-set_tool k t t' ts i)

pub open_at-set_tool :
    (k : String) (t t' : ToolState) (ts : List ToolState) (i : ℤ)
    → find_tool k ts ≡ some t
    → open_at (set_tool k t' ts) i + bit (t.started && (t.block_index ==ℤ i))
      ≡ open_at ts i + bit (t'.started && (t'.block_index ==ℤ i))
unfolding find_tool set_tool
open_at-set_tool k t t' [] i h = absurd (cc)
open_at-set_tool k t t' (x ∷ ts) i h = ground (arith, open_at-set_tool k t t' ts i)

pub find_tool-set_tool :
    (k j : String) (t t' : ToolState) (ts : List ToolState)
    → find_tool k ts ≡ some t
    → t'.id ≡ k
    → find_tool j (set_tool k t' ts) ≡ (if str_eq k j then some t' else find_tool j ts)
unfolding find_tool set_tool
find_tool-set_tool k j t t' [] h e = absurd (cc)
find_tool-set_tool k j t t' (x ∷ ts) h e = ground (
  arith,
  find_tool-set_tool k j t t' ts,
  str_eq_iff x.id k,
  str_eq_iff x.id j,
  str_eq_iff k j,
  str_eq_iff t'.id j,
)

pub tools_at-append :
    (ts : List ToolState) (t : ToolState) (i : ℤ)
    → tools_at (ts ++ t ∷ []) i ≡ tools_at ts i + bit (t.block_index ==ℤ i)
tools_at-append [] t i = omega arith
tools_at-append (x ∷ ts) t i = omega (arith, tools_at-append ts t i)

pub open_at-append :
    (ts : List ToolState) (t : ToolState) (i : ℤ)
    → open_at (ts ++ t ∷ []) i ≡ open_at ts i + bit (t.started && (t.block_index ==ℤ i))
open_at-append [] t i = omega arith
open_at-append (x ∷ ts) t i = omega (arith, open_at-append ts t i)

pub find_tool-append :
    (j : String) (ts : List ToolState) (t : ToolState)
    → find_tool j ts ≡ none
    → find_tool j (ts ++ t ∷ []) ≡ (if str_eq t.id j then some t else none)
unfolding find_tool
find_tool-append j [] t h = refl
find_tool-append j (x ∷ ts) t h = ground (arith, find_tool-append j ts t)

pub open_at-le-tools_at : (ts : List ToolState) (i : ℤ) → open_at ts i ≤ tools_at ts i
open_at-le-tools_at [] i = omega arith
open_at-le-tools_at (x ∷ ts) i = ground (arith, open_at-le-tools_at ts i)

pub Unique-set_tool :
    (k : String) (t t' : ToolState) (ts : List ToolState)
    → find_tool k ts ≡ some t
    → t'.id ≡ k
    → Unique ts
    → Unique (set_tool k t' ts)
unfolding find_tool set_tool
Unique-set_tool k t t' [] h e u = absurd (cc)
Unique-set_tool k t t' (x ∷ ts) h e u = elim (Bool-cases (str_eq x.id k)) [
  | inl same ↦ rw same (ground (arith, str_eq_iff x.id k), u.1)
  | inr other ↦ rw other (
    ground (arith, find_tool-set_tool k x.id t t' ts, str_eq_iff x.id k, str_eq_iff k x.id),
    Unique-set_tool k t t' ts (ground arith) e u.1,
  )
]

pub Unique-append :
    (ts : List ToolState) (t : ToolState)
    → find_tool t.id ts ≡ none
    → Unique ts
    → Unique (ts ++ t ∷ [])
unfolding find_tool
Unique-append [] t h u = (refl, tt)
Unique-append (x ∷ ts) t h u = (
  ground (arith, find_tool-append x.id ts t u.0, str_eq_iff x.id t.id, str_eq_iff t.id x.id),
  Unique-append ts t (ground arith) u.1,
)

-- A tool that is found counts once: among the open ones if it is open, else among the others.
pub found_counts :
    (k : String) (ts : List ToolState) (t : ToolState) (i : ℤ)
    → find_tool k ts ≡ some t
    → (bit (t.started && (t.block_index ==ℤ i)) ≤ open_at ts i)
      × (open_at ts i + bit (not t.started && (t.block_index ==ℤ i)) ≤ tools_at ts i)
unfolding find_tool
found_counts k [] t i h = absurd (cc)
found_counts k (x ∷ ts) t i h = ground (arith, found_counts k ts t i, open_at-le-tools_at ts i)
