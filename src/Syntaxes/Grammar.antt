-- ===== src/Syntaxes/Grammar.antt =====
-- The regular expressions of the Ragel machines in src/syntaxes, and the run of such a machine: it is in
-- its error state when no word of the language begins with the bytes read so far.
pub mod Words
use libdomain.Prelude.{
  ℕ, ◌≤◌, ◌≡◌, ◌⊎◌, ◌&&◌, ◌||◌, Bool, true, false, List, [], ◌∷◌, ◌++◌, if◌then◌else◌, leb, CString,
}

-- `lo..hi`, concatenation, `|` and `*`; `empty` has no word, `epsilon` the empty one.
pub data Grammar : Type 0 where
  empty epsilon : Grammar
  range : (lo hi : ℕ) → Grammar
  seq alt : Grammar → Grammar → Grammar
  star : Grammar → Grammar

-- Any number of words of `P`.
pub data Star (P : CString → Type 0) : CString → Type 0 where
  stop : {v : CString} → v ≡ [] → Star P v
  more : {v : CString} (x y : CString) → v ≡ x ++ y → P x → Star P y → Star P v

-- The words of a grammar.
abbrev pub Matches : Grammar → CString → Type 0
Matches empty v = ⊥
Matches epsilon v = v ≡ []
Matches (range lo hi) v = (c : ℕ) × (v ≡ c ∷ []) × (lo ≤ c) × (c ≤ hi)
Matches (seq a b) v = (x : CString) × (y : CString) × (v ≡ x ++ y) × Matches a x × Matches b y
Matches (alt a b) v = Matches a v ⊎ Matches b v
Matches (star a) v = Star (Matches a) v

abbrev pub is_empty : Grammar → Bool
is_empty empty = true
is_empty _ = false

abbrev pub is_epsilon : Grammar → Bool
is_epsilon epsilon = true
is_epsilon _ = false

-- Concatenation and choice, without the parts that have no word or only the empty one.
abbrev pub join : Grammar → Grammar → Grammar
join a b = if is_empty a then empty else if is_epsilon a then b else seq a b

abbrev pub either : Grammar → Grammar → Grammar
either a b = if is_empty a then b else if is_empty b then a else alt a b

abbrev pub nullable : Grammar → Bool
nullable empty = false
nullable epsilon = true
nullable (range lo hi) = false
nullable (seq a b) = nullable a && nullable b
nullable (alt a b) = nullable a || nullable b
nullable (star a) = true

-- What may follow the byte `c`.
abbrev pub after : ℕ → Grammar → Grammar
after c empty = empty
after c epsilon = empty
after c (range lo hi) = if leb lo c && leb c hi then epsilon else empty
after c (seq a b) = either (join (after c a) b) (if nullable a then after c b else empty)
after c (alt a b) = either (after c a) (after c b)
after c (star a) = join (after c a) (star a)

abbrev pub has_word : Grammar → Bool
has_word empty = false
has_word epsilon = true
has_word (range lo hi) = leb lo hi
has_word (seq a b) = has_word a && has_word b
has_word (alt a b) = has_word a || has_word b
has_word (star a) = true

-- The machine on the bytes of a text: `cs != error` at the end.
unfoldable pub scans : Grammar → CString → Bool
scans g [] = has_word g
scans g (c ∷ text) = scans (after c g) text
