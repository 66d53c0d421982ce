-- ===== src/Publication/Markdown.antt =====
-- The parts of publication/chunking.py that read and write texts: `str.splitlines`, the markers of
-- claims, the sections of a note, and its headings. An identifier is the number that it spells.
use trustworthy_personal_kno.Prelude.{
  ℕ, zero, suc, ◌+◌, ◌*◌, Bool, true, false, ◌&&◌, ◌||◌, Option, none, some, List, [], ◌∷◌, ◌++◌,
  map, leb, nat_beq, if◌then◌else◌, contains, nat_eq, Text, codes, rstrip, strip, Result, ok,
  raised, ◌>>=◌,
}

pub data ChunkingError : Type 0 where
  chunking_error key_error value_error : ChunkingError

abbrev pub starts_with : Text → Text → Bool
starts_with [] s = true
starts_with (p ∷ ps) [] = false
starts_with (p ∷ ps) (c ∷ s) = nat_beq p c && starts_with ps s

abbrev pub drop {ℓ} : {A : Type ℓ} → ℕ → List A → List A
drop zero xs = xs
drop (suc n) [] = []
drop (suc n) (x ∷ xs) = drop n xs

-- The line boundaries of `str.splitlines`.
abbrev is_break : ℕ → Bool
is_break c =
    leb 10 c && leb c 13
    || leb 28 c && leb c 30
    || nat_beq c 0x85
    || nat_beq c 0x2028
    || nat_beq c 0x2029

abbrev on_first_line : ℕ → List Text → List Text
on_first_line c [] = (c ∷ []) ∷ []
on_first_line c (l ∷ ls) = (c ∷ l) ∷ ls

-- `\r\n` is one boundary.
unfoldable pub splitlines : Text → List Text
splitlines [] = []
splitlines (c ∷ s) =
    let rest = splitlines s in
    if nat_beq c 13 && starts_with (10 ∷ []) s
    then rest
    else if is_break c
    then [] ∷ rest
    else on_first_line c rest

-- `s.split("\n")` of a text in which `"\n"` stands for `"\r\n"`.
unfoldable pub split_newlines : Text → List Text
split_newlines [] = [] ∷ []
split_newlines (c ∷ s) =
    let rest = split_newlines s in
    if nat_beq c 13 && starts_with (10 ∷ []) s
    then rest
    else if nat_beq c 10
    then [] ∷ rest
    else on_first_line c rest

-- `"\n".join(lines)`
unfoldable pub join_lines : List Text → Text
join_lines [] = []
join_lines (l ∷ []) = l
join_lines (l ∷ (m ∷ ls)) = l ++ (10 ∷ join_lines (m ∷ ls))

-- `_normalize_text`
unfoldable pub normalize_text : Text → Text
normalize_text s = strip (join_lines (map rstrip (split_newlines s)))

abbrev pub spell : ℕ → Text → ℕ
spell n [] = n
spell n (c ∷ s) = spell (n * 1114112 + c) s

-- The letters of Crockford's base 32.
abbrev is_base32 : ℕ → Bool
is_base32 c =
    leb b'0' c && leb c b'9' || leb b'A' c && leb c b'H' || contains (codes "JKMNPQRSTVWXYZ") c

-- The first `n` letters are of base 32, and `]` follows.
abbrev closes : ℕ → Text → Bool
closes zero s = starts_with (codes "]") s
closes (suc n) [] = false
closes (suc n) (c ∷ s) = is_base32 c && closes n s

abbrev first_letters : ℕ → Text → Text
first_letters zero s = []
first_letters (suc n) [] = []
first_letters (suc n) (c ∷ s) = c ∷ first_letters n s

-- A match of `_CLAIM_MARKER` at the head of the text.
abbrev marker_here : Text → Option ℕ
marker_here s =
    if starts_with (codes "[^claim_") s && closes 26 (drop 8 s)
    then some (spell 0 (first_letters 32 (drop 2 s)))
    else none

abbrev consed : Option ℕ → List ℕ → List ℕ
consed none ns = ns
consed (some n) ns = n ∷ ns

-- `_CLAIM_MARKER.findall`. A `[` stands only at the head of a match, so that no two overlap.
unfoldable pub find_markers : Text → List ℕ
find_markers [] = []
find_markers (c ∷ s) = consed (marker_here (c ∷ s)) (find_markers s)

-- `"#" * n`
abbrev hashes : ℕ → Text
hashes zero = []
hashes (suc n) = b'#' ∷ hashes n

abbrev headings : ℕ → List Text → List Text
headings n [] = []
headings n (h ∷ hs) = (hashes n ++ (b' ' ∷ h)) ∷ headings (suc n) hs

unfoldable pub heading_text : List Text → Text
heading_text path = join_lines (headings 1 path)

-- `_chunk_text`
unfoldable pub chunk_text : List Text → List Text → Text
chunk_text path lines = heading_text path ++ (10 ∷ (10 ∷ join_lines lines))

-- A heading path with its claim lines.
pub record Section : Type 0 where
  pub heading_path : List Text
  pub lines : List Text

-- The variables of `_claim_sections`.
pub record Scan : Type 0 where
  pub title : Text
  pub heading : Text
  pub sections : List Section
  pub claim_lines : List Text

abbrev pub is_empty {ℓ} : {A : Type ℓ} → List A → Bool
is_empty [] = true
is_empty (x ∷ xs) = false

-- `flush`
unfoldable pub flush : Scan → Scan
flush s = if is_empty s.claim_lines then s else record s {
  sections =
      s.sections
      ++ (record { heading_path = s.title ∷ s.heading ∷ []; lines = s.claim_lines } ∷ []);
  claim_lines = [];
}

unfoldable pub scan_line : Scan → Text → Result ChunkingError Scan
unfolding find_markers
scan_line s line =
    if starts_with (codes "# ") line
    then ok (record s { title = strip (drop 2 line) })
    else if starts_with (codes "## ") line
    then ok (record (flush s) { heading = strip (drop 3 line) })
    else if starts_with (codes "- ") line
    then (if is_empty (find_markers line)
        then raised chunking_error
        else ok (record s { claim_lines = s.claim_lines ++ (line ∷ []) }))
    else ok s

unfoldable pub scan_lines : Scan → List Text → Result ChunkingError Scan
scan_lines s [] = ok s
scan_lines s (raw_line ∷ rest) = scan_line s (strip raw_line) >>= λ s'. scan_lines s' rest

abbrev nonempty_sections : List Section → Result ChunkingError (List Section)
nonempty_sections [] = raised chunking_error
nonempty_sections (s ∷ ss) = ok (s ∷ ss)

-- `_claim_sections`
unfoldable pub claim_sections : Text → Result ChunkingError (List Section)
claim_sections markdown = do
  s ←
      scan_lines
        (record {
          title = codes "Curated knowledge";
          heading = codes "Knowledge";
          sections = [];
          claim_lines = [];
        })
        (splitlines markdown)
  nonempty_sections (flush s).sections
