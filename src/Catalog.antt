-- ===== src/Catalog.antt =====
-- auditzoo/agents/cwe78_study/catalog_sanitizer.py: the one normal form of catalog entries.
pub mod Grammar
pub mod Cleaning
pub mod Sanitized
use audit_zoo_bug_byters.Base.{
  ℕ, Bool, true, false, ◌&&◌, ◌||◌, Option, none, some, List, [], ◌∷◌, ◌++◌, Text, leb, ◌==◌, strip,
  strip_by, before, is_empty, contains, if◌then◌else◌,
}

-- [A-Za-z_]
unfoldable pub is_ident_start : ℕ → Bool
is_ident_start c = (leb b'A' c && leb c b'Z') || c == b'_' || (leb b'a' c && leb c b'z')

-- [A-Za-z_0-9]
unfoldable pub is_ident : ℕ → Bool
unfolding is_ident_start
is_ident c = is_ident_start c || (leb b'0' c && leb c b'9')

-- `_DOTTED_IDENT_RE.match`, as an automaton that either is to begin an identifier or is inside
-- one. The `$` of the pattern also matches before a line feed that ends the text.
unfoldable pub matches_dotted : Bool → Text → Bool
matches_dotted true [] = false
matches_dotted false [] = true
matches_dotted begins (c ∷ s) =
    let rest = matches_dotted (c == b'.') s in
    if begins
    then is_ident_start c && rest
    else if is_ident c || c == b'.'
    then rest
    else c == 10 && is_empty s

-- An entry of a list that ought to hold strings: a string, or another value with its `str`.
pub data Entry : Type 0 where
  text : Text → Entry
  other : Text → Entry

-- The loop over the terminators: `split(terminator, 1)[0]` is the text itself where the terminator
-- does not occur.
unfoldable pub cut : Text → Text
cut s = before 9 (before b' ' (before b',' (before b'<' (before b'[' (before b'(' s)))))

-- The last steps of `clean_catalog_entry`.
unfoldable pub accept : Text → Option Text
accept candidate =
    if is_empty candidate
    then none
    else if matches_dotted true candidate
    then some candidate
    else none

unfoldable pub clean_text : Text → Option Text
unfolding cut accept strip
clean_text raw = accept (strip_by (λ c. c == b'.') (strip (cut (strip (before b'#' raw)))))

-- `clean_catalog_entry`
unfoldable pub clean_catalog_entry : Entry → Option Text
unfolding clean_text
clean_catalog_entry (other shown) = none
clean_catalog_entry (text raw) = clean_text raw

-- `str(entry)`
abbrev pub shown : Entry → Text
shown (text raw) = raw
shown (other s) = s

-- The body of the loop of `sanitize_catalog`, for the kept and the dropped texts. The set `seen`
-- holds what `kept` holds, and is not a value of its own here.
unfoldable pub keep_or_drop : List Text × List Text → Entry → Option Text → List Text × List Text
keep_or_drop (kept, dropped) e none = (kept, dropped ++ (shown e ∷ []))
keep_or_drop (kept, dropped) e (some t) =
    ((if contains kept t then kept else kept ++ (t ∷ [])), dropped)

unfoldable pub sanitize_loop : List Text × List Text → List Entry → List Text × List Text
unfolding keep_or_drop
sanitize_loop s [] = s
sanitize_loop s (e ∷ es) = sanitize_loop (keep_or_drop s e (clean_catalog_entry e)) es

-- `sanitize_catalog`: what is kept, and the dropped entries as they were given.
unfoldable pub sanitize_catalog : List Entry → List Text × List Text
unfolding sanitize_loop
sanitize_catalog es = sanitize_loop ([], []) es
