-- ===== src/IniReader/RoundTrip.antt =====
-- `GetValue` on a file in the usual form finds what the sections say.
use nebula_toolkit.IniReader.Text.{find, bytes_eq, lines, trim}
use nebula_toolkit.IniReader.Trimming.{IsTrimmed, solid_end, trim_of_IsTrimmed}
use nebula_toolkit.IniReader.{
  is_section_header, extract_section_name, split_key_value, split_comment, scan_lines,
  get_raw_value, get_processed_value,
}
use nebula_toolkit.Prelude.{
  ℕ, suc, ◌+◌, ◌-◌, ◌≡◌, ◌∙◌, refl, ap, Bool, true, false, ◌&&◌, none, some, List, [], ◌∷◌, ◌++◌,
  Bytes, length, get_or, take, drop, arith, inl, inr, Bool-cases, if◌then◌else◌, ◌==◌, ==_refl,
  length-append,
}

-- a section, and a file as its sections
pub record Section : Type 0 where
  pub name : Bytes
  pub entries : List (Bytes × Bytes)

-- the byte is not in the text
abbrev pub Lacks : ℕ → Bytes → Type 0
Lacks c [] = Unit {0}
Lacks c (x ∷ s) = ((x == c) ≡ false) × Lacks c s

abbrev pub lacks : ℕ → Bytes → Bool
lacks c [] = true
lacks c (x ∷ s) = if x == c then false else lacks c s

pub lacks-Lacks : (c : ℕ) (s : Bytes) → lacks c s ≡ true → Lacks c s
lacks-Lacks c [] h = tt
lacks-Lacks c (x ∷ s) h = elim (Bool-cases (x == c)) [
  | inl same ↦ absurd (let no : false ≡ true = rw same at h in cc)
  | inr other ↦ (other, lacks-Lacks c s (rw other at h))
]

pub record IsKey (k : Bytes) : Type 0 where
  pub trimmed : IsTrimmed k
  pub nonempty : (length k == 0) ≡ false
  pub no_equals : Lacks b'=' k
  pub no_bracket : (get_or k 0 0 == b'[') ≡ false
  pub no_newline : Lacks b'\n' k

pub record IsValue (v : Bytes) : Type 0 where
  pub trimmed : IsTrimmed v
  pub no_comment : Lacks b';' v
  pub no_newline : Lacks b'\n' v

abbrev pub Entries : List (Bytes × Bytes) → Type 0
Entries [] = Unit {0}
Entries ((k, v) ∷ es) = IsKey k × IsValue v × Entries es

abbrev pub Sections : List Section → Type 0
Sections [] = Unit {0}
Sections (s ∷ rest) = Lacks b'\n' s.name × Entries s.entries × Sections rest

abbrev pub header : Bytes → Bytes
header name = b'[' ∷ (name ++ b']' ∷ [])

abbrev pub entry : Bytes → Bytes → Bytes
entry k v = k ++ b'=' ∷ v

abbrev pub entry_lines : List (Bytes × Bytes) → List Bytes → List Bytes
entry_lines [] rest = rest
entry_lines ((k, v) ∷ es) rest = entry k v ∷ entry_lines es rest

-- the lines of a file
abbrev pub render : List Section → List Bytes
render [] = []
render (s ∷ rest) = header s.name ∷ entry_lines s.entries (render rest)

abbrev pub unlines : List Bytes → Bytes
unlines [] = []
unlines (l ∷ ls) = l ++ b'\n' ∷ unlines ls

-- the value of the first entry of the key, or `missing`
abbrev pub entry_or : Bytes → List (Bytes × Bytes) → Bytes → Bytes
entry_or key [] missing = missing
entry_or key ((k, v) ∷ es) missing = if bytes_eq k key then v else entry_or key es missing

-- the value of the first entry of the key in a section of the name, or "" if there is none
abbrev pub lookup : Bytes → Bytes → List Section → Bytes
lookup section key [] = []
lookup section key (s ∷ rest) =
    if bytes_eq s.name section
    then entry_or key s.entries (lookup section key rest)
    else lookup section key rest

solid_end-append :
    (s : Bytes) (c : ℕ) (t : Bytes) → solid_end (c ∷ t) ≡ true → solid_end (s ++ c ∷ t) ≡ true
solid_end-append [] c t h = h
solid_end-append (a ∷ []) c t h = h
solid_end-append (a ∷ b ∷ s) c t h = solid_end-append (b ∷ s) c t h

trim-header : (name : Bytes) → trim (header name) ≡ header name
trim-header name =
    trim_of_IsTrimmed (header name) (refl, solid_end-append (b'[' ∷ name) b']' [] refl)

entry-solid_end : (v : Bytes) → IsTrimmed v → solid_end (b'=' ∷ v) ≡ true
entry-solid_end [] h = refl
entry-solid_end (c ∷ v) h = h.1

trim-entry : (k v : Bytes) → IsKey k → IsValue v → trim (entry k v) ≡ entry k v
trim-entry [] v hk hv = absurd (let no : true ≡ false = hk.nonempty in cc)
trim-entry (c ∷ k) v hk hv =
    trim_of_IsTrimmed (entry (c ∷ k) v)
      (hk.trimmed.0, solid_end-append (c ∷ k) b'=' v (entry-solid_end v hv.trimmed))

find-append : (c : ℕ) (s t : Bytes) → Lacks c s → find c (s ++ c ∷ t) ≡ some (length s)
unfolding find
find-append c [] t h = rw (==_refl c)
find-append c (x ∷ s) t h = rw (h.0, find-append c s t h.1)

find_of_Lacks : (c : ℕ) (s : Bytes) → Lacks c s → find c s ≡ none
unfolding find
find_of_Lacks c [] h = refl
find_of_Lacks c (x ∷ s) h = rw (h.0, find_of_Lacks c s h.1)

take-append : (s t : Bytes) → take (length s) (s ++ t) ≡ s
take-append [] t = refl
take-append (x ∷ s) t = ap (λ u. x ∷ u) (take-append s t)

drop-append : (s t : Bytes) → drop (length s) (s ++ t) ≡ t
drop-append [] t = refl
drop-append (x ∷ s) t = drop-append s t

drop-suc : (s : Bytes) (c : ℕ) (t : Bytes) → drop (suc (length s)) (s ++ c ∷ t) ≡ t
drop-suc [] c t = refl
drop-suc (x ∷ s) c t = drop-suc s c t

split-entry : (k v : Bytes) → IsKey k → IsValue v → split_key_value (entry k v) ≡ (k, v)
unfolding split_key_value
split-entry k v hk hv =
    let e : length k + 1 ≡ suc (length k) = omega arith in
    rw (
      find-append b'=' k v hk.no_equals,
      take-append k (b'=' ∷ v),
      e,
      drop-suc k b'=' v,
      trim_of_IsTrimmed k hk.trimmed,
      trim_of_IsTrimmed v hv.trimmed,
    )

extract-header : (name : Bytes) → extract_section_name (header name) ≡ name
unfolding extract_section_name
extract-header name =
    let e : suc (length (name ++ b']' ∷ [])) - 2 ≡ length name =
      omega (arith, length-append name (b']' ∷ [])) in
    rw e (take-append name (b']' ∷ []))

get_or-append_length : (s : Bytes) (c : ℕ) → get_or (s ++ c ∷ []) (length s) 0 ≡ c
get_or-append_length [] c = refl
get_or-append_length (x ∷ s) c = get_or-append_length s c

header-is_section_header : (name : Bytes) → is_section_header (header name) ≡ true
unfolding is_section_header
header-is_section_header name =
    let e : suc (length (name ++ b']' ∷ [])) - 1 ≡ suc (length name) =
      omega (arith, length-append name (b']' ∷ [])) in
    rw (e, get_or-append_length name b']')

entry-is_section_header : (k v : Bytes) → IsKey k → is_section_header (entry k v) ≡ false
unfolding is_section_header
entry-is_section_header [] v hk = absurd (let no : true ≡ false = hk.nonempty in cc)
entry-is_section_header (c ∷ k) v hk = rw hk.no_bracket

entry-nonempty : (k v : Bytes) → IsKey k → (length (entry k v) == 0) ≡ false
entry-nonempty [] v hk = absurd (let no : true ≡ false = hk.nonempty in cc)
entry-nonempty (c ∷ k) v hk = ground arith

header-nonempty : (name : Bytes) → (length (header name) == 0) ≡ false
header-nonempty name = ground arith

module _ (section key : Bytes) where
  scan-header :
      (b : Bool) (name : Bytes) (rest : List Bytes)
      → scan_lines section key b (header name ∷ rest)
        ≡ scan_lines section key (bytes_eq name section) rest
  unfolding scan_lines
  scan-header b name rest = rw (
    scan_lines,
    trim-header name,
    header-nonempty name,
    header-is_section_header name,
    extract-header name,
  )

  scan-entry :
      (b : Bool) (k v : Bytes) (rest : List Bytes)
      → IsKey k
      → IsValue v
      → scan_lines section key b (entry k v ∷ rest)
        ≡ (if b && bytes_eq k key then v else scan_lines section key b rest)
  unfolding scan_lines
  scan-entry b k v rest hk hv = rw (
    scan_lines,
    trim-entry k v hk hv,
    entry-nonempty k v hk,
    entry-is_section_header k v hk,
    split-entry k v hk hv,
  )

  scan-entry_lines :
      (b : Bool) (es : List (Bytes × Bytes)) (rest : List Bytes)
      → Entries es
      → scan_lines section key b (entry_lines es rest) ≡ (
          if b
          then entry_or key es (scan_lines section key b rest)
          else scan_lines section key b rest)
  scan-entry_lines true [] rest h = refl
  scan-entry_lines false [] rest h = refl
  scan-entry_lines true ((k, v) ∷ es) rest h =
      scan-entry true k v (entry_lines es rest) h.0 h.1
      ∙ ap (λ u. if bytes_eq k key then v else u) (scan-entry_lines true es rest h.2)
  scan-entry_lines false ((k, v) ∷ es) rest h =
      scan-entry false k v (entry_lines es rest) h.0 h.1 ∙ scan-entry_lines false es rest h.2

  scan-render :
      (b : Bool) (cfg : List Section)
      → Sections cfg
      → scan_lines section key b (render cfg) ≡ lookup section key cfg
  scan-render b [] h = unfold scan_lines in refl
  scan-render b (s ∷ rest) h =
      scan-header b s.name (entry_lines s.entries (render rest))
      ∙ scan-entry_lines (bytes_eq s.name section) s.entries (render rest) h.1
      ∙ (rw (scan-render (bytes_eq s.name section) rest h.2))

lines-append : (l s : Bytes) → Lacks b'\n' l → lines (l ++ b'\n' ∷ s) ≡ l ∷ lines s
unfolding lines
lines-append [] s h = refl
lines-append (x ∷ l) s h = rw (h.0, lines-append l s h.1)

abbrev OneLiners : List Bytes → Type 0
OneLiners [] = Unit {0}
OneLiners (l ∷ ls) = Lacks b'\n' l × OneLiners ls

lines-unlines : (ls : List Bytes) → OneLiners ls → lines (unlines ls) ≡ ls
lines-unlines [] h = unfold lines in refl
lines-unlines (l ∷ ls) h = lines-append l (unlines ls) h.0 ∙ ap (λ u. l ∷ u) (lines-unlines ls h.1)

Lacks-append : (c : ℕ) (s t : Bytes) → Lacks c s → Lacks c t → Lacks c (s ++ t)
Lacks-append c [] t h k = k
Lacks-append c (x ∷ s) t h k = (h.0, Lacks-append c s t h.1 k)

OneLiners-entry_lines :
    (es : List (Bytes × Bytes)) (rest : List Bytes)
    → Entries es
    → OneLiners rest
    → OneLiners (entry_lines es rest)
OneLiners-entry_lines [] rest h k = k
OneLiners-entry_lines ((key, v) ∷ es) rest h k = (
  Lacks-append b'\n' key (b'=' ∷ v) h.0.no_newline (refl, h.1.no_newline),
  OneLiners-entry_lines es rest h.2 k,
)

OneLiners-render : (cfg : List Section) → Sections cfg → OneLiners (render cfg)
OneLiners-render [] h = tt
OneLiners-render (s ∷ rest) h = (
  (refl, Lacks-append b'\n' s.name (b']' ∷ []) h.0 (refl, tt)),
  OneLiners-entry_lines s.entries (render rest) h.1 (OneLiners-render rest h.2),
)

abbrev Clean : Bytes → Type 0
Clean v = IsTrimmed v × Lacks b';' v

Clean-entry_or :
    (key : Bytes) (es : List (Bytes × Bytes)) (missing : Bytes)
    → Entries es
    → Clean missing
    → Clean (entry_or key es missing)
Clean-entry_or key [] missing h c = c
Clean-entry_or key ((k, v) ∷ es) missing h c = elim (Bool-cases (bytes_eq k key)) [
  | inl here ↦ rw here (h.1.trimmed, h.1.no_comment)
  | inr on ↦ rw on (Clean-entry_or key es missing h.2 c)
]

Clean-lookup :
    (section key : Bytes) (cfg : List Section) → Sections cfg → Clean (lookup section key cfg)
Clean-lookup section key [] h = (tt, tt)
Clean-lookup section key (s ∷ rest) h =
    let later = Clean-lookup section key rest h.2 in
    elim (Bool-cases (bytes_eq s.name section)) [
      | inl here ↦ rw here (Clean-entry_or key s.entries (lookup section key rest) h.1 later)
      | inr on ↦ rw on later
    ]

processed_of_Clean : (v : Bytes) → Clean v → trim (split_comment v) ≡ v
unfolding split_comment
processed_of_Clean v c = rw (find_of_Lacks b';' v c.1) (trim_of_IsTrimmed v c.0)

-- In a file of sections in the usual form (a header `[name]` and lines `key=value`, keys and values
-- trimmed, no `=` in a key, no comment, no key that begins with `[`), the processed value is that of
-- the first entry of the key in a section of the name, and "" if there is none.
pub get_processed_value-lookup :
    (section key : Bytes) (cfg : List Section)
    → Sections cfg
    → get_processed_value section key (some (unlines (render cfg))) ≡ lookup section key cfg
unfolding get_processed_value get_raw_value
get_processed_value-lookup section key cfg h =
    rw (lines-unlines (render cfg) (OneLiners-render cfg h), scan-render section key false cfg h)
      (processed_of_Clean (lookup section key cfg) (Clean-lookup section key cfg h))
