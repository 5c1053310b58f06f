-- ===== src/Tool/Edits.antt =====
-- tool/edit.go: an edit that returns no error.
use piglet.Prelude.{
  ℕ, String, ◌≡◌, ◌≢◌, refl, ap, ◌∙◌, inl, inr, true, false, not, ◌&&◌, ◌||◌, Option, none, some,
  [], ◌∷◌, ◌++◌, arith, str_eq, eq_refl, ltb, if◌then◌else◌, Bool-cases, Option-cases, length, take,
  drop, lookup, erase, insert, lookup-erase, lookup-insert,
}
use piglet.Tool.Runes.{Runes, same, index-split, replace_first}
use piglet.Tool.Quotes.{Tables, normalize_straight, find_with_quote_normalization}
use piglet.Tool.Files.{
  File, Disk, Env, ToolError, canonicalize, file_at, record_read, check_stale, snapshot_file,
  atomic_write, rerecord, commit, Moment, checked, content_read, snapshot_taken, renamed,
  replacement, edit_found, edit_content, edit,
}
use piglet.Tool.Found.{find_with_quote_normalization-FoundAt, apply_curly_quotes-normalize_straight}

snapshot_file-keeps :
    (env : Env) (path : String) (d : Disk)
    → ((snapshot_file env path d).files ≡ d.files)
      × ((snapshot_file env path d).links ≡ d.links)
      × ((snapshot_file env path d).reads ≡ d.reads)
unfolding snapshot_file
snapshot_file-keeps env path d = elim (Option-cases (file_at path d)) [
  | inl missing ↦ rw missing (refl, refl, refl)
  | inr (f, found) ↦ rw found (ground arith)
]

-- No other program or tool changes the disk while the tool runs.
abbrev pub IsAlone : Env → Type 0
IsAlone env = (m : Moment) (d : Disk) → env.others m d ≡ d

written-file_at :
    (env : Env) (path : String) (text : Runes) (d : Disk)
    → file_at path (atomic_write env path text d)
      ≡ some (record { content = text; mtime = env.now })
unfolding file_at canonicalize atomic_write
written-file_at env path text d = ground (
  arith,
  lookup-erase path path d.links,
  lookup-insert path path (record { content = text; mtime = env.now }) d.files,
  eq_refl path,
)

-- What a commit without an error leaves: the text at the path itself, and no other file changed.
pub commit-writes :
    (env : Env) (path : String) (text : Runes) (d d' : Disk)
    → IsAlone env
    → commit env path text d ≡ (d', none)
    → (d'.files ≡ insert path (record { content = text; mtime = env.now }) d.files)
      × (d'.links ≡ erase path d.links)
      × (d'.reads ≡ (if env.restat_works then insert path env.now d.reads else d.reads))
unfolding commit atomic_write rerecord record_read canonicalize
commit-writes env path text d d' alone h =
    let saved = snapshot_file env path d in
    let at = written-file_at env path text saved in
    let h' = rw at at (
      rw (alone renamed (atomic_write env path text saved)) at
        (rw (alone snapshot_taken saved) at h)) in
    ground (
      arith,
      snapshot_file-keeps env path d,
      lookup-erase path path d.links,
      lookup-erase path path saved.links,
      eq_refl path,
    )

-- The same, one key at a time.
pub commit-lookups :
    (env : Env) (path k : String) (text : Runes) (d d' : Disk)
    → IsAlone env
    → commit env path text d ≡ (d', none)
    → (lookup k d'.files ≡ (
        if str_eq path k
        then some (record { content = text; mtime = env.now })
        else lookup k d.files))
      × (lookup k d'.reads
          ≡ (if env.restat_works && str_eq path k then some env.now else lookup k d.reads))
      × (canonicalize path d' ≡ path)
unfolding canonicalize
commit-lookups env path k text d d' alone h =
    let w = commit-writes env path text d d' alone h in
    (
      ap (lookup k) w.0 ∙ lookup-insert path k (record { content = text; mtime = env.now }) d.files,
      ap (lookup k) w.2 ∙ ground (arith, lookup-insert path k env.now d.reads),
      ground (arith, ap (lookup path) w.1, lookup-erase path path d.links, eq_refl path),
    )

pub commit-file_at :
    (env : Env) (path : String) (text : Runes) (d d' : Disk)
    → IsAlone env
    → commit env path text d ≡ (d', none)
    → file_at path d' ≡ some (record { content = text; mtime = env.now })
unfolding file_at
commit-file_at env path text d d' alone h =
    let l = commit-lookups env path path text d d' alone h in rw (l.2, l.0, eq_refl path)

-- A commit with an error has written no file.
pub commit_fails :
    (env : Env) (path : String) (text : Runes) (d d' : Disk) (e : ToolError)
    → IsAlone env
    → commit env path text d ≡ (d', some e)
    → (d'.files ≡ d.files) × (d'.links ≡ d.links) × (d'.reads ≡ d.reads)
unfolding commit
commit_fails env path text d d' e alone h =
    let h' = rw (alone snapshot_taken (snapshot_file env path d)) at h in
    ground (arith, snapshot_file-keeps env path d)

-- The text that an edit writes when it finds one place.
unfoldable pub edited : Tables → Runes → Runes → Runes → Runes
unfolding find_with_quote_normalization replace_first replacement
edited u content old_text new_text =
    let actual = (find_with_quote_normalization content old_text).0 in
    replace_first content actual (replacement u actual old_text new_text)

-- What goes before a commit of edit.
pub record Committed (u : Tables) (env : Env) (path : String) (old_text new_text : Runes)
    (d d' : Disk) : Type 0 where
  pub file : File
  pub found : file_at path (env.others checked d) ≡ some file
  pub nonempty : old_text ≢ []
  pub not_stale : check_stale env path d ≡ false
  pub one :
      find_with_quote_normalization file.content old_text
      ≡ ((find_with_quote_normalization file.content old_text).0, 1)
  pub committed :
      commit env path
        (edited u file.content old_text new_text)
        (env.others content_read (env.others checked d))
      ≡ (d', none)

one_of_tests : (n : ℕ) → (ltb 0 n && not (ltb 1 n)) ≡ true → n ≡ 1
one_of_tests n h = ground arith

edit_found-Committed :
    (u : Tables) (env : Env) (path : String) (old_text new_text : Runes) (f : File) (d d' : Disk)
    → file_at path (env.others checked d) ≡ some f
    → old_text ≢ []
    → check_stale env path d ≡ false
    → edit_found u env path old_text new_text f.content
        (find_with_quote_normalization f.content old_text)
        (env.others content_read (env.others checked d))
      ≡ (d', none)
    → Committed u env path old_text new_text d d'
unfolding edit_found edited
edit_found-Committed u env path old_text new_text f d d' found nonempty fresh e =
    let n = (find_with_quote_normalization f.content old_text).1 in
    elim (Bool-cases (ltb 0 n && not (ltb 1 n))) [
      | inl unique ↦ record {
        file = f;
        found = found;
        nonempty = nonempty;
        not_stale = fresh;
        one =
            ap (λ (k : ℕ). ((find_with_quote_normalization f.content old_text).0, k))
              (one_of_tests n unique);
        committed = rw unique at e;
      }
      | inr other ↦ let e' = rw other at e in absurd (ground arith)
    ]

edit_content-Committed :
    (u : Tables) (env : Env) (path : String) (old_text new_text : Runes) (place : Option File)
    (d d' : Disk)
    → file_at path (env.others checked d) ≡ place
    → old_text ≢ []
    → check_stale env path d ≡ false
    → edit_content u env path old_text new_text place (env.others checked d) ≡ (d', none)
    → Committed u env path old_text new_text d d'
unfolding edit_content
edit_content-Committed u env path old_text new_text none d d' found nonempty fresh e =
    absurd (ground arith)
edit_content-Committed u env path old_text new_text (some f) d d' found nonempty fresh e =
    elim (Bool-cases env.read_works) [
      | inl works ↦
          edit_found-Committed u env path old_text new_text f d d' found nonempty fresh
            (rw works at e)
      | inr fails ↦ let e' = rw fails at e in absurd (ground arith)
    ]

nonempty_of_valid :
    (path : String) (old_text : Runes)
    → (str_eq path "" || same old_text []) ≡ false
    → old_text ≢ []
unfolding same
nonempty_of_valid path [] h = ground arith
nonempty_of_valid path (c ∷ s) h = λ e. cc

pub edit-Committed :
    (u : Tables) (env : Env) (path : String) (old_text new_text : Runes) (d d' : Disk)
    → edit u env path old_text new_text d ≡ (d', none)
    → Committed u env path old_text new_text d d'
unfolding edit
edit-Committed u env path old_text new_text d d' e =
    elim (Bool-cases (str_eq path "" || same old_text [])) [
      | inl invalid ↦ let e' = rw invalid at e in absurd (ground arith)
      | inr valid ↦ elim (Bool-cases (check_stale env path d)) [
        | inl stale ↦ let e' = rw (valid, stale) at e in absurd (ground arith)
        | inr fresh ↦
            edit_content-Committed u env path old_text new_text
              (file_at path (env.others checked d)) d d' refl
              (nonempty_of_valid path old_text valid) fresh (rw (valid, fresh) at e)
      ]
    ]

-- The text of a file before and after an edit: one place, which is the given text up to the style of its
-- quotes, is replaced by the new text up to the style of its quotes.
pub record Replaced (before after old_text new_text : Runes) : Type 0 where
  pub ahead : Runes
  pub actual : Runes
  pub behind : Runes
  pub put : Runes
  pub before_lem : before ≡ ahead ++ (actual ++ behind)
  pub after_lem : after ≡ ahead ++ (put ++ behind)
  pub actual_lem : normalize_straight actual ≡ normalize_straight old_text
  pub put_lem : normalize_straight put ≡ normalize_straight new_text

replacement-normalize_straight :
    (u : Tables) (actual old_text new_text : Runes)
    → normalize_straight (replacement u actual old_text new_text) ≡ normalize_straight new_text
unfolding replacement
replacement-normalize_straight u actual old_text new_text =
    ground (arith, apply_curly_quotes-normalize_straight u actual new_text)

edited-Replaced :
    (u : Tables) (content old_text new_text : Runes)
    → old_text ≢ []
    → find_with_quote_normalization content old_text
      ≡ ((find_with_quote_normalization content old_text).0, 1)
    → Replaced content (edited u content old_text new_text) old_text new_text
unfolding edited replace_first
edited-Replaced u content old_text new_text nonempty one =
    let actual = (find_with_quote_normalization content old_text).0 in
    let ((i, at), alike) =
      find_with_quote_normalization-FoundAt content old_text actual nonempty one in
    record {
      ahead = take i content;
      actual = actual;
      behind = drop (length actual) (drop i content);
      put = replacement u actual old_text new_text;
      before_lem = index-split content actual i at;
      after_lem = rw at;
      actual_lem = alike;
      put_lem = replacement-normalize_straight u actual old_text new_text;
    }

-- What an edit commits when nothing else changes the disk meanwhile.
pub alone-committed :
    (env : Env) (path : String) (text : Runes) (d d' : Disk)
    → IsAlone env
    → commit env path text (env.others content_read (env.others checked d)) ≡ (d', none)
    → commit env path text d ≡ (d', none)
alone-committed env path text d d' alone h = rw (alone checked d, alone content_read d) at h

-- An edit that returns no error, while nothing else changes the disk, has changed one file, the one at the path,
-- which had the old text at one place and has the new text there, both up to the style of quotes, with the rest
-- of the text as it was.
pub edit-Replaced :
    (u : Tables) (env : Env) (path : String) (old_text new_text : Runes) (d d' : Disk)
    → IsAlone env
    → edit u env path old_text new_text d ≡ (d', none)
    → (before : File) × (after : Runes) × (file_at path d ≡ some before)
      × Replaced before.content after old_text new_text
      × (file_at path d' ≡ some (record { content = after; mtime = env.now }))
      × ((other : String)
          → str_eq path other ≡ false
          → lookup other d'.files ≡ lookup other d.files)
edit-Replaced u env path old_text new_text d d' alone e =
    let c = edit-Committed u env path old_text new_text d d' e in
    let text = edited u c.file.content old_text new_text in
    let done = alone-committed env path text d d' alone c.committed in
    (
      c.file,
      text,
      rw (alone checked d) at c.found,
      edited-Replaced u c.file.content old_text new_text c.nonempty c.one,
      commit-file_at env path text d d' alone done,
      λ other differs. rw differs at (commit-lookups env path other text d d' alone done).0,
    )
