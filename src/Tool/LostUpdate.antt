-- ===== src/Tool/LostUpdate.antt =====
-- tool/filetrack.go: what the check of the modification time is for, over runs of the tools and of other
-- programs that write files.
use piglet.Prelude.{
  ℕ, ◌≤◌, ◌<◌, String, ◌≡◌, inl, inr, true, false, not, ◌&&◌, Option, none, some, arith, eq_iff,
  ltb, Bool-cases, Option-cases, Assoc, lookup, insert, lookup-insert,
}
use piglet.Tool.Runes.{Runes}
use piglet.Tool.Quotes.{Tables, find_with_quote_normalization}
use piglet.Tool.Files.{
  File, Disk, Env, ToolError, canonicalize, file_at, record_read, check_stale, commit, edit_found,
  edit_content, edit, write, read_content, read, checked, content_read,
}
use piglet.Tool.Edits.{
  IsAlone, alone-committed, commit-lookups, commit-file_at, commit_fails, edit-Committed,
}

-- The disk, the text of each file that a tool last read or wrote, and the latest time of a write.
pub record History : Type 0 where
  pub disk : Disk
  pub seen : Assoc Runes
  pub clock : ℕ

-- A tool that writes a text at a path.
pub data Change : Type 0 where
  by_edit : Tables → (old_text new_text : Runes) → Change
  by_write : (text : Runes) → Change

abbrev pub change : Change → Env → String → Disk → Disk × Option ToolError
change (by_edit u old_text new_text) env path d = edit u env path old_text new_text d
change (by_write text) env path d = write env path text d

-- A read, or a run of a tool during which nothing else changes the disk, or a write of another program.
pub data Step : History → History → Type 0 where
  reads :
      (h : History) (env : Env) (path : String) (d' : Disk) (text : Runes)
      → read env path h.disk ≡ (d', some text)
      → Step h (record h { disk = d'; seen = insert (canonicalize path h.disk) text h.seen })
  changes :
      (h : History) (c : Change) (env : Env) (path : String) (d' : Disk) (f : File)
      → change c env path h.disk ≡ (d', none)
      → file_at path d' ≡ some f
      → h.clock ≤ env.now
      → IsAlone env
      → Step h (record { disk = d'; seen = insert path f.content h.seen; clock = env.now })
  fails :
      (h : History) (c : Change) (env : Env) (path : String) (d' : Disk) (e : ToolError)
      → change c env path h.disk ≡ (d', some e)
      → IsAlone env
      → Step h (record h { disk = d' })
  -- Another program writes a file, at a later time, while no tool runs.
  others :
      (h : History) (path : String) (f : File)
      → h.clock < f.mtime
      → Step h (record h {
        disk = record h.disk { files = insert path f h.disk.files };
        clock = f.mtime;
      })

pub data Run (h : History) : History → Type 0 where
  start : Run h h
  then_step : {h' h'' : History} → Run h h' → Step h' h'' → Run h h''

-- Times are past, and a file that has not changed since a tool saw it is as the tool saw it.
pub record IsCurrent (h : History) : Type 0 where
  pub files_le : (k : String) (f : File) → lookup k h.disk.files ≡ some f → f.mtime ≤ h.clock
  pub reads_le : (k : String) (t : ℕ) → lookup k h.disk.reads ≡ some t → t ≤ h.clock
  pub current :
      (k : String) (t : ℕ) (f : File)
      → lookup k h.disk.reads ≡ some t
      → lookup k h.disk.files ≡ some f
      → f.mtime ≤ t
      → lookup k h.seen ≡ some f.content

-- What a write without an error commits.
write-commit :
    (env : Env) (path : String) (text : Runes) (d d' : Disk)
    → IsAlone env
    → write env path text d ≡ (d', none)
    → (check_stale env path d ≡ false) × (commit env path text d ≡ (d', none))
unfolding write
write-commit env path text d d' alone e =
    let e' = rw (alone checked d, alone content_read d) at e in (ground arith)

-- What either tool commits.
change-commit :
    (c : Change) (env : Env) (path : String) (d d' : Disk)
    → IsAlone env
    → change c env path d ≡ (d', none)
    → (text : Runes) × (check_stale env path d ≡ false) × (commit env path text d ≡ (d', none))
change-commit (by_edit u old_text new_text) env path d d' alone e =
    let c = edit-Committed u env path old_text new_text d d' e in
    (_, c.not_stale, alone-committed env path _ d d' alone c.committed)
change-commit (by_write text) env path d d' alone e =
    let w = write-commit env path text d d' alone e in (text, w.0, w.1)

abbrev SameFiles : Disk → Disk → Type 0
SameFiles d d' = (d'.files ≡ d.files) × (d'.links ≡ d.links) × (d'.reads ≡ d.reads)

edit_found_fails :
    (u : Tables) (env : Env) (path : String) (old_text new_text content : Runes) (p : Runes × ℕ)
    (d d' : Disk) (e : ToolError)
    → IsAlone env
    → edit_found u env path old_text new_text content p d ≡ (d', some e)
    → SameFiles d d'
unfolding edit_found
edit_found_fails u env path old_text new_text content (actual, n) d d' e alone h =
    elim (Bool-cases (ltb 0 n && not (ltb 1 n))) [
      | inl one ↦ commit_fails env path _ d d' e alone (rw one at h)
      | inr other ↦ let h' = rw other at h in (ground arith)
    ]

edit_content_fails :
    (u : Tables) (env : Env) (path : String) (old_text new_text : Runes) (place : Option File)
    (d d' : Disk) (e : ToolError)
    → IsAlone env
    → edit_content u env path old_text new_text place d ≡ (d', some e)
    → SameFiles d d'
unfolding edit_content
edit_content_fails u env path old_text new_text none d d' e alone h = ground arith
edit_content_fails u env path old_text new_text (some f) d d' e alone h =
    elim (Bool-cases env.read_works) [
      | inl works ↦
          edit_found_fails u env path old_text new_text f.content
            (find_with_quote_normalization f.content old_text) d d' e alone
            (rw (works, alone content_read d) at h)
      | inr broken ↦ let h' = rw broken at h in (ground arith)
    ]

-- A tool that returns an error has changed no file and no time of a read.
change_fails :
    (c : Change) (env : Env) (path : String) (d d' : Disk) (e : ToolError)
    → IsAlone env
    → change c env path d ≡ (d', some e)
    → SameFiles d d'
unfolding edit write
change_fails (by_edit u old_text new_text) env path d d' e alone h =
    let h' = rw (alone checked d) at h in
    ground (arith, edit_content_fails u env path old_text new_text (file_at path d) d d' e alone)
change_fails (by_write text) env path d d' e alone h =
    let h' = rw (alone checked d, alone content_read d) at h in
    ground (arith, commit_fails env path text d d' e alone)

-- What a read that gives a text does.
read-record_read :
    (env : Env) (path : String) (d d' : Disk) (text : Runes)
    → read env path d ≡ (d', some text)
    → (f : File) × (file_at path d ≡ some f)
      × (f.content ≡ text)
      × (d' ≡ record_read path f.mtime d)
unfolding read read_content
read-record_read env path d d' text h = elim (Option-cases (file_at path d)) [
  | inl missing ↦ let h' = rw missing at h in absurd (ground arith)
  | inr (f, found) ↦ let h' = rw found at h in (f, found, ground arith, ground arith)
]

module _ (h : History) (v : IsCurrent h) where
  reads-IsCurrent :
      (env : Env) (path : String) (d' : Disk) (text : Runes)
      → read env path h.disk ≡ (d', some text)
      → IsCurrent (record h { disk = d'; seen = insert (canonicalize path h.disk) text h.seen })
  unfolding record_read file_at
  reads-IsCurrent env path d' text e =
      let (f, found, same_text, after) = read-record_read env path h.disk d' text e in
      let key = canonicalize path h.disk in
      record {
        files_le = λ k g at. v.files_le k g (ground arith);
        reads_le = λ k t at.
            ground
              (arith, lookup-insert key k f.mtime h.disk.reads, v.reads_le k t, v.files_le key f);
        current = λ k t g at_read at_file old. ground (
          arith,
          lookup-insert key k f.mtime h.disk.reads,
          lookup-insert key k text h.seen,
          v.current k t g,
          eq_iff key k,
        );
      }

  changes-IsCurrent :
      (c : Change) (env : Env) (path : String) (d' : Disk) (f : File)
      → change c env path h.disk ≡ (d', none)
      → file_at path d' ≡ some f
      → h.clock ≤ env.now
      → IsAlone env
      → IsCurrent (record { disk = d'; seen = insert path f.content h.seen; clock = env.now })
  changes-IsCurrent c env path d' f e found later alone =
      let (text, fresh, done) = change-commit c env path h.disk d' alone e in
      let l = λ (k : String). commit-lookups env path k text h.disk d' alone done in
      let at_path = commit-file_at env path text h.disk d' alone done in
      record {
        files_le = λ k g at. ground (arith, l k, v.files_le k g);
        reads_le = λ k t at. ground (arith, l k, v.reads_le k t);
        current = λ k t g at_read at_file old.
            ground (arith, l k, at_path, v.current k t g, lookup-insert path k f.content h.seen);
      }

  others-IsCurrent :
      (path : String) (f : File)
      → h.clock < f.mtime
      → IsCurrent (record h {
        disk = record h.disk { files = insert path f h.disk.files };
        clock = f.mtime;
      })
  others-IsCurrent path f later = record {
    files_le = λ k g at. ground (arith, lookup-insert path k f h.disk.files, v.files_le k g);
    reads_le = λ k t at. ground (arith, v.reads_le k t);
    current = λ k t g at_read at_file old.
        ground (arith, lookup-insert path k f h.disk.files, v.reads_le k t, v.current k t g);
  }

  fails-IsCurrent :
      (c : Change) (env : Env) (path : String) (d' : Disk) (e : ToolError)
      → change c env path h.disk ≡ (d', some e)
      → IsAlone env
      → IsCurrent (record h { disk = d' })
  fails-IsCurrent c env path d' e failed alone =
      let s = change_fails c env path h.disk d' e alone failed in
      record {
        files_le = λ k g at. ground (arith, v.files_le k g);
        reads_le = λ k t at. ground (arith, v.reads_le k t);
        current = λ k t g at_read at_file old. ground (arith, v.current k t g);
      }

Step-IsCurrent : {h h' : History} → Step h h' → IsCurrent h → IsCurrent h'
Step-IsCurrent (reads h env path d' text e) v = reads-IsCurrent h v env path d' text e
Step-IsCurrent (changes h c env path d' f e found later alone) v =
    changes-IsCurrent h v c env path d' f e found later alone
Step-IsCurrent (fails h c env path d' e failed alone) v =
    fails-IsCurrent h v c env path d' e failed alone
Step-IsCurrent (others h path f later) v = others-IsCurrent h v path f later

pub Run-IsCurrent : {h h' : History} → IsCurrent h → Run h h' → IsCurrent h'
Run-IsCurrent v start = v
Run-IsCurrent v (then_step r s) = Step-IsCurrent s (Run-IsCurrent v r)

not_stale :
    (env : Env) (path : String) (d : Disk) (t : ℕ) (f : File)
    → check_stale env path d ≡ false
    → env.stat_works ≡ true
    → lookup (canonicalize path d) d.reads ≡ some t
    → file_at path d ≡ some f
    → f.mtime ≤ t
unfolding check_stale
not_stale env path d t f fresh works tracked found = ground arith

-- Whatever happens while it runs, a tool that returns no error has found its file not stale.
change-check_stale :
    (c : Change) (env : Env) (path : String) (d d' : Disk)
    → change c env path d ≡ (d', none)
    → check_stale env path d ≡ false
unfolding write
change-check_stale (by_edit u old_text new_text) env path d d' e =
    (edit-Committed u env path old_text new_text d d' e).not_stale
change-check_stale (by_write text) env path d d' e = ground arith

-- After any run of the tools, each alone, and of other programs between them, each write of another program
-- being later than the writes before it, a tool that changes a file that a tool has read or written, and can
-- stat it, has started on the text that a tool last read or wrote there, whatever others do while it runs. So
-- an update that another program makes while no tool runs is never overwritten unread.
pub change-seen :
    {h h' : History} (c : Change) (env : Env) (path : String) (d' : Disk) (t : ℕ) (f : File)
    → IsCurrent h
    → Run h h'
    → change c env path h'.disk ≡ (d', none)
    → env.stat_works ≡ true
    → lookup (canonicalize path h'.disk) h'.disk.reads ≡ some t
    → file_at path h'.disk ≡ some f
    → lookup (canonicalize path h'.disk) h'.seen ≡ some f.content
unfolding file_at
change-seen c env path d' t f v r e works tracked found =
    let fresh = change-check_stale c env path _ d' e in
    let w = Run-IsCurrent v r in
    w.current _ t f tracked found (not_stale env path _ t f fresh works tracked found)
