-- ===== src/Tool/Examples.antt =====
-- Two small files and a link, for the theorems of this folder.
use piglet.Prelude.{
  ℕ, ◌≤◌, String, ◌≡◌, refl, true, false, ◌&&◌, none, some, List, [], ◌∷◌, map, arith, leb, str_eq,
  take, lookup, insert, erase,
}
use piglet.Tool.Runes.{Runes}
use piglet.Tool.Quotes.{Tables}
use piglet.Tool.Files.{
  File, Disk, Env, Moment, checked, content_read, snapshot_taken, renamed, canonicalize, file_at,
  edit, write, read,
}
use piglet.Tool.Edits.{IsAlone, Replaced, edit-Replaced}
use piglet.Tool.LostUpdate.{History, by_edit, Run, start, then_step, reads, IsCurrent, change-seen}
use piglet.Tool.Pages.{split_lines, number, read_on, join_lines}
use piglet.Tool.Paging.{read_on-content}
use piglet.Tool.Diff.{diff_split_lines, compute_diff_meta}
use piglet.Tool.Subsequence.{Common}
use piglet.Tool.Minimal.{Counts, compute_diff_meta-Counts}
use piglet.Tool.Output.{tail_write_all, flush_line, concat}
use piglet.Tool.Captured.{visible, tail_write_all-lines}

abbrev ascii : Tables
ascii = record { is_letter = λ c. leb 97 c; is_punct = λ c. leb 33 c && leb c 47 }

-- A letter, an opening and a closing curly quote round another letter.
abbrev quoted : Runes
quoted = 97 ∷ 0x201C ∷ 98 ∷ 0x201D ∷ 10 ∷ 99 ∷ []

abbrev straight_b : Runes
straight_b = 34 ∷ 98 ∷ 34 ∷ []

abbrev straight_d : Runes
straight_d = 34 ∷ 100 ∷ 34 ∷ []

abbrev works : ℕ → Env
works now = record {
  stat_works = true;
  read_works = true;
  mkdir_works = true;
  write_works = true;
  restat_works = true;
  snapshot_works = true;
  now = now;
  others = λ m d. d;
}

works-IsAlone : (now : ℕ) → IsAlone (works now)
works-IsAlone now m d = refl

abbrev disk : Disk
disk = record {
  files = ("/a", record { content = quoted; mtime = 3 }) ∷ [];
  links = ("/l", "/a") ∷ [];
  reads = [];
  snapshots = [];
}

abbrev edited_disk : Disk
edited_disk = (edit ascii (works 5) "/a" straight_b straight_d disk).0

edited_example :
    file_at "/a" edited_disk
    ≡ some (record { content = 97 ∷ 0x201C ∷ 100 ∷ 0x201D ∷ 10 ∷ 99 ∷ []; mtime = 5 })
unfolding file_at edit
edited_example = refl

edit-Replaced_example :
    (before : File) × (after : Runes) × (file_at "/a" disk ≡ some before)
    × Replaced before.content after straight_b straight_d
    × (file_at "/a" edited_disk ≡ some (record { content = after; mtime = 5 }))
    × ((other : String)
        → str_eq "/a" other ≡ false
        → lookup other edited_disk.files ≡ lookup other disk.files)
unfolding edit
edit-Replaced_example =
    edit-Replaced ascii (works 5) "/a" straight_b straight_d disk edited_disk (works-IsAlone 5) refl

-- Through a link the text is found in the file it leads to, and written in the place of the link.
linked_example :
    let d = (edit ascii (works 5) "/l" straight_b straight_d disk).0 in
    (lookup "/a" d.files ≡ some (record { content = quoted; mtime = 3 }))
    × (canonicalize "/l" d ≡ "/l")
unfolding edit lookup canonicalize
linked_example = (refl, refl)

abbrev first : History
first = record { disk = disk; seen = []; clock = 3 }

first-IsCurrent : IsCurrent first
unfolding lookup
first-IsCurrent = record {
  files_le = λ k f at. ground arith;
  reads_le = λ k t at. ground arith;
  current = λ k t f at_read at_file old. ground arith;
}

abbrev read_disk : Disk
read_disk = (read (works 4) "/a" disk).0

abbrev second : History
second = record { disk = read_disk; seen = ("/a", quoted) ∷ []; clock = 3 }

one_read : Run first second
unfolding read canonicalize insert erase
one_read = then_step start (reads first (works 4) "/a" read_disk quoted refl)

change-seen_example : lookup "/a" second.seen ≡ some quoted
unfolding read canonicalize insert edit file_at lookup
change-seen_example =
    change-seen (by_edit ascii straight_b straight_d) (works 5) "/a"
      (edit ascii (works 5) "/a" straight_b straight_d read_disk).0 3
      (record { content = quoted; mtime = 3 }) first-IsCurrent one_read refl refl refl refl

-- Another program, or a tool that runs at the same time, puts a text of one letter at "/a".
abbrev put_z : Disk → Disk
put_z d = record d { files = insert "/a" (record { content = 122 ∷ []; mtime = 4 }) d.files }

abbrev after_read : Moment → Disk → Disk
after_read checked d = d
after_read content_read d = put_z d
after_read snapshot_taken d = d
after_read renamed d = d

abbrev after_rename : Moment → Disk → Disk
after_rename checked d = d
after_rename content_read d = d
after_rename snapshot_taken d = d
after_rename renamed d = record d {
  files = insert "/a" (record { content = 122 ∷ []; mtime = 6 }) d.files;
}

abbrev raced : (Moment → Disk → Disk) → Disk
raced others = (edit ascii (record (works 5) { others = others }) "/a" straight_b straight_d disk).0

-- Between the read and the rename the other text is lost.
lost_example :
    file_at "/a" (raced after_read)
    ≡ some (record { content = 97 ∷ 0x201C ∷ 100 ∷ 0x201D ∷ 10 ∷ 99 ∷ []; mtime = 5 })
unfolding file_at edit
lost_example = refl

-- Between the rename and the stat its time is recorded as that of a text seen, and a write overwrites it.
seen_as_read_example :
    (file_at "/a" (raced after_rename) ≡ some (record { content = 122 ∷ []; mtime = 6 }))
    × (lookup "/a" (raced after_rename).reads ≡ some 6)
    × ((write (works 7) "/a" straight_d (raced after_rename)).1 ≡ none)
unfolding file_at edit write
seen_as_read_example = (refl, refl, refl)

-- After another program has written, the same edit is refused.
stale_example :
    (edit ascii
      (works 5)
      "/a"
      straight_b
      straight_d
      (record read_disk { files = ("/a", record { content = quoted; mtime = 4 }) ∷ [] })).1
    ≡ some piglet.Tool.Files.ToolError.file_stale
unfolding read edit
stale_example = refl

read_on-content_example :
    (shown : List (ℕ × Runes)) × (read_on 2 0 1 1 quoted ≡ some shown)
    × (shown ≡ number 0 (split_lines quoted))
    × (join_lines (map (λ p. p.1) shown) ≡ quoted)
unfolding split_lines
read_on-content_example = read_on-content 0 1 quoted (omega arith)

compute_diff_meta-Counts_example :
    (n : ℕ) × Common (diff_split_lines quoted) (diff_split_lines straight_d) n
    × ((k : ℕ) → Common (diff_split_lines quoted) (diff_split_lines straight_d) k → k ≤ n)
    × Counts
        (compute_diff_meta quoted straight_d)
        false
        n
        (diff_split_lines quoted)
        (diff_split_lines straight_d)
compute_diff_meta-Counts_example = compute_diff_meta-Counts quoted straight_d

two_changed :
    compute_diff_meta quoted straight_d ≡ record { added = 1; removed = 2; files = 1; hunks = 1 }
unfolding compute_diff_meta
two_changed = refl

abbrev output : List (List ℕ)
output = (97 ∷ 98 ∷ []) ∷ (13 ∷ 10 ∷ 10 ∷ 99 ∷ []) ∷ []

tail_write_all-lines_example :
    let w =
      tail_write_all output
        (record { dst = record { buf = []; limit = 3 }; pending = []; lines = [] }) in
    (w.dst.buf ≡ take 3 (concat output))
    × ((flush_line w).lines ≡ visible (split_lines (concat output)))
tail_write_all-lines_example = tail_write_all-lines output 3

shown_example :
    (flush_line (
      tail_write_all output
        (record { dst = record { buf = []; limit = 3 }; pending = []; lines = [] }))).lines
    ≡ (97 ∷ 98 ∷ []) ∷ (99 ∷ []) ∷ []
unfolding flush_line tail_write_all
shown_example = refl
