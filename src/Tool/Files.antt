-- ===== src/Tool/Files.antt =====
-- tool/edit.go, write.go, read.go, filetrack.go and undo.go: the tools over a file system. A path is as
-- requirePath gives it. A file is regular; a path may also be a symbolic link to the path of a file, and
-- the directories on the way are no links. An environment says what fails, what time it is, and what other
-- programs and tools do to the disk between the steps of edit and write; read is one step.
use piglet.Prelude.{
  ℕ, ◌+◌, ◌*◌, String, Bool, false, not, ◌&&◌, ◌||◌, Option, none, some, [], ◌∷◌, str_eq, ltb,
  if◌then◌else◌, Assoc, lookup, erase, insert,
}
use piglet.Tool.Runes.{Runes, same, replace_first}
use piglet.Tool.Quotes.{Tables, find_with_quote_normalization, apply_curly_quotes}

pub record File : Type 0 where
  pub content : Runes
  pub mtime : ℕ

-- The disk, the `reads` of the fileTracker and the snapshots of undo.
pub record Disk : Type 0 where
  pub files : Assoc File
  pub links : Assoc String
  pub reads : Assoc ℕ
  pub snapshots : Assoc Runes

-- Where edit and write can be interrupted: after CheckStale, after the read of the file, after the snapshot
-- and after the rename.
pub data Moment : Type 0 where
  checked content_read snapshot_taken renamed : Moment

-- Whether each call to the system works, the time of a write, and what others do at each moment.
pub record Env : Type 0 where
  pub stat_works : Bool
  pub read_works : Bool
  pub mkdir_works : Bool
  pub write_works : Bool
  pub restat_works : Bool
  pub snapshot_works : Bool
  pub now : ℕ
  pub others : Moment → Disk → Disk

-- The code of a coded error; permission_denied counts as io_error.
pub data ToolError : Type 0 where
  invalid_args file_not_found file_stale io_error : ToolError
  not_unique : ℕ → ToolError

abbrev or_self : String → Option String → String
or_self path none = path
or_self path (some target) = target

-- `canonicalize`: a path that is no link is itself.
unfoldable pub canonicalize : String → Disk → String
unfolding lookup
canonicalize path d = or_self path (lookup path d.links)

-- What `os.Stat` and `os.ReadFile` follow a path to.
unfoldable pub file_at : String → Disk → Option File
unfolding canonicalize lookup
file_at path d = lookup (canonicalize path d) d.files

-- `RecordRead`
unfoldable pub record_read : String → ℕ → Disk → Disk
unfolding canonicalize insert
record_read path mtime d = record d { reads = insert (canonicalize path d) mtime d.reads }

abbrev is_stale : Option ℕ → Option File → Bool → Bool
is_stale none f stat_works = false
is_stale (some read_time) none stat_works = false
is_stale (some read_time) (some f) stat_works = stat_works && ltb read_time f.mtime

-- `CheckStale`: whether it has a message.
unfoldable pub check_stale : Env → String → Disk → Bool
unfolding canonicalize file_at lookup
check_stale env path d =
    is_stale (lookup (canonicalize path d) d.reads) (file_at path d) env.stat_works

abbrev utf8_len : ℕ → ℕ
utf8_len c = if ltb c 0x80 then 1 else if ltb c 0x800 then 2 else if ltb c 0x10000 then 3 else 4

-- The size of a text in bytes.
unfoldable pub size : Runes → ℕ
size [] = 0
size (c ∷ s) = utf8_len c + size s

abbrev snapshot : Bool → String → Option File → Disk → Disk
snapshot works path none d = d
snapshot works path (some f) d =
    if not works || ltb (10 * 1048576) (size f.content)
    then d
    else record d { snapshots = insert path f.content d.snapshots }

-- `snapshotFile`; the name of a snapshot is a hash of the path, here the path.
unfoldable pub snapshot_file : Env → String → Disk → Disk
unfolding file_at insert size
snapshot_file env path d = snapshot env.snapshot_works path (file_at path d) d

-- `atomicWrite`: the rename puts a regular file at the path itself, also where a link was.
unfoldable pub atomic_write : Env → String → Runes → Disk → Disk
unfolding insert erase
atomic_write env path text d = record d {
  files = insert path (record { content = text; mtime = env.now }) d.files;
  links = erase path d.links;
}

abbrev record_stat : String → Option File → Disk → Disk
record_stat path none d = d
record_stat path (some f) d = record_read path f.mtime d

-- The stat after a write: the time that is recorded is that of the file found then.
unfoldable pub rerecord : Env → String → Disk → Disk
unfolding record_read file_at
rerecord env path d = if env.restat_works then record_stat path (file_at path d) d else d

-- What edit and write end with: the snapshot, the write and the new time.
unfoldable pub commit : Env → String → Runes → Disk → Disk × Option ToolError
unfolding snapshot_file atomic_write rerecord
commit env path text d =
    let over = env.others snapshot_taken (snapshot_file env path d) in
    if not env.write_works
    then (over, some ToolError.io_error)
    else (rerecord env path (env.others renamed (atomic_write env path text over)), none)

module _ (u : Tables) where
  -- The replacement that edit writes for what it found.
  unfoldable pub replacement : Runes → Runes → Runes → Runes
  unfolding same apply_curly_quotes
  replacement actual old_text new_text =
      if same actual old_text then new_text else apply_curly_quotes u actual new_text

  unfoldable pub edit_found :
      Env → String → Runes → Runes → Runes → Runes × ℕ → Disk → Disk × Option ToolError
  unfolding commit replace_first replacement
  edit_found env path old_text new_text content (actual, count) d =
      if ltb 0 count && not (ltb 1 count)
      then commit env path (replace_first content actual (replacement actual old_text new_text)) d
      else (d, some (ToolError.not_unique count))

  unfoldable pub edit_content :
      Env → String → Runes → Runes → Option File → Disk → Disk × Option ToolError
  unfolding edit_found find_with_quote_normalization
  edit_content env path old_text new_text none d = (d, some ToolError.file_not_found)
  edit_content env path old_text new_text (some f) d =
      if not env.read_works
      then (d, some ToolError.io_error)
      else edit_found env path old_text new_text f.content
          (find_with_quote_normalization f.content old_text) (env.others content_read d)

  -- The tool edit.
  unfoldable pub edit : Env → String → Runes → Runes → Disk → Disk × Option ToolError
  unfolding edit_content check_stale file_at
  edit env path old_text new_text d =
      if str_eq path "" || same old_text []
      then (d, some ToolError.invalid_args)
      else if check_stale env path d
      then (d, some ToolError.file_stale)
      else let then_on = env.others checked d in
        edit_content env path old_text new_text (file_at path then_on) then_on

-- The tool write.
unfoldable pub write : Env → String → Runes → Disk → Disk × Option ToolError
unfolding check_stale commit
write env path text d =
    if str_eq path ""
    then (d, some ToolError.invalid_args)
    else if check_stale env path d
    then (d, some ToolError.file_stale)
    else let then_on = env.others checked d in
      if not env.mkdir_works
      then (then_on, some ToolError.io_error)
      else commit env path text (env.others content_read then_on)

unfoldable pub read_content : Env → String → Option File → Disk → Disk × Option Runes
unfolding record_read size
read_content env path none d = (d, none)
read_content env path (some f) d =
    if not env.stat_works || ltb (50 * 1048576) (size f.content) || not env.read_works
    then (d, none)
    else (record_read path f.mtime d, some f.content)

-- The tool read up to the text of the file.
unfoldable pub read : Env → String → Disk → Disk × Option Runes
unfolding file_at read_content
read env path d = if str_eq path "" then (d, none) else read_content env path (file_at path d) d
