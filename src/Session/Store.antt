-- ===== src/Session/Store.antt =====
-- session/append.go: how an entry reaches the file and the tree.
use piglet.Prelude.{String, Option, none, some, List, [], ◌∷◌, insert}
use piglet.Core.Json.{Json}
use piglet.Session.Types.{
  Entry, Line, entry, corrupt, torn, unended, Left, nothing_left, part_left, entry_left, Node,
  Session, Io, lock_failed, write_failed, Env, Err, lock_err, write_err, type_meta,
}
use piglet.Session.Payload.{encode_meta}

-- What a line becomes behind the piece of another one: an object behind a piece of an object is no JSON.
abbrev pub joined : Line → Line
joined (entry e) = corrupt
joined corrupt = corrupt
joined torn = torn
joined (unended e) = torn

abbrev pub add_last : Line → Line → List Line
add_last (entry e) l = entry e ∷ l ∷ []
add_last corrupt l = corrupt ∷ l ∷ []
add_last torn l = joined l ∷ []
add_last (unended e) l = joined l ∷ []

-- A write at the end of a file: behind a line without its end the bytes belong to that line.
unfoldable pub add_line : List Line → Line → List Line
add_line [] l = l ∷ []
add_line (x ∷ []) l = add_last x l
add_line (x ∷ y ∷ ls) l = x ∷ add_line (y ∷ ls) l

unfoldable pub leave : Left → Entry → List Line → List Line
unfolding add_line
leave nothing_left e f = f
leave part_left e f = add_line f torn
leave entry_left e f = add_line f (unended e)

-- `appendEntry`; with no open file there is nothing to do.
unfoldable pub append_entry : Io → Entry → Option (List Line) → Option (List Line) × Option Err
unfolding leave add_line
append_entry io e none = (none, none)
append_entry (write_failed l) e (some f) = (some (leave l e f), some write_err)
append_entry _ e (some f) = (some (add_line f (entry e)), none)

-- `withFileLock` around `appendEntry`: without the lock nothing is written.
unfoldable pub locked_append : Io → Entry → Option (List Line) → Option (List Line) × Option Err
unfolding append_entry
locked_append lock_failed e f = (f, some lock_err)
locked_append io e f = append_entry io e f

-- The tail of `commitNode`, after the write.
unfoldable pub register :
    Env → Node → Session → Option (List Line) × Option Err → Session × Option Err
register env n s (f, some err) = (record s { file = f }, some err)
register env n s (f, none) = (
  record s {
    file = f;
    nodes = insert env.fresh_id (record n { parent_id = s.leaf_id; ts = env.now }) s.nodes;
    leaf_id = env.fresh_id;
  },
  none,
)

unfoldable pub commit_entry : Env → String → Json → Node → Session → Entry
commit_entry env typ raw n s = record {
  typ = typ;
  id = env.fresh_id;
  parent_id = s.leaf_id;
  ts = env.now;
  payload = raw;
  tokens_before = n.tokens_before;
}

-- `commitNode`
unfoldable pub commit_node : Env → String → Json → Node → Session → Session × Option Err
unfolding register commit_entry locked_append
commit_node env typ raw n s =
    register env n s (locked_append env.io (commit_entry env typ raw n s) s.file)

unfoldable pub meta_entry : Env → Session → Entry
meta_entry env s = record {
  typ = type_meta;
  id = "";
  parent_id = "";
  ts = env.now;
  payload = encode_meta s.meta;
  tokens_before = 0;
}

-- What `SetTitle` and `SetModel` do once the metadata in memory is changed.
unfoldable pub write_meta : Env → Session → Session × Option Err
unfolding locked_append meta_entry
write_meta env s =
    let (f, err) = locked_append env.io (meta_entry env s) s.file in (record s { file = f }, err)
