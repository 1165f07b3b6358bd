-- ===== src/Adapter/Poll/Cursor.antt =====
-- The cursor file of poll.go: `readCursor` and `writeCursor`, with every way that they can fail.
pub mod Atomic
use knative_source.Base.{ℕ, Bool, true, false, not, Option, none, some, List, [], ◌∷◌, ◌++◌}
use knative_source.Base.{if◌then◌else◌, Str, str_eq, ◌==◌}
use knative_source.Base.Result.{Result, ok, err}

-- The content of each file that exists.
abbrev pub Disk : Type 0
Disk = Str → Option Str

abbrev pub put_file : Str → Option Str → Disk → Disk
put_file p v d q = if q == p then v else d q

-- The steps that change the disk.
pub data FsStep : Type 0 where
  make_dir : FsStep
  write_file : Str → Str → FsStep
  rename_file : Str → Str → FsStep
  remove_file : Str → FsStep

-- A rename replaces its target in one step.
abbrev pub run_step : FsStep → Disk → Disk
run_step make_dir d = d
run_step (write_file p s) d = put_file p (some s) d
run_step (rename_file p q) d = put_file p none (put_file q (d p) d)
run_step (remove_file p) d = put_file p none d

unfoldable pub run_steps : List FsStep → Disk → Disk
run_steps [] d = d
run_steps (s ∷ ss) d = run_steps ss (run_step s d)

-- What `os.ReadFile` reports.
pub data ReadResult : Type 0 where
  not_exist : ReadResult
  read_failed : ReadResult
  content : Str → ReadResult

-- The error is that of a file which exists and cannot be read.
unfoldable pub read_cursor : Str → (Str → ReadResult) → Result (Unit {0}) Str
read_cursor path read =
    if path == []
    then ok []
    else elim (read path) [ not_exist ↦ ok [] | read_failed ↦ err tt | content b ↦ ok b ]

-- How the calls of `writeCursor` turn out. `create` is the name of the temporary file, or an error;
-- `write` is none for success, or what a failed write has left in the file.
pub record Calls : Type 0 where
  pub mkdir : Bool
  pub create : Option Str
  pub write : Option Str
  pub close : Bool
  pub rename : Bool

pub data WriteError : Type 0 where
  mkdir_failed create_failed write_failed close_failed rename_failed : WriteError

-- From the write to the rename. The first step shows the empty file that was created.
fill_temp : Str → Str → Str → Calls → List FsStep × Option WriteError
fill_temp path tmp cursor c = elim c.write [
  | some partial ↦ (write_file tmp partial ∷ [], some write_failed)
  | none ↦
      if not c.close
      then (write_file tmp cursor ∷ [], some close_failed)
      else if not c.rename
      then (write_file tmp cursor ∷ [], some rename_failed)
      else (write_file tmp cursor ∷ rename_file tmp path ∷ [], none)
]

-- The deferred function: the temporary file is removed unless the rename was reached.
clean_up : Str → List FsStep × Option WriteError → List FsStep × Option WriteError
clean_up tmp (steps, none) = (steps, none)
clean_up tmp (steps, some e) = (steps ++ (remove_file tmp ∷ []), some e)

-- The steps that are made, in order, and the error.
unfoldable pub write_cursor : Str → Str → Calls → List FsStep × Option WriteError
unfolding fill_temp clean_up
write_cursor path cursor c =
    if path == []
    then ([], none)
    else if not c.mkdir
    then ([], some mkdir_failed)
    else elim c.create [
      | none ↦ (make_dir ∷ [], some create_failed)
      | some tmp ↦
          let (steps, e) = clean_up tmp (fill_temp path tmp cursor c) in
          (make_dir ∷ write_file tmp [] ∷ steps, e)
    ]
