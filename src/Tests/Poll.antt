-- ===== src/Tests/Poll.antt =====
-- Runs of the theorems on polling.
use knative_source.Base.{
  ◌≡◌, ◌≢◌, refl, ◌⊎◌, true, none, some, [], str_eq, ◌==◌, if◌then◌else◌, take, arith,
}
use knative_source.Base.Bytes.{bytes}
use knative_source.Adapter.Poll.Cursor.{Disk, Calls, run_steps, write_cursor}
use knative_source.Adapter.Poll.Cursor.Atomic.{write_cursor_crash}

abbrev calls : Calls
calls = record {
  mkdir = true;
  create = some (bytes "tmp");
  write = none;
  close = true;
  rename = true;
}

abbrev disk : Disk
disk q = if q == bytes "cursor" then some (bytes "c0") else none

tmp_apart : bytes "tmp" ≢ bytes "cursor"
tmp_apart = ground arith

cursor_set : bytes "cursor" ≢ []
cursor_set = ground arith

write_cursor_crash_example :
    let done =
      run_steps
        (take 3 (write_cursor (bytes "cursor") (bytes "c1") calls).0)
        disk
        (bytes "cursor") in
    (done ≡ disk (bytes "cursor")) ⊎ (done ≡ some (bytes "c1"))
write_cursor_crash_example =
    write_cursor_crash (bytes "cursor") (bytes "c1") (bytes "tmp") calls disk refl tmp_apart
      cursor_set 3
