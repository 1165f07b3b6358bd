-- ===== src/Adapter/Run/Disk.antt =====
-- The adapter's world on a disk: the cursor file is read by `readCursor` and written by
-- `writeCursor`.
use knative_source.Base.{
  ℕ, zero, suc, take, ◌≡◌, refl, ap, ◌≢◌, ◌⊎◌, inl, inr, ◌≤◌, ◌<◌, true, none, some, List, [], ◌∷◌,
  Str, str_eq, str_beq_iff, ◌==◌, Bool-cases, Option-cases,
}
use knative_source.Base.Http.{Request, Reply, response}
use knative_source.Base.Result.{Result, ok, err}
use knative_source.Adapter.Poll.Cursor.{
  Disk, FsStep, make_dir, run_steps, ReadResult, not_exist, content, read_cursor, Calls,
  write_cursor,
}
use knative_source.Adapter.Poll.Cursor.Atomic.{write_cursor_crash}
use knative_source.Adapter.Run.{World}
use knative_source.Adapter.Run.Honest.{IsHonest}

-- `os.ReadFile` on a disk.
abbrev read_disk : Disk → Str → ReadResult
read_disk d p = elim (d p) [ none ↦ not_exist | some b ↦ content b ]

-- `cursor, _ := p.readCursor()`
abbrev cursor_of : Result (Unit {0}) Str → Str
cursor_of (ok c) = c
cursor_of (err e) = []

-- How the calls of a write turn out, and how many of its steps are made before the process is cut
-- off.
pub record Fate : Type 0 where
  pub calls : Calls
  pub steps_made : ℕ

-- The steps of a write that are made.
abbrev made_steps : Str → Str → Fate → List FsStep
made_steps path c fate = take fate.steps_made (write_cursor path c fate.calls).0

-- A sink beside a disk, where each write has a fate.
abbrev pub disk_world : (S : Type 0) → (Request → S → Reply × S) → (S × Disk → Fate) → World
disk_world S post fate_of = record {
  State = S × Disk;
  post = λ req w. ((post req w.0).0, ((post req w.0).1, w.1));
  read_cursor = λ path w. cursor_of (read_cursor path (read_disk w.1));
  write_cursor = λ path c w. (w.0, run_steps (made_steps path c (fate_of w)) w.1);
}

-- A sink that keeps what it has accepted.
pub record IsKeeping (S : Type 0) (post : Request → S → Reply × S) (Posted : Request → S → Type 0)
    : Type 0 where
  pub accepts :
      (req : Request) (s : S) (status : ℕ) (body : Str)
      → (post req s).0 ≡ response status body
      → 200 ≤ status
      → status < 300
      → Posted req (post req s).1
  pub keeps : (req r : Request) (s : S) → Posted r s → Posted r (post req s).1

-- `os.CreateTemp` never returns the cursor file.
abbrev pub IsApart : Str → Fate → Type 0
IsApart path fate = (tmp : Str) → fate.calls.create ≡ some tmp → tmp ≢ path

no_step_idle : (k : ℕ) (d : Disk) → run_steps (take k []) d ≡ d
unfolding run_steps
no_step_idle zero d = refl
no_step_idle (suc k) d = refl

make_dir_idle : (k : ℕ) (d : Disk) → run_steps (take k (make_dir ∷ [])) d ≡ d
unfolding run_steps
make_dir_idle zero d = refl
make_dir_idle (suc k) d = no_step_idle k d

module _ (path c : Str) (fate : Fate) (d : Disk) where
  abbrev after : Disk
  after = run_steps (made_steps path c fate) d

  no_path_unchanged : (path == []) ≡ true → after ≡ d
  unfolding write_cursor
  no_path_unchanged blank = rw blank (no_step_idle fate.steps_made d)

  no_temp_unchanged : fate.calls.create ≡ none → after ≡ d
  unfolding write_cursor
  no_temp_unchanged failed = elim (Bool-cases (path == [])) [
    | inl blank ↦ no_path_unchanged blank
    | inr set ↦ elim (Bool-cases fate.calls.mkdir) [
      | inl made ↦ rw (set, made, failed) (make_dir_idle fate.steps_made d)
      | inr refused ↦ rw (set, refused) (no_step_idle fate.steps_made d)
    ]
  ]

  -- The file is as before, or has the whole new cursor.
  write-old_or_new : IsApart path fate → (after path ≡ d path) ⊎ (after path ≡ some c)
  write-old_or_new apart = elim (Bool-cases (path == [])) [
    | inl blank ↦ inl (ap (λ (x : Disk). x path) (no_path_unchanged blank))
    | inr set ↦ elim (Option-cases fate.calls.create) [
      | inl failed ↦ inl (ap (λ (x : Disk). x path) (no_temp_unchanged failed))
      | inr (tmp, named) ↦
          write_cursor_crash path c tmp fate.calls d named (apart tmp named)
            (λ e. cc (set, (str_beq_iff path []).1 e)) fate.steps_made
    ]
  ]

module _ (S : Type 0) (post : Request → S → Reply × S) (fate_of : S × Disk → Fate)
    (Posted : Request → S → Type 0) (keeping : IsKeeping S post Posted) (path : Str)
    (apart : (w : S × Disk) → IsApart path (fate_of w)) where
  abbrev read_from : Disk → Str
  read_from d = cursor_of (read_cursor path (read_disk d))

  stored-old_or_new :
      (c : Str) (d d' : Disk)
      → (d' path ≡ d path) ⊎ (d' path ≡ some c)
      → (read_from d' ≡ read_from d) ⊎ (read_from d' ≡ c)
  unfolding read_cursor
  stored-old_or_new c d d' h = elim (Bool-cases (path == [])) [
    | inl blank ↦ inl (rw blank refl)
    | inr set ↦ elim h [ inl old ↦ inl (rw (set, old) refl) | inr new ↦ inr (rw (set, new) refl) ]
  ]

  -- The client on a disk is honest with any sink that keeps what it accepts, wherever a write of the
  -- cursor fails or is cut off, if the temporary file has another name than the cursor file.
  pub disk_world-IsHonest : IsHonest (disk_world S post fate_of) path (λ req w. Posted req w.0)
  disk_world-IsHonest = record {
    post_accepts = λ req w status body. keeping.accepts req w.0 status body;
    post_keeps = λ req r w. keeping.keeps req r w.0;
    post_stored = λ req w. refl;
    write_keeps = λ c r w h. h;
    write_stored = λ c w.
        stored-old_or_new c w.1 (after path c (fate_of w) w.1)
          (write-old_or_new path c (fate_of w) w.1 (apart w));
  }
