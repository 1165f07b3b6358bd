-- ===== src/Adapter/Poll/Cursor/Atomic.antt =====
-- What a write of the cursor leaves on the disk, also when it is cut short.
use knative_source.Base.{
  ℕ, zero, suc, ◌≡◌, refl, ◌≢◌, ◌⊎◌, inl, inr, Option, none, some, List, [], ◌∷◌, take, arith,
  Bool-cases, Option-cases,
}
use knative_source.Base.{All, take-nil, Str, str_eq, str_beq_iff, ◌==◌}
use knative_source.Adapter.Poll.Cursor.{
  Disk, put_file, FsStep, make_dir, write_file, rename_file, remove_file, run_steps, Calls,
  WriteError, mkdir_failed, write_failed, close_failed, rename_failed, write_cursor, fill_temp,
  clean_up,
}

-- The courses that a write can take: it fails before the temporary file exists, it gives the
-- temporary file up, or it renames it.
data Course (path tmp cursor : Str) : List FsStep × Option WriteError → Type 0 where
  no_step : (e : WriteError) → Course path tmp cursor ([], some e)
  no_file : (e : WriteError) → Course path tmp cursor (make_dir ∷ [], some e)
  given_up :
      (s : Str) (e : WriteError)
      → Course path tmp cursor
          (make_dir ∷ write_file tmp [] ∷ write_file tmp s ∷ remove_file tmp ∷ [], some e)
  committed :
      Course path tmp cursor
        (make_dir ∷ write_file tmp [] ∷ write_file tmp cursor ∷ rename_file tmp path ∷ [], none)

module _ (path cursor tmp : Str) (c : Calls) where
  abbrev after_temp : List FsStep × Option WriteError
  after_temp =
      let (steps, e) = clean_up tmp (fill_temp path tmp cursor c) in
      (make_dir ∷ write_file tmp [] ∷ steps, e)

  after_temp-Course : Course path tmp cursor after_temp
  unfolding fill_temp clean_up
  after_temp-Course = elim (Option-cases c.write) [
    | inr (partial, w) ↦ rw w (given_up partial write_failed)
    | inl w ↦ elim (Bool-cases c.close) [
      | inr cl ↦ rw (w, cl) (given_up cursor close_failed)
      | inl cl ↦ elim (Bool-cases c.rename) [
        | inr r ↦ rw (w, cl, r) (given_up cursor rename_failed)
        | inl r ↦ rw (w, cl, r) committed
      ]
    ]
  ]

  write_cursor-Course :
      c.create ≡ some tmp → path ≢ [] → Course path tmp cursor (write_cursor path cursor c)
  unfolding write_cursor
  write_cursor-Course named set = elim (Bool-cases (path == [])) [
    | inl e ↦ absurd (set ((str_beq_iff path []).0 e))
    | inr e ↦ elim (Bool-cases c.mkdir) [
      | inl m ↦ rw (e, named, m) after_temp-Course
      | inr m ↦ rw (e, m) (no_step mkdir_failed)
    ]
  ]

module _ (path tmp cursor : Str) (d : Disk) (apart : tmp ≢ path) where
  abbrev Spares : FsStep → Type 0
  Spares make_dir = Unit {0}
  Spares (write_file p s) = p ≢ path
  Spares (rename_file p q) = ⊥
  Spares (remove_file p) = p ≢ path

  -- Steps that write other files leave the cursor's as it is, wherever they are cut off.
  spared :
      (steps : List FsStep)
      → All Spares steps
      → (k : ℕ) (d' : Disk) → run_steps (take k steps) d' path ≡ d' path
  unfolding run_steps
  spared steps h zero d' = refl
  spared [] h (suc k) d' = refl
  spared (make_dir ∷ steps) h (suc k) d' = spared steps h.1 k d'
  spared (write_file p s ∷ steps) h (suc k) d' =
      ground (arith, spared steps h.1 k (put_file p (some s) d'), str_beq_iff path p, h.0)
  spared (rename_file p q ∷ steps) h (suc k) d' = absurd h.0
  spared (remove_file p ∷ steps) h (suc k) d' =
      ground (arith, spared steps h.1 k (put_file p none d'), str_beq_iff path p, h.0)

  committed_crash :
      (k : ℕ)
      → let done =
          run_steps
            (take k
              (make_dir ∷ write_file tmp [] ∷ write_file tmp cursor ∷ rename_file tmp path ∷ []))
            d
            path in
        (done ≡ d path) ⊎ (done ≡ some cursor)
  unfolding run_steps
  committed_crash zero = inl refl
  committed_crash (suc zero) = inl refl
  committed_crash (suc (suc zero)) = ground (arith, str_beq_iff path tmp)
  committed_crash (suc (suc (suc zero))) = ground (arith, str_beq_iff path tmp)
  committed_crash (suc (suc (suc (suc k)))) = rw (take-nil k) (
      ground (
        arith,
        str_beq_iff path tmp,
        str_beq_iff path path,
        str_beq_iff tmp path,
        str_beq_iff tmp tmp,
      ))

  Course-crash :
      (r : List FsStep × Option WriteError) (k : ℕ)
      → Course path tmp cursor r
      → (run_steps (take k r.0) d path ≡ d path) ⊎ (run_steps (take k r.0) d path ≡ some cursor)
  unfolding run_steps
  Course-crash r k (no_step e) = inl (spared [] tt k d)
  Course-crash r k (no_file e) = inl (spared (make_dir ∷ []) (tt, tt) k d)
  Course-crash r k (given_up s e) = inl (
      spared (make_dir ∷ write_file tmp [] ∷ write_file tmp s ∷ remove_file tmp ∷ [])
        (tt, (apart, (apart, (apart, tt)))) k d)
  Course-crash r k committed = committed_crash k

module _ (path cursor tmp : Str) (c : Calls) (d : Disk) (named : c.create ≡ some tmp)
    (apart : tmp ≢ path) (set : path ≢ []) where
  -- A crash after any number of the steps of a write leaves the old cursor or the whole new one in
  -- the file, if the temporary file has another name.
  pub write_cursor_crash :
      (k : ℕ)
      → let done = run_steps (take k (write_cursor path cursor c).0) d path in
        (done ≡ d path) ⊎ (done ≡ some cursor)
  write_cursor_crash k =
      Course-crash path tmp cursor d apart _ k (write_cursor-Course path cursor tmp c named set)
