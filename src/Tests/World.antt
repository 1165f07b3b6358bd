-- ===== src/Tests/World.antt =====
-- A world for the adapter: the requests that the sink accepted, and the cursor file.
use knative_source.Base.{◌≡◌, refl, arith, true, none, some, ◌⊎◌, inl, inr, List, [], ◌∷◌, Str}
use knative_source.Base.Http.{Request, Reply, response}
use knative_source.Adapter.Run.{World}
use knative_source.Adapter.Run.Honest.{IsHonest}
use knative_source.Base.Bytes.{bytes}
use knative_source.Adapter.Poll.Cursor.{Disk}
use knative_source.Adapter.Run.Disk.{Fate, IsKeeping, IsApart, disk_world, disk_world-IsHonest}
use knative_source.Tests.Fixtures.{config}

abbrev pub world : World
world = record {
  State = List Request × Str;
  post = λ req s. (response 202 [], (req ∷ s.0, s.1));
  read_cursor = λ path s. s.1;
  write_cursor = λ path c s. (s.0, c);
}

abbrev pub IsPosted : Request → List Request → Type 0
IsPosted req [] = ⊥
IsPosted req (r ∷ rs) = (req ≡ r) ⊎ IsPosted req rs

abbrev pub Posted : Request → world.State → Type 0
Posted req s = IsPosted req s.0

pub honest : IsHonest world config.cursor_path Posted
honest = record {
  post_accepts = λ req s status body e low high. inl refl;
  post_keeps = λ req r s h. inr h;
  post_stored = λ req s. refl;
  write_keeps = λ c r s h. h;
  write_stored = λ c s. inr refl;
}

-- A sink that accepts everything, and a disk on which each write is cut off before its rename.
abbrev accepting : Request → List Request → Reply × List Request
accepting req s = (response 202 [], req ∷ s)

abbrev fate : List Request × Disk → Fate
fate w = record {
  calls = record {
    mkdir = true;
    create = some (bytes "tmp");
    write = none;
    close = true;
    rename = true;
  };
  steps_made = 3;
}

accepting-IsKeeping : IsKeeping (List Request) accepting IsPosted
accepting-IsKeeping = record {
  accepts = λ req s status body e low high. inl refl;
  keeps = λ req r s h. inr h;
}

fate-IsApart : (w : List Request × Disk) → IsApart (bytes "cursor") (fate w)
fate-IsApart w tmp named e = ground arith

disk_world-IsHonest_example :
    IsHonest (disk_world (List Request) accepting fate) (bytes "cursor") (λ req w. IsPosted req w.0)
disk_world-IsHonest_example =
    disk_world-IsHonest (List Request) accepting fate IsPosted accepting-IsKeeping (bytes "cursor")
      fate-IsApart
