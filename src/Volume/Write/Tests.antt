-- ===== src/Volume/Write/Tests.antt =====
-- Copies at concrete inputs (filesystem/filesystem.go).
use agent_portainer.Prelude.{
  ℕ, zero, suc, ◌≤◌, ◌<◌, ◌≡◌, refl, ap, some, [], ◌∷◌, ◌++◌, arith, Text, codes, nat_eq, text_eq,
  length, ok, take, drop,
}
use agent_portainer.Volume.{path_join}
use agent_portainer.Volume.Write.{Read, got, Disk, written_at, write_big_file}
use agent_portainer.Volume.Write.Copied.{
  IsReader, IsFull, Returns, write_big_file-Returns, write_big_file-content,
}

-- A file in memory, which is read up to its end.
abbrev read_text : ℕ → Text → Read × Text
read_text n s = (got (take n s), drop n s)

-- The same, at most one byte at a time.
abbrev read_byte : ℕ → Text → Read × Text
read_byte zero s = (got [], s)
read_byte (suc n) [] = (got [], [])
read_byte (suc n) (c ∷ s) = (got (c ∷ []), s)

abbrev same : Text → Text
same s = s

read_byte-IsReader : IsReader read_byte same
read_byte-IsReader zero s = (omega arith, refl)
read_byte-IsReader (suc n) [] = (omega arith, refl)
read_byte-IsReader (suc n) (c ∷ s) = (omega arith, refl)

take-drop : (n : ℕ) (s : Text) → (length (take n s) ≤ n) × (s ≡ take n s ++ drop n s)
take-drop zero s = (omega arith, refl)
take-drop (suc n) [] = (omega arith, refl)
take-drop (suc n) (c ∷ s) = let (short, e) = take-drop n s in (omega arith, ap (λ t. c ∷ t) e)

short_read_ends : (n : ℕ) (s : Text) → length (take n s) < n → drop n s ≡ []
short_read_ends zero s h = absurd (omega arith)
short_read_ends (suc n) [] h = refl
short_read_ends (suc n) (c ∷ s) h = short_read_ends n s (omega arith)

read_text-IsReader : IsReader read_text same
read_text-IsReader n s = take-drop n s

read_text-IsFull : IsFull read_text same
read_text-IsFull n s = short_read_ends n s

-- A disk on which the file is there already.
abbrev disk : Disk
disk = record {
  mkdir_all = λ folder. ok tt;
  create = λ path. ok tt;
  old_content = λ path. codes "old text";
  write = λ part. ok tt;
}

write_big_file-Returns_example :
    Returns (write_big_file read_byte disk 4 (codes "/v") (codes "f") (ok (codes "new")))
write_big_file-Returns_example =
    write_big_file-Returns read_byte disk same (codes "/v") (codes "f") (codes "new") 4
      read_byte-IsReader (omega arith)

-- The end of the old text stays.
write_big_file-content_example :
    write_big_file read_text disk 4 (codes "/v") (codes "f") (ok (codes "new"))
    ≡ some (ok (written_at (path_join (codes "/v" ∷ codes "f" ∷ [])) (codes "new text")))
write_big_file-content_example =
    write_big_file-content read_text disk same (codes "/v") (codes "f") (codes "new") 4
      read_text-IsReader read_text-IsFull (λ part. refl) refl refl (omega arith)
