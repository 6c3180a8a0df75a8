-- ===== src/Volume/Write.antt =====
-- Writing a file into a folder, at once or in chunks (filesystem/filesystem.go). The disk has the
-- content of the file from before, and the results of its calls.
mod Copied
mod Tests
use agent_portainer.Prelude.{
  ℕ, zero, suc, ◌+◌, ◌-◌, ◌*◌, ◌/◌, ◌%◌, ◌≤◌, ◌<◌, ◌≡◌, refl, sym, ap, ◌∙◌, ◌≢◌, ◌↔◌, ◌⊎◌, inl, inr,
  Bool, true, false, not, ◌&&◌, ◌||◌, Option, none, some, List, [], ◌∷◌, ◌++◌, map, arith, ltb, leb,
  if◌then◌else◌, nat_beq, nat_beq_iff, Text, codes, text_beq, text_beq_iff, Equality, ◌==◌, nat_eq,
  text_eq, Bool-cases, by_test, Option-cases, length, length-append, All, All-append, lookup,
  insert, erase, has_key, lookup-insert, lookup-erase, has_key-insert, has_key-erase,
  has_key-lookup, beq_refl, itoa, itoa-All, has_prefix, strip_prefix, contains, split_by, split,
  drop_empty, fields_by, join, Lacks, split-join, join-split, split_by-skip, split_by-cut,
  split_by-nil, split_by-whole, split_by-append, by_test, Result, ok, err, Method, >>-keeps,
  >>-eq-ok, ◌>>=◌, ◌>>◌, return, lift, get, modify, Result-cases, take, drop,
}
use agent_portainer.Volume.{path_join}

-- `int64 = 32 << 20`.
abbrev pub chunk_size : ℕ
chunk_size = 33554432

-- What a read returns: some bytes, with or without io.EOF, or another error.
pub data Read : Type 0 where
  got : Text → Read
  failed : Text → Read

-- The disk, for one file. A write through the buffered writer that returns io.EOF counts as done.
pub record Disk : Type 0 where
  pub mkdir_all : Text → Result (Unit {0})
  pub create : Text → Result (Unit {0})
  pub old_content : Text → Text
  pub write : Text → Result (Unit {0})

-- A file with its new content.
pub record Written : Type 0 where
  pub path : Text
  pub content : Text

abbrev pub written_at : Text → Text → Written
written_at path content = record { path = path; content = content }

-- What a file holds after its first bytes are written over.
pub overwrite : Text → Text → Text
overwrite [] old = old
overwrite (c ∷ new) [] = c ∷ new
overwrite (c ∷ new) (d ∷ old) = c ∷ overwrite new old

-- The bytes written so far, after a write of some more.
pub wrote : Text → Text → Result (Unit {0}) → Result Text
wrote written part (ok _) = ok (written ++ part)
wrote written part (err x) = err x

module _ {S : Type 0} (read : ℕ → S → Read × S) (disk : Disk) where
  -- The last part of the file, which is not written if it is empty.
  pub write_last : Text → Text → Result Text
  unfolding wrote
  write_last written [] = ok written
  write_last written (c ∷ part) = wrote written (c ∷ part) (disk.write (c ∷ part))

  -- What a turn of the loop makes of a read, given the rest of the loop.
  pub copy_read : ℕ → Text → Read → (Text → Option (Result Text)) → Option (Result Text)
  unfolding write_last
  copy_read size written (failed x) rest = some (err x)
  copy_read size written (got part) rest =
      if ltb (length part) size
      then some (write_last written part)
      else elim (disk.write part) [ ok _ ↦ rest (written ++ part) | err x ↦ some (err x) ]

  -- The loop, with so many turns at most: the bytes written.
  pub copy_chunks : ℕ → ℕ → S → Text → Option (Result Text)
  unfolding copy_read
  copy_chunks zero size s written = none
  copy_chunks (suc n) size s written =
      copy_read size written (read size s).0 (copy_chunks n size (read size s).1)

  -- The end of `WriteBigFile`: the file was opened without os.O_TRUNC.
  pub finish_copy : Text → Option (Result Text) → Option (Result Written)
  unfolding overwrite
  finish_copy path none = none
  finish_copy path (some (err x)) = some (err x)
  finish_copy path (some (ok new)) =
      some (ok (written_at path (overwrite new (disk.old_content path))))

  -- `WriteBigFile` from the results of `os.OpenFile` and, before it, of `os.MkdirAll` on.
  pub copy_into : ℕ → S → Text → Result (Unit {0}) → Option (Result Written)
  unfolding copy_chunks finish_copy
  copy_into n s path (err x) = some (err x)
  copy_into n s path (ok _) = finish_copy path (copy_chunks n chunk_size s [])

  pub copy_below : ℕ → S → Text → Result (Unit {0}) → Option (Result Written)
  unfolding copy_into
  copy_below n s path (err x) = some (err x)
  copy_below n s path (ok _) = copy_into n s path (disk.create path)

  -- `WriteBigFile` for the result of opening the uploaded file, with so many turns of its loop at
  -- most; a flush that fails is not noticed.
  pub write_big_file : ℕ → Text → Text → Result S → Option (Result Written)
  unfolding copy_below
  write_big_file n folder filename (err x) = some (err x)
  write_big_file n folder filename (ok s) =
      copy_below n s (path_join (folder ∷ filename ∷ [])) (disk.mkdir_all folder)

-- `WriteFile`: `ioutil.WriteFile` truncates the file.
pub write_file : Disk → Text → Text → Text → Result Written
write_file disk folder filename file = elim (disk.mkdir_all folder) [
  | err x ↦ err x
  | ok _ ↦
      (let path = path_join (folder ∷ filename ∷ []) in
        elim (disk.create path) [
          | err x ↦ err x
          | ok _ ↦ elim (disk.write file) [ err x ↦ err x | ok _ ↦ ok (written_at path file) ]
        ])
]
