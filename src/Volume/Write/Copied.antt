-- ===== src/Volume/Write/Copied.antt =====
-- That the copy ends, and what the file holds then (filesystem/filesystem.go).
use agent_portainer.Prelude.{
  ℕ, zero, suc, ◌+◌, ◌≤◌, ◌<◌, ◌≡◌, refl, sym, ap, ◌∙◌, inl, inr, Option, none, some, [], ◌∷◌, ◌++◌,
  arith, ltb, Text, nat_eq, text_eq, by_test, length, length-append, by_test, Result, ok, err,
  Result-cases, drop,
}
use mathlib.Core.List.{append_assoc, append-nil}
use agent_portainer.Volume.{path_join}
use agent_portainer.Volume.Write.{
  chunk_size, Read, got, failed, Disk, Written, overwrite, copy_read, copy_chunks, finish_copy,
  copy_into, copy_below, written_at, wrote, write_big_file, write_last,
}

abbrev pub WritesAll : Disk → Type 0
WritesAll disk = (part : Text) → disk.write part ≡ ok tt

module _ {S : Type 0} where
  -- What io.Reader promises of a read of at most `n` bytes: no more are returned, and they come off
  -- the front of what is left.
  abbrev pub TakesOff : ℕ → (S → Text) → S → Read × S → Type 0
  TakesOff n left s (failed x, t) = Unit
  TakesOff n left s (got part, t) = (length part ≤ n) × (left s ≡ part ++ left t)

  abbrev pub IsReader : (ℕ → S → Read × S) → (S → Text) → Type 0
  IsReader read left = (n : ℕ) (s : S) → TakesOff n left s (read n s)

  -- A read that fails never, and is short only at the end.
  abbrev pub FillsUp : ℕ → (S → Text) → Read × S → Type 0
  FillsUp n left (failed x, t) = ⊥
  FillsUp n left (got part, t) = length part < n → left t ≡ []

  abbrev pub IsFull : (ℕ → S → Read × S) → (S → Text) → Type 0
  IsFull read left = (n : ℕ) (s : S) → FillsUp n left (read n s)

-- The bytes that a read returned come off the front of what was left.
taken :
    {S : Type 0} (n : ℕ) (left : S → Text) (s : S) (r : Read × S) (part : Text)
    → r.0 ≡ got part
    → TakesOff n left s r
    → (length part ≤ n) × (left s ≡ part ++ left r.1)
taken n left s (failed x, t) part e h = cc
taken n left s (got bytes, t) part e (short, off) = grind arith

shorter :
    (size : ℕ) (part whole rest : Text)
    → 1 ≤ size
    → size ≤ length part
    → whole ≡ part ++ rest
    → length rest < length whole
shorter size part whole rest one big e =
    let sum : length whole ≡ length part + length rest =
      ap (λ t. length t) e ∙ length-append part rest in
    omega arith

module _ {S : Type 0} (read : ℕ → S → Read × S) (disk : Disk) (left : S → Text) where
  -- The loop has an end.
  abbrev Ends : Option (Result Text) → Type 0
  Ends o = (r : Result Text) × (o ≡ some r)

  copy_read-Ends :
      (size : ℕ) (written : Text) (r : Read) (rest : Text → Option (Result Text))
      → ((part : Text) → r ≡ got part → size ≤ length part → Ends (rest (written ++ part)))
      → Ends (copy_read read disk size written r rest)
  unfolding copy_read
  copy_read-Ends size written (failed x) rest h = (err x, refl)
  copy_read-Ends size written (got part) rest h =
      by_test Ends (ltb (length part) size) (λ _. (write_last read disk written part, refl))
        (λ e. elim (Result-cases (disk.write part)) [
          | inl (_, w) ↦ rw w (h part refl (ground arith))
          | inr (x, w) ↦ rw w (err x, refl)
        ])

  copy_chunks-Ends :
      (n size : ℕ) (s : S) (written : Text)
      → IsReader read left
      → 1 ≤ size
      → length (left s) < n
      → Ends (copy_chunks read disk n size s written)
  unfolding copy_chunks
  copy_chunks-Ends zero size s written reader one more = absurd (omega arith)
  copy_chunks-Ends (suc n) size s written reader one more =
      copy_read-Ends size written (read size s).0 (copy_chunks read disk n size (read size s).1)
        (λ part e big.
          let (_, off) = taken size left s (read size s) part e (reader size s) in
          copy_chunks-Ends n size (read size s).1 (written ++ part) reader one (
            let less = shorter size part (left s) (left (read size s).1) one big off in
            omega arith))

  write_last-whole :
      (written part : Text)
      → WritesAll disk
      → write_last read disk written part ≡ ok (written ++ part)
  unfolding write_last wrote
  write_last-whole written [] all = ap ok (sym (append-nil written))
  write_last-whole written (c ∷ part) all = ap (wrote written (c ∷ part)) (all (c ∷ part))

  copy_read-whole :
      (size : ℕ) (written whole : Text) (r : Read × S) (rest : Text → Option (Result Text))
      → WritesAll disk
      → ((part : Text) → r.0 ≡ got part → whole ≡ part ++ left r.1)
      → FillsUp size left r
      → ((part : Text)
          → r.0 ≡ got part
          → size ≤ length part
          → rest (written ++ part) ≡ some (ok ((written ++ part) ++ left r.1)))
      → copy_read read disk size written r.0 rest ≡ some (ok (written ++ whole))
  unfolding copy_read
  copy_read-whole size written whole (failed x, t) rest all off full later = absurd full
  copy_read-whole size written whole (got part, t) rest all off full later =
      by_test (λ o. o ≡ some (ok (written ++ whole))) (ltb (length part) size)
        (λ e.
          ap some (write_last-whole written part all)
          ∙ ap (λ p. some (ok (written ++ p)))
              (sym (off part refl ∙ ap (λ p. part ++ p) (full (ground arith)) ∙ append-nil part)))
        (λ e.
          rw (all part) (later part refl (ground arith))
          ∙ ap (λ p. some (ok p)) (append_assoc written part (left t))
          ∙ ap (λ p. some (ok (written ++ p))) (sym (off part refl)))

  copy_chunks-whole :
      (n size : ℕ) (s : S) (written : Text)
      → IsReader read left
      → IsFull read left
      → WritesAll disk
      → 1 ≤ size
      → length (left s) < n
      → copy_chunks read disk n size s written ≡ some (ok (written ++ left s))
  unfolding copy_chunks
  copy_chunks-whole zero size s written reader full all one more = absurd (omega arith)
  copy_chunks-whole (suc n) size s written reader full all one more =
      let off : (part : Text) → (read size s).0 ≡ got part → left s ≡ part ++ left (read size s).1 =
        λ part e. (taken size left s (read size s) part e (reader size s)).1 in
      copy_read-whole size written (left s) (read size s)
        (copy_chunks read disk n size (read size s).1) all off (full size s)
        (λ part e big.
          copy_chunks-whole n size (read size s).1 (written ++ part) reader full all one (
            let less = shorter size part (left s) (left (read size s).1) one big (off part e) in
            omega arith))

-- The whole has an end.
abbrev pub Returns : Option (Result Written) → Type 0
Returns o = (r : Result Written) × (o ≡ some r)

overwrite-drop : (new old : Text) → overwrite new old ≡ new ++ drop (length new) old
unfolding overwrite
overwrite-drop [] old = refl
overwrite-drop (c ∷ new) [] = ap (λ t. c ∷ t) (sym (append-nil new))
overwrite-drop (c ∷ new) (d ∷ old) = ap (λ t. c ∷ t) (overwrite-drop new old)

module _ {S : Type 0} (read : ℕ → S → Read × S) (disk : Disk) (left : S → Text) (s : S)
    (n : ℕ) where
  finish_copy-Returns :
      (path : Text) (o : Option (Result Text))
      → Ends read disk left o
      → Returns (finish_copy read disk path o)
  unfolding finish_copy
  finish_copy-Returns path none (r, e) = cc
  finish_copy-Returns path (some (err x)) h = (err x, refl)
  finish_copy-Returns path (some (ok new)) h =
      (ok (written_at path (overwrite new (disk.old_content path))), refl)

  copy_into-Returns :
      (path : Text) (created : Result (Unit {0}))
      → IsReader read left
      → length (left s) < n
      → Returns (copy_into read disk n s path created)
  unfolding copy_into
  copy_into-Returns path (err x) reader more = (err x, refl)
  copy_into-Returns path (ok _) reader more =
      finish_copy-Returns path (copy_chunks read disk n chunk_size s [])
        (copy_chunks-Ends read disk left n chunk_size s [] reader (omega arith) more)

  copy_below-Returns :
      (path : Text) (made : Result (Unit {0}))
      → IsReader read left
      → length (left s) < n
      → Returns (copy_below read disk n s path made)
  unfolding copy_below
  copy_below-Returns path (err x) reader more = (err x, refl)
  copy_below-Returns path (ok _) reader more = copy_into-Returns path (disk.create path) reader more

-- Whatever the disk answers and however short the reads are, the copy of a file returns, in one turn
-- of its loop more than there are bytes at most, if no read returns more bytes than it was asked for
-- or other bytes than those that come next.
pub write_big_file-Returns :
    {S : Type 0} (read : ℕ → S → Read × S) (disk : Disk) (left : S → Text) (folder filename : Text)
    (s : S) (n : ℕ)
    → IsReader read left
    → length (left s) < n
    → Returns (write_big_file read disk n folder filename (ok s))
unfolding write_big_file
write_big_file-Returns read disk left folder filename s n reader more =
    copy_below-Returns read disk left s n (path_join (folder ∷ filename ∷ []))
      (disk.mkdir_all folder) reader more

-- If each read returns as many bytes as it was asked for as long as there are so many, and the disk
-- creates the folder and the file and writes what it is given, the file holds the new content, and
-- behind it what an old file of more bytes held there.
pub write_big_file-content :
    {S : Type 0} (read : ℕ → S → Read × S) (disk : Disk) (left : S → Text) (folder filename : Text)
    (s : S) (n : ℕ)
    → IsReader read left
    → IsFull read left
    → WritesAll disk
    → disk.mkdir_all folder ≡ ok tt
    → disk.create (path_join (folder ∷ filename ∷ [])) ≡ ok tt
    → length (left s) < n
    → let path = path_join (folder ∷ filename ∷ []) in
      write_big_file read disk n folder filename (ok s)
      ≡ some (ok (written_at path (left s ++ drop (length (left s)) (disk.old_content path))))
unfolding write_big_file copy_below copy_into finish_copy
write_big_file-content read disk left folder filename s n reader full all made created more =
    let path = path_join (folder ∷ filename ∷ []) in
    let copied : copy_chunks read disk n chunk_size s [] ≡ some (ok (left s)) =
      copy_chunks-whole read disk left n chunk_size s [] reader full all (omega arith) more in
    ap (copy_below read disk n s path) made
    ∙ ap (copy_into read disk n s path) created
    ∙ ap (finish_copy read disk path) copied
    ∙ ap (λ c. some (ok (written_at path c))) (overwrite-drop (left s) (disk.old_content path))
