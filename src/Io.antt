-- ===== src/Io.antt =====
-- The system calls that the program makes on files. What the kernel answers is not under the
-- program's control: a run of a loop around `::write` takes the list of the kernel's answers.
pub mod WriteAll
use bedrockkv.Prelude.{ℕ, ◌≡◌, List, [], ◌∷◌, ◌++◌, Bytes, take, drop}

-- One answer of `::write(fd, p, n)`: bytes written, `EINTR`, or another error.
pub data WriteAnswer : Type 0 where
  wrote : ℕ → WriteAnswer
  interrupted : WriteAnswer
  refused : WriteAnswer

pub data WriteResult : Type 0 where
  all_written : WriteResult
  write_failed : WriteResult
  still_waiting : WriteResult

-- `while (done < n) { w = ::write(...); ... }` on a descriptor that appends: the file after it and
-- how the loop ended. `rest` is what is not written yet; a loop whose answers are used up waits.
unfoldable pub write_all : List WriteAnswer → Bytes → Bytes → Bytes × WriteResult
write_all answers [] file = (file, all_written)
write_all [] (b ∷ rest) file = (file, still_waiting)
write_all (wrote n ∷ answers) (b ∷ rest) file =
    write_all answers (drop n (b ∷ rest)) (file ++ take n (b ∷ rest))
write_all (interrupted ∷ answers) (b ∷ rest) file = write_all answers (b ∷ rest) file
write_all (refused ∷ answers) (b ∷ rest) file = (file, write_failed)

-- One answer of `::pread(fd, buf, n, offset)`: the bytes read, or the text of the error.
pub data ReadAnswer : Type 0 where
  bytes_read : Bytes → ReadAnswer
  read_error : Bytes → ReadAnswer

-- `::pread` as the kernel answers it: from the file's bytes, a count and an offset.
abbrev pub Pread : Type 0
Pread = Bytes → ℕ → ℕ → ReadAnswer

-- `::pread` on a regular file in good order: the bytes from the offset on, short at the end only.
abbrev pub IsExact : Pread → Type 0
IsExact pread =
    (file : Bytes) (n offset : ℕ) → pread file n offset ≡ bytes_read (take n (drop offset file))
