-- ===== src/Io/WriteAll.antt =====
-- Short writes and interruptions do not show in the file.
use bedrockkv.Prelude.{
  ◌≡◌, refl, ap, sym, ◌∙◌, List, [], ◌∷◌, ◌++◌, append-nil, append_assoc, Bytes, take, drop,
  take-append-drop,
}
use bedrockkv.Io.{WriteAnswer, wrote, interrupted, refused, all_written, write_all}

-- When the write loop returns without an error, the file holds all bytes behind what it held.
pub write_all-done :
    (answers : List WriteAnswer) (bytes file : Bytes)
    → (write_all answers bytes file).1 ≡ all_written
    → (write_all answers bytes file).0 ≡ file ++ bytes
unfolding write_all
write_all-done [] [] file h = sym (append-nil file)
write_all-done (a ∷ answers) [] file h = sym (append-nil file)
write_all-done [] (b ∷ rest) file h = cc
write_all-done (wrote n ∷ answers) (b ∷ rest) file h =
    write_all-done answers (drop n (b ∷ rest)) (file ++ take n (b ∷ rest)) h
    ∙ append_assoc file (take n (b ∷ rest)) (drop n (b ∷ rest))
    ∙ ap (◌++◌ file) (take-append-drop n (b ∷ rest))
write_all-done (interrupted ∷ answers) (b ∷ rest) file h = write_all-done answers (b ∷ rest) file h
write_all-done (refused ∷ answers) (b ∷ rest) file h = cc

-- However the write loop ends, the file has grown by a prefix of the bytes.
pub write_all-prefix :
    (answers : List WriteAnswer) (bytes file : Bytes)
    → (front : Bytes) × (back : Bytes) × (bytes ≡ front ++ back)
      × ((write_all answers bytes file).0 ≡ file ++ front)
unfolding write_all
write_all-prefix [] [] file = ([], [], refl, sym (append-nil file))
write_all-prefix (a ∷ answers) [] file = ([], [], refl, sym (append-nil file))
write_all-prefix [] (b ∷ rest) file = ([], b ∷ rest, refl, sym (append-nil file))
write_all-prefix (wrote n ∷ answers) (b ∷ rest) file =
    let (front, back, split, grown) =
      write_all-prefix answers (drop n (b ∷ rest)) (file ++ take n (b ∷ rest)) in
    (
      take n (b ∷ rest) ++ front,
      back,
      sym (take-append-drop n (b ∷ rest))
          ∙ ap (◌++◌ (take n (b ∷ rest))) split
          ∙ sym (append_assoc (take n (b ∷ rest)) front back),
      grown ∙ append_assoc file (take n (b ∷ rest)) front,
    )
write_all-prefix (interrupted ∷ answers) (b ∷ rest) file = write_all-prefix answers (b ∷ rest) file
write_all-prefix (refused ∷ answers) (b ∷ rest) file = ([], b ∷ rest, refl, sym (append-nil file))
