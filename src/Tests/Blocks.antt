-- ===== src/Tests/Blocks.antt =====
-- Blocks at concrete inputs.
use bedrockkv.Prelude.{◌≡◌, [], ◌∷◌, arith, Bytes, drop}
use bedrockkv.Prelude.Text.{codes}
use bedrockkv.Encoding.{fixed32}
use bedrockkv.Block.{
  new_builder, shared_prefix, shared_size, entry, add, finish, open_block, seek_to_first, next,
  seek,
}
use bedrockkv.Block.Reading.{IsInBounds, open_block-IsInBounds, moves-IsInBounds}
use bedrockkv.Block.RoundTrip.{Pair, shown, add_entries}
use bedrockkv.Block.Opening.{shown-finish}

abbrev first : Pair
first = (codes "apple", codes "1")

abbrev second : Pair
second = (codes "apply", codes "22")

shown-finish_example :
    shown 3
      (seek_to_first (open_block (finish (add_entries (first ∷ second ∷ []) (new_builder 16)))))
    ≡ first ∷ second ∷ []
shown-finish_example =
    shown-finish 16 first (second ∷ [])
      ((omega arith, omega arith), ((omega arith, omega arith), tt))
      (unfold add entry shared_size shared_prefix fixed32 drop in omega arith)

moves-IsInBounds_example :
    IsInBounds (seek_to_first (open_block (codes "torn block")))
    × IsInBounds (next (open_block (codes "torn block")))
    × ((target : Bytes) → IsInBounds (seek target (open_block (codes "torn block"))))
moves-IsInBounds_example =
    moves-IsInBounds (open_block (codes "torn block")) (open_block-IsInBounds (codes "torn block"))
