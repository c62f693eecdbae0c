-- ===== src/Db/Compaction/Visible.antt =====
-- What a reader at a sequence number sees of a run of entries in merged order: `DB::Scan` and
-- `DB::Get` take the first version at or below it, and a tombstone reads as a missing key.
use bedrockkv.Prelude.{
  ℕ, ◌&&◌, ◌≡◌, true, List, [], ◌∷◌, Option, none, some, Bytes, All, leb, ◌==◌, if◌then◌else◌,
}
use bedrockkv.Prelude.Order.{bytes_eq}
use bedrockkv.Key.{type_value}
use bedrockkv.Key.Laws.{entry_less}
use bedrockkv.Db.Compaction.{Entry}

unfoldable pub visible : Bytes → ℕ → List Entry → Option Entry
visible key seq [] = none
visible key seq (e ∷ es) =
    if bytes_eq e.user key && leb e.seq seq then some e else visible key seq es

unfoldable pub read : Option Entry → Option Bytes
read none = none
read (some e) = if e.type == type_value then some e.value else none

-- `x` stands behind the version `seq` of `user` in merged order.
abbrev pub Behind : Bytes → ℕ → Entry → Type 0
Behind user seq x = entry_less user seq x.user x.seq ≡ true

-- Merged order: by user key, and newest first for one key.
abbrev pub IsMerged : List Entry → Type 0
IsMerged [] = Unit
IsMerged (e ∷ es) = All (Behind e.user e.seq) es × IsMerged es
