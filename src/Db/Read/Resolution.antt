-- ===== src/Db/Read/Resolution.antt =====
-- The resolution of value pointers, `DB::MaybeResolvePointer` of src/db.cpp: the cache changes no
-- answer.
use bedrockkv.Prelude.{
  ℕ, ◌≡◌, refl, sym, ◌∙◌, true, not, ◌||◌, inl, inr, Bool-cases, Option, none, some, List, Bytes,
  All, length, byte_at, ◌==◌,
}
use bedrockkv.Prelude.Order.{bytes_eq, eq_of_bytes_eq}
use bedrockkv.Status.{Result, done, failed}
use bedrockkv.Io.{Pread}
use bedrockkv.Vlog.{ValuePointer, pointer_size, pointer_tag, decode_value_pointer, Vlog, read_value}
use bedrockkv.Lru.{find, get_found, get}
use bedrockkv.Lru.Sharded.{no_entries, sharded_get}
use bedrockkv.Lru.Sharded.Entries.{sharded_get-Everywhere, sharded_put-Everywhere}
use bedrockkv.Db.Read.{
  Cache, cache_weight, vlog_for, cache_get, cache_put, on_value_read, on_generation, on_cached,
  on_pointer, resolve,
}

module _ (hash : Bytes → ℕ) (pread : Pread) (vlogs : List Vlog) where
  -- What a pointer stands for when no cache is asked.
  abbrev pub uncached : Bytes → Result Bytes
  uncached stored = (resolve hash pread true vlogs no_entries stored).0

  -- Every cached value is what its pointer stands for.
  abbrev pub IsCoherent : Cache → Type 0
  IsCoherent cache = (i : ℕ) → All (λ (e : Bytes × Bytes). uncached e.0 ≡ done e.1) (cache i).lru

  value_answer :
      (c : Cache) (stored : Bytes) (r : Result Bytes) → r ≡ (on_value_read hash pread c stored r).0
  unfolding on_value_read
  value_answer c stored (failed e) = refl
  value_answer c stored (done v) = refl

  -- The reading of a generation, whatever the cache.
  generation_answer :
      (c d : Cache) (stored : Bytes) (p : ValuePointer) (o : Option Vlog)
      → (on_generation hash pread c stored p o).0 ≡ (on_generation hash pread d stored p o).0
  unfolding on_generation
  generation_answer c d stored p none = refl
  generation_answer c d stored p (some v) =
      let r = read_value pread v p.offset p.value_size in
      sym (value_answer c stored r) ∙ value_answer d stored r

  -- An empty cache finds nothing.
  empty_answer :
      (stored : Bytes) (p : ValuePointer)
      → (on_pointer hash pread vlogs no_entries stored (some p)).0
        ≡ (on_generation hash pread no_entries stored p (vlog_for p.vlog_number vlogs)).0
  unfolding on_pointer on_cached cache_get sharded_get get get_found find
  empty_answer stored p =
      generation_answer (cache_get hash pread no_entries stored).1 no_entries stored p
        (vlog_for p.vlog_number vlogs)

  module _ (cache : Cache) (stored : Bytes) (coherent : IsCoherent cache) where
    -- An answer of the calls below `resolve` that a coherent cache leaves as it is.
    abbrev Same : Result Bytes × Cache → Type 0
    Same r = (r.0 ≡ uncached stored) × IsCoherent r.1

    value_read-Same :
        (c : Cache) (r : Result Bytes)
        → IsCoherent c
        → r ≡ uncached stored
        → Same (on_value_read hash pread c stored r)
    unfolding on_value_read cache_put
    value_read-Same c (failed e) h u = (u, h)
    value_read-Same c (done v) h u = (
      u,
      sharded_put-Everywhere bytes_eq length eq_of_bytes_eq
          (λ (e : Bytes × Bytes). uncached e.0 ≡ done e.1) hash 16 cache_weight c stored v (sym u)
          h,
    )

    generation-Same :
        (c : Cache) (p : ValuePointer) (o : Option Vlog)
        → IsCoherent c
        → (on_generation hash pread c stored p o).0 ≡ uncached stored
        → Same (on_generation hash pread c stored p o)
    unfolding on_generation
    generation-Same c p none h u = (u, h)
    generation-Same c p (some v) h u =
        let r = read_value pread v p.offset p.value_size in
        value_read-Same c r h (value_answer c stored r ∙ u)

    cached-Same :
        (p : ValuePointer) (o : Option Bytes) (c : Cache)
        → IsCoherent c
        → ((v : Bytes) → o ≡ some v → uncached stored ≡ done v)
        → (on_generation hash pread no_entries stored p (vlog_for p.vlog_number vlogs)).0
          ≡ uncached stored
        → Same (on_cached hash pread vlogs stored p (o, c))
    unfolding on_cached
    cached-Same p none c h found u =
        let o = vlog_for p.vlog_number vlogs in
        generation-Same c p o h (generation_answer c no_entries stored p o ∙ u)
    cached-Same p (some v) c h found u = (sym (found v refl), h)

    pointer-Same :
        (o : Option ValuePointer)
        → uncached stored ≡ (on_pointer hash pread vlogs no_entries stored o).0
        → Same (on_pointer hash pread vlogs cache stored o)
    unfolding on_pointer cache_get
    pointer-Same none u = (sym u, coherent)
    pointer-Same (some p) u =
        let looked =
          sharded_get-Everywhere bytes_eq length eq_of_bytes_eq
            (λ (e : Bytes × Bytes). uncached e.0 ≡ done e.1) hash 16 cache stored coherent in
        cached-Same p (cache_get hash pread cache stored).0 (cache_get hash pread cache stored).1
          looked.1 (λ v g. looked.0 v g) (sym (u ∙ empty_answer stored p))

    -- Where every cached value is what its pointer stands for, MaybeResolvePointer answers as it
    -- would without a cache, and the cache stays so.
    pub resolve-uncached :
        ((resolve hash pread true vlogs cache stored).0 ≡ uncached stored)
        × IsCoherent (resolve hash pread true vlogs cache stored).1
    unfolding resolve
    resolve-uncached =
        elim (Bool-cases
          (not (length stored == pointer_size) || not (byte_at stored 0 == pointer_tag))) [
            | inl plain ↦
                let u : uncached stored ≡ done stored = rw (plain, uncached) refl in
                rw plain (sym u, coherent)
            | inr pointer ↦
                let u : uncached stored
                    ≡ (on_pointer hash pread vlogs no_entries stored
                        (decode_value_pointer stored)).0 =
                  rw (pointer, uncached) refl in
                rw pointer (pointer-Same (decode_value_pointer stored) u)
          ]
