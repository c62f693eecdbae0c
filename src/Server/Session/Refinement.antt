-- ===== src/Server/Session/Refinement.antt =====
-- The commands of `RedisServer::Execute` (src/server.cpp) act on a map as they promise.
use bedrockkv.Prelude.{
  ℕ, suc, ◌+◌, ◌≡◌, refl, ap, sym, ◌∙◌, Bool, true, false, ◌&&◌, inl, inr, Bool-cases, Option-cases,
  none, some, List, [], ◌∷◌, map, arith, Bytes, if◌then◌else◌,
}
use mathlib.Core.Path.{fun_ext}
use bedrockkv.Prelude.Order.{bytes_eq, bytes_eq_self, eq_of_bytes_eq}
use bedrockkv.Status.{code_eq}
use bedrockkv.Resp.Reply.{integer}
use bedrockkv.Server.{
  Db, lower, found, ping, echo, put_reply, set, get_reply, get, del_loop, del, exists_loop, exists,
  run_command, execute,
}
use bedrockkv.Server.Session.{
  Contents, Serves, Answer, wire, is_present, is_among, distinct_present, all_present, without,
  looked_up, expect_ping, expect_echo, expect_set, expect_get, expect_del, expect_exists,
  expect_command, expect, expect_all, execute_all,
}

-- Deleting a key takes it out of the count where the list names it.
distinct_present-without :
    (key : Bytes) (ks : List Bytes) (m : Contents)
    → distinct_present ks m
      ≡ distinct_present ks (λ (x : Bytes). if bytes_eq x key then none else m x)
        + (if is_present (m key) && is_among key ks then 1 else 0)
unfolding distinct_present is_among is_present
distinct_present-without key [] m = ground arith
distinct_present-without key (k ∷ ks) m = elim (Bool-cases (bytes_eq k key)) [
  | inl same ↦
      let p = eq_of_bytes_eq k key same in
      ground (arith, same, p, bytes_eq_self key, distinct_present-without key ks m)
  | inr differs ↦
      ground
        (arith, differs, eq_of_bytes_eq key k, bytes_eq_self key, distinct_present-without key ks m)
]

without-after :
    (key : Bytes) (ks : List Bytes) (m : Contents) (x : Bytes)
    → without ks (λ (y : Bytes). if bytes_eq y key then none else m y) x ≡ without (key ∷ ks) m x
unfolding without is_among
without-after key ks m x = ground arith

module _ {S : Type 0} (db : Db S) (contents : S → Contents) (laws : Serves db contents) where
  -- A reply and a state stand for an answer and a map.
  abbrev Agrees : Bytes × S → Answer × Contents → Type 0
  Agrees x y = (x.0 ≡ wire y.0) × (contents x.1 ≡ y.1)

  choose :
      (b : Bool) (x y : Bytes × S) (x' y' : Answer × Contents)
      → Agrees x x'
      → Agrees y y'
      → Agrees (if b then x else y) (if b then x' else y')
  choose true x y x' y' h k = h
  choose false x y x' y' h k = k

  contents-put :
      (key v : Bytes) (s : S)
      → contents (db.put key v s).1
        ≡ (λ (x : Bytes). if bytes_eq x key then some v else contents s x)
  contents-put key v s = fun_ext λ x. laws.put_sets key v s x

  contents-delete :
      (key : Bytes) (s : S)
      → contents (db.delete key s).1
        ≡ (λ (x : Bytes). if bytes_eq x key then none else contents s x)
  contents-delete key s = fun_ext λ x. laws.delete_clears key s x

  found-get : (key : Bytes) (s : S) → found (db.get key s) ≡ is_present (contents s key)
  unfolding found is_present
  found-get key s = elim (Option-cases (contents s key)) [
    | inl h ↦ let (msg, p) = laws.get_misses key s h in rw (p, h) refl
    | inr (v, h) ↦ rw (laws.get_finds key v s h, h) refl
  ]

  get_reply-looked_up :
      (key : Bytes) (s : S) → get_reply db (db.get key s) ≡ wire (looked_up (contents s key))
  unfolding get_reply looked_up wire code_eq
  get_reply-looked_up key s = elim (Option-cases (contents s key)) [
    | inl h ↦ let (msg, p) = laws.get_misses key s h in rw (p, h) refl
    | inr (v, h) ↦ rw (laws.get_finds key v s h, h) refl
  ]

  agree_ping : (args : List Bytes) → ping db args ≡ wire (expect_ping args)
  unfolding ping expect_ping wire
  agree_ping [] = refl
  agree_ping (a ∷ args) = refl

  agree_echo : (args : List Bytes) → echo db args ≡ wire (expect_echo args)
  unfolding echo expect_echo wire
  agree_echo [] = refl
  agree_echo (a ∷ []) = refl
  agree_echo (a ∷ b ∷ args) = refl

  agree_set : (args : List Bytes) (s : S) → Agrees (set db args s) (expect_set args (contents s))
  unfolding set expect_set put_reply wire
  agree_set [] s = (refl, refl)
  agree_set (a ∷ []) s = (refl, refl)
  agree_set (a ∷ b ∷ []) s = (rw (laws.put_succeeds a b s) refl, contents-put a b s)
  agree_set (a ∷ b ∷ c ∷ args) s = (refl, refl)

  agree_get : (args : List Bytes) (s : S) → get db args s ≡ wire (expect_get args (contents s))
  unfolding get expect_get
  agree_get [] s = unfold wire in refl
  agree_get (a ∷ []) s = get_reply-looked_up a s
  agree_get (a ∷ b ∷ args) s = unfold wire in refl

  absent_stays :
      (k : Bytes) (ks : List Bytes) (s : S) (x : Bytes)
      → is_present (contents s k) ≡ false
      → without ks (contents s) x ≡ without (k ∷ ks) (contents s) x
  unfolding without is_among is_present
  absent_stays k ks s x h = ground (arith, h, eq_of_bytes_eq x k)

  del_loop-counts :
      (keys : List Bytes) (n : ℕ) (s : S)
      → ((del_loop db keys n s).0 ≡ n + distinct_present keys (contents s))
        × (contents (del_loop db keys n s).1 ≡ without keys (contents s))
  unfolding del_loop distinct_present
  del_loop-counts [] n s = (omega arith, fun_ext λ x. unfold without is_among in refl)
  del_loop-counts (k ∷ ks) n s = elim (Bool-cases (found (db.get k s))) [
    | inl held ↦
        let (counted, cleared) = del_loop-counts ks (suc n) (db.delete k s).1 in
        let c = contents-delete k s in
        let present = sym (found-get k s) ∙ held in
        (
          rw (held, laws.delete_succeeds k s)
              (ground (arith, counted, c, present, distinct_present-without k ks (contents s))),
          rw (held, laws.delete_succeeds k s)
              (cleared ∙ ap (without ks) c ∙ fun_ext λ x. without-after k ks (contents s) x),
        )
    | inr missed ↦
        let (counted, cleared) = del_loop-counts ks n s in
        let absent = sym (found-get k s) ∙ missed in
        (
          rw missed (ground (arith, counted, absent)),
          rw missed (cleared ∙ fun_ext λ x. absent_stays k ks s x absent),
        )
  ]

  agree_del : (args : List Bytes) (s : S) → Agrees (del db args s) (expect_del args (contents s))
  unfolding del expect_del wire
  agree_del [] s = (refl, refl)
  agree_del (k ∷ ks) s =
      let (counted, cleared) = del_loop-counts (k ∷ ks) 0 s in
      (ap integer (counted ∙ omega arith), cleared)

  exists_loop-counts :
      (keys : List Bytes) (n : ℕ) (s : S)
      → exists_loop db keys n s ≡ n + all_present keys (contents s)
  unfolding exists_loop all_present
  exists_loop-counts [] n s = omega arith
  exists_loop-counts (k ∷ ks) n s =
      ground
        (arith, found-get k s, exists_loop-counts ks (if found (db.get k s) then suc n else n) s)

  agree_exists :
      (args : List Bytes) (s : S) → exists db args s ≡ wire (expect_exists args (contents s))
  unfolding exists expect_exists wire
  agree_exists [] s = refl
  agree_exists (k ∷ ks) s = ap integer (exists_loop-counts (k ∷ ks) 0 s ∙ omega arith)

  agree_command :
      (cmd : Bytes) (args : List Bytes) (s : S)
      → Agrees (run_command db cmd args s) (expect_command cmd args (contents s))
  unfolding run_command expect_command wire
  agree_command cmd args s =
      choose _ _ _ _ _ (agree_ping args, refl)
        (choose _ _ _ _ _ (agree_echo args, refl)
          (choose _ _ _ _ _ (agree_set args s) (
            choose _ _ _ _ _ (agree_get args s, refl)
              (choose _ _ _ _ _ (agree_del args s)
                (choose _ _ _ _ _ (agree_exists args s, refl) (refl, refl))))))

  agree_request :
      (args : List Bytes) (s : S) → Agrees (execute db args s) (expect args (contents s))
  unfolding execute expect
  agree_request [] s = (unfold wire in refl, refl)
  agree_request (name ∷ args) s = agree_command (lower name) args s

  -- Over a database whose calls succeed and act on a map, any sequence of requests gives the
  -- replies that the commands promise of the map, and leaves the map that they promise: DEL
  -- counts each key that it removes once, EXISTS counts repetitions.
  pub execute_all-expect_all :
      (requests : List (List Bytes)) (s : S)
      → ((execute_all db requests s).0 ≡ map wire (expect_all requests (contents s)).0)
        × (contents (execute_all db requests s).1 ≡ (expect_all requests (contents s)).1)
  unfolding execute_all expect_all
  execute_all-expect_all [] s = (refl, refl)
  execute_all-expect_all (args ∷ requests) s =
      let (replied, held) = agree_request args s in
      let (replies, end) = execute_all-expect_all requests (execute db args s).1 in
      (
        ap2_cons replied (replies ∙ ap (λ (m : Contents). map wire (expect_all requests m).0) held),
        end ∙ ap (λ (m : Contents). (expect_all requests m).1) held,
      )
    where
      ap2_cons : {r r' : Bytes} {l l' : List Bytes} → r ≡ r' → l ≡ l' → (r ∷ l) ≡ (r' ∷ l')
      ap2_cons p q = cc
