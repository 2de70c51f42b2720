-- ===== src/Importer/Session/Batches.antt =====
-- The sessions of importer.go: their count, and the rows that they write.
use mathlib.Core.List.{append_assoc, append-nil}
use mailview.Prelude.{
  ℕ, ◌%◌, ◌≡◌, refl, ap, sym, ◌∙◌, Bool, true, false, not, ◌&&◌, ◌||◌, List, [], ◌∷◌, ◌++◌, ◌==◌,
  length, length-append, arith, Bool-cases, inl, inr, map,
}
use mailview.Importer.Table.{Options, SubReq, Tables, exec_row}
use mailview.Importer.Session.{
  Answers, Progress, fresh, begin_batch, keep_batch, drop_batch, with_row, close_batch, one_row,
  go_on, batch_loop, finish, start,
}
use mailview.Importer.Session.Kept.{
  write_all, write_all-append, Part, none_of, Part-more, Part-last, Part-front,
}

-- The rows of a queue, without the answers.
abbrev pub queued : List (SubReq × Answers) → List SubReq
queued rows = map (λ row. row.0) rows

module _ (o : Options) (base : Tables) where
  -- What a session wrote of the rows that it has seen: `kept` is committed and counted, and `taken` is
  -- in the transaction at hand.
  record IsTracked (seen : List SubReq) (p : Progress) : Type 0 where
    kept : List SubReq
    taken : List SubReq
    stored_is : p.stored ≡ write_all o kept base
    working_is : p.rolled ≡ false → p.working ≡ write_all o taken p.stored
    counted : p.imported ≡ length kept
    held : p.cur ≡ length taken
    part : Part (kept ++ taken) seen

  closed-Part :
      {seen : List SubReq} (kept taken : List SubReq)
      → Part (kept ++ taken) seen
      → Part (kept ++ []) seen
  closed-Part kept taken q = rw (append-nil kept) (Part-front kept taken q)

  keep-IsTracked :
      (seen : List SubReq) (p : Progress)
      → IsTracked seen p
      → p.rolled ≡ false
      → IsTracked seen (keep_batch p)
  unfolding write_all
  keep-IsTracked seen p v e = record {
    kept = v.kept ++ v.taken;
    taken = [];
    stored_is =
        v.working_is e
        ∙ ap (write_all o v.taken) v.stored_is
        ∙ sym (write_all-append o v.kept v.taken base);
    working_is = λ _. nothing p.working;
    counted = omega (arith, v.counted, v.held, length-append v.kept v.taken);
    held = refl;
    part = rw (append-nil (v.kept ++ v.taken)) v.part;
  }
    where
      nothing : (db : Tables) → db ≡ write_all o [] db
      nothing db = refl

  drop-IsTracked :
      (seen : List SubReq) (p : Progress) → IsTracked seen p → IsTracked seen (drop_batch p)
  unfolding write_all
  drop-IsTracked seen p v = record {
    kept = v.kept;
    taken = [];
    stored_is = v.stored_is;
    working_is = λ _. refl;
    counted = v.counted;
    held = refl;
    part = closed-Part v.kept v.taken v.part;
  }

  begin-IsTracked :
      (seen : List SubReq) (p : Progress) → IsTracked seen p → IsTracked seen (begin_batch p)
  unfolding write_all
  begin-IsTracked seen p v = elim (Bool-cases (p.cur == 0)) [
    | inl e ↦ rw e (record {
      kept = v.kept;
      taken = [];
      stored_is = v.stored_is;
      working_is = λ _. refl;
      counted = v.counted;
      held = ground (arith, e);
      part = closed-Part v.kept v.taken v.part;
    })
    | inr e ↦ rw e v
  ]

  row-IsTracked :
      (seen : List SubReq) (r : SubReq) (p : Progress)
      → IsTracked seen p
      → IsTracked (seen ++ r ∷ []) (with_row o r p)
  unfolding write_all
  row-IsTracked seen r p v = record {
    kept = v.kept;
    taken = v.taken ++ r ∷ [];
    stored_is = v.stored_is;
    working_is = λ e. ap (exec_row o r) (v.working_is e) ∙ sym (last v.taken r p.stored);
    counted = v.counted;
    held = omega (arith, v.held, length-append v.taken (r ∷ []));
    part = rw (sym (append_assoc v.kept v.taken (r ∷ []))) (Part-last r v.part);
  }
    where
      last :
          (xs : List SubReq) (x : SubReq) (db : Tables)
          → write_all o (xs ++ x ∷ []) db ≡ exec_row o x (write_all o xs db)
      last xs x db = write_all-append o xs (x ∷ []) db

  close-IsTracked :
      (seen : List SubReq) (size : ℕ) (committed : Bool) (p : Progress)
      → IsTracked seen p
      → p.rolled ≡ false
      → IsTracked seen (close_batch size committed p)
        × ((close_batch size committed p).rolled ≡ false)
  close-IsTracked seen size committed p v e = elim (Bool-cases (p.cur % size == 0)) [
    | inr h ↦ rw h (v, e)
    | inl h ↦ elim (Bool-cases committed) [
      | inl c ↦ rw (h, c) (keep-IsTracked seen p v e, e)
      | inr c ↦ rw (h, c) (drop-IsTracked seen p v, e)
    ]
  ]

  later :
      {seen : List SubReq} {p : Progress} (more : List SubReq)
      → IsTracked seen p
      → IsTracked (seen ++ more) p
  later more v = record {
    kept = v.kept;
    taken = v.taken;
    stored_is = v.stored_is;
    working_is = v.working_is;
    counted = v.counted;
    held = v.held;
    part = Part-more more v.part;
  }

  go_on-IsTracked :
      (seen more : List SubReq) (rest : Progress → Progress) (round : Bool × Progress)
      → ((p : Progress) → IsTracked seen p → p.rolled ≡ false → IsTracked (seen ++ more) (rest p))
      → IsTracked seen round.1
      → (round.0 ≡ true → round.1.rolled ≡ false)
      → IsTracked (seen ++ more) (go_on rest round)
  go_on-IsTracked seen more rest (true, p) step v still = step p v (still refl)
  go_on-IsTracked seen more rest (false, p) step v still = later more v

  rolled-IsTracked :
      (seen : List SubReq) (p : Progress)
      → IsTracked seen p
      → IsTracked seen (record p { working = p.stored; rolled = true })
  rolled-IsTracked seen p v = record {
    kept = v.kept;
    taken = v.taken;
    stored_is = v.stored_is;
    working_is = λ e. ground (arith, e);
    counted = v.counted;
    held = v.held;
    part = v.part;
  }

  begin_rolled : (p : Progress) → p.rolled ≡ false → (begin_batch p).rolled ≡ false
  begin_rolled p e = elim (Bool-cases (p.cur == 0)) [ inl h ↦ rw h e | inr h ↦ rw h e ]

  one_row-IsTracked :
      (size : ℕ) (seen : List SubReq) (r : SubReq) (a : Answers) (p : Progress)
      → IsTracked seen p
      → p.rolled ≡ false
      → IsTracked (seen ++ r ∷ []) (one_row o size r a p).1
        × ((one_row o size r a p).0 ≡ true → (one_row o size r a p).1.rolled ≡ false)
  one_row-IsTracked size seen r a p v e = elim (Bool-cases (p.cur == 0 && not a.begun)) [
    | inl h ↦ rw h (later (r ∷ []) v, λ _. e)
    | inr h ↦ elim (Bool-cases (not a.drawn || not a.inserted)) [
      | inl q ↦ rw (h, q) (later (r ∷ []) (rolled-IsTracked seen p v), λ z. ground (arith, z))
      | inr q ↦
          let (w, still) =
            close-IsTracked (seen ++ r ∷ []) size a.committed (with_row o r (begin_batch p))
              (row-IsTracked seen r (begin_batch p) (begin-IsTracked seen p v))
              (begin_rolled p e) in
          rw (h, q) (w, λ _. still)
    ]
  ]

  loop-IsTracked :
      (size : ℕ) (seen : List SubReq) (rows : List (SubReq × Answers)) (p : Progress)
      → IsTracked seen p
      → p.rolled ≡ false
      → IsTracked (seen ++ queued rows) (batch_loop o size rows p)
  unfolding batch_loop
  loop-IsTracked size seen [] p v e = rw (append-nil seen) v
  loop-IsTracked size seen ((r, a) ∷ rows) p v e =
      let (w, still) = one_row-IsTracked size seen r a p v e in
      rw (sym (append_assoc seen (r ∷ []) (queued rows))) (
        go_on-IsTracked (seen ++ r ∷ []) (queued rows) (batch_loop o size rows)
          (one_row o size r a p) (loop-IsTracked size (seen ++ r ∷ []) rows) w still)

  -- What a session leaves: the rows that it kept, written in their order, and their number.
  pub record IsCounted (rows : List SubReq) (p : Progress) : Type 0 where
    pub kept : List SubReq
    pub part : Part kept rows
    pub stored_is : p.stored ≡ write_all o kept base
    pub counted : p.imported ≡ length kept

  finish-IsCounted :
      (rows : List SubReq) (committed : Bool) (p : Progress)
      → IsTracked rows p
      → IsCounted rows (finish committed p)
  finish-IsCounted rows committed p v = elim (Bool-cases (p.cur == 0)) [
    | inl e ↦ rw e (record {
      kept = v.kept;
      part = Part-front v.kept v.taken v.part;
      stored_is = v.stored_is;
      counted = v.counted;
    })
    | inr e ↦ elim (Bool-cases (committed && not p.rolled)) [
      | inr h ↦
          rw (e, h)
            (record {
              kept = v.kept;
              part = Part-front v.kept v.taken v.part;
              stored_is = v.stored_is;
              counted = v.counted;
            })
      | inl h ↦
          let w = keep-IsTracked rows p v (ground (arith, h)) in
          rw (e, h)
            (record {
              kept = w.kept;
              part = Part-front w.kept w.taken w.part;
              stored_is = w.stored_is;
              counted = w.counted;
            })
    ]
  ]

-- Whatever the database answers, and wherever the loop ends, the tables are those that some rows of
-- the queue make, written in their order, and the number that a session reports as imported is the
-- number of these rows. A row that updates a subscriber counts as one that adds one.
pub start-counts :
    (o : Options) (size : ℕ) (rows : List (SubReq × Answers)) (committed : Bool) (base : Tables)
    → IsCounted o base (queued rows) (start o size rows committed (fresh base))
unfolding start write_all
start-counts o size rows committed base =
    finish-IsCounted o base (queued rows) committed (batch_loop o size rows (fresh base)) (
      loop-IsTracked o base size [] rows (fresh base)
        (record {
          kept = [];
          taken = [];
          stored_is = refl;
          working_is = λ _. refl;
          counted = refl;
          held = refl;
          part = none_of;
        })
        refl)
