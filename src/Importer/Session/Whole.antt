-- ===== src/Importer/Session/Whole.antt =====
-- Sessions of importer.go in which no statement fails.
use mathlib.Core.List.{append_assoc, append-nil}
use mailview.Prelude.{
  ℕ, ◌+◌, ◌%◌, ◌≡◌, refl, ap, sym, ◌∙◌, true, false, ◌&&◌, List, [], ◌∷◌, ◌++◌, ◌==◌, length,
  length-append, Memᴰ, arith, Bool-cases, inl, inr, All,
}
use mailview.Importer.Table.{Options, SubReq, Tables, exec_row}
use mailview.Importer.Session.{
  Answers, Progress, finished, fresh, begin_batch, with_row, close_batch, one_row, batch_loop,
  finish, start,
}
use mailview.Importer.Session.Kept.{write_all, write_all-append, is_there, write_all_there}
use mailview.Importer.Session.Batches.{queued}

-- What `Begin`, `NewV4`, `Exec` and `Commit` answer when all goes well.
pub record IsWell (a : Answers) : Type 0 where
  pub opens : a.begun ≡ true
  pub draws : a.drawn ≡ true
  pub inserts : a.inserted ≡ true
  pub commits : a.committed ≡ true

and-false : (n : ℕ) → (n == 0 && false) ≡ false
and-false n = ground arith

module _ (o : Options) (base : Tables) where
  -- All that was seen is written, and counted or in the batch at hand.
  record IsWhole (seen : List SubReq) (p : Progress) : Type 0 where
    written : p.working ≡ write_all o seen base
    unbroken : p.rolled ≡ false
    idle : p.cur ≡ 0 → p.stored ≡ p.working
    counted : p.imported + p.cur ≡ length seen

  begin_same : (p : Progress) → (p.cur ≡ 0 → p.stored ≡ p.working) → begin_batch p ≡ p
  begin_same p h = elim (Bool-cases (p.cur == 0)) [
    | inl e ↦ rw e (ap (λ (w : Tables). record p { working = w }) (h (ground (arith, e))))
    | inr e ↦ rw e refl
  ]

  row-IsWhole :
      (seen : List SubReq) (r : SubReq) (p : Progress)
      → IsWhole seen p
      → IsWhole (seen ++ r ∷ []) (with_row o r p)
  unfolding write_all
  row-IsWhole seen r p v = record {
    written = ap (exec_row o r) v.written ∙ sym (write_all-append o seen (r ∷ []) base);
    unbroken = v.unbroken;
    idle = λ e. ground (arith, e);
    counted = omega (arith, v.counted, length-append seen (r ∷ []));
  }

  close-IsWhole :
      (seen : List SubReq) (size : ℕ) (p : Progress)
      → IsWhole seen p
      → IsWhole seen (close_batch size true p)
  close-IsWhole seen size p v = elim (Bool-cases (p.cur % size == 0)) [
    | inl e ↦ rw e (record {
      written = v.written;
      unbroken = v.unbroken;
      idle = λ _. refl;
      counted = omega (arith, v.counted);
    })
    | inr e ↦ rw e v
  ]

  one_row-well :
      (size : ℕ) (r : SubReq) (a : Answers) (p : Progress)
      → IsWell a
      → one_row o size r a p ≡ (true, close_batch size true (with_row o r (begin_batch p)))
  one_row-well size r a p w = rw (w.opens, w.draws, w.inserts, w.commits, and-false p.cur) refl

  loop-IsWhole :
      (size : ℕ) (seen : List SubReq) (rows : List (SubReq × Answers)) (p : Progress)
      → IsWhole seen p
      → All (λ row. IsWell row.1) rows
      → IsWhole (seen ++ queued rows) (batch_loop o size rows p)
  unfolding batch_loop
  loop-IsWhole size seen [] p v all = rw (append-nil seen) v
  loop-IsWhole size seen ((r, a) ∷ rows) p v all =
      rw (one_row-well size r a p all.0, begin_same p v.idle)
        (rw (sym (append_assoc seen (r ∷ []) (queued rows))) (
          loop-IsWhole size (seen ++ r ∷ []) rows (close_batch size true (with_row o r p))
            (close-IsWhole (seen ++ r ∷ []) size (with_row o r p) (row-IsWhole seen r p v)) all.1))

  -- What a session without a failure leaves.
  pub record IsComplete (rows : List SubReq) (p : Progress) : Type 0 where
    pub ended : p.status ≡ finished
    pub stored_is : p.stored ≡ write_all o rows base
    pub counted : p.imported ≡ length rows
    pub present : (r : SubReq) → Memᴰ r rows → is_there r.email p.stored ≡ true

  complete :
      (rows : List SubReq) (p : Progress)
      → p.status ≡ finished
      → p.stored ≡ write_all o rows base
      → p.imported ≡ length rows
      → IsComplete rows p
  complete rows p e s c = record {
    ended = e;
    stored_is = s;
    counted = c;
    present = λ r m. rw s (write_all_there o rows base r m);
  }

  finish-IsComplete :
      (rows : List SubReq) (p : Progress) → IsWhole rows p → IsComplete rows (finish true p)
  finish-IsComplete rows p v = elim (Bool-cases (p.cur == 0)) [
    | inl e ↦
        let none_left : p.cur ≡ 0 = ground (arith, e) in
        rw e (
          complete rows (record p { status = finished }) refl (v.idle none_left ∙ v.written)
            (omega (arith, v.counted, none_left)))
    | inr e ↦ rw (e, v.unbroken) (complete rows _ refl v.written v.counted)
  ]

-- When the database takes every row and every commit, the session ends as finished; every row of the
-- queue was written, in their order, also those of the last batch, which is not full, and was counted;
-- and each e-mail of the queue has its subscriber. No size of a batch makes a difference.
pub start-finished :
    (o : Options) (size : ℕ) (rows : List (SubReq × Answers)) (base : Tables)
    → All (λ row. IsWell row.1) rows
    → IsComplete o base (queued rows) (start o size rows true (fresh base))
unfolding start write_all
start-finished o size rows base all =
    finish-IsComplete o base (queued rows) (batch_loop o size rows (fresh base)) (
      loop-IsWhole o base size [] rows (fresh base)
        (record { written = refl; unbroken = refl; idle = λ _. refl; counted = refl }) all)
