-- ===== src/Importer/Session/Kept.antt =====
-- Rows written one after the other, and the parts of a queue that a session of importer.go keeps.
use mailview.Prelude.{
  ◌≡◌, refl, Bool, true, false, List, [], ◌∷◌, ◌++◌, Memᴰ, Bytes, any, str_eq_refl, mem-cases,
  subst, sym, Bool-cases, inl, inr, arith,
}
use mailview.Importer.Table.{
  Mode, Options, SubReq, Subscriber, Tables, has_email, upsert, as_row, set_info, upsert_subscriber,
  upsert_blocklist_subscriber, exec_row,
}

-- The rows written in their order.
unfoldable pub write_all : Options → List SubReq → Tables → Tables
unfolding exec_row
write_all o [] db = db
write_all o (r ∷ rs) db = write_all o rs (exec_row o r db)

pub write_all-append :
    (o : Options) (xs ys : List SubReq) (db : Tables)
    → write_all o (xs ++ ys) db ≡ write_all o ys (write_all o xs db)
unfolding write_all
write_all-append o [] ys db = refl
write_all-append o (x ∷ xs) ys db = write_all-append o xs ys (exec_row o x db)

-- Some of the rows, in their order.
pub data Part {ℓ} {A : Type ℓ} : List A → List A → Type ℓ where
  none_of : {ys : List A} → Part [] ys
  keep : {x : A} {xs ys : List A} → Part xs ys → Part (x ∷ xs) (x ∷ ys)
  skip : {y : A} {xs ys : List A} → Part xs ys → Part xs (y ∷ ys)

module _ {ℓ} {A : Type ℓ} where
  pub Part-more : {xs ys : List A} (zs : List A) → Part xs ys → Part xs (ys ++ zs)
  Part-more zs none_of = none_of
  Part-more zs (keep p) = keep (Part-more zs p)
  Part-more zs (skip p) = skip (Part-more zs p)

  Part-new : (ys : List A) (a : A) → Part (a ∷ []) (ys ++ a ∷ [])
  Part-new [] a = keep none_of
  Part-new (y ∷ ys) a = skip (Part-new ys a)

  pub Part-last : {xs ys : List A} (a : A) → Part xs ys → Part (xs ++ a ∷ []) (ys ++ a ∷ [])
  Part-last {ys = ys} a none_of = Part-new ys a
  Part-last a (keep p) = keep (Part-last a p)
  Part-last a (skip p) = skip (Part-last a p)

  front_of : (xs zs : List A) {ws ys : List A} → Part ws ys → ws ≡ xs ++ zs → Part xs ys
  front_of [] zs p e = none_of
  front_of (x ∷ xs) zs none_of e = ground (arith, e)
  front_of (x ∷ xs) zs (keep {x = w} {xs = ws} {ys = ys} p) e =
      let head : w ≡ x = cc in
      let tail : ws ≡ xs ++ zs = cc in
      subst (λ z. Part (z ∷ xs) (w ∷ ys)) head (keep (front_of xs zs p tail))
  front_of (x ∷ xs) zs (skip p) e = skip (front_of (x ∷ xs) zs p e)

  pub Part-front : (xs zs : List A) {ys : List A} → Part (xs ++ zs) ys → Part xs ys
  Part-front xs zs p = front_of xs zs p refl

-- Is there a subscriber with the e-mail?
abbrev pub is_there : Bytes → Tables → Bool
is_there email db = any (has_email email) db.subscribers

upsert_there :
    (new : Subscriber) (change : Subscriber → Subscriber) (ss : List Subscriber)
    → ((s : Subscriber) → (change s).email ≡ s.email)
    → any (has_email new.email) (upsert new change ss) ≡ true
unfolding upsert any
upsert_there new change [] keeps = rw (str_eq_refl _) refl
upsert_there new change (s ∷ ss) keeps = elim (Bool-cases (has_email new.email s)) [
  | inl e ↦ rw (e, keeps s, e) refl
  | inr e ↦ rw (e, e) (upsert_there new change ss keeps)
]

upsert-kept :
    (email : Bytes) (new : Subscriber) (change : Subscriber → Subscriber) (ss : List Subscriber)
    → ((s : Subscriber) → (change s).email ≡ s.email)
    → any (has_email email) ss ≡ true
    → any (has_email email) (upsert new change ss) ≡ true
unfolding upsert any
upsert-kept email new change [] keeps h = cc
upsert-kept email new change (s ∷ ss) keeps h = elim (Bool-cases (has_email new.email s)) [
  | inl e ↦ rw (e, keeps s) h
  | inr e ↦ rw e (elim (Bool-cases (has_email email s)) [
    | inl q ↦ rw q refl
    | inr q ↦ rw q (upsert-kept email new change ss keeps (rw q at h))
  ])
]

info_keeps :
    (overwrite : Bool) (r : SubReq) (s : Subscriber) → (set_info overwrite r s).email ≡ s.email
info_keeps overwrite r s = ground arith

exec_row_there :
    (o : Options) (r : SubReq) (db : Tables) → is_there r.email (exec_row o r db) ≡ true
unfolding exec_row upsert_subscriber upsert_blocklist_subscriber
exec_row_there o r db = by o.mode
  where
    by : (m : Mode) → is_there r.email (exec_row (record o { mode = m }) r db) ≡ true
    by Mode.subscribe =
        upsert_there (as_row false r) (set_info o.overwrite_user_info r) db.subscribers
          (info_keeps o.overwrite_user_info r)
    by Mode.blocklist = upsert_there (as_row true r) _ db.subscribers (λ s. refl)

exec_row-kept :
    (o : Options) (email : Bytes) (r : SubReq) (db : Tables)
    → is_there email db ≡ true
    → is_there email (exec_row o r db) ≡ true
unfolding exec_row upsert_subscriber upsert_blocklist_subscriber
exec_row-kept o email r db h = by o.mode
  where
    by : (m : Mode) → is_there email (exec_row (record o { mode = m }) r db) ≡ true
    by Mode.subscribe =
        upsert-kept email (as_row false r) (set_info o.overwrite_user_info r) db.subscribers
          (info_keeps o.overwrite_user_info r) h
    by Mode.blocklist = upsert-kept email (as_row true r) _ db.subscribers (λ s. refl) h

pub write_all-kept :
    (o : Options) (email : Bytes) (rs : List SubReq) (db : Tables)
    → is_there email db ≡ true
    → is_there email (write_all o rs db) ≡ true
unfolding write_all
write_all-kept o email [] db h = h
write_all-kept o email (r ∷ rs) db h =
    write_all-kept o email rs (exec_row o r db) (exec_row-kept o email r db h)

pub write_all_there :
    (o : Options) (rs : List SubReq) (db : Tables) (r : SubReq)
    → Memᴰ r rs
    → is_there r.email (write_all o rs db) ≡ true
unfolding write_all
write_all_there o [] db r m = elim m [ ]
write_all_there o (x ∷ rs) db r m = elim (mem-cases m) [
  | inl e ↦
      subst (λ (z : SubReq). is_there z.email (write_all o rs (exec_row o x db)) ≡ true) (sym e)
        (write_all-kept o x.email rs (exec_row o x db) (exec_row_there o x db))
  | inr n ↦ write_all_there o rs (exec_row o x db) r n
]
