-- ===== src/Preregistration/Create.antt =====
-- Creating, finding and checking a preregistration.
use self_spawn_agents.Prelude.{
  ◌+◌, ◌≡◌, refl, sym, ap, subst, ◌∙◌, Bool, true, false, List, [], ◌∷◌, ◌++◌, Text, codes,
  text_eqb, text_eqb_iff, text_eq, Result, ok, err, validation_error, All, select,
}
use self_spawn_agents.Schemas.Common.{World}
use self_spawn_agents.Preregistration.Canonical.{string}
use self_spawn_agents.Prelude.Dict.{insert}
use self_spawn_agents.Preregistration.Register.{
  PreRegistration, Printer, Serializer, Session, Plan, provisional, row_of, content_fits,
  prereg_fits, is_hash, lock_draft, insert_row, create, get, ensure_locked_and_exists, verify_hash,
  model_dump,
}
use self_spawn_agents.Preregistration.Lock.{
  locked_text, compute_lock_hash_lem, verify_hash_iff, accepted,
}

select-append {ℓ} :
    {A : Type ℓ} (t : A → Bool) (xs : List A) (x : A)
    → All (λ y. t y ≡ false) xs
    → t x ≡ true
    → select t (xs ++ x ∷ []) ≡ x ∷ []
select-append t [] x h k = rw k refl
select-append t (y ∷ xs) x (h, hs) k = rw h (select-append t xs x hs k)

abbrev set_hash : PreRegistration → Text → PreRegistration
set_hash p h = record p { lock_hash = h }

insert-lock_hash :
    (pr : Printer) (p : PreRegistration) (h : Text)
    → insert (codes "lock_hash") (string h) (model_dump pr p) ≡ model_dump pr (set_hash p h)
unfolding model_dump
insert-lock_hash pr p h = refl

set_hash-fits :
    (pr : Printer) (p : PreRegistration) (h : Text)
    → content_fits pr p ≡ true
    → is_hash h ≡ true
    → prereg_fits pr (set_hash p h) ≡ true
unfolding content_fits
set_hash-fits pr p h content hash = rw (content, hash) refl

locked_text-set_hash :
    (pr : Printer) (p : PreRegistration) (h : Text)
    → locked_text pr (set_hash p h) ≡ locked_text pr p
unfolding locked_text
locked_text-set_hash pr p h = refl

module _ (sha256 : Text → Text) (py : Serializer) where
  abbrev hash_of : PreRegistration → Text
  hash_of p = sha256 (locked_text py.printer p)

  lock_validates :
      (p : PreRegistration)
      → prereg_fits py.printer p ≡ true
      → prereg_fits py.printer (set_hash p (hash_of p)) ≡ true
      → lock_draft sha256 py p ≡ ok (set_hash p (hash_of p))
  lock_validates p fp fq =
      rw (fp, compute_lock_hash_lem sha256 py.printer p, insert-lock_hash py.printer p (hash_of p))
        (py.model_validate-model_dump (set_hash p (hash_of p)) ∙ accepted _ _ _ fq)

  lock_refuses :
      (p : PreRegistration)
      → prereg_fits py.printer p ≡ false
      → lock_draft sha256 py p ≡ err validation_error
  lock_refuses p h = rw h refl

  found :
      (s : Session) (p : PreRegistration)
      → All (λ r. text_eqb r.id (py.printer.uuid_text p.id) ≡ false) s.rows
      → prereg_fits py.printer p ≡ true
      → get sha256 py
          (record s { rows = s.rows ++ row_of sha256 py p ∷ [] })
          (py.printer.uuid_text p.id)
        ≡ ok p
  unfolding get
  found s p new h =
      rw
        (select-append (λ r. text_eqb r.id (py.printer.uuid_text p.id)) s.rows (row_of sha256 py p)
          new ((text_eqb_iff (py.printer.uuid_text p.id) (py.printer.uuid_text p.id)).1 refl))
        (py.model_validate-model_dump p ∙ accepted _ _ _ h)

  -- With fields within their bounds, a locked preregistration with the fields, which is found
  -- under its id and verifies; otherwise an exception and no row.
  abbrev pub Locks : Plan → Session → Bool → Result PreRegistration × Session → Type 0
  Locks plan s false (r, s') = (r ≡ err validation_error) × (s'.rows ≡ s.rows)
  Locks plan s true (r, s') =
      (p : PreRegistration) × (r ≡ ok p)
      × (p.hypothesis ≡ plan.hypothesis)
      × (p.primary_threshold ≡ plan.primary_threshold)
      × (p.measurement_window_days ≡ plan.measurement_window_days)
      × (ensure_locked_and_exists sha256 py s' (py.printer.uuid_text p.id) ≡ ok p)
      × (verify_hash sha256 py p ≡ ok true)

  verifies : (p : PreRegistration) → verify_hash sha256 py (set_hash p (hash_of p)) ≡ ok true
  verifies p =
      verify_hash_iff sha256 py (set_hash p (hash_of p))
      ∙ ap (λ t. ok (text_eqb (sha256 t) (hash_of p)))
          (locked_text-set_hash py.printer p (hash_of p))
      ∙ ap ok ((text_eqb_iff (hash_of p) (hash_of p)).1 refl)

  ensures :
      (s : Session) (p : PreRegistration)
      → All (λ r. text_eqb r.id (py.printer.uuid_text p.id) ≡ false) s.rows
      → prereg_fits py.printer p ≡ true
      → p.locked ≡ true
      → ensure_locked_and_exists sha256 py
          (record s { rows = s.rows ++ row_of sha256 py p ∷ [] })
          (py.printer.uuid_text p.id)
        ≡ ok p
  unfolding ensure_locked_and_exists
  ensures s p new h k = rw (found s p new h, k) refl

  locked_case :
      (w : World) (plan : Plan) (s : Session) (b : Bool)
      → content_fits py.printer (provisional w s.drawn plan) ≡ b
      → All (λ r. text_eqb r.id (py.printer.uuid_text (w.uuid4 s.drawn)) ≡ false) s.rows
      → ((t : Text) → is_hash (sha256 t) ≡ true)
      → Locks plan s b (create sha256 py w plan s)
  unfolding create
  locked_case w plan s true h new hex =
      let p = provisional w s.drawn plan in
      let q = set_hash p (hash_of p) in
      let s1 = record s { drawn = s.drawn + 1 } in
      let fq = set_hash-fits py.printer p (hash_of p) h (hex (locked_text py.printer p)) in
      let e =
        ap (λ r. insert_row sha256 py r s1)
          (lock_validates p (set_hash-fits py.printer p p.lock_hash h refl) fq) in
      subst (Locks plan s true) (sym e)
        (q, refl, refl, refl, refl, ensures s1 q new fq refl, verifies p)
  locked_case w plan s false h new hex =
      let p = provisional w s.drawn plan in
      let s1 = record s { drawn = s.drawn + 1 } in
      let refused : prereg_fits py.printer p ≡ false = rw h refl in
      subst (Locks plan s false)
        (sym (ap (λ r. insert_row sha256 py r s1) (lock_refuses p refused))) (refl, refl)

  -- Where no row has the id that is drawn, and SHA-256 gives 64 lower-case hexadecimal digits: a
  -- plan within the bounds of the schema gives a preregistration with its hypothesis, threshold
  -- and window, which is found as locked under its id in the session that is left, and whose hash
  -- verifies; a plan outside them raises and leaves the rows as they were.
  pub create-Locks :
      (w : World) (plan : Plan) (s : Session)
      → All (λ r. text_eqb r.id (py.printer.uuid_text (w.uuid4 s.drawn)) ≡ false) s.rows
      → ((t : Text) → is_hash (sha256 t) ≡ true)
      → Locks plan s
          (content_fits py.printer (provisional w s.drawn plan))
          (create sha256 py w plan s)
  create-Locks w plan s = locked_case w plan s _ refl
