-- ===== src/Preregistration/Lock.antt =====
-- What the lock hash covers.
use self_spawn_agents.Prelude.{
  ◌≡◌, ◌≢◌, refl, sym, ap, ◌∙◌, Bool, true, false, Option, none, some, [], ◌∷◌, ◌++◌, Text, codes,
  text_eqb, text_eqb_iff, text_eq, Result, ok, err, if◌then◌else◌, Bool-cases, inl, inr,
}
use mathlib.Core.List.{append_cancel_right, tail-eq_of_cons-eq}
use self_spawn_agents.Prelude.Decimal.{Money}
use self_spawn_agents.Prelude.Dict.{Dict, lookup}
use self_spawn_agents.Preregistration.Canonical.{
  PyValue, none_value, boolean, int, string, join_members,
}
use self_spawn_agents.Preregistration.Scalars.{texts, Matching, object-injective}
use self_spawn_agents.Preregistration.Register.{
  PreRegistration, Printer, Serializer, metric_text, prereg_fits, model_dump, compute_lock_hash,
  verify_hash, AnalysisResult, analysis_of, analyze,
}

-- The payload without the hash, in the order of the keys.
abbrev sorted_content : Printer → PreRegistration → Dict Text PyValue
sorted_content pr p =
    (codes "analysis_plan", string p.analysis_plan)
    ∷ (codes "created_at", string (pr.time_text p.created_at))
    ∷ (codes "hypothesis", string p.hypothesis)
    ∷ (codes "id", string (pr.uuid_text p.id))
    ∷ (codes "locked", boolean p.locked)
    ∷ (codes "measurement_window_days", int p.measurement_window_days)
    ∷ (codes "primary_metric", string (metric_text p.primary_metric))
    ∷ (codes "primary_threshold", string p.primary_threshold)
    ∷ (codes "stopping_rule", string p.stopping_rule)
    ∷ (codes "vertical_title", string p.vertical_title)
    ∷ []

-- The text that is hashed.
unfoldable pub locked_text : Printer → PreRegistration → Text
locked_text pr p = (123 ∷ (join_members (texts (sorted_content pr p)) ++ 125 ∷ [])) ++ 10 ∷ []

module _ (sha256 : Text → Text) where
  pub compute_lock_hash_lem :
      (pr : Printer) (p : PreRegistration)
      → compute_lock_hash sha256 (model_dump pr p) ≡ ok (sha256 (locked_text pr p))
  unfolding compute_lock_hash model_dump locked_text
  compute_lock_hash_lem pr p = refl

locked_text-injective :
    (pr : Printer) (p q : PreRegistration)
    → locked_text pr p ≡ locked_text pr q
    → sorted_content pr p ≡ sorted_content pr q
unfolding locked_text
locked_text-injective pr p q h =
    object-injective (sorted_content pr p) (sorted_content pr q) matching
      (tail-eq_of_cons-eq (append_cancel_right _ _ (10 ∷ []) h))
  where
    matching : Matching (sorted_content pr p) (sorted_content pr q)
    matching = (
      refl,
      tt,
      (
        refl,
        tt,
        (
          refl,
          tt,
          (refl, tt, (refl, tt, (refl, tt, (refl, tt, (refl, tt, (refl, tt, (refl, tt, tt))))))),
        ),
      ),
    )

abbrev value_or_none : Option PyValue → PyValue
value_or_none none = none_value
value_or_none (some v) = v

abbrev member : Text → Dict Text PyValue → Text × PyValue
member k d = (k, value_or_none (lookup k d))

-- The payload from its content and the hash.
abbrev rebuild : Text → Dict Text PyValue → Dict Text PyValue
rebuild hash d =
    member (codes "id") d
    ∷ member (codes "created_at") d
    ∷ member (codes "vertical_title") d
    ∷ member (codes "hypothesis") d
    ∷ member (codes "primary_metric") d
    ∷ member (codes "primary_threshold") d
    ∷ member (codes "measurement_window_days") d
    ∷ member (codes "analysis_plan") d
    ∷ member (codes "stopping_rule") d
    ∷ member (codes "locked") d
    ∷ (codes "lock_hash", string hash)
    ∷ []

model_dump-rebuild :
    (pr : Printer) (p : PreRegistration)
    → model_dump pr p ≡ rebuild p.lock_hash (sorted_content pr p)
unfolding model_dump
model_dump-rebuild pr p = refl

ok-injective : {p q : PreRegistration} → ok p ≡ ok q → p ≡ q
ok-injective {p = p} {q = q} h = ap (payload p) h
  where
    payload : PreRegistration → Result PreRegistration → PreRegistration
    payload d (ok p) = p
    payload d (err x) = d

pub accepted :
    (b : Bool) (p : PreRegistration) (r : Result PreRegistration)
    → b ≡ true
    → (if b then ok p else r) ≡ ok p
accepted true p r h = refl
accepted false p r h = cc

ok_true : (b : Bool) → ok b ≡ ok true → b ≡ true
ok_true b h = ap (payload b) h
  where
    payload : Bool → Result Bool → Bool
    payload d (ok b) = b
    payload d (err x) = d

module _ (sha256 : Text → Text) (py : Serializer) where
  -- SHA-256 tells the texts of two preregistrations apart.
  abbrev pub NoCollision : PreRegistration → PreRegistration → Type 0
  NoCollision p q =
      sha256 (locked_text py.printer p) ≡ sha256 (locked_text py.printer q)
      → locked_text py.printer p ≡ locked_text py.printer q

  pub verify_hash_iff :
      (p : PreRegistration)
      → verify_hash sha256 py p ≡ ok (text_eqb (sha256 (locked_text py.printer p)) p.lock_hash)
  unfolding verify_hash locked_text
  verify_hash_iff p = refl

  pub verified-injective :
      (p q : PreRegistration)
      → prereg_fits py.printer p ≡ true
      → prereg_fits py.printer q ≡ true
      → NoCollision p q
      → text_eqb (sha256 (locked_text py.printer p)) p.lock_hash ≡ true
      → text_eqb (sha256 (locked_text py.printer q)) q.lock_hash ≡ true
      → p.lock_hash ≡ q.lock_hash
      → p ≡ q
  verified-injective p q fp fq free vp vq same =
      let hp = (text_eqb_iff (sha256 (locked_text py.printer p)) p.lock_hash).0 vp in
      let hq = (text_eqb_iff (sha256 (locked_text py.printer q)) q.lock_hash).0 vq in
      let content = locked_text-injective py.printer p q (free (hp ∙ same ∙ sym hq)) in
      let dumps : model_dump py.printer p ≡ model_dump py.printer q =
        model_dump-rebuild py.printer p
        ∙ ap (rebuild p.lock_hash) content
        ∙ ap (λ h. rebuild h (sorted_content py.printer q)) same
        ∙ sym (model_dump-rebuild py.printer q) in
      ok-injective (
        sym (accepted (prereg_fits py.printer p) p _ fp)
        ∙ sym (py.model_validate-model_dump p)
        ∙ ap py.model_validate dumps
        ∙ py.model_validate-model_dump q
        ∙ accepted (prereg_fits py.printer q) q _ fq)

  analyze_lem :
      (p : PreRegistration) (observed : Money)
      → analyze sha256 py p observed
        ≡ ok (
            analysis_of sha256 py p observed
              (text_eqb (sha256 (locked_text py.printer p)) p.lock_hash))
  unfolding analyze locked_text
  analyze_lem p observed = refl

  pub verify_hash-true :
      (p : PreRegistration)
      → verify_hash sha256 py p ≡ ok true
      → text_eqb (sha256 (locked_text py.printer p)) p.lock_hash ≡ true
  verify_hash-true p h = ok_true _ (sym (verify_hash_iff p) ∙ h)

  -- Take two different preregistrations within the bounds of the schema with the same lock hash,
  -- of which the first verifies, and let SHA-256 not collide on their two canonical dumps. Then
  -- the analysis of the second reports an invalid hash and notes the drift, whatever was observed.
  pub analyze_tampered :
      (p q : PreRegistration) (observed : Money)
      → prereg_fits py.printer p ≡ true
      → prereg_fits py.printer q ≡ true
      → NoCollision p q
      → verify_hash sha256 py p ≡ ok true
      → p.lock_hash ≡ q.lock_hash
      → p ≢ q
      → (a : AnalysisResult) × (analyze sha256 py q observed ≡ ok a)
        × (a.hash_valid ≡ false)
        × (a.notes ≡ codes "HASH DRIFT — prereg tampered with!")
  analyze_tampered p q observed fp fq free vp same changed =
      elim (Bool-cases (text_eqb (sha256 (locked_text py.printer q)) q.lock_hash)) [
        | inl h ↦
            absurd (changed (verified-injective p q fp fq free (verify_hash-true p vp) h same))
        | inr h ↦ (
          analysis_of sha256 py q observed false,
          analyze_lem q observed ∙ ap (λ b. ok (analysis_of sha256 py q observed b)) h,
          refl,
          refl,
        )
      ]
