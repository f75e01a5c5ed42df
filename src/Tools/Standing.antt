-- ===== src/Tools/Standing.antt =====
-- Which tools can be invoked.
use self_spawn_agents.Prelude.{
  ◌≡◌, refl, sym, ◌⊎◌, subst, Bool, true, false, not, ◌==◌, Option, none, some, List, [], ◌∷◌,
  Result, ok, err, if◌then◌else◌, Text, text_eqb, text_eqb_iff, text_eq, arith, Bool-cases, inl,
  inr, tool_policy_error, Exception, ◌∙◌,
}
use mathlib.Core.Option.{some-injective}
use self_spawn_agents.Prelude.Dict.{lookup, insert, lookup-insert}
use self_spawn_agents.Schemas.Common.{Time}
use self_spawn_agents.Schemas.Build.{BuildRequest, ToolArtifact}
use self_spawn_agents.Tools.{
  RegisteredTool, ToolRegistry, ToolStatus, registered, retired, lacks_verdict, new_tool, admit,
  register, get, found_tool, retire, retire_found, retired_tool, Platform, invoke, invoke_found,
  unless_retired,
}

pub data Request : Type 0 where
  registering : ToolArtifact → BuildRequest → Time → Request
  retiring : Text → Time → Request

unfoldable pub apply_request : Request → ToolRegistry → ToolRegistry
apply_request (registering artifact req now) s = (register artifact req now s).1
apply_request (retiring sha now) s = (retire sha now s).1

unfoldable pub run_requests : List Request → ToolRegistry → ToolRegistry
run_requests [] s = s
run_requests (q ∷ qs) s = run_requests qs (apply_request q s)

abbrev pub no_tools : ToolRegistry
no_tools = record { by_sha = [] }

-- The tool stands under its own hash, and one of high risk has an ethics verdict.
abbrev pub Vetted : Text → RegisteredTool → Type 0
Vetted sha t = (t.sha256 ≡ sha) × (lacks_verdict t.risk_tier t.ethics_verdict_id ≡ false)

abbrev AllVetted : ToolRegistry → Type 0
AllVetted s = (sha : Text) (t : RegisteredTool) → lookup sha s.by_sha ≡ some t → Vetted sha t

insert-AllVetted :
    (sha : Text) (t : RegisteredTool) (s : ToolRegistry)
    → Vetted sha t
    → AllVetted s
    → AllVetted (record { by_sha = insert sha t s.by_sha })
insert-AllVetted sha t s good h other x found =
    either (text_eqb sha other) refl (sym (lookup-insert sha other t s.by_sha) ∙ found)
  where
    either :
        (b : Bool)
        → text_eqb sha other ≡ b
        → (if b then some t else lookup other s.by_sha) ≡ some x
        → Vetted other x
    either true same e =
        subst (Vetted other) (some-injective t x e)
          (subst (λ k. Vetted k t) ((text_eqb_iff sha other).0 same) good)
    either false differ e = h other x e

apply_request-AllVetted :
    (q : Request) (s : ToolRegistry) → AllVetted s → AllVetted (apply_request q s)
unfolding apply_request register retire get
apply_request-AllVetted (registering artifact req now) s h =
    admitted (not (artifact.build_request_id == req.id))
      (lacks_verdict req.risk_tier artifact.ethics_verdict_id) refl
  where
    admitted :
        (differ lacks : Bool)
        → lacks_verdict req.risk_tier artifact.ethics_verdict_id ≡ lacks
        → AllVetted (admit differ lacks artifact req now s).1
    admitted true lacks e = h
    admitted false true e = h
    admitted false false e =
        insert-AllVetted artifact.sha256 (new_tool artifact req now) s (refl, e) h
apply_request-AllVetted (retiring sha now) s h = of_lookup (lookup sha s.by_sha) refl
  where
    of_lookup :
        (o : Option RegisteredTool)
        → lookup sha s.by_sha ≡ o
        → AllVetted (retire_found sha now (found_tool o) s).1
    of_lookup none e = h
    of_lookup (some t) e = insert-AllVetted sha (retired_tool t now) s (h sha t e) h

run_requests-AllVetted :
    (qs : List Request) (s : ToolRegistry) → AllVetted s → AllVetted (run_requests qs s)
unfolding run_requests
run_requests-AllVetted [] s h = h
run_requests-AllVetted (q ∷ qs) s h = run_requests-AllVetted qs _ (apply_request-AllVetted q s h)

-- No request of the list registers an artifact under this hash.
abbrev pub Unregistered : Text → List Request → Type 0
Unregistered sha [] = Unit
Unregistered sha (retiring other now ∷ qs) = Unregistered sha qs
Unregistered sha (registering artifact req now ∷ qs) =
    (text_eqb artifact.sha256 sha ≡ false) × Unregistered sha qs

abbrev pub IsRetired : Text → ToolRegistry → Type 0
IsRetired sha s = (t : RegisteredTool) × (lookup sha s.by_sha ≡ some t) × (t.status ≡ retired)

retire-IsRetired :
    (sha other : Text) (now : Time) (s : ToolRegistry)
    → IsRetired sha s
    → IsRetired sha (apply_request (retiring other now) s)
unfolding apply_request retire get
retire-IsRetired sha other now s h = of_lookup (lookup other s.by_sha)
  where
    of_lookup :
        (o : Option RegisteredTool) → IsRetired sha (retire_found other now (found_tool o) s).1
    of_lookup none = h
    of_lookup (some t) = elim (Bool-cases (text_eqb other sha)) [
      | inl same ↦ (retired_tool t now, lookup-insert other sha _ s.by_sha ∙ rw same refl, refl)
      | inr differ ↦ (h.0, lookup-insert other sha _ s.by_sha ∙ rw differ h.1, h.2)
    ]

register-IsRetired :
    (sha : Text) (artifact : ToolArtifact) (req : BuildRequest) (now : Time) (s : ToolRegistry)
    → text_eqb artifact.sha256 sha ≡ false
    → IsRetired sha s
    → IsRetired sha (apply_request (registering artifact req now) s)
unfolding apply_request register
register-IsRetired sha artifact req now s differ h =
    admitted (not (artifact.build_request_id == req.id))
      (lacks_verdict req.risk_tier artifact.ethics_verdict_id)
  where
    admitted : (wrong lacks : Bool) → IsRetired sha (admit wrong lacks artifact req now s).1
    admitted true lacks = h
    admitted false true = h
    admitted false false = (h.0, lookup-insert artifact.sha256 sha _ s.by_sha ∙ rw differ h.1, h.2)

run_requests-IsRetired :
    (sha : Text) (qs : List Request) (s : ToolRegistry)
    → Unregistered sha qs
    → IsRetired sha s
    → IsRetired sha (run_requests qs s)
unfolding run_requests
run_requests-IsRetired sha [] s u h = h
run_requests-IsRetired sha (retiring other now ∷ qs) s u h =
    run_requests-IsRetired sha qs _ u (retire-IsRetired sha other now s h)
run_requests-IsRetired sha (registering artifact req now ∷ qs) s u h =
    run_requests-IsRetired sha qs _ u.1 (register-IsRetired sha artifact req now s u.0 h)

status_cases : (x : ToolStatus) → (x ≡ registered) ⊎ (x ≡ retired)
status_cases registered = inl refl
status_cases retired = inr refl

module _ {ℓ} {O : Type ℓ} where
  refused : {r : Result O} {x : Exception} {out : O} → r ≡ err x → r ≡ ok out → ⊥
  refused h k = cc

module _ {ℓ} {P O : Type ℓ} (os : Platform P O) (payload : P) where
  -- A retired tool is not invoked any more, whatever else is registered or retired, until an
  -- artifact of the same hash is registered again.
  pub retired_is_not_invoked :
      (sha : Text) (qs : List Request) (s : ToolRegistry)
      → Unregistered sha qs
      → IsRetired sha s
      → invoke os payload sha (run_requests qs s) ≡ err tool_policy_error
  unfolding invoke get
  retired_is_not_invoked sha qs s u h =
      let (t, found, gone) = run_requests-IsRetired sha qs s u h in rw (found, gone) refl

  -- In a registry that grew from the empty one, an invocation that returns ran a tool that is
  -- registered and not retired, that stands under its own hash, and that has an ethics verdict if
  -- its risk is high.
  pub invoked_is_Vetted :
      (sha : Text) (qs : List Request) (out : O)
      → invoke os payload sha (run_requests qs no_tools) ≡ ok out
      → (t : RegisteredTool) × (lookup sha (run_requests qs no_tools).by_sha ≡ some t)
        × (t.status ≡ registered)
        × Vetted sha t
  unfolding invoke get
  invoked_is_Vetted sha qs out returned =
      of_lookup (lookup sha (run_requests qs no_tools).by_sha) refl returned
    where
      vetted : AllVetted (run_requests qs no_tools)
      vetted = run_requests-AllVetted qs no_tools (λ k t e. ground (arith, e))

      of_lookup :
          (o : Option RegisteredTool)
          → lookup sha (run_requests qs no_tools).by_sha ≡ o
          → invoke_found os payload (found_tool o) ≡ ok out
          → (t : RegisteredTool) × (lookup sha (run_requests qs no_tools).by_sha ≡ some t)
            × (t.status ≡ registered)
            × Vetted sha t
      of_lookup none e r = ground (arith, r)
      of_lookup (some t) e r = elim (status_cases t.status) [
        | inl standing ↦ (t, e, standing, vetted sha t e)
        | inr gone ↦
            absurd (refused refl (subst (λ x. unless_retired os payload x t ≡ ok out) gone r))
      ]
