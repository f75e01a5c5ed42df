-- ===== src/Tools/Domains.antt =====
-- Which hosts the URL guard lets through.
use self_spawn_agents.Prelude.{
  ℕ, ◌≡◌, ◌↔◌, ◌⊎◌, inl, inr, refl, ap, true, Option, List, [], ◌∷◌, ◌++◌, ok, Text, text_eqb,
  text_eqb_iff, any, arith, Bool-cases,
}
use self_spawn_agents.Tools.{ends_with, in_domain, enforce_host, enforce_domain, host_or}

empty_tail : (p s : Text) → [] ≡ p ++ s → [] ≡ s
empty_tail [] s h = h
empty_tail (c ∷ p) s h = ground (arith, h)

ends_at :
    (s : Text) (c : ℕ) (t p : Text) → c ∷ t ≡ p ++ s → (c ∷ t ≡ s) ⊎ ((q : Text) × (t ≡ q ++ s))
ends_at s c t [] h = inl h
ends_at s c t (d ∷ p) h = inr (p, ground (arith, h))

ends_with_iff : (s t : Text) → (ends_with s t ≡ true) ↔ ((p : Text) × (t ≡ p ++ s))
ends_with_iff s [] =
    (λ h. ([], (text_eqb_iff [] s).0 h), λ h. (text_eqb_iff [] s).1 (empty_tail h.0 s h.1))
ends_with_iff s (c ∷ t) = (
  λ h. elim (Bool-cases (text_eqb (c ∷ t) s)) [
    | inl whole ↦ ([], (text_eqb_iff (c ∷ t) s).0 whole)
    | inr part ↦
        let (p, e) = (ends_with_iff s t).0 (ground (arith, h, part)) in (c ∷ p, ap (λ x. c ∷ x) e)
  ],
  λ h. elim (ends_at s c t h.0 h.1) [
    | inl whole ↦ rw ((text_eqb_iff (c ∷ t) s).1 whole) refl
    | inr part ↦ let tail = (ends_with_iff s t).1 part in ground (arith, tail)
  ],
)

-- The host is an allowed domain or a subdomain of one.
abbrev pub AllowedHost : Text → List Text → Type 0
AllowedHost host [] = ⊥
AllowedHost host (d ∷ ds) = ((host ≡ d) ⊎ ((p : Text) × (host ≡ p ++ 46 ∷ d))) ⊎ AllowedHost host ds

allowed_iff :
    (host : Text) (ds : List Text) → (any (in_domain host) ds ≡ true) ↔ AllowedHost host ds
allowed_iff host [] = ground arith
allowed_iff host (d ∷ ds) =
    ground (arith, text_eqb_iff host d, ends_with_iff (46 ∷ d) host, allowed_iff host ds)

-- The guard lets a URL through exactly if it has no host, or its host is one of the allowed
-- domains or a subdomain of one.
enforce_domain_iff :
    (hostname : Text → Option Text) (url : Text) (allowed : List Text)
    → (enforce_domain hostname url allowed ≡ ok tt)
      ↔ ((host_or (hostname url) ≡ []) ⊎ AllowedHost (host_or (hostname url)) allowed)
unfolding enforce_domain enforce_host
enforce_domain_iff hostname url allowed =
    ground (
      arith,
      text_eqb_iff (host_or (hostname url)) [],
      allowed_iff (host_or (hostname url)) allowed,
    )
