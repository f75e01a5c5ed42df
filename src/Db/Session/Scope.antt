-- ===== src/Db/Session/Scope.antt =====
-- What a `session_scope` of aae/db/session.py leaves in the database.
use self_spawn_agents.Prelude.{◌≡◌, refl, ◌∙◌, Result, ok, err, Action, Exception}
use self_spawn_agents.Db.Session.{
  SessionMethods, session_scope, closing, end_block, commit_after, roll_back, with_session,
  end_plain, commit_last,
}

module _ {C D : Type 0} (committed working : C → D) where
  -- What SQLAlchemy's documentation says of the methods of a session: a commit that returns makes
  -- the session's work permanent, one that raises does not; a rollback and a close write nothing,
  -- and a close returns.
  pub record IsTransactional (session : SessionMethods C) : Type 0 where
    pub commits :
        (c : C) → (session.commit c).0 ≡ ok tt → committed (session.commit c).1 ≡ working c
    pub commit_fails :
        (c : C) (x : Exception)
        → (session.commit c).0 ≡ err x
        → committed (session.commit c).1 ≡ committed c
    pub rollback_writes_nothing : (c : C) → committed (session.rollback c).1 ≡ committed c
    pub close_returns : (c : C) → (session.close c).0 ≡ ok tt
    pub close_writes_nothing : (c : C) → committed (session.close c).1 ≡ committed c

  -- All of the block's work, if the scope returns; nothing, if it raises.
  abbrev pub AllOrNothing : {A : Type 0} → C → Result A × C → Result A × C → Type 0
  AllOrNothing c (r, c1) (ok a, c') = (r ≡ ok a) × (committed c' ≡ working c1)
  AllOrNothing c (r, c1) (err x, c') = committed c' ≡ committed c

  module _ {A : Type 0} (session : SessionMethods C) (t : IsTransactional session) where
    rolled_back :
        (x : Exception) (c c0 : C) (q : Result A × C)
        → committed c ≡ committed c0
        → AllOrNothing c0 q (roll_back session {A = A} x c)
    rolled_back x c c0 q same = after (session.rollback c) (t.rollback_writes_nothing c ∙ same)
      where
        after :
            (p : Result (Unit {0}) × C)
            → committed p.1 ≡ committed c0
            → AllOrNothing c0 q
                (elim p.0 [ ok _ ↦ let r : Result A = err x in r | err y ↦ err y ], p.1)
        after (ok _, c') h = h
        after (err y, c') h = h

    block_ends :
        (c0 : C) (q : Result A × C)
        → committed q.1 ≡ committed c0
        → AllOrNothing c0 q (end_block session q)
    block_ends c0 (err x, c) same = rolled_back x c c0 (err x, c) same
    block_ends c0 (ok a, c) same = committing (session.commit c) (t.commits c) (t.commit_fails c)
      where
        committing :
            (p : Result (Unit {0}) × C)
            → (p.0 ≡ ok tt → committed p.1 ≡ working c)
            → ((x : Exception) → p.0 ≡ err x → committed p.1 ≡ committed c)
            → AllOrNothing c0 (ok a, c) (commit_after session a p)
        committing (ok _, c') done failed = (refl, done refl)
        committing (err x, c') done failed = rolled_back x c' c0 (ok a, c) (failed x refl ∙ same)

    closed :
        (c0 : C) (q p : Result A × C) → AllOrNothing c0 q p → AllOrNothing c0 q (closing session p)
    closed c0 q (ok a, c) h = rw (t.close_returns c, t.close_writes_nothing c) h
    closed c0 q (err x, c) h = rw (t.close_returns c, t.close_writes_nothing c) h

    plain_ends :
        (c0 : C) (q : Result A × C)
        → committed q.1 ≡ committed c0
        → AllOrNothing c0 q (end_plain session q)
    plain_ends c0 (err x, c) same = same
    plain_ends c0 (ok a, c) same = committing (session.commit c) (t.commits c) (t.commit_fails c)
      where
        committing :
            (p : Result (Unit {0}) × C)
            → (p.0 ≡ ok tt → committed p.1 ≡ working c)
            → ((x : Exception) → p.0 ≡ err x → committed p.1 ≡ committed c)
            → AllOrNothing c0 (ok a, c) (commit_last session a p)
        committing (ok _, c') done failed = (refl, done refl)
        committing (err x, c') done failed = failed x refl ∙ same

    -- For a session whose commit, rollback and close do what SQLAlchemy documents, and a block
    -- that does not commit by itself: session_scope, and a block with a commit at its end, returns
    -- only what the block returned, with all its work in the database, and leaves the database as
    -- it was whenever it raises.
    pub session_scope-AllOrNothing :
        (body : Action C A) (c : C)
        → committed (body c).1 ≡ committed c
        → AllOrNothing c (body c) (session_scope session body c)
          × AllOrNothing c (body c) (with_session session body c)
    unfolding session_scope with_session
    session_scope-AllOrNothing body c uncommitted = (
      closed c (body c) _ (block_ends c (body c) uncommitted),
      closed c (body c) _ (plain_ends c (body c) uncommitted),
    )
