-- ===== src/Channels/Cycle.antt =====
-- What a health cycle does, against the answers of the providers.
use self_spawn_agents.Prelude.{
  ◌≡◌, refl, Bool, true, false, ◌||◌, List, [], ◌∷◌, ◌++◌, map, Text, length, json_error, ◌∙◌, sym,
  ap,
}
use mathlib.Core.List.{append_assoc, append-nil}
use self_spawn_agents.Schemas.Common.{Time, World}
use self_spawn_agents.Channels.{Wire, Request, Reply, done, raised, ChannelStatus}
use self_spawn_agents.Channels.Health.{
  ChannelClient, ChannelHealth, health, and_then, add_status, check_all, health_row, persist,
  persist_reply, run_health_cycle,
}
use self_spawn_agents.Channels.Checks.{
  channel_name, ping, some_break, fine_flags, pinged, Answer, Checked, health-Checked,
}

module _ (w : Wire) where
  -- The reply of the whole loop, by whether some check breaks.
  abbrev Answers :
      List Text
      → List Bool
      → List Request
      → Bool
      → Reply (List ChannelStatus) × List Request
      → Type 0
  Answers names flags log true (r, log') = r ≡ raised json_error
  Answers names flags log false (r, log') =
      (ss : List ChannelStatus) × (r ≡ done ss)
      × (map (λ s. s.name) ss ≡ names)
      × (map (λ s. s.ok) ss ≡ flags)
      × (log' ≡ log)

  add_answer :
      (s : ChannelStatus) (name : Text) (flag : Bool) (names : List Text) (flags : List Bool)
      (log : List Request) (broken : Bool) (p : Reply (List ChannelStatus) × List Request)
      → s.name ≡ name
      → s.ok ≡ flag
      → Answers names flags log broken p
      → Answers (name ∷ names) (flag ∷ flags) log broken (and_then w p (add_status w s))
  add_answer s name flag names flags log true (r, log') n o e = rw e refl
  add_answer s name flag names flags log false (r, log') n o (ss, e, ns, os, l) =
      rw e (s ∷ ss, refl, cc, cc, l)

  after_check :
      (c : ChannelClient) (cs : List ChannelClient) (log : List Request) (fine broken later : Bool)
      (r : Reply ChannelStatus)
      → Answer w (channel_name c) fine broken r
      → Answers
          (map channel_name cs)
          (fine_flags w cs (ping w c ∷ log))
          (pinged w cs (ping w c ∷ log))
          later
          (check_all w cs (ping w c ∷ log))
      → Answers
          (channel_name c ∷ map channel_name cs)
          (fine ∷ fine_flags w cs (ping w c ∷ log))
          (pinged w cs (ping w c ∷ log))
          (broken || later)
          (and_then w
            (r, ping w c ∷ log)
            (λ s log'. and_then w (check_all w cs log') (add_status w s)))
  after_check c cs log fine true later r e rest = rw e refl
  after_check c cs log fine false later r (s, e, n, o) rest =
      rw e (
        add_answer s _ _ (map channel_name cs) (fine_flags w cs (ping w c ∷ log)) _ later _ n o
          rest)

  check_all-Answers :
      (cs : List ChannelClient) (log : List Request)
      → Answers
          (map channel_name cs)
          (fine_flags w cs log)
          (pinged w cs log)
          (some_break w cs log)
          (check_all w cs log)
  unfolding check_all
  check_all-Answers [] log = ([], refl, refl, refl, refl)
  check_all-Answers (c ∷ cs) log =
      with_reply (health w c log) (health-Checked w c log) (check_all-Answers cs (ping w c ∷ log))
    where
      with_reply :
          (p : Reply ChannelStatus × List Request)
          → Checked w c log p
          → Answers
              (map channel_name cs)
              (fine_flags w cs (ping w c ∷ log))
              (pinged w cs (ping w c ∷ log))
              (some_break w cs (ping w c ∷ log))
              (check_all w cs (ping w c ∷ log))
          → Answers
              (map channel_name (c ∷ cs))
              (fine_flags w (c ∷ cs) log)
              (pinged w (c ∷ cs) log)
              (some_break w (c ∷ cs) log)
              (and_then w p (λ s log'. and_then w (check_all w cs log') (add_status w s)))
      with_reply (r, log') (l, a) ih = rw l (after_check c cs log _ _ _ r a ih)

  -- `persist` puts one row for each status behind the others.
  persist_lem :
      (world : World) (now : Time) (ss : List ChannelStatus) (rows : List ChannelHealth)
      → (new : List ChannelHealth) × (persist w world now ss rows ≡ rows ++ new)
        × (map (λ h. h.channel) new ≡ map (λ s. s.name) ss)
        × (map (λ h. h.ok) new ≡ map (λ s. s.ok) ss)
        × (map (λ h. h.detail) new ≡ map (λ s. s.detail) ss)
  unfolding persist
  persist_lem world now [] rows = ([], sym (append-nil rows), refl, refl, refl)
  persist_lem world now (s ∷ ss) rows =
      let row = health_row w world now (length rows) s in
      let (new, e, c, o, d) = persist_lem world now ss (rows ++ row ∷ []) in
      (
        row ∷ new,
        e ∙ append_assoc rows (row ∷ []) new,
        ap (λ t. s.name ∷ t) c,
        ap (λ t. s.ok ∷ t) o,
        ap (λ t. s.detail ∷ t) d,
      )

  -- The end of a cycle: rows for all the channels, or none.
  abbrev pub CycleEnds :
      List ChannelClient
      → List Request
      → List ChannelHealth
      → Bool
      → Reply (List ChannelStatus)
      → List Request
      → List ChannelHealth
      → Type 0
  CycleEnds cs log rows true r log' rows' = (r ≡ raised json_error) × (rows' ≡ rows)
  CycleEnds cs log rows false r log' rows' =
      (ss : List ChannelStatus) × (new : List ChannelHealth) × (r ≡ done ss)
      × (rows' ≡ rows ++ new)
      × (map (λ h. h.channel) new ≡ map channel_name cs)
      × (map (λ h. h.ok) new ≡ fine_flags w cs log)
      × (log' ≡ pinged w cs log)

  cycle_ends :
      (world : World) (now : Time) (cs : List ChannelClient) (log : List Request)
      (rows : List ChannelHealth) (broken : Bool) (p : Reply (List ChannelStatus) × List Request)
      → Answers (map channel_name cs) (fine_flags w cs log) (pinged w cs log) broken p
      → CycleEnds cs log rows broken p.0 p.1 (persist_reply w world now p.0 rows)
  cycle_ends world now cs log rows true (r, log') e = rw e (refl, refl)
  cycle_ends world now cs log rows false (r, log') (ss, e, n, o, l) =
      let (new, k, c, f, d) = persist_lem world now ss rows in
      rw e (ss, new, refl, k, c ∙ n, f ∙ o, l)

  -- For any list of clients and any answers: if some client that reads its answer as JSON gets a
  -- good answer that is not JSON, the health cycle raises and writes no row. Otherwise every
  -- provider is asked exactly once, in order, and the table gains one row for each, with the name
  -- of its channel and ok exactly if the provider answered without an error of httpx.
  pub run_health_cycle-CycleEnds :
      (world : World) (now : Time) (cs : List ChannelClient) (log : List Request)
      (rows : List ChannelHealth)
      → let (r, log', rows') = run_health_cycle w world now cs log rows in
        CycleEnds cs log rows (some_break w cs log) r log' rows'
  unfolding run_health_cycle
  run_health_cycle-CycleEnds world now cs log rows =
      cycle_ends world now cs log rows _ (check_all w cs log) (check_all-Answers cs log)
