-- ===== src/Channels/Health.antt =====
-- aae/channels/health.py: the six-hourly check of every channel, and the rows it leaves.
use self_spawn_agents.Prelude.{ℕ, Bool, List, [], ◌∷◌, ◌++◌, Text, length}
use self_spawn_agents.Schemas.Common.{Uuid, Time, World}
use self_spawn_agents.Channels.{
  Wire, Request, Reply, done, http_failed, raised, Operation, ChannelStatus,
}
use self_spawn_agents.Channels.Stripe.{StripeConnectClient, stripe_health}
use self_spawn_agents.Channels.Payments.{
  PolarClient, LemonSqueezyClient, polar_health, lemonsqueezy_health,
}
use self_spawn_agents.Channels.Hosting.{VercelClient, NetlifyClient, vercel_health, netlify_health}
use self_spawn_agents.Channels.Domains.{
  CloudflareClient, PorkbunClient, cloudflare_health, porkbun_health,
}

-- The subclasses of `BaseChannelClient`.
pub data ChannelClient : Type 0 where
  stripe : StripeConnectClient → ChannelClient
  polar : PolarClient → ChannelClient
  lemonsqueezy : LemonSqueezyClient → ChannelClient
  vercel : VercelClient → ChannelClient
  netlify : NetlifyClient → ChannelClient
  cloudflare : CloudflareClient → ChannelClient
  porkbun : PorkbunClient → ChannelClient

pub record ChannelHealth : Type 0 where
  pub id : Uuid
  pub channel : Text
  pub checked_at : Time
  pub latency_ms : ℕ
  pub ok : Bool
  pub detail : Text

module _ (w : Wire) where
  unfoldable pub health : ChannelClient → Operation ChannelStatus
  health (stripe c) = stripe_health w c
  health (polar c) = polar_health w c
  health (lemonsqueezy c) = lemonsqueezy_health w c
  health (vercel c) = vercel_health w c
  health (netlify c) = netlify_health w c
  health (cloudflare c) = cloudflare_health w c
  health (porkbun c) = porkbun_health w c

  -- An exception ends the loop.
  abbrev pub and_then :
      {A B : Type 0} → Reply A × List Request → (A → Operation B) → Reply B × List Request
  and_then (done a, log) f = f a log
  and_then (http_failed e, log) f = (http_failed e, log)
  and_then (raised x, log) f = (raised x, log)

  abbrev pub add_status : ChannelStatus → List ChannelStatus → Operation (List ChannelStatus)
  add_status s ss log = (done (s ∷ ss), log)

  unfoldable pub check_all : List ChannelClient → Operation (List ChannelStatus)
  check_all [] log = (done [], log)
  check_all (c ∷ cs) log =
      and_then (health c log) (λ s log'. and_then (check_all cs log') (add_status s))

  abbrev pub health_row : World → Time → ℕ → ChannelStatus → ChannelHealth
  health_row world now n s = record {
    id = world.uuid4 n;
    channel = s.name;
    checked_at = now;
    latency_ms = s.latency_ms;
    ok = s.ok;
    detail = s.detail;
  }

  -- The rows of the table before and after, with the time that `persist` reads first.
  unfoldable pub persist :
      World → Time → List ChannelStatus → List ChannelHealth → List ChannelHealth
  persist world now [] rows = rows
  persist world now (s ∷ ss) rows =
      persist world now ss (rows ++ health_row world now (length rows) s ∷ [])

  abbrev pub persist_reply :
      World → Time → Reply (List ChannelStatus) → List ChannelHealth → List ChannelHealth
  persist_reply world now (done ss) rows = persist world now ss rows
  persist_reply world now (http_failed e) rows = rows
  persist_reply world now (raised x) rows = rows

  unfoldable pub run_health_cycle :
      World
      → Time
      → List ChannelClient
      → List Request
      → List ChannelHealth
      → Reply (List ChannelStatus) × List Request × List ChannelHealth
  run_health_cycle world now clients log rows =
      let (r, log') = check_all clients log in (r, log', persist_reply world now r rows)
