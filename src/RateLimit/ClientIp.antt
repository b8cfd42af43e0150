-- ===== src/RateLimit/ClientIp.antt =====
-- `RateLimiterInner::resolve_client_ip` of crates/http-api/src/rate_limit.rs.
pub mod Laws
use explorer_backend.Base.{
  Bool, Eq, List, Option, Text, [], any, codes, if◌then◌else◌, none, reverse, some, split_at, trim,
  ◌∷◌,
}

module _ {Ip : Type 0} ⦃ip_key : Eq Ip⦄ (parse_ip : Text → Option Ip) (trusted : List Ip) where
  -- `self.trusted_proxies.contains(&ip)`
  unfoldable pub is_trusted : Ip → Bool
  is_trusted ip = any (λ proxy. ip_key.beq proxy ip) trusted

  unfoldable pub untrusted : Option Ip → Option Ip
  untrusted none = none
  untrusted (some ip) = if is_trusted ip then none else some ip

  -- The loop over `forwarded.rsplit(',')`, on the hops from the right.
  scan_hops : Ip → List Text → Ip
  scan_hops peer [] = peer
  scan_hops peer (hop ∷ hops) =
      let rest = scan_hops peer hops in
      elim (untrusted (parse_ip (trim hop))) [ some ip ↦ ip | none ↦ rest ]

  -- `headers.get("x-forwarded-for").and_then(|value| value.to_str().ok())`
  forwarded_ip : Ip → Option Text → Ip
  forwarded_ip peer none = peer
  forwarded_ip peer (some forwarded) = scan_hops peer (reverse (split_at b',' forwarded))

  unfoldable pub resolve_client_ip : Ip → (Text → Option Text) → Ip
  unfolding is_trusted untrusted scan_hops forwarded_ip
  resolve_client_ip peer header =
      if is_trusted peer then forwarded_ip peer (header (codes "x-forwarded-for")) else peer
