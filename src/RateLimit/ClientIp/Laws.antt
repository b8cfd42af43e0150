-- ===== src/RateLimit/ClientIp/Laws.antt =====
-- What `resolve_client_ip` of crates/http-api/src/rate_limit.rs takes from `X-Forwarded-For`.
use mathlib.Core.List.{reverse-cons, reverse-append}
use explorer_backend.Base.{
  Bool, Bool-cases, Eq, List, Option, Text, [], ap, arith, codes, cons_to_first, false,
  if◌then◌else◌, inl, inr, none, refl, reverse, some, split_at, trim, true, ℕ, ◌++◌, ◌==◌, ◌||◌,
  ◌∙◌, ◌∷◌, ◌≡◌, ◌≢◌, ◌⊎◌,
}
use explorer_backend.RateLimit.ClientIp.{
  forwarded_ip, is_trusted, resolve_client_ip, scan_hops, untrusted,
}

split_at-cons_to_first :
    (c : ℕ) (ps qs : List Text) → ps ≢ [] → cons_to_first c (ps ++ qs) ≡ cons_to_first c ps ++ qs
unfolding cons_to_first
split_at-cons_to_first c [] qs h = absurd (h refl)
split_at-cons_to_first c (p ∷ ps) qs h = refl

split_at-ne-nil : (sep : ℕ) (s : Text) → split_at sep s ≢ []
unfolding split_at cons_to_first
split_at-ne-nil sep [] = cc
split_at-ne-nil sep (c ∷ s) = ground (arith, split_at-ne-nil sep s)

-- Joining two texts by the separator joins their parts.
split_at-append :
    (sep : ℕ) (s t : Text) → split_at sep (s ++ sep ∷ t) ≡ split_at sep s ++ split_at sep t
unfolding split_at
split_at-append sep [] t = ground arith
split_at-append sep (c ∷ s) t = elim (Bool-cases (c == sep)) [
  | inl hit ↦ rw hit (ap (◌∷◌ []) (split_at-append sep s t))
  | inr miss ↦
      rw (miss, split_at-append sep s t)
        (split_at-cons_to_first c (split_at sep s) (split_at sep t) (split_at-ne-nil sep s))
]

module _ {Ip : Type 0} ⦃ip_key : Eq Ip⦄ (parse_ip : Text → Option Ip) (trusted : List Ip) where
  -- Some hop parses, and is no trusted proxy.
  unfoldable pub names_client : List Text → Bool
  names_client [] = false
  names_client (hop ∷ hops) = elim (untrusted parse_ip trusted (parse_ip (trim hop))) [
    | some ip ↦ true
    | none ↦ names_client hops
  ]

  names_client-append :
      (xs ys : List Text) → names_client (xs ++ ys) ≡ (names_client xs || names_client ys)
  unfolding names_client
  names_client-append [] ys = refl
  names_client-append (x ∷ xs) ys = ground (arith, names_client-append xs ys)

  names_client-reverse : (xs : List Text) → names_client (reverse xs) ≡ names_client xs
  unfolding names_client
  names_client-reverse [] = refl
  names_client-reverse (x ∷ xs) =
      rw (reverse-cons x xs, names_client-append (reverse xs) (x ∷ []), names_client-reverse xs)
        (ground arith)

  -- The scan stops at the first hop that names a client.
  scan_hops-append :
      (peer : Ip) (xs ys : List Text)
      → names_client xs ≡ true
      → scan_hops parse_ip trusted peer (xs ++ ys) ≡ scan_hops parse_ip trusted peer xs
  unfolding names_client scan_hops
  scan_hops-append peer [] ys h = cc
  scan_hops-append peer (x ∷ xs) ys h = ground (arith, scan_hops-append peer xs ys)

  scan_hops-result :
      (peer : Ip) (hops : List Text)
      → (scan_hops parse_ip trusted peer hops ≡ peer)
        ⊎ (is_trusted parse_ip trusted (scan_hops parse_ip trusted peer hops) ≡ false)
  unfolding scan_hops untrusted
  scan_hops-result peer [] = inl refl
  scan_hops-result peer (hop ∷ hops) = ground (arith, scan_hops-result peer hops)

  -- Where the tail of the header, which the trusted proxies wrote, names a client, whatever a client
  -- put before it changes nothing: the resolved address is the one that the tail alone gives.
  pub forged_hops_ignored :
      (peer : Ip) (forged tail : Text) (header clean : Text → Option Text)
      → header (codes "x-forwarded-for") ≡ some (forged ++ b',' ∷ tail)
      → clean (codes "x-forwarded-for") ≡ some tail
      → names_client (split_at b',' tail) ≡ true
      → resolve_client_ip parse_ip trusted peer header
        ≡ resolve_client_ip parse_ip trusted peer clean
  unfolding resolve_client_ip forwarded_ip
  forged_hops_ignored peer forged tail header clean h c n =
      let same : scan_hops parse_ip trusted peer (reverse (split_at b',' (forged ++ b',' ∷ tail)))
          ≡ scan_hops parse_ip trusted peer (reverse (split_at b',' tail)) =
        rw
          (
            split_at-append b',' forged tail,
            reverse-append (split_at b',' forged) (split_at b',' tail),
          )
          (scan_hops-append peer (reverse (split_at b',' tail)) _
            (names_client-reverse (split_at b',' tail) ∙ n)) in
      rw (h, c) (ap (λ ip. if is_trusted parse_ip trusted peer then ip else peer) same)

  forwarded_ip-result :
      (peer : Ip) (forwarded : Option Text)
      → (forwarded_ip parse_ip trusted peer forwarded ≡ peer)
        ⊎ (is_trusted parse_ip trusted (forwarded_ip parse_ip trusted peer forwarded) ≡ false)
  unfolding forwarded_ip
  forwarded_ip-result peer none = inl refl
  forwarded_ip-result peer (some forwarded) =
      scan_hops-result peer (reverse (split_at b',' forwarded))

  -- The resolved address is the peer's own, or, behind a trusted peer only, one that is no trusted
  -- proxy.
  pub resolve_client_ip_result :
      (peer : Ip) (header : Text → Option Text)
      → (resolve_client_ip parse_ip trusted peer header ≡ peer)
        ⊎ ((is_trusted parse_ip trusted peer ≡ true)
            × (is_trusted parse_ip trusted (resolve_client_ip parse_ip trusted peer header)
                ≡ false))
  unfolding resolve_client_ip
  resolve_client_ip_result peer header = elim (Bool-cases (is_trusted parse_ip trusted peer)) [
    | inl proxied ↦ rw proxied (elim (forwarded_ip-result peer (header (codes "x-forwarded-for"))) [
      | inl own ↦ inl own
      | inr client ↦ inr (refl, client)
    ])
    | inr direct ↦ inl (rw direct)
  ]
