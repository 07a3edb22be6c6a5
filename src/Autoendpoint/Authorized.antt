-- ===== src/Autoendpoint/Authorized.antt =====
-- What a sender has shown when it may send to an endpoint (autoendpoint/src/extractors/subscription.rs).
use autopush_rs.Prelude.{
  ℕ, ◌*◌, ◌≤◌, ◌≡◌, ◌∙◌, refl, sym, ap, subst, arith, false, Option, none, some, Text, length, take,
  drop, add64, text_eq→eq, ltb,
}
use autopush_rs.Services.{Result, ok, err, User}
use autopush_rs.Autoendpoint.{
  ApiError, Autoendpoint, VapidClaims, JwtError, json_data, json_other, other, database, db_as,
  and_then_handler-eq-ok, db_as-eq-ok,
}
use autopush_rs.Autoendpoint.Users.{RouterType, validate_user}
use autopush_rs.Autoendpoint.Subscription.{
  ApiVersion, v1, v2, TokenInfo, Request, VapidHeaderWithKey, Subscription, token_info,
  repad_base64, version_1_validation, same_hash, same_key, check_key, version_2_validation,
  version_validation, check_audience, check_claims, check_token, validate_vapid_jwt, validate_vapid,
  decode_public_key, decrypted, existing, subscribed, subscription, vapid_with_key, parse_vapid,
}

module _ (a : Autoendpoint) where
  -- The key of the sender is the one whose digest the token has.
  abbrev pub IsOwner : Text → VapidHeaderWithKey → Type 0
  IsOwner token v =
      (key : Text) × (decode_public_key a v.public_key ≡ ok key)
      × (a.sha256 key ≡ some (drop 32 token))

  -- What each version of the endpoint asks of the token and of the sender.
  abbrev pub IsBound : ApiVersion → Text → Option VapidHeaderWithKey → Type 0
  IsBound v1 token vapid = length token ≡ 32
  IsBound v2 token vapid =
      (length token ≡ 64) × (v : VapidHeaderWithKey) × (vapid ≡ some v) × IsOwner token v

  -- Claims that are signed with the key, that end within a day of the time, and that are for this service.
  abbrev pub IsSigned : a.World → Option VapidHeaderWithKey → Type 0
  IsSigned w none = Unit
  IsSigned w (some v) =
      (key : Text) × (claims : VapidClaims) × (decode_public_key a v.public_key ≡ ok key)
      × (a.decode_jwt v.vapid.token key ≡ ok claims)
      × (claims.exp ≤ add64 (a.sec_since_epoch w) (60 * 60 * 24))
      × (a.parse_url claims.aud ≡ some a.endpoint_url)

  same_hash-eq : (t : Text) (o : Option Text) → same_hash a t o ≡ ok tt → o ≡ some t
  same_hash-eq t none h = absurd (ground arith)
  same_hash-eq t (some hash) h = ap some (text_eq→eq hash t (ground arith))

  same_key-IsOwner :
      (token : Text) (v : VapidHeaderWithKey) (r : Result ApiError Text)
      → decode_public_key a v.public_key ≡ r
      → same_key a (drop 32 token) r ≡ ok tt
      → IsOwner token v
  same_key-IsOwner token v (ok key) e h = (key, e, same_hash-eq (drop 32 token) (a.sha256 key) h)
  same_key-IsOwner token v (err x) e h = absurd (ground (arith, h))

  check_key-IsOwner :
      (token : Text) (vapid : Option VapidHeaderWithKey)
      → check_key a token vapid ≡ ok tt
      → (v : VapidHeaderWithKey) × (vapid ≡ some v) × IsOwner token v
  check_key-IsOwner token none h = absurd (ground (arith, h))
  check_key-IsOwner token (some v) h =
      (v, refl, same_key-IsOwner token v (decode_public_key a v.public_key) refl h)

  version_validation-IsBound :
      (version : ApiVersion) (token : Text) (vapid : Option VapidHeaderWithKey)
      → version_validation a version token vapid ≡ ok tt
      → IsBound version token vapid
  unfolding version_validation version_1_validation version_2_validation
  version_validation-IsBound v1 token vapid h = ground (arith, h)
  version_validation-IsBound v2 token vapid h =
      let n : length token ≡ 64 = ground (arith, h) in
      let (v, e, owner) = check_key-IsOwner token vapid (ground (arith, h, n)) in (n, v, e, owner)

  check_audience-eq : (o : Option Text) → check_audience a o ≡ ok tt → o ≡ some a.endpoint_url
  check_audience-eq none h = absurd (ground (arith, h))
  check_audience-eq (some aud) h = ap some (sym (text_eq→eq a.endpoint_url aud (ground (arith, h))))

  check_claims-ok :
      (now : ℕ) (r : Result JwtError VapidClaims)
      → check_claims a now r ≡ ok tt
      → (claims : VapidClaims) × (r ≡ ok claims)
        × (claims.exp ≤ add64 now (60 * 60 * 24))
        × (a.parse_url claims.aud ≡ some a.endpoint_url)
  unfolding check_claims
  check_claims-ok now (err json_data) h = absurd (ground (arith, h))
  check_claims-ok now (err (json_other e)) h = absurd (ground (arith, h))
  check_claims-ok now (err other) h = absurd (ground (arith, h))
  check_claims-ok now (ok claims) h =
      let soon : ltb (add64 now (60 * 60 * 24)) claims.exp ≡ false = ground (arith, h) in
      (
        claims,
        refl,
        ground (arith, soon),
        check_audience-eq (a.parse_url claims.aud) (ground (arith, h, soon)),
      )

  check_token-IsSigned :
      (v : VapidHeaderWithKey) (w : a.World) (r : Result ApiError Text)
      → decode_public_key a v.public_key ≡ r
      → check_token a v.vapid.token (a.sec_since_epoch w) r ≡ ok tt
      → IsSigned w (some v)
  check_token-IsSigned v w (ok key) e h =
      let (claims, ec, soon, aud) =
        check_claims-ok (a.sec_since_epoch w) (a.decode_jwt v.vapid.token key) h in
      (key, claims, e, ec, soon, aud)
  check_token-IsSigned v w (err x) e h = absurd (ground (arith, h))

  validate_vapid-IsSigned :
      (vapid : Option VapidHeaderWithKey) (w : a.World) {x : Unit {0}} {w' : a.World}
      → validate_vapid a vapid w ≡ (ok x, w')
      → IsSigned w vapid
  unfolding validate_vapid validate_vapid_jwt
  validate_vapid-IsSigned none w h = tt
  validate_vapid-IsSigned (some v) w h =
      check_token-IsSigned v w (decode_public_key a v.public_key) refl (ap (λ p. p.0) h)

  -- The time is read last, and nothing is written.
  validate_vapid-world :
      (vapid : Option VapidHeaderWithKey) (w : a.World) {x : Unit {0}} {w' : a.World}
      → validate_vapid a vapid w ≡ (ok x, w')
      → w ≡ w'
  unfolding validate_vapid
  validate_vapid-world none w h = ap (λ p. p.1) h
  validate_vapid-world (some v) w h = ap (λ p. p.1) h

  -- The user of the token, as the database has it, which passes the validation for the channel: the
  -- two calls lead from the one world to the other.
  abbrev pub IsFound : Text → Subscription → a.World → a.World → Type 0
  IsFound token sub w w' =
      (w1 : a.World) × (router_type : RouterType) × (sub.channel_id
        ≡ a.from_slice (take 16 (drop 16 token)))
      × (a.db.get_user (a.from_slice (take 16 token)) w ≡ (ok (some sub.user), w1))
      × (validate_user a sub.user sub.channel_id w1 ≡ (ok router_type, w'))

  existing-eq : (o : Option User) {user : User} → existing a o ≡ ok user → o ≡ some user
  existing-eq none h = absurd (ground (arith, h))
  existing-eq (some user) h = ground (arith, h)

  decrypted-eq : (o : Option Text) {token : Text} → decrypted a o ≡ ok token → o ≡ some token
  decrypted-eq none h = absurd (ground (arith, h))
  decrypted-eq (some token) h = ground (arith, h)

  ok-fst :
      {A : Type 0} {r q : Result ApiError A} {w w' : a.World}
      → ◌≡◌ {A = Result ApiError A × a.World} (r, w) (q, w')
      → r ≡ q
  ok-fst {A} h = ap (λ (p : Result ApiError A × a.World). p.0) h

  ok-snd :
      {A : Type 0} {r q : Result ApiError A} {w w' : a.World}
      → ◌≡◌ {A = Result ApiError A × a.World} (r, w) (q, w')
      → w ≡ w'
  ok-snd {A} h = ap (λ (p : Result ApiError A × a.World). p.1) h

  pure-eq :
      (x : Subscription) {y : Subscription} {w w' : a.World}
      → ◌≡◌ {A = Result ApiError Subscription × a.World} (ok x, w) (ok y, w')
      → x ≡ y
  pure-eq x h = ground (arith, h)

  subscribed-IsFound :
      (token : Text) (vapid : Option VapidHeaderWithKey) (w : a.World) {sub : Subscription}
      {w' : a.World}
      → subscribed a token vapid w ≡ (ok sub, w')
      → (sub.vapid ≡ vapid) × IsFound token sub w w' × IsSigned w' sub.vapid
  unfolding subscribed
  subscribed-IsFound token vapid w {sub = sub} {w' = w'} h =
      let uaid = a.from_slice (take 16 token) in
      let channel_id = a.from_slice (take 16 (drop 16 token)) in
      let (found, w1, h1, k1) =
        and_then_handler-eq-ok (db_as database (a.db.get_user uaid w)) _ h in
      let (user, w2, h2, k2) = and_then_handler-eq-ok (existing a found, w1) _ k1 in
      let (router_type, w3, h3, k3) =
        and_then_handler-eq-ok (validate_user a user channel_id w2) _ k2 in
      let (_, w4, h4, k4) = and_then_handler-eq-ok (validate_vapid a vapid w3) _ k3 in
      let e : record { user = user; channel_id = channel_id; vapid = vapid } ≡ sub = pure-eq _ k4 in
      let stored =
        db_as-eq-ok database (a.db.get_user uaid w) h1
        ∙ ap (λ o. (ok o, w1)) (existing-eq found (ok-fst h2)) in
      let last = ok-snd k4 in
      let timed = validate_vapid-world vapid w3 h4 in
      let valid =
        ap (validate_user a user channel_id) (ok-snd h2)
        ∙ h3
        ∙ ap (λ (x : a.World). (ok router_type, x)) (timed ∙ last) in
      subst (λ s. (s.vapid ≡ vapid) × IsFound token s w w' × IsSigned w' s.vapid) e
        (
          refl,
          (w1, router_type, refl, stored, valid),
          subst (λ (x : a.World). IsSigned x vapid) (timed ∙ last)
              (validate_vapid-IsSigned vapid w3 h4),
        )

  -- A subscription that is taken from a request: fernet decrypts its token, it has the user and the
  -- channel of that token, and the endpoint's version is satisfied (for version 2 by the key whose
  -- digest is in the token). Two steps lead from the first world to the last one: the read of that
  -- user, which finds it, and its validation for the channel, which passes. A VAPID token, where there
  -- is one, is signed with the sender's key, is for this service, and ends within a day of the time
  -- in the last world.
  pub subscription-IsSigned :
      (req : Request) (w : a.World) {sub : Subscription} {w' : a.World}
      → subscription a req w ≡ (ok sub, w')
      → (info : TokenInfo) × (token : Text) × (token_info req ≡ ok info)
        × (a.decrypt (repad_base64 info.token) ≡ some token)
        × (vapid_with_key info (parse_vapid info) ≡ ok sub.vapid)
        × IsBound info.api_version token sub.vapid
        × IsFound token sub w w'
        × IsSigned w' sub.vapid
  unfolding subscription
  subscription-IsSigned req w {sub = sub} {w' = w'} h =
      let (info, w1, h1, k1) = and_then_handler-eq-ok (token_info req, w) _ h in
      let (token, w2, h2, k2) =
        and_then_handler-eq-ok (decrypted a (a.decrypt (repad_base64 info.token)), w1) _ k1 in
      let (vapid, w3, h3, k3) =
        and_then_handler-eq-ok (vapid_with_key info (parse_vapid info), w2) _ k2 in
      let (_, w4, h4, k4) =
        and_then_handler-eq-ok (version_validation a info.api_version token vapid, w3) _ k3 in
      let (e, found, signed) = subscribed-IsFound token vapid w4 k4 in
      (
        info,
        token,
        ok-fst h1,
        decrypted-eq _ (ok-fst h2),
        ok-fst h3 ∙ ap ok (sym e),
        subst (IsBound info.api_version token) (sym e)
            (version_validation-IsBound info.api_version token vapid (ok-fst h4)),
        subst (λ (x : a.World). IsFound token sub x w')
            (sym (ok-snd h1 ∙ ok-snd h2 ∙ ok-snd h3 ∙ ok-snd h4)) found,
        signed,
      )
