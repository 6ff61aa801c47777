-- ===== src/Accounts/Sessions.antt =====
-- Who a session or an access token lets in, and for how long.
-- Code: apps/api/src/modules/auth
use elonew.Base.{
  ℕ, ◌+◌, ◌*◌, ◌/◌, ltb, ◌≤◌, ◌<◌, String, false, none, some, same, if◌then◌else◌, ◌≡◌, ◌≢◌, refl,
  arith, eq_iff, eq_refl,
}
use elonew.Common.Errors.{ok, err, invalid_access_token}
use elonew.Tickets.Entity.{Role, client, booster, admin}
use elonew.Accounts.AccessToken.{
  Codec, AccessTokenPayload, to_parsed, sign, verify, read_payload, role_of_text, role_text,
  or_invalid, signed_text,
}

-- What the parameters promise of a payload: base64url is undone by its decoder, no part of the token is
-- empty, and the printed payload parses as itself.
pub record IsCodec (c : Codec) (p : AccessTokenPayload) : Type 0 where
  pub decode : (s : String) → c.from_base64url (c.to_base64url s) ≡ s
  pub header : c.header ≢ ""
  pub payload : c.to_base64url (c.print_json p) ≢ ""
  pub digest : c.to_base64url (c.mac (signed_text c.header (c.to_base64url (c.print_json p)))) ≢ ""
  pub parse : c.parse_json (c.print_json p) ≡ some (to_parsed p)

role_round_trip : (r : Role) → role_of_text (role_text r) ≡ some r
unfolding role_of_text
role_round_trip client = refl
role_round_trip booster = refl
role_round_trip admin = refl

read-to_parsed :
    (p : AccessTokenPayload) (now : ℕ)
    → now / 1000 < p.expires_at
    → read_payload now (to_parsed p) ≡ some (p.sub, p.role)
unfolding read_payload
read-to_parsed p now fresh = ground (arith, role_round_trip p.role)

read-expired :
    (p : AccessTokenPayload) (now : ℕ)
    → p.expires_at ≤ now / 1000
    → read_payload now (to_parsed p) ≡ none
unfolding read_payload
read-expired p now over = ground (arith, role_round_trip p.role)

not_same : {s : String} → s ≢ "" → same s "" ≡ false
not_same {s} ne = ground (arith, eq_iff s "")

abbrev pub issued : ℕ → String → Role → ℕ → AccessTokenPayload
issued ttl user_id role now = record {
  sub = user_id;
  role = role;
  issued_at = now / 1000;
  expires_at = now / 1000 + ttl * 60;
}

verify-sign :
    (c : Codec) (ttl : ℕ) (user_id : String) (role : Role) (now later : ℕ)
    → IsCodec c (issued ttl user_id role now)
    → verify c (sign c ttl user_id role now).token later
      ≡ or_invalid (read_payload later (to_parsed (issued ttl user_id role now)))
unfolding sign verify
verify-sign c ttl user_id role now later h =
    let payload = c.to_base64url (c.print_json (issued ttl user_id role now)) in
    let digest = c.mac (signed_text c.header payload) in
    rw (
      not_same h.header,
      not_same h.payload,
      not_same h.digest,
      h.decode digest,
      eq_refl digest,
      h.decode (c.print_json (issued ttl user_id role now)),
      h.parse,
    )

-- A signed token is accepted, as that of its user and role, until the second in which it expires, and
-- refused from then on. The decoders undo the encoders, and no encoded part is empty.
pub sign_round_trip :
    (c : Codec) (ttl : ℕ) (user_id : String) (role : Role) (now later : ℕ)
    → IsCodec c (issued ttl user_id role now)
    → verify c (sign c ttl user_id role now).token later ≡ (
        if ltb (later / 1000) (now / 1000 + ttl * 60)
        then ok (user_id, role)
        else err invalid_access_token)
sign_round_trip c ttl user_id role now later h =
    let p = issued ttl user_id role now in
    rw (verify-sign c ttl user_id role now later h)
      (ground (arith, read-to_parsed p later, read-expired p later))
