-- ===== src/Accounts/AccessToken.antt =====
-- apps/api/src/modules/auth/infrastructure/security/hmac-access-token.service.ts. The digest, base64url
-- and JSON are parameters; a token is the list of its parts between the dots, which `split('.')` gives,
-- and a digest is a text of its bytes.
use Prim.Native.String.{◌++◌}
use elonew.Base.{
  ℕ, ◌+◌, ◌*◌, ◌/◌, String, not, ◌||◌, List, [], ◌∷◌, Option, none, some, same, if◌then◌else◌, leb,
}
use elonew.Common.Errors.{Result, ok, err, invalid_access_token}
use elonew.Tickets.Entity.{Role, client, booster, admin}

pub record AccessTokenPayload : Type 0 where
  pub sub : String
  pub role : Role
  pub issued_at : ℕ
  pub expires_at : ℕ

-- `Partial<AccessTokenPayload>`, as it is parsed: a field of another type is `none`.
pub record ParsedPayload : Type 0 where
  pub sub : Option String
  pub role : Option String
  pub issued_at : Option ℕ
  pub expires_at : Option ℕ

-- The values of the enum.
abbrev pub role_text : Role → String
role_text client = "CLIENT"
role_text booster = "BOOSTER"
role_text admin = "ADMIN"

-- `Object.values(Role).includes(payload.role)`
unfoldable pub role_of_text : String → Option Role
role_of_text t =
    if same t "CLIENT"
    then some client
    else (if same t "BOOSTER" then some booster else (if same t "ADMIN" then some admin else none))

-- What the service calls: the HMAC under the secret, the texts of base64url, and JSON.
pub record Codec : Type 0 where
  pub mac : String → String
  pub to_base64url : String → String
  pub from_base64url : String → String
  pub print_json : AccessTokenPayload → String
  pub parse_json : String → Option ParsedPayload
  -- the encoded header, which is always the same
  pub header : String

pub record SignedToken : Type 0 where
  pub token : List String
  pub expires_in_seconds : ℕ

abbrev pub to_parsed : AccessTokenPayload → ParsedPayload
to_parsed p = record {
  sub = some p.sub;
  role = some (role_text p.role);
  issued_at = some p.issued_at;
  expires_at = some p.expires_at;
}

abbrev pub signed_text : String → String → String
signed_text header payload = header ++ ("." ++ payload)

-- `sign`, at a time in milliseconds.
unfoldable pub sign : Codec → ℕ → String → Role → ℕ → SignedToken
sign c ttl_minutes user_id role now =
    let issued_at = now / 1000 in
    let expires_in_seconds = ttl_minutes * 60 in
    let payload = c.to_base64url (
      c.print_json (record {
        sub = user_id;
        role = role;
        issued_at = issued_at;
        expires_at = issued_at + expires_in_seconds;
      })) in
    record {
      token = c.header ∷ payload ∷ c.to_base64url (c.mac (signed_text c.header payload)) ∷ [];
      expires_in_seconds = expires_in_seconds;
    }

-- The subject of a payload that holds all four fields and has not expired.
unfoldable pub read_payload : ℕ → ParsedPayload → Option (String × Role)
read_payload now p = do
  sub ← p.sub
  role ← p.role >>= role_of_text
  expires_at ← p.expires_at
  issued_at ← p.issued_at
  if leb expires_at (now / 1000) then none else some (sub, role)
  where
    infixl 5 ◌>>=◌
    ◌>>=◌ : {A B : Type 0} → Option A → (A → Option B) → Option B
    none >>= f = none
    some a >>= f = f a

abbrev pub or_invalid {ℓ} : {A : Type ℓ} → Option A → Result A
or_invalid none = err invalid_access_token
or_invalid (some a) = ok a

abbrev pub parsed_subject : ℕ → Option ParsedPayload → Option (String × Role)
parsed_subject now none = none
parsed_subject now (some p) = read_payload now p

-- `verify`
unfoldable pub verify : Codec → List String → ℕ → Result (String × Role)
verify c (header ∷ payload ∷ signature ∷ []) now =
    if same header "" || same payload "" || same signature ""
    then err invalid_access_token
    else (if not (same (c.mac (signed_text header payload)) (c.from_base64url signature))
        then err invalid_access_token
        else or_invalid (parsed_subject now (c.parse_json (c.from_base64url payload))))
verify c [] now = err invalid_access_token
verify c (a ∷ []) now = err invalid_access_token
verify c (a ∷ b ∷ []) now = err invalid_access_token
verify c (a ∷ b ∷ d ∷ e ∷ rest) now = err invalid_access_token
