-- ===== src/Store/Env.antt =====
-- What the handlers take from outside the repository: Python's text methods, pgcrypto, HMAC, SHA-256,
-- base64, PyJWT and pyotp, with the service's secrets. Each is a function of the model's parameter
-- `Env`; what a theorem relies on is stated as a hypothesis of that theorem.
use rustdesk_managed_directo.Common.{ℕ, String, Bool, Option}
use rustdesk_managed_directo.Store.{Role, Scope}

-- The claims of a device credential, after `uuid.UUID` has read the ids.
pub record DeviceClaims : Type 0 where
  pub sub : ℕ
  pub serial : ℕ
  pub rustdesk_id : String
  pub pkh : String
  pub instance_id : ℕ
  pub kind : String
  pub iat : ℕ
  pub exp : Option ℕ

-- The claims of an operator's access token.
pub record AccessClaims : Type 0 where
  pub sub : ℕ
  pub sid : ℕ
  pub role : Role
  pub scope : Scope
  pub kind : String
  pub iat : ℕ
  pub exp : ℕ
  pub jti : ℕ

pub record Env : Type 0 where
  -- str.strip()
  pub strip : String → String
  -- LOWER(BTRIM(text)) of PostgreSQL, and LOWER(text)
  pub lower_btrim : String → String
  pub lower : String → String
  -- hmac.new(key, message, sha256).digest() and sha256(bytes).hexdigest()
  pub hmac_sha256 : String → String → String
  pub sha256 : String → String
  -- base64.b64decode("".join(value.split()), validate=True), and the length of its bytes
  pub b64decode : String → Option String
  pub byte_length : String → ℕ
  -- crypt(password, hash) = hash
  pub crypt_matches : String → String → Bool
  -- crypt(password, gen_salt('bf', 12)), with the salt that is drawn
  pub crypt : String → String → String
  -- base64.b32encode(digest).decode().rstrip("=")
  pub b32encode : String → String
  -- digest[:20]
  pub first_20 : String → String
  -- CONTACT_EMAIL_RE.fullmatch(text)
  pub email_regex : String → Bool
  -- jwt.encode and jwt.decode under DEVICE_SECRET and TOKEN_SECRET; decode has the current time
  pub encode_device : DeviceClaims → String
  pub decode_device : String → ℕ → Option DeviceClaims
  pub encode_access : AccessClaims → String
  pub decode_access : String → ℕ → Option AccessClaims
  -- pyotp.TOTP(secret).verify(code, valid_window=1) at a time
  pub totp_verify : String → String → ℕ → Bool
  -- `cf_revoke`, an HTTP call: whether Cloudflare revoked the certificate
  pub cf_revoke : String → Bool
  -- str(ipaddress.ip_address(text))
  pub parse_ip : String → Option String
  -- int(text)
  pub parse_int : String → Option ℕ
  pub device_secret : String
  pub token_secret : String
  pub totp_key : String
