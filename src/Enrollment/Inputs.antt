-- ===== src/Enrollment/Inputs.antt =====
-- main.py `normalize_contact_email` and `decode_device_public_key`.
use Prim.Native.Char.{code}
use rustdesk_managed_directo.Common.{
  ℕ, suc, String, not, ◌||◌, Option, none, some, ◌==◌, str_eq, ltb, if◌then◌else◌,
}
use rustdesk_managed_directo.Http.{http, Tx, pure, raise, raise_if, ◌>>◌}
use rustdesk_managed_directo.Store.{Db}
use rustdesk_managed_directo.Store.Env.{Env}

-- len(text)
unfoldable pub text_length : String → ℕ
text_length String.[] = 0
text_length (String.◌∷◌ c s) = suc (text_length s)

-- text.count("@")
unfoldable pub count_at : String → ℕ
count_at String.[] = 0
count_at (String.◌∷◌ c s) = let rest = count_at s in if code c == b'@' then suc rest else rest

-- The length of the text before the first "@", and of the text behind it.
unfoldable pub local_length : String → ℕ
local_length String.[] = 0
local_length (String.◌∷◌ c s) =
    let rest = suc (local_length s) in if code c == b'@' then 0 else rest

unfoldable pub domain_length : String → ℕ
unfolding text_length
domain_length String.[] = 0
domain_length (String.◌∷◌ c s) =
    let rest = domain_length s in if code c == b'@' then text_length s else rest

pub check_email : Env → String → Tx Db (Option String)
check_email env text = do
  raise_if (ltb 320 (text_length text)) (http 422 "Email address must be 320 characters or fewer")
  raise_if (not (count_at text == 1)) (http 422 "Email address format is invalid")
  raise_if
      (ltb 64 (local_length text) || ltb 255 (domain_length text) || not (env.email_regex text))
      (http 422 "Email address format is invalid")
  pure (some text)

unfoldable pub normalize_contact_email : Env → Option String → Tx Db (Option String)
unfolding check_email
normalize_contact_email env none = pure none
normalize_contact_email env (some value) =
    if str_eq (env.strip value) "" then pure none else check_email env (env.strip value)

pub decoded : Env → Option String → Tx Db String
decoded env none = raise (http 422 "device_public_key must be valid base64")
decoded env (some bytes) =
    if ltb (env.byte_length bytes) 32 || ltb 4096 (env.byte_length bytes)
    then raise (http 422 "Decoded device public key length is invalid")
    else pure bytes

unfoldable pub decode_device_public_key : Env → String → Tx Db String
unfolding decoded
decode_device_public_key env value = decoded env (env.b64decode value)
