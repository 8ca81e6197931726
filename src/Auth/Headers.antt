-- ===== src/Auth/Headers.antt =====
-- What an accepted credential may put into the Authorization header.
use Prim.Native.Char.{Char}
use Prim.Native.String.{String as Text}
use deixic_python.Base.{String, true, false, ◌≡◌, refl, arith, truthy, strip, ok, none}
use deixic_python.Auth.{
  Credential, Identity, is_control, has_control, is_token_char, all_token_chars, is_http_token,
  header_refusal, refusal, check-accepts, check,
}

is_token_char-not_control : (c : Char) → is_token_char c ≡ true → is_control c ≡ false
unfolding is_token_char is_control
is_token_char-not_control c h = ground arith

all_token_chars-not_control : (s : String) → all_token_chars s ≡ true → has_control s ≡ false
unfolding all_token_chars has_control
all_token_chars-not_control Text.[] h = refl
all_token_chars-not_control (Text.◌∷◌ c s) h =
    ground (arith, is_token_char-not_control c, all_token_chars-not_control s)

-- The texts that the header is made of.
pub record IsHeaderSafe (c : Credential) : Type 0 where
  pub token_given : truthy c.access_token ≡ true
  pub token_trimmed : strip c.access_token ≡ c.access_token
  pub token_clean : has_control c.access_token ≡ false
  pub type_given : truthy c.token_type ≡ true
  pub type_clean : has_control c.token_type ≡ false

refusal-IsHeaderSafe : (c : Credential) → header_refusal c ≡ none → IsHeaderSafe c
unfolding header_refusal is_http_token
refusal-IsHeaderSafe c h = ground (arith, all_token_chars-not_control c.token_type)

-- A credential that the identity accepts is returned as it is; its access token is not empty, has no
-- space around it and no control character, and its token type is not empty and has no control
-- character, so that neither can add a line to the request's headers.
pub check-IsHeaderSafe :
    (c d : Credential) (i j : Identity) → check c i ≡ (ok d, j) → (d ≡ c) × IsHeaderSafe c
unfolding refusal
check-IsHeaderSafe c d i j h =
    let (same, clear, _) = check-accepts c d i j h in (same, refusal-IsHeaderSafe c (ground arith))
