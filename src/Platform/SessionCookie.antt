-- ===== src/Platform/SessionCookie.antt =====
-- apps/api/src/platform/session-cookie.ts
pub mod RoundTrip
use taymex.Prelude.{
  ℕ, ◌*◌, Text, codes, Option, none, some, Bool, true, false, ◌&&◌, ◌||◌, not, List, [], ◌∷◌, ◌++◌,
  all, length, ltb, leb, ◌==◌, trim, text_eq, if◌then◌else◌,
}
use taymex.Foundation.Errors.{type_error, range_error, Result, ok, err, Number, safe_from}
use taymex.Foundation.Decimal.{split_on, print}

-- SESSION_COOKIE_NAME
abbrev pub session_cookie_name : Text
session_cookie_name = codes "__Host-taymex_session"

-- the header as the server gives it
pub data Header : Type 0 where
  missing : Header
  single : Text → Header
  several : List Text → Header

abbrev pub join : List Text → Text
join [] = []
join (s ∷ []) = s
join (s ∷ t ∷ ss) = s ++ b';' ∷ join (t ∷ ss)

abbrev pub secret_unit : ℕ → Bool
secret_unit c =
    (leb b'A' c && leb c b'Z')
    || (leb b'a' c && leb c b'z')
    || (leb b'0' c && leb c b'9')
    || c == b'_'
    || c == b'-'

-- /^[A-Za-z0-9_-]{32,512}$/
unfoldable pub is_secret : Text → Bool
is_secret s = all secret_unit s && leb 32 (length s) && leb (length s) 512

-- the text before the first equals sign and the text behind it
abbrev pub before_cut : ℕ → Option (Text × Text) → Option (Text × Text)
before_cut c none = none
before_cut c (some (name, value)) = some (c ∷ name, value)

unfoldable pub cut : Text → Option (Text × Text)
cut [] = none
cut (c ∷ s) = let rest = cut s in if c == b'=' then some ([], s) else before_cut c rest

abbrev checked_value : Text → Option Text
checked_value value = if is_secret value then some value else none

-- the loop over the parts of the header
unfoldable pub read_parts : List Text → Option Text
read_parts [] = none
read_parts (part ∷ parts) =
    let rest = read_parts parts in
    elim (cut part) [
      | none ↦ rest
      | some (name, value) ↦ elim name [
        | [] ↦ rest
        | c ∷ s ↦
            if text_eq (trim (c ∷ s)) session_cookie_name then checked_value (trim value) else rest
      ]
    ]

abbrev pub is_readable : Text → Bool
is_readable source = not (length source == 0) && leb (length source) 8192

abbrev read_source : Text → Option Text
read_source source = if is_readable source then read_parts (split_on b';' source) else none

unfoldable pub read_session_cookie : Header → Option Text
read_session_cookie missing = none
read_session_cookie (single source) = read_source source
read_session_cookie (several sources) = read_source (join sources)

unfoldable pub create_session_cookie : Text → Number → Result Text
create_session_cookie secret max_age_seconds =
    if not (is_secret secret)
    then err (type_error "Invalid session cookie secret.")
    else elim (safe_from 60 max_age_seconds) [
      | none ↦ err (range_error "Session cookie max-age is outside the accepted boundary.")
      | some age ↦
          if ltb 604800 age
          then err (range_error "Session cookie max-age is outside the accepted boundary.")
          else ok (
              session_cookie_name
              ++ b'=' ∷ secret
              ++ codes "; Path=/; Max-Age="
              ++ print age
              ++ codes "; HttpOnly; Secure; SameSite=Strict")
    ]

unfoldable pub clear_session_cookie : Text
clear_session_cookie =
    session_cookie_name ++ codes "=; Path=/; Max-Age=0; HttpOnly; Secure; SameSite=Strict"
