-- ===== src/Platform/SessionCookie/RoundTrip.antt =====
-- What is read back of a cookie that was set.
use mathlib.Core.List.{append_assoc}
use taymex.Prelude.{
  ℕ, ◌≡◌, refl, sym, Text, codes, Option, none, some, Bool, true, false, not, List, [], ◌∷◌, ◌++◌,
  all, ◌==◌, trim, is_space, trim_start, arith, All, ap, ◌∙◌, text_eq_refl, ltb, if◌then◌else◌,
}
use taymex.Foundation.Errors.{type_error, range_error, ok, err, Number, safe_from}
use taymex.Foundation.Decimal.{split_on, print}
use taymex.Foundation.Validation.Trim.{trim_of_no_space}
use taymex.Platform.SessionCookie.{
  session_cookie_name, single, secret_unit, is_secret, cut, read_parts, read_session_cookie,
  is_readable, create_session_cookie,
}

split_on-append :
    (sep : ℕ) (s rest : Text)
    → all (λ c. not (c == sep)) s ≡ true
    → split_on sep (s ++ sep ∷ rest) ≡ s ∷ split_on sep rest
unfolding split_on
split_on-append sep [] rest h = ground arith
split_on-append sep (c ∷ s) rest h =
    let ih = split_on-append sep s rest (ground arith) in
    let differ : (c == sep) ≡ false = ground arith in rw (differ, ih)

no_semicolon : (s : Text) → all secret_unit s ≡ true → all (λ c. not (c == b';')) s ≡ true
no_semicolon [] h = refl
no_semicolon (c ∷ s) h = let ih = no_semicolon s (ground arith) in ground (arith, ih)

no_space : (s : Text) → all secret_unit s ≡ true → All (λ c. is_space c ≡ false) s
unfolding is_space
no_space [] h = tt
no_space (c ∷ s) h = (ground arith, no_space s (ground arith))

secret-units : (s : Text) → is_secret s ≡ true → all secret_unit s ≡ true
unfolding is_secret
secret-units s h = ground arith

abbrev pair : Text → Text
pair secret = session_cookie_name ++ b'=' ∷ secret

cut-pair : (secret : Text) → cut (pair secret) ≡ some (session_cookie_name, secret)
unfolding cut
cut-pair secret = refl

pair_units :
    (secret : Text)
    → all secret_unit secret ≡ true
    → all (λ c. not (c == b';')) (pair secret) ≡ true
pair_units secret h = no_semicolon secret h

trim_name : trim session_cookie_name ≡ session_cookie_name
unfolding trim trim_start is_space
trim_name = refl

read_parts-pair :
    (secret : Text) (parts : List Text)
    → is_secret secret ≡ true
    → read_parts (pair secret ∷ parts) ≡ some secret
unfolding read_parts cut
read_parts-pair secret parts h = rw (
  trim_name,
  text_eq_refl session_cookie_name,
  trim_of_no_space secret (no_space secret (secret-units secret h)),
  h,
)

-- What a browser sends back of a cookie that was set: its name and value, without the attributes.
abbrev pub name_value : Text → Text
name_value [] = []
name_value (c ∷ s) = let rest = name_value s in if c == b';' then [] else c ∷ rest

name_value-append :
    (s rest : Text) → all (λ c. not (c == b';')) s ≡ true → name_value (s ++ b';' ∷ rest) ≡ s
name_value-append [] rest h = refl
name_value-append (c ∷ s) rest h =
    let ih = name_value-append s rest (ground arith) in
    let differ : (c == b';') ≡ false = ground arith in rw differ (ap (λ t. c ∷ t) ih)

attributes_behind :
    (start age end : Text)
    → start ++ codes "; Path=/; Max-Age=" ++ age ++ end
      ≡ start ++ b';' ∷ (codes " Path=/; Max-Age=" ++ age ++ end)
attributes_behind start age end =
    ap (λ t. t ++ end) (append_assoc start (codes "; Path=/; Max-Age=") age)
    ∙ append_assoc start (codes "; Path=/; Max-Age=" ++ age) end

created :
    (secret : Text) (max_age_seconds : Number) (cookie : Text)
    → create_session_cookie secret max_age_seconds ≡ ok cookie
    → (is_secret secret ≡ true) × (attributes : Text) × (cookie ≡ pair secret ++ b';' ∷ attributes)
unfolding create_session_cookie
created secret max_age_seconds cookie h =
    go (is_secret secret) refl (safe_from 60 max_age_seconds) h
  where
    limited :
        (b : Bool) (age : ℕ)
        → (if b
            then err (range_error "Session cookie max-age is outside the accepted boundary.")
            else ok (
                pair secret
                ++ codes "; Path=/; Max-Age="
                ++ print age
                ++ codes "; HttpOnly; Secure; SameSite=Strict"))
          ≡ ok cookie
        → (attributes : Text) × (cookie ≡ pair secret ++ b';' ∷ attributes)
    limited true age k = cc
    limited false age k = (
      codes " Path=/; Max-Age=" ++ print age ++ codes "; HttpOnly; Secure; SameSite=Strict",
      sym (value k)
          ∙ attributes_behind (pair secret) (print age)
              (codes "; HttpOnly; Secure; SameSite=Strict"),
    )
      where
        value : {a b : Text} → ok a ≡ ok b → a ≡ b
        value e = cc

    go :
        (b : Bool)
        → is_secret secret ≡ b
        → (o : Option ℕ)
        → (if not b then err (type_error "Invalid session cookie secret.") else elim o [
          | none ↦ err (range_error "Session cookie max-age is outside the accepted boundary.")
          | some age ↦
              if ltb 604800 age
              then err (range_error "Session cookie max-age is outside the accepted boundary.")
              else ok (
                  pair secret
                  ++ codes "; Path=/; Max-Age="
                  ++ print age
                  ++ codes "; HttpOnly; Secure; SameSite=Strict")
        ])
          ≡ ok cookie
        → (is_secret secret ≡ true)
          × (attributes : Text) × (cookie ≡ pair secret ++ b';' ∷ attributes)
    go false e o k = cc
    go true e none k = cc
    go true e (some age) k =
        let (attributes, made) = limited (ltb 604800 age) age k in (e, attributes, made)

-- A cookie that is set is read back: where a browser sends the name and the value of a cookie that
-- was created for a secret, with other cookies behind it and within the limit on the header, the
-- secret is read.
pub create-read_session_cookie :
    (secret : Text) (max_age_seconds : Number) (others cookie : Text)
    → create_session_cookie secret max_age_seconds ≡ ok cookie
    → is_readable (name_value cookie ++ b';' ∷ others) ≡ true
    → read_session_cookie (single (name_value cookie ++ b';' ∷ others)) ≡ some secret
unfolding read_session_cookie
create-read_session_cookie secret max_age_seconds others cookie h l =
    let (valid, attributes, made) = created secret max_age_seconds cookie h in
    let units = pair_units secret (secret-units secret valid) in
    let sent : name_value cookie ≡ pair secret =
      ap name_value made ∙ name_value-append (pair secret) attributes units in
    rw l (
      ap (λ t. read_parts (split_on b';' (t ++ b';' ∷ others))) sent
      ∙ ap read_parts (split_on-append b';' (pair secret) others units)
      ∙ read_parts-pair secret (split_on b';' others) valid)
